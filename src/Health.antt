-- ===== src/Health.antt =====
-- services/healthcheck.services.ts with the checks of services/redis.services.ts and
-- providers/aws-ses.provider.ts, and controllers/healthcheck.controller.ts. What the servers answer is a
-- parameter.
use bukia_hft.Base.{⊤, ℕ, String, Bool, true, false, ◌&&◌, List, [], ◌∷◌, str_eq, if◌then◌else◌}
use bukia_hft.Tx.{Result, ok, err}

pub record ServiceHealthStatus : Type 0 where
  pub healthy : Bool
  pub service : String

-- The answer to PING.
abbrev pub redis_health : Result String → Bool
redis_health (ok res) = str_eq res "PONG"
redis_health (err e) = false

-- Whether an e-mail could be sent, and a SELECT be run.
abbrev pub has_answered : Result ⊤ → Bool
has_answered (ok t) = true
has_answered (err e) = false

-- `registered`: the checks with their outcomes.
abbrev pub registered : Result String → Result ⊤ → Result ⊤ → List (String × Result Bool)
registered ping email select =
    ("redis", ok (redis_health ping))
    ∷ ("email", ok (has_answered email))
    ∷ ("postgres", ok (has_answered select))
    ∷ []

abbrev pub status_of : String → Result Bool → ServiceHealthStatus
status_of name (ok healthy) = record { healthy = healthy; service = name }
status_of name (err e) = record { healthy = false; service = name }

unfoldable pub health_check : List (String × Result Bool) → List ServiceHealthStatus
health_check [] = []
health_check ((name, outcome) ∷ checks) = status_of name outcome ∷ health_check checks

-- The controller's status.
abbrev pub all_healthy : List ServiceHealthStatus → Bool
all_healthy [] = true
all_healthy (s ∷ ss) = s.healthy && all_healthy ss

unfoldable pub health_status : List ServiceHealthStatus → ℕ
health_status results = if all_healthy results then 200 else 503
