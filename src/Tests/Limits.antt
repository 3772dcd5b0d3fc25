-- ===== src/Tests/Limits.antt =====
-- The theorems on locked and limited methods at concrete inputs.
use bukia_hft.Base.{◌≡◌, ◌≢◌, refl, ⊤, ◌<◌, String, true, false, none, some, [], ◌∷◌, arith, inl}
use bukia_hft.Base.Int.{ℤ, pos}
use text.Mathlib.TextLemmas.{cons≢nil}
use bukia_hft.Tx.{plain, rate_limit, Result, ok, err}
use bukia_hft.Redis.{Session}
use bukia_hft.Redis.Memory.{memory, empty, memory-RedisLaws, counter-empty}
use bukia_hft.Lockout.{LockoutConfig, lock_key, fail_key, too_many, lockout, counts}
use bukia_hft.Lockout.Guard.{guard_step, run_if_open, guard_at, Follows}
use bukia_hft.Lockout.Attempts.{keys_apart, lockout-Follows}
use bukia_hft.Lockout.Threshold.{after_attempts, locks_at_threshold}
use bukia_hft.RateLimit.{RateLimitOptions, redis_key, retry_after, rate_limit_by_key}
use bukia_hft.RateLimit.Quota.{let_in, after_calls, calls_are_limited}
use bukia_hft.Example.{db}

abbrev config : LockoutConfig ⊤
config = record {
  failure_predicate = none;
  lock_seconds = 900;
  method_name = none;
  redis_key_prefix = "lockout";
  service_name = "auth";
  threshold = 2;
  window_seconds = 60;
}

abbrev start : Session memory
start = record { db = db; store = empty; outbox = [] }

abbrev failing : Session memory → Result ⊤ × Session memory
failing s = (err (plain "no"), s)

abbrev passing : Session memory → Result ⊤ × Session memory
passing s = (ok tt, s)

abbrev same_text : String → String
same_text t = t

named : same_text "ada" ≢ ""
named e = cons≢nil e

has_window : 0 < config.window_seconds
has_window = omega arith

has_lock : 0 < config.lock_seconds
has_lock = omega arith

lockout-Follows_example :
    let fail = fail_key config "login" "ada" in
    let lock = lock_key config "login" "ada" in
    let apart = keys_apart config "login" "ada" in
    let g = guard_at memory memory-RedisLaws config fail lock apart has_window has_lock empty in
    Follows memory memory-RedisLaws config fail lock apart has_window has_lock
      (lockout memory config "login" same_text "ada" failing start)
      (guard_step config g (err (plain "no")))
      (run_if_open g start start)
lockout-Follows_example =
    lockout-Follows memory memory-RedisLaws config "login" same_text "ada" named has_window has_lock
      failing start (λ s. (refl, refl)) (inl refl)

refusal_counts : counts {A = ⊤} none (err (plain "no")) ≡ true
unfolding counts
refusal_counts = refl

answer_passes : counts {A = ⊤} none (ok tt) ≡ false
unfolding counts
answer_passes = refl

locks_at_threshold_example :
    let s' =
      after_attempts memory memory-RedisLaws config "login" same_text "ada" named has_window
        has_lock
        (failing ∷ failing ∷ [])
        start in
    let q = lockout memory config "login" same_text "ada" passing s' in
    (q.0 ≡ err (too_many (pos 900))) × (q.1.db ≡ s'.db)
locks_at_threshold_example =
    locks_at_threshold memory memory-RedisLaws config "login" same_text "ada" named has_window
      has_lock (failing ∷ failing ∷ []) passing start (omega arith)
      ((λ s. (refl, refl)), (λ s. refusal_counts), ((λ s. (refl, refl)), (λ s. refusal_counts), tt))
      (λ s. (refl, refl)) refl (counter-empty (fail_key config "login" "ada")) answer_passes

abbrev once_a_minute : RateLimitOptions
once_a_minute = record { max = 1; message = some "Too many"; prefix = "rl"; window_sec = 60 }

abbrev no_text : ℤ → String
no_text t = ""

has_minute : 0 < once_a_minute.window_sec
has_minute = omega arith

calls_are_limited_example :
    let s' =
      after_calls memory memory-RedisLaws ⊤ once_a_minute no_text "ada" has_minute
        (passing ∷ [])
        start in
    let q = rate_limit_by_key memory once_a_minute no_text "ada" passing s' in
    let seconds = retry_after memory once_a_minute (
      memory.ttl
        (redis_key once_a_minute "ada")
        (let_in memory memory-RedisLaws ⊤ once_a_minute no_text "ada" has_minute s').store) in
    let rested : Session memory = record s' { store = memory.wait 60 s'.store } in
    (q.0 ≡ err (rate_limit "Too many" seconds))
    × (q.1.db ≡ s'.db)
    × (rate_limit_by_key memory once_a_minute no_text "ada" passing rested
        ≡ passing (let_in memory memory-RedisLaws ⊤ once_a_minute no_text "ada" has_minute rested))
calls_are_limited_example =
    calls_are_limited memory memory-RedisLaws ⊤ once_a_minute no_text "ada" has_minute
      (passing ∷ []) passing start ((λ s. (refl, refl)), tt)
      (counter-empty (redis_key once_a_minute "ada")) (omega arith)
