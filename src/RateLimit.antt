-- ===== src/RateLimit.antt =====
-- `RateLimitByKey` (utils/index.ts): a method of which a key may have so many calls in a window. The
-- text of a number is a parameter.
pub mod Quota
use bukia_hft.Base.{ℕ, ◌==◌, ltb, String, Bool, true, false, Option, none, some, if◌then◌else◌}
use bukia_hft.Base.Int.{ℤ, pos, ltb_ℤ}
use Prim.Native.String.{◌++◌}
use bukia_hft.Tx.{rate_limit, Result, ok, err}
use bukia_hft.Redis.{Redis, Session}

-- `prefix` is "rl" where the options do not give one.
pub record RateLimitOptions : Type 0 where
  pub max : ℕ
  pub message : Option String
  pub prefix : String
  pub window_sec : ℕ

abbrev pub redis_key : RateLimitOptions → String → String
redis_key options key = options.prefix ++ ":" ++ key

abbrev pub refusal : RateLimitOptions → (ℤ → String) → ℤ → String
refusal options show retry_after = elim options.message [
  | some message ↦ message
  | none ↦ "Too many requests. Please try again in " ++ show retry_after ++ " second(s)."
]

module _ (r : Redis) where
  -- The script.
  unfoldable pub count_call : String → ℕ → r.Store → ℕ × r.Store
  count_call redis_key window_sec s =
      let (current, s1) = r.incr redis_key s in
      if current == 1 then (current, r.expire redis_key window_sec s1) else (current, s1)

  abbrev pub retry_after : RateLimitOptions → ℤ → ℤ
  retry_after options ttl = if ltb_ℤ (pos 0) ttl then ttl else pos options.window_sec

  -- The decorated method.
  unfoldable pub rate_limit_by_key :
      {A : Type 0}
      → RateLimitOptions
      → (show : ℤ → String) → (key : String) → (Session r → Result A × Session r)
      → Session r
      → Result A × Session r
  unfolding count_call
  rate_limit_by_key options show key original s =
      let (count, store) = count_call (redis_key options key) options.window_sec s.store in
      let s' : Session r = record s { store = store } in
      if ltb options.max count
      then (let after = retry_after options (r.ttl (redis_key options key) store) in
          (err (rate_limit (refusal options show after) after), s'))
      else original s'
