-- ===== src/Lockout.antt =====
-- utils/lockout.ts, utils/lockoutlua.ts and utils/lockout.lua: a method that is locked after too many
-- failures. `trim` of JavaScript is a parameter. The script is taken to run whether or not the server
-- has cached it: the code loads it again where it has not.
mod Script
pub mod Guard
pub mod Attempts
pub mod Threshold
use bukia_hft.Base.{
  ℕ, zero, suc, ◌==◌, leb, String, Bool, true, false, ◌||◌, Option, none, some, str_eq,
  if◌then◌else◌,
}
use bukia_hft.Base.Int.{ℤ, pos, ltb_ℤ}
use Prim.Native.String.{◌++◌}
use bukia_hft.Tx.{Error, plain, rate_limit, Result, ok, err}
use bukia_hft.Redis.{Redis, Session}

-- `LockoutOptions`. `failurePredicate` is asked of what a call returned or threw.
pub record LockoutOptions (A : Type 0) : Type 0 where
  pub failure_predicate : Option (Result A → Bool)
  pub lock_seconds : Option ℕ
  pub method_name : Option String
  pub redis_key_prefix : Option String
  pub service_name : String
  pub threshold : Option ℕ
  pub window_seconds : Option ℕ

pub record LockoutConfig (A : Type 0) : Type 0 where
  pub failure_predicate : Option (Result A → Bool)
  pub lock_seconds : ℕ
  pub method_name : Option String
  pub redis_key_prefix : String
  pub service_name : String
  pub threshold : ℕ
  pub window_seconds : ℕ

-- `??`
abbrev pub or_default : {B : Type 0} → Option B → B → B
or_default none d = d
or_default (some x) d = x

-- The checks of the options, and `DEFAULTS`.
unfoldable pub base_config : {A : Type 0} → LockoutOptions A → Result (LockoutConfig A)
base_config opts =
    if str_eq opts.service_name ""
    then err (plain "lockout: serviceName is required")
    else ok (record {
      failure_predicate = opts.failure_predicate;
      lock_seconds = or_default opts.lock_seconds 900;
      method_name = opts.method_name;
      redis_key_prefix = or_default opts.redis_key_prefix "lockout";
      service_name = opts.service_name;
      threshold = or_default opts.threshold 5;
      window_seconds = or_default opts.window_seconds 300;
    })

-- Whether an outcome counts as a failure: in `catch` every error does where there is no predicate.
unfoldable pub counts : {A : Type 0} → Option (Result A → Bool) → Result A → Bool
counts none (ok a) = false
counts none (err e) = true
counts (some p) o = p o

module _ {A : Type 0} (config : LockoutConfig A) (method : String) (identifier : String) where
  abbrev pub key_of : String → String
  key_of kind =
      config.redis_key_prefix
      ++ kind
      ++ config.service_name
      ++ ":"
      ++ or_default config.method_name method
      ++ ":"
      ++ identifier

  abbrev pub lock_key : String
  lock_key = key_of ":lock:"

  abbrev pub fail_key : String
  fail_key = key_of ":fails:"

abbrev pub too_many : ℤ → Error
too_many seconds = rate_limit "Too many attempts, locked" seconds

-- The script: its status, 0, 1 or 2, with the failures or the seconds of the lock.
module _ (r : Redis) where
  unfoldable pub run_lua_script : String → String → ℕ → ℕ → ℕ → r.Store → (ℕ × ℤ) × r.Store
  run_lua_script fail_key lock_key threshold window lock_seconds s =
      if ltb_ℤ (pos 0) (r.ttl lock_key s)
      then ((1, r.ttl lock_key s), s)
      else (let (fails, s1) = r.incr fail_key s in
          let s2 = if fails == 1 then r.expire fail_key window s1 else s1 in
          if leb threshold fails
          then elim (r.set_nx lock_key "1" lock_seconds s2) [
            | some s3 ↦ ((2, pos lock_seconds), s3)
            | none ↦ ((1, r.ttl lock_key s2), s2)
          ]
          else ((0, pos fails), s2))

  module _ {A : Type 0} (config : LockoutConfig A) (fail_key lock_key : String) where
    -- The script, and the error that it calls for.
    unfoldable pub count_failure : Result A → Session r → Result A × Session r
    count_failure outcome s =
        let ((status, value), store) =
          run_lua_script fail_key lock_key config.threshold config.window_seconds
            config.lock_seconds s.store in
        let s' : Session r = record s { store = store } in
        if status == 1 || status == 2 then (err (too_many value), s') else (outcome, s')

    -- The `catch`.
    unfoldable pub settle_error : Error → Session r → Result A × Session r
    unfolding count_failure counts
    settle_error e s =
        if counts config.failure_predicate (err e) then count_failure (err e) s else (err e, s)

    abbrev pub caught : Result A × Session r → Result A × Session r
    caught (ok a, s) = (ok a, s)
    caught (err e, s) = settle_error e s

    -- The rest of the `try`, when the method has returned.
    unfoldable pub settle_result : A → Session r → Result A × Session r
    unfolding count_failure counts
    settle_result a s =
        if counts config.failure_predicate (ok a)
        then count_failure (ok a) s
        else (ok a, record s { store = r.del fail_key s.store })

    unfoldable pub settle : Result A × Session r → Result A × Session r
    unfolding settle_result settle_error
    settle (ok a, s) = caught (settle_result a s)
    settle (err e, s) = settle_error e s

    -- The method, unless it is locked.
    unfoldable pub guarded : (Session r → Result A × Session r) → Session r → Result A × Session r
    unfolding settle
    guarded original s =
        if ltb_ℤ (pos 0) (r.ttl lock_key s.store)
        then (err (too_many (r.ttl lock_key s.store)), s)
        else settle (original s)

  -- The decorated method.
  unfoldable pub lockout :
      {A : Type 0}
      → LockoutConfig A
      → (method : String) → (trim : String → String) → (id_raw : String)
      → (Session r → Result A × Session r)
      → Session r
      → Result A × Session r
  unfolding guarded
  lockout config method trim id_raw original s =
      let identifier = trim id_raw in
      if str_eq identifier ""
      then (
        err (
            plain (
              "lockout: identifier resolved to empty string for service=\""
              ++ config.service_name
              ++ "\" method=\""
              ++ or_default config.method_name method
              ++ "\"")),
        s,
      )
      else guarded config (fail_key config method identifier) (lock_key config method identifier)
          original s
