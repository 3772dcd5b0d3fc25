-- ===== src/Lockout/Attempts.antt =====
-- The decorated method (utils/lockout.ts), once and many times.
use bukia_hft.Base.{◌≡◌, ◌≢◌, ap, ◌<◌, String, arith, Bool-cases, inl, inr, str_eq, eq_iff}
use Prim.Native.Char.{Char, code}
use Prim.Native.String
use text.Mathlib.TextLemmas.{append_cancel_left, cons-append}
use bukia_hft.Tx.{Result}
use bukia_hft.Redis.{Redis, Session}
use bukia_hft.Redis.Laws.{RedisLaws}
use bukia_hft.Lockout.{LockoutConfig, lock_key, fail_key, lockout}
use bukia_hft.Lockout.Guard.{
  guard_step, run_if_open, guard_at, EndsLock, Follows, LeavesKeys, guarded-Follows,
}

kinds_apart : (s t : String) → String.◌++◌ ":lock:" s ≢ String.◌++◌ ":fails:" t
kinds_apart s t e =
    let second : ◌≡◌ {A = Char} "l" "f" = cc (
      e,
      cons-append ":" "lock:" s,
      cons-append ":" "fails:" t,
      cons-append "l" "ock:" s,
      cons-append "f" "ails:" t,
    ) in
    absurd (omega (arith, ap code second))

-- The two keys of an identifier differ.
pub keys_apart :
    {A : Type 0} (config : LockoutConfig A) (method identifier : String)
    → lock_key config method identifier ≢ fail_key config method identifier
keys_apart config method identifier e =
    kinds_apart _ _ (append_cancel_left config.redis_key_prefix _ _ e)

module _ (r : Redis) (laws : RedisLaws r) {A : Type 0} (config : LockoutConfig A) (method : String)
    (trim : String → String) (id_raw : String) (named : trim id_raw ≢ "")
    (has_window : 0 < config.window_seconds) (has_lock : 0 < config.lock_seconds) where
  abbrev fail : String
  fail = fail_key config method (trim id_raw)

  abbrev lock : String
  lock = lock_key config method (trim id_raw)

  abbrev apart : lock ≢ fail
  apart = keys_apart config method (trim id_raw)

  -- Let the identifier be not empty, the window and the time of the lock be not 0, the method leave
  -- both keys as they are, and the lock have an end. Then the decorated method answers as the guard
  -- does for the outcome of the method, leaves the guard in the state that follows, and leaves the
  -- database and the e-mails as the method does, or as they were if the guard was locked.
  pub lockout-Follows :
      (original : Session r → Result A × Session r) (s : Session r)
      → LeavesKeys r laws config fail lock apart has_window has_lock original
      → EndsLock r laws config fail lock apart has_window has_lock s.store
      → let g = guard_at r laws config fail lock apart has_window has_lock s.store in
        Follows r laws config fail lock apart has_window has_lock
          (lockout r config method trim id_raw original s)
          (guard_step config g (original s).0)
          (run_if_open g s (original s).1)
  unfolding lockout
  lockout-Follows original s leaves ends = elim (Bool-cases (str_eq (trim id_raw) "")) [
    | inl blank ↦ absurd (named ((eq_iff (trim id_raw) "").0 blank))
    | inr fine ↦
        rw fine
          (guarded-Follows r laws config fail lock apart has_window has_lock original s leaves ends)
  ]
