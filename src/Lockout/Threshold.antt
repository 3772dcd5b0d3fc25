-- ===== src/Lockout/Threshold.antt =====
-- Attempts on a locked method (utils/lockout.ts), one after another within a window.
use bukia_hft.Base.{
  ◌≡◌, ◌≢◌, ap, ◌∙◌, ℕ, suc, ◌<◌, ◌+◌, leb, length, ⊤, String, true, false, List, [], ◌∷◌, arith,
  if◌then◌else◌, inl,
}
use bukia_hft.Base.Int.{pos}
use bukia_hft.Tx.{Result, ok, err}
use bukia_hft.Redis.{Redis, Session}
use bukia_hft.Redis.Laws.{RedisLaws, absent}
use bukia_hft.Lockout.{LockoutConfig, counts, lock_key, fail_key, too_many, lockout}
use bukia_hft.Lockout.Guard.{
  Guard, open_after, locked_for, guard_step, run_if_open, guard_at, EndsLock, LeavesKeys,
}
use bukia_hft.Lockout.Attempts.{keys_apart, lockout-Follows}

-- The guard after so many failures.
abbrev pub reached : {A : Type 0} → LockoutConfig A → ℕ → Guard
reached config n =
    if leb config.threshold n then locked_for (pos config.lock_seconds) else open_after n

-- A failure leads from each of these guards to the next.
reached-step :
    {A : Type 0} (config : LockoutConfig A) (n : ℕ) (o : Result A)
    → counts config.failure_predicate o ≡ true
    → (guard_step config (reached config n) o).1 ≡ reached config (suc n)
unfolding guard_step
reached-step config n o fails = ground (arith, fails)

-- What a guard that so many failures have led to answers, and lets through, when the next call is
-- not a failure.
answer-uncounted :
    {A : Type 0} (config : LockoutConfig A) (n : ℕ) (o : Result A)
    → counts config.failure_predicate o ≡ false
    → (guard_step config (reached config n) o).0
      ≡ (if leb config.threshold n then err (too_many (pos config.lock_seconds)) else o)
unfolding guard_step
answer-uncounted config n (ok a) h = ground (arith, h)
answer-uncounted config n (err e) h = ground (arith, h)

run_if_open-reached :
    {A S B : Type 0} (config : LockoutConfig A) (n : ℕ) (f : S → B) (before after : S)
    → f (run_if_open (reached config n) before after)
      ≡ (if leb config.threshold n then f before else f after)
run_if_open-reached config n f before after = ground arith

module _ (r : Redis) (laws : RedisLaws r) {A : Type 0} (config : LockoutConfig A) (method : String)
    (trim : String → String) (id_raw : String) (named : trim id_raw ≢ "")
    (has_window : 0 < config.window_seconds) (has_lock : 0 < config.lock_seconds) where
  abbrev Method : Type 0
  Method = Session r → Result A × Session r

  abbrev fail : String
  fail = fail_key config method (trim id_raw)

  abbrev lock : String
  lock = lock_key config method (trim id_raw)

  abbrev Leaves : Method → Type 0
  Leaves =
      LeavesKeys r laws config fail lock (keys_apart config method (trim id_raw)) has_window
        has_lock

  abbrev Ends : r.Store → Type 0
  Ends =
      EndsLock r laws config fail lock (keys_apart config method (trim id_raw)) has_window has_lock

  abbrev held : r.Store → Guard
  held =
      guard_at r laws config fail lock (keys_apart config method (trim id_raw)) has_window has_lock

  -- Each of the calls fails, whatever it finds.
  abbrev pub AllFail : List Method → Type 0
  AllFail [] = ⊤
  AllFail (o ∷ os) =
      Leaves o × ((s : Session r) → counts config.failure_predicate (o s).0 ≡ true) × AllFail os

  -- The session after a sequence of calls.
  abbrev pub after_attempts : List Method → Session r → Session r
  after_attempts [] s = s
  after_attempts (o ∷ os) s = after_attempts os (lockout r config method trim id_raw o s).1

  guard-after_attempts :
      (os : List Method) (n : ℕ) (s : Session r)
      → AllFail os
      → Ends s.store
      → held s.store ≡ reached config n
      → (held (after_attempts os s).store ≡ reached config (length os + n))
        × Ends (after_attempts os s).store
  guard-after_attempts [] n s all ends at = (at ∙ ap (reached config) (omega arith), ends)
  guard-after_attempts (o ∷ os) n s (leaves, fails, all) ends at =
      let f =
        lockout-Follows r laws config method trim id_raw named has_window has_lock o s leaves
          ends in
      let next : held (lockout r config method trim id_raw o s).1.store ≡ reached config (suc n) =
        f.guard
        ∙ ap (λ g. (guard_step config g (o s).0).1) at
        ∙ reached-step config n (o s).0 (fails s) in
      let (same, ends') =
        guard-after_attempts os (suc n) (lockout r config method trim id_raw o s).1 all f.ends
          next in
      (same ∙ ap (reached config) (omega arith), ends')

  -- Let the identifier be not empty, the window, the time of the lock and the threshold be not 0, the
  -- key be neither locked nor counted at first, and let a sequence of calls fail, all of them within
  -- the window. Then a call that would not fail is answered with the error of the lock, and does not
  -- reach the database, exactly if the sequence has as many calls as the threshold or more; else its
  -- own outcome is answered.
  pub locks_at_threshold :
      (os : List Method) (next : Method) (s : Session r)
      → 0 < config.threshold
      → AllFail os
      → Leaves next
      → r.ttl lock s.store ≡ absent
      → laws.counter fail s.store ≡ 0
      → counts config.failure_predicate (next (after_attempts os s)).0 ≡ false
      → let s' = after_attempts os s in
        let q = lockout r config method trim id_raw next s' in
        let full = leb config.threshold (length os) in
        (q.0 ≡ (if full then err (too_many (pos config.lock_seconds)) else (next s').0))
        × (q.1.db ≡ (if full then s'.db else (next s').1.db))
  locks_at_threshold os next s more all leaves free none fine =
      let start : held s.store ≡ reached config 0 = rw (free, none) (ground (arith, more)) in
      let (at, ends) = guard-after_attempts os 0 s all (inl free) start in
      let s' = after_attempts os s in
      let f =
        lockout-Follows r laws config method trim id_raw named has_window has_lock next s' leaves
          ends in
      let at' : held s'.store ≡ reached config (length os) =
        at ∙ ap (reached config) (omega arith) in
      (
        f.answer
            ∙ ap (λ g. (guard_step config g (next s').0).0) at'
            ∙ answer-uncounted config (length os) (next s').0 fine,
        f.db
            ∙ ap (λ g. (run_if_open g s' (next s').1).db) at'
            ∙ run_if_open-reached config (length os) (λ (q : Session r). q.db) s' (next s').1,
      )
