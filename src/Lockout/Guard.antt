-- ===== src/Lockout/Guard.antt =====
-- The guard of a locked method as an automaton, and the decorator (utils/lockout.ts) against it.
use bukia_hft.Base.{
  ◌≡◌, ◌≢◌, refl, ◌∙◌, ℕ, suc, ◌<◌, ◌⊎◌, inl, inr, leb, String, true, arith, Bool-cases,
  if◌then◌else◌,
}
use bukia_hft.Base.Int.{ℤ, pos, ltb_ℤ}
use bukia_hft.Tx.{Error, Result, ok, err}
use bukia_hft.Redis.{Redis, Session}
use bukia_hft.Redis.Laws.{RedisLaws, absent}
use bukia_hft.Lockout.{
  LockoutConfig, counts, too_many, count_failure, settle_error, settle_result, settle, guarded,
  caught,
}
use bukia_hft.Lockout.Script.{script_locks, script_counts, script_stays}

-- So many failures are counted, or so many seconds are left of the lock.
pub data Guard : Type 0 where
  open_after : ℕ → Guard
  locked_for : ℤ → Guard

-- What a guard answers when its method, if it is run, returns or throws `o`, and the guard afterwards.
abbrev pub counted_step : {A : Type 0} → LockoutConfig A → ℕ → Result A → Result A × Guard
counted_step config n o =
    if leb config.threshold (suc n)
    then (err (too_many (pos config.lock_seconds)), locked_for (pos config.lock_seconds))
    else (o, open_after (suc n))

abbrev pub uncounted_step : {A : Type 0} → ℕ → Result A → Result A × Guard
uncounted_step n (ok a) = (ok a, open_after 0)
uncounted_step n (err e) = (err e, open_after n)

unfoldable pub guard_step : {A : Type 0} → LockoutConfig A → Guard → Result A → Result A × Guard
guard_step config (locked_for t) o = (err (too_many t), locked_for t)
guard_step config (open_after n) o =
    if counts config.failure_predicate o then counted_step config n o else uncounted_step n o

-- The guard that the server holds.
abbrev pub guard_of : ℤ → ℕ → Guard
guard_of ttl fails = if ltb_ℤ (pos 0) ttl then locked_for ttl else open_after fails

-- The session that a call leaves beside the store: a locked method has not run.
abbrev pub run_if_open : {S : Type 0} → Guard → S → S → S
run_if_open (locked_for t) before after = before
run_if_open (open_after n) before after = after

module _ (r : Redis) (laws : RedisLaws r) {A : Type 0} (config : LockoutConfig A)
    (fail_key lock_key : String) (apart : lock_key ≢ fail_key)
    (has_window : 0 < config.window_seconds) (has_lock : 0 < config.lock_seconds) where
  open laws use {counter, counter-del, ttl-del_other}

  abbrev pub guard_at : r.Store → Guard
  guard_at s = guard_of (r.ttl lock_key s) (counter fail_key s)

  -- No lock stays without an end.
  abbrev pub EndsLock : r.Store → Type 0
  EndsLock s = (r.ttl lock_key s ≡ absent) ⊎ (ltb_ℤ (pos 0) (r.ttl lock_key s) ≡ true)

  -- A call answers and leaves a guard as the automaton does, and leaves the rest as `after` has it.
  pub record Follows (q : Result A × Session r) (step : Result A × Guard) (after : Session r)
      : Type 0 where
    pub answer : q.0 ≡ step.0
    pub guard : guard_at q.1.store ≡ step.1
    pub ends : EndsLock q.1.store
    pub db : q.1.db ≡ after.db
    pub outbox : q.1.outbox ≡ after.outbox

  -- A store whose key is locked for some seconds, and one whose key is not locked.
  is_locked :
      (s : Session r) (t : ℕ) (e : Error)
      → 0 < t
      → r.ttl lock_key s.store ≡ pos t
      → Follows (err e, s) (err e, locked_for (pos t)) s
  is_locked s t e more set = record {
    answer = refl;
    guard = rw set (ground arith);
    ends = inr (rw set (ground arith));
    db = refl;
    outbox = refl;
  }

  is_open :
      (s : Session r) (n : ℕ) (o : Result A)
      → r.ttl lock_key s.store ≡ absent
      → counter fail_key s.store ≡ n
      → Follows (o, s) (o, open_after n) s
  is_open s n o free count = record {
    answer = refl;
    guard = rw (free, count) refl;
    ends = inl free;
    db = refl;
    outbox = refl;
  }

  count_failure-Follows :
      (o : Result A) (s : Session r)
      → r.ttl lock_key s.store ≡ absent
      → Follows
          (count_failure r config fail_key lock_key o s)
          (counted_step config (counter fail_key s.store) o)
          s
  unfolding count_failure
  count_failure-Follows o s free =
      let n = counter fail_key s.store in
      elim (Bool-cases (leb config.threshold (suc n))) [
        | inl full ↦
            let (s', ran, set) =
              script_locks r laws fail_key lock_key config.threshold config.window_seconds
                config.lock_seconds apart has_window has_lock s.store free full in
            let f =
              is_locked (record s { store = s' }) config.lock_seconds
                (too_many (pos config.lock_seconds)) has_lock set in
            rw (ran, full)
              (record { answer = refl; guard = f.guard; ends = f.ends; db = refl; outbox = refl })
        | inr below ↦
            let (s', ran, same, more) =
              script_counts r laws fail_key lock_key config.threshold config.window_seconds
                config.lock_seconds apart has_window has_lock s.store free below in
            let f = is_open (record s { store = s' }) (suc n) o same more in
            rw (ran, below)
              (record { answer = refl; guard = f.guard; ends = f.ends; db = refl; outbox = refl })
      ]

  -- The error of a lock that has just been set is not changed by `catch`.
  caught_lock :
      (s : Session r) (t : ℕ)
      → 0 < t
      → r.ttl lock_key s.store ≡ pos t
      → caught r config fail_key lock_key (err (too_many (pos t)), s) ≡ (err (too_many (pos t)), s)
  unfolding settle_error count_failure
  caught_lock s t more set =
      let stays =
        script_stays r laws fail_key lock_key config.threshold config.window_seconds
          config.lock_seconds apart has_window has_lock s.store (rw set (ground arith)) in
      elim (Bool-cases (counts {A = A} config.failure_predicate (err (too_many (pos t))))) [
        | inl again ↦ rw (again, stays, set) refl
        | inr ignored ↦ rw ignored refl
      ]

  caught-count_failure :
      (a : A) (s : Session r)
      → r.ttl lock_key s.store ≡ absent
      → caught r config fail_key lock_key (count_failure r config fail_key lock_key (ok a) s)
        ≡ count_failure r config fail_key lock_key (ok a) s
  unfolding count_failure
  caught-count_failure a s free =
      elim (Bool-cases (leb config.threshold (suc (counter fail_key s.store)))) [
        | inl full ↦
            let (s', ran, set) =
              script_locks r laws fail_key lock_key config.threshold config.window_seconds
                config.lock_seconds apart has_window has_lock s.store free full in
            rw (ran, caught_lock (record s { store = s' }) config.lock_seconds has_lock set) refl
        | inr below ↦
            let (s', ran, same, more) =
              script_counts r laws fail_key lock_key config.threshold config.window_seconds
                config.lock_seconds apart has_window has_lock s.store free below in
            rw ran refl
      ]

  settle-Follows :
      (o : Result A) (s : Session r)
      → r.ttl lock_key s.store ≡ absent
      → Follows
          (settle r config fail_key lock_key (o, s))
          (guard_step config (open_after (counter fail_key s.store)) o)
          s
  unfolding settle settle_error settle_result guard_step
  settle-Follows (err e) s free =
      elim (Bool-cases (counts {A = A} config.failure_predicate (err e))) [
        | inl yes_counted ↦ rw yes_counted (count_failure-Follows (err e) s free)
        | inr ignored ↦ rw ignored (is_open s (counter fail_key s.store) (err e) free refl)
      ]
  settle-Follows (ok a) s free =
      elim (Bool-cases (counts {A = A} config.failure_predicate (ok a))) [
        | inl yes_counted ↦
            rw (yes_counted, caught-count_failure a s free) (count_failure-Follows (ok a) s free)
        | inr ignored ↦
            let s' : Session r = record s { store = r.del fail_key s.store } in
            let f =
              is_open s' 0 (ok a) (ttl-del_other lock_key fail_key s.store apart ∙ free)
                (counter-del fail_key s.store) in
            rw ignored
              (record { answer = refl; guard = f.guard; ends = f.ends; db = refl; outbox = refl })
      ]

  -- A method that leaves the two keys alone.
  abbrev pub LeavesKeys : (Session r → Result A × Session r) → Type 0
  LeavesKeys original =
      (s : Session r)
      → (r.ttl lock_key (original s).1.store ≡ r.ttl lock_key s.store)
        × (counter fail_key (original s).1.store ≡ counter fail_key s.store)

  pub guarded-Follows :
      (original : Session r → Result A × Session r) (s : Session r)
      → LeavesKeys original
      → EndsLock s.store
      → Follows
          (guarded r config fail_key lock_key original s)
          (guard_step config (guard_at s.store) (original s).0)
          (run_if_open (guard_at s.store) s (original s).1)
  unfolding guarded guard_step
  guarded-Follows original s leaves (inl free) =
      let (ttl, count) = leaves s in
      let f = settle-Follows (original s).0 (original s).1 (ttl ∙ free) in rw free (rw count at f)
  guarded-Follows original s leaves (inr set) =
      rw set
        (record { answer = refl; guard = rw set refl; ends = inr set; db = refl; outbox = refl })
