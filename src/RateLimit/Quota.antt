-- ===== src/RateLimit/Quota.antt =====
-- Calls under a limit (utils/index.ts), within a window and after it.
use bukia_hft.Base.{
  ◌≡◌, refl, sym, ◌∙◌, ℕ, suc, ◌<◌, ◌≤◌, ◌+◌, ltb, length, ⊤, String, true, false, List, [], ◌∷◌,
  arith, if◌then◌else◌, ◌⊎◌, inl, inr, Bool-cases, ◌==◌,
}
use bukia_hft.Base.Int.{ℤ, pos}
use bukia_hft.Tx.{Result, err, rate_limit}
use bukia_hft.Redis.{Redis, Session}
use bukia_hft.Redis.Laws.{RedisLaws}
use bukia_hft.RateLimit.{
  RateLimitOptions, redis_key, refusal, count_call, retry_after, rate_limit_by_key,
}

module _ (r : Redis) (laws : RedisLaws r) (A : Type 0) (options : RateLimitOptions)
    (show : ℤ → String) (key : String) (has_window : 0 < options.window_sec) where
  open laws use {
    counter, incr_value, counter-incr, counter-expire, counter-wait, counter-wait_zero, ttl-incr,
    ttl-expire,
  }

  abbrev Method : Type 0
  Method = Session r → Result A × Session r

  abbrev k : String
  k = redis_key options key

  -- The session in which a call that is let through runs.
  abbrev pub let_in : Session r → Session r
  let_in s = record s { store = (count_call r k options.window_sec s.store).1 }

  -- A counted key ends within the window.
  abbrev pub InWindow : r.Store → Type 0
  InWindow s = (counter k s ≡ 0) ⊎ ((t : ℕ) × (r.ttl k s ≡ pos t) × (t ≤ options.window_sec))

  -- A method that leaves the key alone.
  abbrev pub LeavesKey : Method → Type 0
  LeavesKey o =
      (s : Session r)
      → (counter k (o s).1.store ≡ counter k s.store) × (r.ttl k (o s).1.store ≡ r.ttl k s.store)

  count_call-value : (s : r.Store) → (count_call r k options.window_sec s).0 ≡ suc (counter k s)
  unfolding count_call
  count_call-value s = ground (arith, incr_value k s)

  counter-count_call :
      (s : r.Store) → counter k (count_call r k options.window_sec s).1 ≡ suc (counter k s)
  unfolding count_call
  counter-count_call s =
      ground
        (arith, counter-incr k s, counter-expire k options.window_sec (r.incr k s).1 has_window)

  first-InWindow :
      (s : r.Store) → counter k s ≡ 0 → InWindow (count_call r k options.window_sec s).1
  unfolding count_call
  first-InWindow s start =
      let more : 0 < counter k (r.incr k s).1 = omega (arith, counter-incr k s) in
      let first : (r.incr k s).0 ≡ 1 = rw (incr_value k s, start) refl in
      rw first (
        inr (
          options.window_sec,
          ttl-expire k options.window_sec (r.incr k s).1 has_window more,
          omega arith,
        ))

  count_call-InWindow :
      (s : r.Store) → InWindow s → InWindow (count_call r k options.window_sec s).1
  unfolding count_call
  count_call-InWindow s (inl start) = first-InWindow s start
  count_call-InWindow s (inr (t, left, within)) = elim (Bool-cases (ltb 0 (counter k s))) [
    | inl more ↦
        let later : ((r.incr k s).0 == 1) ≡ false = ground (arith, incr_value k s) in
        rw later (inr (t, ttl-incr k s (ground arith) ∙ left, within))
    | inr nothing ↦ first-InWindow s (ground arith)
  ]

  -- The answer of a call by the calls that were counted before.
  rate_limit_by_key-answer :
      (o : Method) (s : Session r)
      → rate_limit_by_key r options show key o s ≡ (
          if ltb options.max (suc (counter k s.store))
          then (let after = retry_after r options (r.ttl k (let_in s).store) in
              (err (rate_limit (refusal options show after) after), let_in s))
          else o (let_in s))
  unfolding rate_limit_by_key
  rate_limit_by_key-answer o s = rw (sym (count_call-value s.store)) refl

  counter-rate_limit_by_key :
      (o : Method) (s : Session r)
      → LeavesKey o
      → counter k (rate_limit_by_key r options show key o s).1.store ≡ suc (counter k s.store)
  counter-rate_limit_by_key o s leaves =
      let counted = counter-count_call s.store in
      elim (Bool-cases (ltb options.max (suc (counter k s.store)))) [
        | inl over ↦ rw (rate_limit_by_key-answer o s, over, counted) refl
        | inr within ↦
            rw (rate_limit_by_key-answer o s, within, (leaves (let_in s)).0, counted) refl
      ]

  rate_limit_by_key-InWindow :
      (o : Method) (s : Session r)
      → LeavesKey o
      → InWindow s.store
      → InWindow (rate_limit_by_key r options show key o s).1.store
  rate_limit_by_key-InWindow o s leaves start =
      let counted = count_call-InWindow s.store start in
      elim (Bool-cases (ltb options.max (suc (counter k s.store)))) [
        | inl over ↦ rw (rate_limit_by_key-answer o s, over) counted
        | inr within ↦
            rw (rate_limit_by_key-answer o s, within, (leaves (let_in s)).0, (leaves (let_in s)).1)
              counted
      ]

  abbrev pub AllLeave : List Method → Type 0
  AllLeave [] = ⊤
  AllLeave (o ∷ os) = LeavesKey o × AllLeave os

  -- The session after a sequence of calls.
  abbrev pub after_calls : List Method → Session r → Session r
  after_calls [] s = s
  after_calls (o ∷ os) s = after_calls os (rate_limit_by_key r options show key o s).1

  counter-after_calls :
      (os : List Method) (s : Session r)
      → AllLeave os
      → counter k (after_calls os s).store ≡ length os + counter k s.store
  counter-after_calls [] s all = omega arith
  counter-after_calls (o ∷ os) s (leaves, all) = omega (
    arith,
    counter-after_calls os (rate_limit_by_key r options show key o s).1 all,
    counter-rate_limit_by_key o s leaves,
  )

  after_calls-InWindow :
      (os : List Method) (s : Session r)
      → AllLeave os
      → InWindow s.store
      → InWindow (after_calls os s).store
  after_calls-InWindow [] s all start = start
  after_calls-InWindow (o ∷ os) s (leaves, all) start =
      after_calls-InWindow os (rate_limit_by_key r options show key o s).1 all
        (rate_limit_by_key-InWindow o s leaves start)

  counter-window : (s : r.Store) → InWindow s → counter k (r.wait options.window_sec s) ≡ 0
  counter-window s (inl start) = counter-wait_zero k options.window_sec s start
  counter-window s (inr (t, left, within)) = counter-wait k options.window_sec t s left within

  -- Let the window be not 0, the key be not counted at first, and the calls that are let through leave
  -- it alone. After any sequence of calls within the window, the next call runs the method, with its
  -- own outcome, if the sequence is shorter than the maximum, and is refused with a rate limit error
  -- otherwise, without a change of the database.
  admits_up_to_max :
      (os : List Method) (next : Method) (s : Session r)
      → AllLeave os
      → counter k s.store ≡ 0
      → let s' = after_calls os s in
        let q = rate_limit_by_key r options show key next s' in
        let seconds = retry_after r options (r.ttl k (let_in s').store) in
        let refused : Result A = err (rate_limit (refusal options show seconds) seconds) in
        let admitted = ltb (length os) options.max in
        (q.0 ≡ (if admitted then (next (let_in s')).0 else refused))
        × (q.1.db ≡ (if admitted then (next (let_in s')).1.db else s'.db))
  admits_up_to_max os next s all start =
      let s' = after_calls os s in
      let counted = counter-after_calls os s all in
      let answer = rate_limit_by_key-answer next s' in
      elim (Bool-cases (ltb (length os) options.max)) [
        | inl fits ↦
            let under : ltb options.max (suc (counter k s'.store)) ≡ false = ground arith in
            rw (answer, fits, under) (refl, refl)
        | inr full ↦
            let over : ltb options.max (suc (counter k s'.store)) ≡ true = ground arith in
            rw (answer, full, over) (refl, refl)
      ]

  readmits_after_window :
      (os : List Method) (next : Method) (s : Session r)
      → AllLeave os
      → counter k s.store ≡ 0
      → 0 < options.max
      → let s' = after_calls os s in
        let rested : Session r = record s' { store = r.wait options.window_sec s'.store } in
        rate_limit_by_key r options show key next rested ≡ next (let_in rested)
  readmits_after_window os next s all start more =
      let s' = after_calls os s in
      let rested : Session r = record s' { store = r.wait options.window_sec s'.store } in
      let gone = counter-window s'.store (after_calls-InWindow os s all (inl start)) in
      let under : ltb options.max (suc (counter k rested.store)) ≡ false = ground arith in
      rw (rate_limit_by_key-answer next rested, under) refl

  -- Let the window and the maximum be not 0, the key be not counted at first, and the calls that are let
  -- through leave it alone. After any sequence of calls within the window, the next call runs the
  -- method, with its own outcome, if the sequence is shorter than the maximum, and is refused with a
  -- rate limit error otherwise, without a change of the database. Once as many seconds as the window has
  -- have passed without a call, the next one is let through, refused ones before it or not.
  pub calls_are_limited :
      (os : List Method) (next : Method) (s : Session r)
      → AllLeave os
      → counter k s.store ≡ 0
      → 0 < options.max
      → let s' = after_calls os s in
        let q = rate_limit_by_key r options show key next s' in
        let seconds = retry_after r options (r.ttl k (let_in s').store) in
        let refused : Result A = err (rate_limit (refusal options show seconds) seconds) in
        let admitted = ltb (length os) options.max in
        let rested : Session r = record s' { store = r.wait options.window_sec s'.store } in
        (q.0 ≡ (if admitted then (next (let_in s')).0 else refused))
        × (q.1.db ≡ (if admitted then (next (let_in s')).1.db else s'.db))
        × (rate_limit_by_key r options show key next rested ≡ next (let_in rested))
  calls_are_limited os next s all start more =
      let (answer, kept) = admits_up_to_max os next s all start in
      (answer, kept, readmits_after_window os next s all start more)
