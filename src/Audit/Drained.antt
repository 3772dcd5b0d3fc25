-- ===== src/Audit/Drained.antt =====
-- The jobs of the audit log meet the database until none is left (workers/audit.worker.ts).
use bukia_hft.Base.{
  ◌≡◌, ◌≢◌, refl, sym, ap, ◌∙◌, ◌<◌, ◌≤◌, ℕ, zero, suc, ◌+◌, length, Bool, true, false, List, [],
  ◌∷◌, ◌++◌, if◌then◌else◌, arith, Bool-cases, inl, inr,
}
use mathlib.Core.Path.{subst}
use bukia_hft.Jobs.{Job, take_at, attempts_left, add_job, attempt, pick, run_picks}
use bukia_hft.Jobs.Picks.{
  sum_of, sum_of-append, sum_of-snoc, All, All-append, sum_of-take_at, All-take_at, cost,
  attempts_left-sum,
}
use bukia_hft.Audit.{AdminAuditLog}
use bukia_hft.Audit.Queue.{AuditLogs, max_attempts, process_log}

-- Every entry is taken at one of the five attempts.
abbrev pub Takes : (ℕ → AdminAuditLog → Bool) → Type 0
Takes takes = (log : AdminAuditLog) → (n : ℕ) × (n < max_attempts) × (takes n log ≡ true)

-- The entries that pass a test: among rows, in the queue, and of the requests.
module _ (p : AdminAuditLog → Bool) where
  abbrev pub passes : AdminAuditLog → ℕ
  passes log = if p log then 1 else 0

  abbrev pub waiting_passes : Job AdminAuditLog → ℕ
  waiting_passes j = passes j.content

  abbrev pub counted : List AdminAuditLog → ℕ
  counted rows = sum_of passes rows

  abbrev pub in_all : AuditLogs → ℕ
  in_all q = counted q.state + sum_of waiting_passes q.waiting

module _ (takes : ℕ → AdminAuditLog → Bool) where
  -- The job will be taken at one of the attempts that are left.
  abbrev pub OnTime : Job AdminAuditLog → Type 0
  OnTime j = (n : ℕ) × (n ≤ j.left) × (takes n j.content ≡ true)

  attempt-taken :
      (j : Job AdminAuditLog) (q : AuditLogs)
      → takes j.left j.content ≡ true
      → attempt (process_log takes) j q ≡ record q { state = q.state ++ j.content ∷ [] }
  unfolding attempt process_log
  attempt-taken j q now = rw (attempt, process_log, now) (rw (process_log, now) refl)

  attempt-again :
      (log : AdminAuditLog) (n : ℕ) (q : AuditLogs)
      → takes (suc n) log ≡ false
      → attempt (process_log takes) (record { content = log; left = suc n }) q
        ≡ record q { waiting = q.waiting ++ record { content = log; left = n } ∷ [] }
  unfolding attempt process_log add_job
  attempt-again log n q later = rw (attempt, process_log, later) (rw (process_log, later) refl)

  -- What an attempt at a job leaves: no entry gets lost, and one attempt less.
  record IsStep (x : Job AdminAuditLog) (q q' : AuditLogs) : Type 0 where
    on_time : All OnTime q'.waiting
    all_there : (p : AdminAuditLog → Bool) → in_all p q' ≡ waiting_passes p x + in_all p q
    stuck : q'.stuck ≡ q.stuck
    fewer : suc (attempts_left q'.waiting) ≤ cost x + attempts_left q.waiting

  attempts_left-append :
      (js ks : List (Job AdminAuditLog))
      → attempts_left (js ++ ks) ≡ attempts_left js + attempts_left ks
  attempts_left-append js ks = omega (
    arith,
    attempts_left-sum (js ++ ks),
    sum_of-append cost js ks,
    attempts_left-sum js,
    attempts_left-sum ks,
  )

  IsStep-taken :
      (x : Job AdminAuditLog) (q : AuditLogs)
      → All OnTime q.waiting
      → takes x.left x.content ≡ true
      → IsStep x q (attempt (process_log takes) x q)
  IsStep-taken x q fine now = subst (IsStep x q) (sym (attempt-taken x q now)) (record {
    on_time = fine;
    all_there = λ p. omega (arith, sum_of-snoc (passes p) q.state x.content);
    stuck = refl;
    fewer = omega arith;
  })

  IsStep-again :
      (log : AdminAuditLog) (n m : ℕ) (q : AuditLogs)
      → All OnTime q.waiting
      → takes (suc n) log ≡ false
      → m ≤ suc n
      → takes m log ≡ true
      → let x : Job AdminAuditLog = record { content = log; left = suc n } in
        IsStep x q (attempt (process_log takes) x q)
  IsStep-again log n m q fine later below taken =
      let x : Job AdminAuditLog = record { content = log; left = suc n } in
      let y : Job AdminAuditLog = record { content = log; left = n } in
      let other : m ≢ suc n = λ e. cc (e, taken, later) in
      subst (IsStep x q) (sym (attempt-again log n q later)) (record {
        on_time =
            All-append OnTime q.waiting (y ∷ []) fine ((m, omega (arith, below, other), taken), tt);
        all_there = λ p. omega (arith, sum_of-snoc (waiting_passes p) q.waiting y);
        stuck = refl;
        fewer = omega (arith, attempts_left-append q.waiting (y ∷ []));
      })

  attempt-IsStep :
      (x : Job AdminAuditLog) (q : AuditLogs)
      → OnTime x
      → All OnTime q.waiting
      → IsStep x q (attempt (process_log takes) x q)
  attempt-IsStep x q (m, below, taken) fine = elim (Bool-cases (takes x.left x.content)) [
    | inl now ↦ IsStep-taken x q fine now
    | inr later ↦ by_left x.left refl later
  ]
    where
      whole : (n : ℕ) → x.left ≡ n → record { content = x.content; left = n } ≡ x
      whole n is = ap (λ k. record { content = x.content; left = k }) (sym is)

      by_left :
          (n : ℕ)
          → x.left ≡ n
          → takes x.left x.content ≡ false
          → IsStep x q (attempt (process_log takes) x q)
      by_left zero is later =
          let same : m ≡ x.left = omega (arith, below, is) in cc (same, taken, later)
      by_left (suc n) is later =
          subst (λ y. IsStep y q (attempt (process_log takes) y q)) (whole (suc n) is)
            (IsStep-again x.content n m q fine (ap (λ k. takes k x.content) (sym is) ∙ later)
              (omega (arith, below, is)) taken)

  -- What any number of attempts leaves.
  pub record Keeps (q q' : AuditLogs) : Type 0 where
    pub on_time : All OnTime q'.waiting
    pub all_there : (p : AdminAuditLog → Bool) → in_all p q' ≡ in_all p q
    pub stuck : q'.stuck ≡ q.stuck
    pub fewer : (n : ℕ) → attempts_left q.waiting ≤ suc n → attempts_left q'.waiting ≤ n

  pub pick-Keeps :
      (i : ℕ) (waiting : List (Job AdminAuditLog)) (stuck state : List AdminAuditLog)
      → All OnTime waiting
      → let q : AuditLogs = record { waiting = waiting; stuck = stuck; state = state } in
        Keeps q (pick (process_log takes) i q)
  unfolding pick sum_of
  pick-Keeps i [] stuck state fine = record {
    on_time = fine;
    all_there = λ p. refl;
    stuck = refl;
    fewer = λ n h. omega arith;
  }
  pick-Keeps i (j ∷ js) stuck state (j_fine, js_fine) =
      let x : Job AdminAuditLog = (take_at i j js).0 in
      let rest : List (Job AdminAuditLog) = (take_at i j js).1 in
      let (x_fine, rest_fine) = All-take_at OnTime i j js j_fine js_fine in
      let step =
        attempt-IsStep x (record { waiting = rest; stuck = stuck; state = state }) x_fine
          rest_fine in
      record {
        on_time = step.on_time;
        all_there = λ p.
            omega
              (arith, step.all_there p, sum_of-take_at (waiting_passes p) i j js, sum_of_cons p);
        stuck = step.stuck;
        fewer = λ n h. omega (
          arith,
          step.fewer,
          h,
          sum_of-take_at cost i j js,
          attempts_left-sum js,
          attempts_left-sum rest,
        );
      }
    where
      sum_of_cons :
          (p : AdminAuditLog → Bool)
          → sum_of (waiting_passes p) (j ∷ js) ≡ waiting_passes p j + sum_of (waiting_passes p) js
      sum_of_cons p = refl

  -- As many attempts as are left, at any places, empty the queue.
  pub record Drained (q q' : AuditLogs) : Type 0 where
    pub empty : q'.waiting ≡ []
    pub stuck : q'.stuck ≡ q.stuck
    pub all_there : (p : AdminAuditLog → Bool) → counted p q'.state ≡ in_all p q

  attempts_left-zero : (js : List (Job AdminAuditLog)) → attempts_left js ≤ 0 → js ≡ []
  attempts_left-zero [] h = refl
  attempts_left-zero (j ∷ js) h = absurd (omega (arith, h))

  pub run_picks-Drained :
      (places : List ℕ) (q : AuditLogs)
      → All OnTime q.waiting
      → attempts_left q.waiting ≤ length places
      → Drained q (run_picks (process_log takes) places q)
  unfolding run_picks sum_of
  run_picks-Drained [] q fine h =
      let is = attempts_left-zero q.waiting h in
      record {
        empty = is;
        stuck = refl;
        all_there =
            λ p. sym (ap (λ js. counted p q.state + sum_of (waiting_passes p) js) is ∙ nothing p);
      }
    where
      nothing :
          (p : AdminAuditLog → Bool)
          → counted p q.state + sum_of (waiting_passes p) [] ≡ counted p q.state
      nothing p = omega arith
  run_picks-Drained (i ∷ places) q fine h =
      let one = pick-Keeps i q.waiting q.stuck q.state fine in
      let rest =
        run_picks-Drained places (pick (process_log takes) i q) one.on_time
          (one.fewer (length places) h) in
      record {
        empty = rest.empty;
        stuck = rest.stuck ∙ one.stuck;
        all_there = λ p. rest.all_there p ∙ one.all_there p;
      }
