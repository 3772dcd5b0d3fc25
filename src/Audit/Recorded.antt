-- ===== src/Audit/Recorded.antt =====
-- No entry of the audit log is lost or written twice (services/audit-log.services.ts).
use bukia_hft.Base.{
  ◌≡◌, refl, sym, ap, ◌∙◌, ◌≤◌, ℕ, ◌+◌, length, String, Bool, Option, none, some, List, [], ◌∷◌,
  arith,
}
use mathlib.Core.Path.{subst}
use bukia_hft.Jobs.{Job, attempts_left, add_job, pick, run_picks}
use bukia_hft.Jobs.Picks.{sum_of, sum_of-snoc, All, All-append}
use bukia_hft.Audit.{Library, AdminAuditLog}
use bukia_hft.Audit.Queue.{
  AuditLogs, add_log, process_log, AuditEvent, visit, work, logged, log_visit, run_audit_events,
}
use bukia_hft.Audit.Drained.{
  Takes, passes, waiting_passes, counted, in_all, OnTime, pick-Keeps, run_picks-Drained,
}

abbrev pub entries_of : Library → String → List AuditEvent → List AdminAuditLog
entries_of l secret [] = []
entries_of l secret (e ∷ es) = elim (logged l secret e) [
  | none ↦ entries_of l secret es
  | some log ↦ log ∷ entries_of l secret es
]

-- The requests, with attempts at the queue between them.
module _ (takes : ℕ → AdminAuditLog → Bool) (l : Library) (token_secret : String) where
  record Logs (entries : List AdminAuditLog) (q q' : AuditLogs) : Type 0 where
    on_time : All (OnTime takes) q'.waiting
    all_there : (p : AdminAuditLog → Bool) → in_all p q' ≡ in_all p q + counted p entries
    stuck : q'.stuck ≡ q.stuck

  add_log-Logs :
      (log : AdminAuditLog) (q : AuditLogs)
      → Takes takes
      → All (OnTime takes) q.waiting
      → All (OnTime takes) (add_log log q).waiting
        × ((p : AdminAuditLog → Bool) → in_all p (add_log log q) ≡ in_all p q + passes p log)
  unfolding add_log add_job
  add_log-Logs log q taken fine =
      let (n, below, is) = taken log in
      let y : Job AdminAuditLog = record { content = log; left = 4 } in
      (
        All-append (OnTime takes) q.waiting (y ∷ []) fine ((n, omega (arith, below), is), tt),
        λ p. omega (arith, sum_of-snoc (waiting_passes p) q.waiting y),
      )

  after_visit :
      (found : Option AdminAuditLog) (entries : List AdminAuditLog) (run : AuditLogs → AuditLogs)
      (q : AuditLogs)
      → Takes takes
      → All (OnTime takes) q.waiting
      → ((q1 : AuditLogs) → All (OnTime takes) q1.waiting → Logs entries q1 (run q1))
      → Logs
          (elim found [ none ↦ entries | some log ↦ log ∷ entries ])
          q
          (run (log_visit l token_secret found q))
  unfolding add_log add_job sum_of
  after_visit none entries run q taken fine rest = rest q fine
  after_visit (some log) entries run q taken fine rest =
      let (added_fine, added_all) = add_log-Logs log q taken fine in
      let next = rest (add_log log q) added_fine in
      record {
        on_time = next.on_time;
        all_there = λ p. omega (arith, next.all_there p, added_all p);
        stuck = next.stuck;
      }

  run_audit_events-Logs :
      (es : List AuditEvent) (q : AuditLogs)
      → Takes takes
      → All (OnTime takes) q.waiting
      → Logs (entries_of l token_secret es) q (run_audit_events l token_secret takes es q)
  unfolding run_audit_events sum_of
  run_audit_events-Logs [] q taken fine = record {
    on_time = fine;
    all_there = λ p. omega arith;
    stuck = refl;
  }
  run_audit_events-Logs (visit request action timestamp ∷ es) q taken fine =
      after_visit (logged l token_secret (visit request action timestamp))
        (entries_of l token_secret es) (run_audit_events l token_secret takes es) q taken fine
        (λ q1 q1_fine. run_audit_events-Logs es q1 taken q1_fine)
  run_audit_events-Logs (work i ∷ es) q taken fine =
      let one = pick-Keeps takes i q.waiting q.stuck q.state fine in
      let rest = run_audit_events-Logs es (pick (process_log takes) i q) taken one.on_time in
      record {
        on_time = rest.on_time;
        all_there = λ p.
            rest.all_there p
            ∙ ap (λ n. n + counted p (entries_of l token_secret es)) (one.all_there p);
        stuck = rest.stuck ∙ one.stuck;
      }

  -- When the queue is empty and the database takes every entry at one of its five attempts: requests come, with
  -- attempts of the worker at jobs anywhere in the queue between them. After that, as many further attempts as
  -- are left, at jobs anywhere in the queue, empty it without setting a job aside, and for every test of
  -- entries the number of rows that pass it has grown by the number of entries that pass it among those of the
  -- requests: each entry has exactly one row, in some order.
  pub visits_are_recorded :
      (events : List AuditEvent) (places : List ℕ) (q : AuditLogs) (p : AdminAuditLog → Bool)
      → Takes takes
      → q.waiting ≡ []
      → let after = run_audit_events l token_secret takes events q in
        attempts_left after.waiting ≤ length places
        → let final = run_picks (process_log takes) places after in
          (final.waiting ≡ [])
          × (final.stuck ≡ q.stuck)
          × (counted p final.state
              ≡ counted p q.state + counted p (entries_of l token_secret events))
  unfolding sum_of
  visits_are_recorded events places q p taken is enough =
      let fine : All (OnTime takes) q.waiting = subst (All (OnTime takes)) (sym is) tt in
      let logs = run_audit_events-Logs events q taken fine in
      let drained =
        run_picks-Drained takes places (run_audit_events l token_secret takes events q) logs.on_time
          enough in
      let none_waits : sum_of (waiting_passes p) q.waiting ≡ 0 =
        ap (sum_of (waiting_passes p)) is in
      (
        drained.empty,
        drained.stuck ∙ logs.stuck,
        omega (arith, drained.all_there p, logs.all_there p, none_waits),
      )
