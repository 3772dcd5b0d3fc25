-- ===== src/Audit/Queue.antt =====
-- services/audit-log.services.ts and workers/audit.worker.ts: the queue of the audit log and its table, whose
-- ids are left out. Whether the database takes an INSERT, by the attempts that are left, is a parameter. The
-- requests and the attempts of the worker come in any order.
use bukia_hft.Base.{⊤, ℕ, String, Bool, Option, none, some, List, [], ◌∷◌, ◌++◌, if◌then◌else◌}
use bukia_hft.Tx.{Result, ok, err, service}
use bukia_hft.Jobs.{Queue, add_job, pick}
use bukia_hft.Audit.{Library, AuditRequest, AdminAuditLog, audit_middleware}

-- The queue of entries, with the rows of the table as its state.
abbrev pub AuditLogs : Type 0
AuditLogs = Queue AdminAuditLog (List AdminAuditLog)

abbrev pub max_attempts : ℕ
max_attempts = 5

-- `addLog`
unfoldable pub add_log : AdminAuditLog → AuditLogs → AuditLogs
unfolding add_job
add_log log q = add_job max_attempts log q

-- `processJob`
unfoldable pub process_log :
    (takes : ℕ → AdminAuditLog → Bool)
    → ℕ
    → AdminAuditLog
    → List AdminAuditLog
    → Result ⊤ × List AdminAuditLog
process_log takes left log rows =
    if takes left log then (ok tt, rows ++ log ∷ []) else (err (service "insert"), rows)

-- A request to a route, with its action and the time, or an attempt of the worker at the job of some place.
pub data AuditEvent : Type 0 where
  visit : (request : AuditRequest) → (action timestamp : String) → AuditEvent
  work : (place : ℕ) → AuditEvent

module _ (l : Library) (token_secret : String) where
  -- `auditMiddleware`, and the worker
  abbrev pub logged : AuditEvent → Option AdminAuditLog
  logged (visit request action timestamp) = audit_middleware l token_secret timestamp action request
  logged (work i) = none

  abbrev pub log_visit : Option AdminAuditLog → AuditLogs → AuditLogs
  log_visit none q = q
  log_visit (some log) q = add_log log q

  unfoldable pub run_audit_events :
      (takes : ℕ → AdminAuditLog → Bool) → List AuditEvent → AuditLogs → AuditLogs
  unfolding add_log pick process_log
  run_audit_events takes [] q = q
  run_audit_events takes (visit request action timestamp ∷ es) q =
      run_audit_events takes es (log_visit (logged (visit request action timestamp)) q)
  run_audit_events takes (work i ∷ es) q = run_audit_events takes es (pick (process_log takes) i q)
