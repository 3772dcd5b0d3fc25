-- ===== src/Worker.antt =====
-- workers/transfer.worker.ts: one delivery of a job. BullMQ runs the worker's function, and emits
-- `failed` when it throws.
pub mod Keeps
pub mod Overwrites
pub mod Once
use bukia_hft.Base.{ℕ, String, ⊤}
use bukia_hft.Tx.{
  Error, permanent, optimistic_lock, plain, null_access, duplicate_key, foreign_key, invalid_text,
  transaction_aborted, bad_request, unauthorized, forbidden, not_found, conflict, invalid_input,
  server_error, rate_limit, service, Result, ok, err,
}
use bukia_hft.Mail.{World}
use bukia_hft.Repositories.Idempotency
use bukia_hft.TransferService.{Payload, TransferResult}
use bukia_hft.TransferService.Process.{Runtime, send_transfer_status_email, process}
use bukia_hft.Base.{none}

-- `err.message`
abbrev pub message_of : Error → String
message_of (permanent m) = m
message_of (optimistic_lock m) = m
message_of (plain m) = m
message_of null_access = "Cannot read properties of null"
message_of duplicate_key = "duplicate key value violates unique constraint"
message_of foreign_key = "violates foreign key constraint"
message_of invalid_text = "invalid input syntax for type numeric"
message_of transaction_aborted = "current transaction is aborted"
message_of (bad_request m) = m
message_of (unauthorized m) = m
message_of (forbidden m) = m
message_of (not_found m) = m
message_of (conflict m) = m
message_of (invalid_input m) = m
message_of (server_error m) = m
message_of (rate_limit m n) = m
message_of (service m) = m

module _ (runtime : Runtime) where
  -- The handler of `failed`: an e-mail that cannot be sent ends it before the record is marked.
  unfoldable pub on_failed : Payload → Error → World → World
  on_failed payload e w =
      let (sent, w') = send_transfer_status_email runtime payload "failed" (message_of e) none w in
      elim sent [
        | ok _ ↦ record w' {
          db = (Idempotency.mark_as_failed payload.idempotency_key (message_of e) w'.db).1;
        }
        | err _ ↦ w'
      ]

  -- One delivery.
  unfoldable pub run_job : ℕ → Payload → World → Result TransferResult × World
  run_job max_retries payload w =
      let (r, w') = process runtime max_retries payload w in
      elim r [ ok x ↦ (ok x, w') | err e ↦ (err e, on_failed payload e w') ]
