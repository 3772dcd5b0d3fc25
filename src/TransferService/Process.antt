-- ===== src/TransferService/Process.antt =====
-- services/transfer.services.ts: `process`, the work of one job, and its e-mails.
use bukia_hft.Base.{
  ℕ, zero, suc, ◌-◌, ◌*◌, ◌^◌, ⊤, String, Bool, true, false, Option, none, some, find_row, str_eq,
  ◌+◌, if◌then◌else◌,
}
use Prim.Native.String
use bukia_hft.Db.{User}
use bukia_hft.Tx.{Error, permanent, optimistic_lock, null_access, duplicate_key, Result, ok, err}
use bukia_hft.Mail.{transfer_status, transfer_received, World, Mailer, send}
use bukia_hft.Platform.{Platform}
use bukia_hft.Repositories.Idempotency
use bukia_hft.Repositories.User.{live_user_is}
use bukia_hft.Repositories.Wallet
use bukia_hft.TransferService.{Payload, TransferResult, reconcile}
use bukia_hft.TransferService.Execute.{execute_transaction}

-- The first argument of `shouldRetryOptimisticLock`, tested for its class.
abbrev pub is_optimistic_lock : Error → Bool
is_optimistic_lock (optimistic_lock m) = true
is_optimistic_lock _ = false

-- `100 * Math.pow(2, attempt - 1)`, for the attempts from 1 on
abbrev pub backoff_ms : ℕ → ℕ
backoff_ms attempt = 100 * 2 ^ (attempt - 1)

abbrev first_name_of : Option User → Option String
first_name_of none = none
first_name_of (some u) = u.first_name

-- Whether the outcome calls for another round.
abbrev pub should_retry_optimistic_lock : Result TransferResult × World → Bool
should_retry_optimistic_lock (ok r, w) = false
should_retry_optimistic_lock (err e, w) = is_optimistic_lock e

-- What the job's code takes from outside: the platform, the mailer, and what else happens to the
-- database and the queue while the code sleeps for some milliseconds.
pub record Runtime : Type 0 where
  pub platform : Platform
  pub mailer : Mailer
  pub meanwhile : ℕ → World → World

module _ (runtime : Runtime) where
  open runtime use {platform, mailer, meanwhile}

  -- The second e-mail, to the owner of the target wallet.
  unfoldable pub notify_recipient : Payload → Option String → Option ℕ → World → Result ⊤ × World
  unfolding send Wallet.find_user_by_wallet
  notify_recipient payload from_name tx_id w =
      elim (Wallet.find_user_by_wallet payload.to_wallet_id w.db) [
        | none ↦ (ok tt, w)
        | some r ↦
            if str_eq r.email ""
            then (ok tt, w)
            else send mailer
                (record {
                  to = r.email;
                  template =
                      transfer_received payload.amount payload.currency r.first_name from_name
                        payload.to_wallet_id tx_id;
                  subject = some "Transfer received to your wallet";
                })
                w
      ]

  -- `sendTransferStatusEmail`
  unfoldable pub send_transfer_status_email :
      Payload → String → String → Option ℕ → World → Result ⊤ × World
  unfolding send notify_recipient
  send_transfer_status_email payload status why tx_id w =
      elim (find_row (live_user_is payload.user_id) w.db.users) [
        | none ↦ (err null_access, w)
        | some sender ↦
            let (r, w') =
              send mailer
                (record {
                  to = sender.email;
                  template =
                      transfer_status payload.amount payload.currency sender.first_name
                        payload.from_wallet_id why status payload.to_wallet_id tx_id;
                  subject = some (String.◌++◌ "Transfer " status);
                })
                w in
            elim r [
              | err e ↦ (err e, w')
              | ok _ ↦
                  if str_eq status "completed"
                  then notify_recipient payload sender.first_name tx_id w'
                  else (ok tt, w')
            ]
      ]

  -- The `catch` of `process` for a `PermanentError`: no e-mail error is caught there.
  unfoldable pub fail_permanently : Payload → String → World → Result TransferResult × World
  fail_permanently payload message w =
      let w' : World = record w {
        db = (Idempotency.mark_as_failed payload.idempotency_key message w.db).1;
      } in
      let (r, w'') = send_transfer_status_email payload "failed" message none w' in
      elim r [ ok _ ↦ (ok none, w'') | err e ↦ (err e, w'') ]

  -- The `catch` of `process` for a duplicate key.
  unfoldable pub recover_duplicate : Payload → World → Result TransferResult × World
  recover_duplicate payload w =
      let (reconciled, db') = reconcile payload.idempotency_key w.db in
      let w' : World = record w { db = db' } in
      elim reconciled [
        | none ↦ (ok none, w')
        | some none ↦ (ok none, w')
        | some (some id) ↦
            let (r, w'') = send_transfer_status_email payload "completed" "" (some id) w' in
            elim r [ ok _ ↦ (ok (some id), w'') | err e ↦ (err e, w'') ]
      ]

  -- The `try` block: the transaction, and the e-mail of its outcome.
  unfoldable pub attempt_transfer : Payload → World → Result TransferResult × World
  attempt_transfer payload w =
      let (r, db') = execute_transaction platform payload w.db in
      let w' : World = record w { db = db' } in
      elim r [
        | err e ↦ (err e, w')
        | ok id ↦
            let (sent, w'') = send_transfer_status_email payload "completed" "" id w' in
            elim sent [ ok _ ↦ (ok id, w'') | err e ↦ (err e, w'') ]
      ]

  -- The `catch` block, but for the retries.
  unfoldable pub handle_error : Payload → Error → World → Result TransferResult × World
  handle_error payload (permanent m) w = fail_permanently payload m w
  handle_error payload duplicate_key w = recover_duplicate payload w
  handle_error payload e w = (err e, w)

  -- The `catch` block, on the outcome of the `try` block, when no retry is left or none is due.
  unfoldable pub settle_attempt :
      Payload → Result TransferResult × World → Result TransferResult × World
  settle_attempt payload (ok r, w) = (ok r, w)
  settle_attempt payload (err e, w) = handle_error payload e w

  -- The loop of `process`, by the number of retries that are left, which is the maximum less
  -- `attempt`.
  unfoldable pub process_from : ℕ → ℕ → Payload → World → Result TransferResult × World
  process_from zero attempt payload w = settle_attempt payload (attempt_transfer payload w)
  process_from (suc left) attempt payload w =
      let outcome = attempt_transfer payload w in
      elim (should_retry_optimistic_lock outcome) [
        | true ↦
            process_from left (attempt + 1) payload (meanwhile (backoff_ms (attempt + 1)) outcome.1)
        | false ↦ settle_attempt payload outcome
      ]

  -- `process`, with `config.TRANSFER_OPTIMISTIC_RETRIES`
  unfoldable pub process : ℕ → Payload → World → Result TransferResult × World
  process max_retries = process_from max_retries 0
