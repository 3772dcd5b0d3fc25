-- ===== src/Worker/Overwrites.antt =====
-- The `failed` handler (workers/transfer.worker.ts), for a job whose transfer is committed.
use bukia_hft.Base.{
  ◌≡◌, ap, ◌∙◌, ℕ, zero, suc, String, true, false, Option, none, some, arith, find_row,
}
use Prim.Native.String
use bukia_hft.Db.{Db, User}
use bukia_hft.Tx.{Error, service, Result, ok, err}
use bukia_hft.Mail.{Email, transfer_status, World}
use bukia_hft.Repositories.Idempotency
use bukia_hft.Repositories.Transfer
use bukia_hft.TransferService.{Payload, TransferResult}
use bukia_hft.TransferService.Reported.{HasTransfer, execute_transaction-HasTransfer}
use bukia_hft.Worker.Keeps.{db-send_transfer_status_email}
use bukia_hft.TransferService.Execute.{execute_transaction}
use bukia_hft.Repositories.User.{live_user_is}
use bukia_hft.TransferService.Process.{
  Runtime, send_transfer_status_email, attempt_transfer, handle_error, settle_attempt, process_from,
  process,
}
use bukia_hft.Worker.{on_failed, run_job}

-- The e-mail to the sender.
abbrev pub status_mail : Payload → User → String → String → Option ℕ → Email
status_mail p u status why id = record {
  to = u.email;
  template =
      transfer_status p.amount p.currency u.first_name p.from_wallet_id why status p.to_wallet_id
        id;
  subject = some (String.◌++◌ "Transfer " status);
}

refused_mail :
    (rt : Runtime) (p : Payload) (status why : String) (id : Option ℕ) (w : World) (u : User)
    → find_row (live_user_is p.user_id) w.db.users ≡ some u
    → rt.mailer w.outbox (status_mail p u status why id) ≡ false
    → send_transfer_status_email rt p status why id w ≡ (err (service "email"), w)
unfolding send_transfer_status_email
refused_mail rt p status why id w u found refused = ground arith

accepted_mail :
    (rt : Runtime) (p : Payload) (why : String) (id : Option ℕ) (w : World) (u : User)
    → find_row (live_user_is p.user_id) w.db.users ≡ some u
    → rt.mailer w.outbox (status_mail p u "failed" why id) ≡ true
    → (send_transfer_status_email rt p "failed" why id w).0 ≡ ok tt
unfolding send_transfer_status_email
accepted_mail rt p why id w u found accepted = ground arith

-- An error of the e-mail service ends the job on its first round.
process-of_refused :
    (rt : Runtime) (max_retries : ℕ) (p : Payload) (w : World) (e : String) (w' : World)
    → attempt_transfer rt p w ≡ (err (service e), w')
    → process rt max_retries p w ≡ (err (service e), w')
unfolding process process_from settle_attempt handle_error
process-of_refused rt zero p w e w' h = ground arith
process-of_refused rt (suc n) p w e w' h = ground arith

attempt-of_refused :
    (rt : Runtime) (p : Payload) (w : World) (id : ℕ) (db' : Db) (e : Error)
    → execute_transaction rt.platform p w.db ≡ (ok (some id), db')
    → send_transfer_status_email rt p "completed" "" (some id) (record w { db = db' })
      ≡ (err e, record w { db = db' })
    → attempt_transfer rt p w ≡ (err e, record w { db = db' })
unfolding attempt_transfer
attempt-of_refused rt p w id db' e done refused = ground arith

run_job-of_error :
    (rt : Runtime) (max_retries : ℕ) (p : Payload) (w : World) (e : Error) (w' : World)
    → process rt max_retries p w ≡ (err e, w')
    → run_job rt max_retries p w ≡ (err e, on_failed rt p e w')
unfolding run_job
run_job-of_error rt max_retries p w e w' h = ground arith

on_failed-of_accepted :
    (rt : Runtime) (p : Payload) (w : World) (u : User)
    → find_row (live_user_is p.user_id) w.db.users ≡ some u
    → rt.mailer w.outbox (status_mail p u "failed" "email" none) ≡ true
    → (on_failed rt p (service "email") w).db
      ≡ (Idempotency.mark_as_failed p.idempotency_key "email" w.db).1
unfolding on_failed
on_failed-of_accepted rt p w u found accepted = ground (
  arith,
  accepted_mail rt p "email" none w u found accepted,
  db-send_transfer_status_email rt p "failed" "email" none w,
)

-- Let the transaction of a job go through, the mailer refuse the e-mail about it, and accept the one
-- about a failure. Then the job throws, its record is marked as failed, and the transfer is in the
-- table all the same.
pub email_error_fails_committed_transfer :
    (rt : Runtime) (max_retries : ℕ) (p : Payload) (w : World) (id : ℕ) (db' : Db) (u : User)
    → execute_transaction rt.platform p w.db ≡ (ok (some id), db')
    → find_row (live_user_is p.user_id) db'.users ≡ some u
    → rt.mailer w.outbox (status_mail p u "completed" "" (some id)) ≡ false
    → rt.mailer w.outbox (status_mail p u "failed" "email" none) ≡ true
    → let (r, w') = run_job rt max_retries p w in
      (r ≡ err (service "email"))
      × (w'.db ≡ (Idempotency.mark_as_failed p.idempotency_key "email" db').1)
      × HasTransfer p.idempotency_key id w'.db
unfolding Idempotency.mark_as_failed Transfer.find_by_idempotency_key
email_error_fails_committed_transfer rt max_retries p w id db' u done found refused accepted =
    let w' : World = record w { db = db' } in
    let mail = refused_mail rt p "completed" "" (some id) w' u found refused in
    let tried = attempt-of_refused rt p w id db' (service "email") done mail in
    let threw = process-of_refused rt max_retries p w "email" w' tried in
    let ran = run_job-of_error rt max_retries p w (service "email") w' threw in
    let marked = on_failed-of_accepted rt p w' u found accepted in
    let final = ap (λ (q : Result TransferResult × World). q.1.db) ran ∙ marked in
    let has = execute_transaction-HasTransfer rt.platform p w.db id db' done in
    (
      ap (λ (q : Result TransferResult × World). q.0) ran,
      final,
      (has.0, ap (Transfer.find_by_idempotency_key p.idempotency_key) final ∙ has.1, has.2),
    )
