-- ===== src/Worker/Keeps.antt =====
-- The rule for invariants of a worker (workers/transfer.worker.ts), from the transaction, the updates of
-- idempotency records and the rest of the world to a whole job.
use bukia_hft.Base.{
  ◌≡◌, refl, ℕ, zero, suc, ◌+◌, String, Option, none, some, arith, Bool-cases, inl, inr, ◌⊎◌, ⊤,
}
use bukia_hft.Db.{Db}
use bukia_hft.Tx.{Error, permanent, duplicate_key, Result, ok, err}
use bukia_hft.Mail.{World}
use bukia_hft.Repositories.Idempotency
use bukia_hft.TransferService.{Payload, TransferResult, reconcile}
use bukia_hft.TransferService.Execute.{execute_transaction}
use bukia_hft.TransferService.Process.{
  Runtime, backoff_ms, send_transfer_status_email, fail_permanently, recover_duplicate,
  attempt_transfer, handle_error, settle_attempt, should_retry_optimistic_lock, process_from,
  process,
}
use bukia_hft.Worker.{message_of, on_failed, run_job}

-- An e-mail leaves the database alone.
pub db-send_transfer_status_email :
    (rt : Runtime) (p : Payload) (status why : String) (id : Option ℕ) (w : World)
    → (send_transfer_status_email rt p status why id w).1.db ≡ w.db
unfolding send_transfer_status_email
db-send_transfer_status_email rt p status why id w = ground arith

fail_permanently-db :
    (rt : Runtime) (p : Payload) (m : String) (w : World)
    → (fail_permanently rt p m w).1.db ≡ (Idempotency.mark_as_failed p.idempotency_key m w.db).1
unfolding fail_permanently
fail_permanently-db rt p m w =
    let failed_db = (Idempotency.mark_as_failed p.idempotency_key m w.db).1 in
    ground (arith, db-send_transfer_status_email rt p "failed" m none (record w { db = failed_db }))

recover_duplicate-db :
    (rt : Runtime) (p : Payload) (w : World)
    → (recover_duplicate rt p w).1.db ≡ (reconcile p.idempotency_key w.db).1
unfolding recover_duplicate
recover_duplicate-db rt p w = go (reconcile p.idempotency_key w.db) refl
  where
    go :
        (q : Option TransferResult × Db)
        → reconcile p.idempotency_key w.db ≡ q
        → (recover_duplicate rt p w).1.db ≡ (reconcile p.idempotency_key w.db).1
    go (none, d) e = ground arith
    go (some none, d) e = ground arith
    go (some (some id), d) e =
        ground
          (arith, db-send_transfer_status_email rt p "completed" "" (some id) (record w { db = d }))

attempt_transfer-db :
    (rt : Runtime) (p : Payload) (w : World)
    → (attempt_transfer rt p w).1.db ≡ (execute_transaction rt.platform p w.db).1
unfolding attempt_transfer
attempt_transfer-db rt p w = go (execute_transaction rt.platform p w.db) refl
  where
    go :
        (q : Result TransferResult × Db)
        → execute_transaction rt.platform p w.db ≡ q
        → (attempt_transfer rt p w).1.db ≡ (execute_transaction rt.platform p w.db).1
    go (err e, d) i = ground arith
    go (ok id, d) i =
        ground (arith, db-send_transfer_status_email rt p "completed" "" id (record w { db = d }))

on_failed-db :
    (rt : Runtime) (p : Payload) (e : Error) (w : World)
    → ((on_failed rt p e w).db ≡ w.db)
      ⊎ ((on_failed rt p e w).db
          ≡ (Idempotency.mark_as_failed p.idempotency_key (message_of e) w.db).1)
unfolding on_failed
on_failed-db rt p e w =
    go (send_transfer_status_email rt p "failed" (message_of e) none w) refl
      (db-send_transfer_status_email rt p "failed" (message_of e) none w)
  where
    go :
        (q : Result ⊤ × World)
        → send_transfer_status_email rt p "failed" (message_of e) none w ≡ q
        → (send_transfer_status_email rt p "failed" (message_of e) none w).1.db ≡ w.db
        → ((on_failed rt p e w).db ≡ w.db)
          ⊎ ((on_failed rt p e w).db
              ≡ (Idempotency.mark_as_failed p.idempotency_key (message_of e) w.db).1)
    go (ok x, d) i same = inr (ground arith)
    go (err x, d) i same = inl (ground arith)

mark_as_failed-records :
    (key m : String) (db : Db)
    → let w = (Idempotency.mark_as_failed key m db).1 in w ≡ record db { records = w.records }
unfolding Idempotency.mark_as_failed
mark_as_failed-records key m db = refl

reconcile-records :
    (key : String) (db : Db) → let w = (reconcile key db).1 in w ≡ record db { records = w.records }
unfolding reconcile
reconcile-records key db = ground arith

module _ (rt : Runtime) (I : Db → Type 0)
    (kept_by_execute : (p : Payload) (db : Db) → I db → I (execute_transaction rt.platform p db).1)
    (kept_by_records : (db w : Db) → w ≡ record db { records = w.records } → I db → I w)
    (kept_meanwhile : (ms : ℕ) (w : World) → I w.db → I (rt.meanwhile ms w).db) where
  handle_error-keeps :
      (p : Payload) (e : Error) (w : World) → I w.db → I (handle_error rt p e w).1.db
  unfolding handle_error
  handle_error-keeps p (permanent m) w h =
      rw (fail_permanently-db rt p m w)
        (kept_by_records w.db _ (mark_as_failed-records p.idempotency_key m w.db) h)
  handle_error-keeps p duplicate_key w h =
      rw (recover_duplicate-db rt p w)
        (kept_by_records w.db _ (reconcile-records p.idempotency_key w.db) h)
  handle_error-keeps p e w h = h

  settle_attempt-keeps :
      (p : Payload) (o : Result TransferResult × World) → I o.1.db → I (settle_attempt rt p o).1.db
  unfolding settle_attempt
  settle_attempt-keeps p (ok r, w) h = h
  settle_attempt-keeps p (err e, w) h = handle_error-keeps p e w h

  attempt_transfer-keeps : (p : Payload) (w : World) → I w.db → I (attempt_transfer rt p w).1.db
  attempt_transfer-keeps p w h = rw (attempt_transfer-db rt p w) (kept_by_execute p w.db h)

  process_from-keeps :
      (left n : ℕ) (p : Payload) (w : World) → I w.db → I (process_from rt left n p w).1.db
  unfolding process_from
  process_from-keeps zero n p w h =
      settle_attempt-keeps p (attempt_transfer rt p w) (attempt_transfer-keeps p w h)
  process_from-keeps (suc left) n p w h =
      let o = attempt_transfer rt p w in
      let now : I o.1.db = attempt_transfer-keeps p w h in
      elim (Bool-cases (should_retry_optimistic_lock o)) [
        | inl again ↦
            let looped : process_from rt (suc left) n p w
                ≡ process_from rt left (n + 1) p (rt.meanwhile (backoff_ms (n + 1)) o.1) =
              ground arith in
            rw looped (
              process_from-keeps left (n + 1) p (rt.meanwhile (backoff_ms (n + 1)) o.1)
                (kept_meanwhile (backoff_ms (n + 1)) o.1 now))
        | inr done ↦
            let ended : process_from rt (suc left) n p w ≡ settle_attempt rt p o = ground arith in
            rw ended (settle_attempt-keeps p o now)
      ]

  process-keeps :
      (max_retries : ℕ) (p : Payload) (w : World) → I w.db → I (process rt max_retries p w).1.db
  unfolding process
  process-keeps max_retries p w h = process_from-keeps max_retries 0 p w h

  -- An invariant is kept by a whole job.
  pub run_job-keeps :
      (max_retries : ℕ) (p : Payload) (w : World) → I w.db → I (run_job rt max_retries p w).1.db
  unfolding run_job
  run_job-keeps max_retries p w h =
      go (process rt max_retries p w) refl (process-keeps max_retries p w h)
    where
      go :
          (q : Result TransferResult × World)
          → process rt max_retries p w ≡ q
          → I (process rt max_retries p w).1.db
          → I (run_job rt max_retries p w).1.db
      go (ok x, d) i k =
          let ended : (run_job rt max_retries p w).1.db ≡ d.db = ground arith in
          rw ended (rw i at k)
      go (err e, d) i k =
          let k' : I d.db = (rw i at k) in
          let ended : (run_job rt max_retries p w).1.db ≡ (on_failed rt p e d).db = ground arith in
          rw ended (elim (on_failed-db rt p e d) [
            | inl same ↦ rw same k'
            | inr marked ↦ rw marked (
                kept_by_records d.db _
                  (mark_as_failed-records p.idempotency_key (message_of e) d.db) k')
          ])
