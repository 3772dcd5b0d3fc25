-- ===== src/TransferService/Reported.antt =====
-- The id that a job returns (services/transfer.services.ts, `process`), and the rows of `transfer`.
use bukia_hft.Base.{
  ◌≡◌, refl, sym, ap, ◌∙◌, ℕ, zero, suc, ◌+◌, String, Option, none, some, arith, inl, inr, ◌∷◌, [],
  ◌++◌, find_row-append_none, find_row_one, eq_refl, Bool-cases, Option-cases,
}
use bukia_hft.Db.{Db, Transfer}
use bukia_hft.Tx.{Error, permanent, duplicate_key, Result, ok, err}
use bukia_hft.Mail.{World}
use bukia_hft.Platform.{Platform}
use bukia_hft.Repositories.Transfer
use bukia_hft.TransferService.{Payload, TransferResult, reconcile}
use bukia_hft.TransferService.Execute.{transfer_row, execute_transaction}
use bukia_hft.TransferService.Effects.{transfers_lem}
use bukia_hft.TransferService.Outcome.{execute_transaction-eq-ok}
use bukia_hft.TransferService.Process.{
  Runtime, backoff_ms, fail_permanently, recover_duplicate, attempt_transfer, handle_error,
  settle_attempt, should_retry_optimistic_lock, process_from, process,
}
use bukia_hft.Worker.Keeps.{db-send_transfer_status_email}

-- A row of `transfer` is found under the key, and has the id.
abbrev pub HasTransfer : String → ℕ → Db → Type 0
HasTransfer key id db =
    (row : Transfer) × (Transfer.find_by_idempotency_key key db ≡ some row) × (id ≡ row.id)

find-appended :
    (key : String) (db db' : Db) (row : Transfer)
    → Transfer.find_by_idempotency_key key db ≡ none
    → db'.transfers ≡ db.transfers ++ row ∷ []
    → row.idempotency_key ≡ some key
    → Transfer.find_by_idempotency_key key db' ≡ some row
unfolding Transfer.find_by_idempotency_key
find-appended key db db' row absent rows own = rw rows (
    find_row-append_none (Transfer.key_is key) db.transfers (row ∷ []) absent
    ∙ find_row_one (Transfer.key_is key) row (rw own (eq_refl key)))

-- An id that `executeTransaction` returns is that of the transfer found under the key.
pub execute_transaction-HasTransfer :
    (platform : Platform) (p : Payload) (db : Db) (id : ℕ) (db' : Db)
    → execute_transaction platform p db ≡ (ok (some id), db')
    → HasTransfer p.idempotency_key id db'
unfolding Transfer.find_by_idempotency_key
execute_transaction-HasTransfer platform p db id db' h =
    elim (execute_transaction-eq-ok platform p db (some id) db' h) [
      | inl old ↦ rw old.kept old.existing
      | inr f ↦
          let (v, read, numbered, rows) = transfers_lem f.performed in
          let same : f.id ≡ id = cc (f.returned) in
          let old : f.claimed.transfers ≡ db.transfers = ap (λ (d : Db). d.transfers) f.kept in
          (
            transfer_row p v f.id,
            find-appended p.idempotency_key db db' (transfer_row p v f.id) f.absent.0
                (rw old at rows) refl,
            sym same,
          )
    ]

reconcile-HasTransfer :
    (key : String) (db : Db) (id : ℕ) (db' : Db)
    → reconcile key db ≡ (some (some id), db')
    → HasTransfer key id db'
unfolding reconcile
reconcile-HasTransfer key db id db' h =
    elim (Option-cases (Transfer.find_by_idempotency_key key db)) [
      | inl missing ↦ absurd (ground arith)
      | inr (row, found) ↦
          let same : db'.transfers ≡ db.transfers = ground arith in
          (row, (rw same found), ground arith)
    ]

attempt_transfer-HasTransfer :
    (rt : Runtime) (p : Payload) (w : World) (id : ℕ) (w' : World)
    → attempt_transfer rt p w ≡ (ok (some id), w')
    → HasTransfer p.idempotency_key id w'.db
unfolding attempt_transfer
attempt_transfer-HasTransfer rt p w id w' h = go (execute_transaction rt.platform p w.db) refl
  where
    go :
        (q : Result TransferResult × Db)
        → execute_transaction rt.platform p w.db ≡ q
        → HasTransfer p.idempotency_key id w'.db
    go (err e, d) i = absurd (ground arith)
    go (ok r, d) i =
        let kept = db-send_transfer_status_email rt p "completed" "" r (record w { db = d }) in
        let same : w'.db ≡ d = ground (arith, kept) in
        let is : r ≡ some id = ground arith in
        rw same (
          execute_transaction-HasTransfer rt.platform p w.db id d
            (i ∙ ap (λ (x : TransferResult). (ok x, d)) is))

recover_duplicate-HasTransfer :
    (rt : Runtime) (p : Payload) (w : World) (id : ℕ) (w' : World)
    → recover_duplicate rt p w ≡ (ok (some id), w')
    → HasTransfer p.idempotency_key id w'.db
unfolding recover_duplicate
recover_duplicate-HasTransfer rt p w id w' h = go (reconcile p.idempotency_key w.db) refl
  where
    go :
        (q : Option TransferResult × Db)
        → reconcile p.idempotency_key w.db ≡ q
        → HasTransfer p.idempotency_key id w'.db
    go (none, d) i = absurd (ground arith)
    go (some none, d) i = absurd (ground arith)
    go (some (some n), d) i =
        let kept =
          db-send_transfer_status_email rt p "completed" "" (some n) (record w { db = d }) in
        let same : w'.db ≡ d = ground (arith, kept) in
        let is : n ≡ id = ground arith in
        rw (same, ← is) (reconcile-HasTransfer p.idempotency_key w.db n d i)

fail_permanently-ne-some :
    (rt : Runtime) (p : Payload) (m : String) (w : World) (id : ℕ) (w' : World)
    → ¬ (fail_permanently rt p m w ≡ (ok (some id), w'))
unfolding fail_permanently
fail_permanently-ne-some rt p m w id w' h = ground arith

handle_error-HasTransfer :
    (rt : Runtime) (p : Payload) (e : Error) (w : World) (id : ℕ) (w' : World)
    → handle_error rt p e w ≡ (ok (some id), w')
    → HasTransfer p.idempotency_key id w'.db
unfolding handle_error
handle_error-HasTransfer rt p duplicate_key w id w' h = recover_duplicate-HasTransfer rt p w id w' h
handle_error-HasTransfer rt p (permanent m) w id w' h =
    absurd (fail_permanently-ne-some rt p m w id w' h)
handle_error-HasTransfer rt p e w id w' h = cc

settle_attempt-HasTransfer :
    (rt : Runtime) (p : Payload) (o : Result TransferResult × World) (id : ℕ) (w' : World)
    → ((id : ℕ) (w' : World) → o ≡ (ok (some id), w') → HasTransfer p.idempotency_key id w'.db)
    → settle_attempt rt p o ≡ (ok (some id), w')
    → HasTransfer p.idempotency_key id w'.db
unfolding settle_attempt
settle_attempt-HasTransfer rt p (ok r, w) id w' good h = good id w' h
settle_attempt-HasTransfer rt p (err e, w) id w' good h = handle_error-HasTransfer rt p e w id w' h

process_from-HasTransfer :
    (rt : Runtime) (left n : ℕ) (p : Payload) (w : World) (id : ℕ) (w' : World)
    → process_from rt left n p w ≡ (ok (some id), w')
    → HasTransfer p.idempotency_key id w'.db
unfolding process_from
process_from-HasTransfer rt zero n p w id w' h =
    settle_attempt-HasTransfer rt p (attempt_transfer rt p w) id w'
      (attempt_transfer-HasTransfer rt p w) h
process_from-HasTransfer rt (suc left) n p w id w' h =
    let o = attempt_transfer rt p w in
    elim (Bool-cases (should_retry_optimistic_lock o)) [
      | inl again ↦
          process_from-HasTransfer rt left (n + 1) p (rt.meanwhile (backoff_ms (n + 1)) o.1) id w'
            (ground arith)
      | inr done ↦
          settle_attempt-HasTransfer rt p o id w' (attempt_transfer-HasTransfer rt p w)
            (ground arith)
    ]

-- A job that reports a transfer reports one that is in the table: after any number of retries, and
-- whatever happens during them, an id that `process` returns is that of the row found under the key
-- of the payload.
pub process-HasTransfer :
    (rt : Runtime) (max_retries : ℕ) (p : Payload) (w : World) (id : ℕ) (w' : World)
    → process rt max_retries p w ≡ (ok (some id), w')
    → HasTransfer p.idempotency_key id w'.db
unfolding process
process-HasTransfer rt max_retries p w id w' h =
    process_from-HasTransfer rt max_retries 0 p w id w' h
