-- ===== src/TransferService/Replay.antt =====
-- `executeTransaction` (services/transfer.services.ts) for a key whose transfer has completed.
use bukia_hft.Base.{
  ◌≡◌, refl, sym, ap, ◌∙◌, ℕ, String, false, Option, none, some, arith, inl, inr, ◌≢◌, Bool-cases,
  eq_iff, ◌==◌, count_rows, update_rows-of-none, find_row-of-count,
}
use mathlib.Core.Path.{subst}
use bukia_hft.Db.{Db, Transfer, processing, completed, Idempotency, Response}
use bukia_hft.Tx.{Result, ok, TxState}
use bukia_hft.Tx.Inversion.{transaction-of_ok}
use bukia_hft.Platform.{Platform}
use bukia_hft.Repositories.Idempotency
use bukia_hft.Repositories.Transfer
use bukia_hft.TransferService.{
  Payload, TransferResult, process_idempotency_record, check_existing_transactions,
}
use bukia_hft.TransferService.Outcome.{SameButRecords}
use bukia_hft.TransferService.Execute.{execute_body, execute_transaction}

-- The record of the key is completed and its transfer is in the table.
pub record IsCompleted (key : String) (id : ℕ) (db : Db) : Type 0 where
  pub row : Transfer
  pub found : Transfer.find_by_idempotency_key key db ≡ some row
  pub numbered : id ≡ row.id
  pub entry : Idempotency
  pub recorded : Idempotency.find_by_key key db ≡ some entry
  pub closed : entry.status ≡ completed

process_idempotency_record-completed :
    (key : String) (s : TxState) (entry : Idempotency)
    → s.aborted ≡ false
    → Idempotency.find_by_key key s.work ≡ some entry
    → entry.status ≡ completed
    → (a : Option Response) × (u : TxState) × (process_idempotency_record key s ≡ (ok a, u))
      × (u.aborted ≡ false)
      × SameButRecords s.work u.work
unfolding process_idempotency_record
process_idempotency_record-completed key s entry live found closed =
    let p = Idempotency.is_pending_key key in
    elim (Bool-cases (count_rows p s.work.records == 0)) [
      | inl untouched ↦
          let n : count_rows p s.work.records ≡ 0 = ground arith in
          let kept =
            update_rows-of-none p (λ r. record r { status = processing }) s.work.records
              (find_row-of-count p s.work.records n) in
          (
            entry.response,
            (process_idempotency_record key s).1,
            ground (arith, kept),
            ground (arith, kept),
            ground (arith, kept),
          )
      | inr touched ↦
          (none, (process_idempotency_record key s).1, ground arith, ground arith, ground arith)
    ]

check_existing_transactions-found :
    (key : String) (s : TxState) (row : Transfer)
    → s.aborted ≡ false
    → Transfer.find_by_idempotency_key key s.work ≡ some row
    → (u : TxState) × (check_existing_transactions key s ≡ (ok (some (some row.id)), u))
      × (u.aborted ≡ false)
      × SameButRecords s.work u.work
unfolding check_existing_transactions
check_existing_transactions-found key s row live found =
    ((check_existing_transactions key s).1, ground arith, ground arith, ground arith)

find-of_same :
    (key : String) (db w : Db) (row : Transfer)
    → SameButRecords db w
    → Transfer.find_by_idempotency_key key db ≡ some row
    → Transfer.find_by_idempotency_key key w ≡ some row
unfolding Transfer.find_by_idempotency_key
find-of_same key db w row same found = rw same found

execute_body-replay :
    (platform : Platform) (p : Payload) (s u v : TxState) (a : Option Response) (r : TransferResult)
    → p.idempotency_key ≢ ""
    → process_idempotency_record p.idempotency_key s ≡ (ok a, u)
    → check_existing_transactions p.idempotency_key u ≡ (ok (some r), v)
    → execute_body platform p s ≡ (ok r, v)
unfolding execute_body
execute_body-replay platform p s u v a r named ran checked =
    ground (arith, eq_iff p.idempotency_key "")

-- For a key that is not empty, whose record is completed and whose transfer is in the table,
-- `executeTransaction` returns the id of this transfer, whatever else the payload asks for, and writes
-- idempotency records at most.
pub completed_key_returns_transfer :
    (platform : Platform) (p : Payload) (id : ℕ) (db : Db)
    → p.idempotency_key ≢ ""
    → IsCompleted p.idempotency_key id db
    → ((execute_transaction platform p db).0 ≡ ok (some id))
      × ((execute_transaction platform p db).1
          ≡ record db { records = (execute_transaction platform p db).1.records })
unfolding execute_transaction
completed_key_returns_transfer platform p id db named c =
    let s : TxState = record { committed = db; work = db; aborted = false } in
    let key = p.idempotency_key in
    let (a, u, ran, live, kept) =
      process_idempotency_record-completed key s c.entry refl c.recorded c.closed in
    let (v, checked, live', kept') =
      check_existing_transactions-found key u c.row live
        (find-of_same key db u.work c.row kept c.found) in
    let whole =
      transaction-of_ok (execute_body platform p) db (some c.row.id) v
        (execute_body-replay platform p s u v a (some c.row.id) named ran checked) live' in
    (
      ap (λ (q : Result TransferResult × Db). q.0) whole ∙ (rw c.numbered),
      subst (SameButRecords db) (sym (ap (λ (q : Result TransferResult × Db). q.1) whole))
          (kept' ∙ ap (λ (d : Db). record d { records = v.work.records }) kept),
    )
