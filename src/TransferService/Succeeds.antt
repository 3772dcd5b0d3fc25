-- ===== src/TransferService/Succeeds.antt =====
-- When `executeTransaction` (services/transfer.services.ts) makes a transfer.
use bukia_hft.Base.{
  ◌≡◌, ◌≢◌, refl, ap, ◌∙◌, String, false, none, some, arith, find_row, count-of_some, eq_iff,
}
use bukia_hft.Db.{Db, Wallet, Idempotency}
use bukia_hft.Tx.{Result, ok, TxState, ◌>>=◌, statement, query, select}
use bukia_hft.Tx.Inversion.{transaction-of_ok}
use bukia_hft.Platform.{Platform}
use bukia_hft.Repositories.Idempotency
use bukia_hft.Repositories.Ledger
use bukia_hft.Repositories.Ledger.{
  Amount, numeric_of, clashes, key_is, wallet_is, insert_entry, debit_entry, credit_entry,
  EntryParams,
}
use bukia_hft.Repositories.Wallet
use bukia_hft.Repositories.Transfer
use bukia_hft.TransferService.{
  Payload, TransferResult, get_credit_amount, process_idempotency_record,
  check_existing_transactions, validate_transfer_request, get_wallets,
}
use bukia_hft.TransferService.Outcome.{SameButRecords}
use bukia_hft.TransferService.Execute.{
  record_transfer, settle_transfer, perform_transfer, execute_body, execute_transaction,
}
use bukia_hft.TransferService.Payable.{IsPayable, settleable}
use bukia_hft.TransferService.Passes.{
  >>=-of_ok, validate-passes, get_wallets-passes, record_transfer-passes,
}

pub settle_transfer-passes :
    (platform : Platform) (p : Payload) (wallets : Wallet × Wallet) (sent : Amount) (s : TxState)
    (r : Result TransferResult × TxState)
    → get_credit_amount platform p wallets ≡ ok sent
    → record_transfer platform p wallets sent s ≡ r
    → settle_transfer platform p wallets s ≡ r
unfolding settle_transfer
settle_transfer-passes platform p wallets sent s r priced recorded = ground (arith, recorded)

-- From `validateTransferRequest` on, all goes through.
perform_transfer-passes :
    (platform : Platform) (p : Payload) (s : TxState)
    → s.aborted ≡ false
    → IsPayable platform p s.work
    → (t : TxState) × (perform_transfer platform p s ≡ (ok (some s.work.next_transfer), t))
      × (t.aborted ≡ false)
unfolding perform_transfer
perform_transfer-passes platform p s live i =
    let (t, recorded, live', _) = record_transfer-passes platform p s live (settleable i) in
    let wallets = get_wallets-passes p s i.from_wallet i.to_wallet live i.from_found i.to_found in
    let settled =
      settle_transfer-passes platform p (i.from_wallet, i.to_wallet) i.sent s _ i.priced recorded in
    (
      t,
      >>=-of_ok (validate_transfer_request platform p)
          (λ _. get_wallets p.from_wallet_id p.to_wallet_id >>= settle_transfer platform p) s s tt _
          (validate-passes platform p s live i)
          (>>=-of_ok (get_wallets p.from_wallet_id p.to_wallet_id) (settle_transfer platform p) s s
            (i.from_wallet, i.to_wallet) _ wallets settled),
      live',
    )

pub process-passes :
    (key : String) (s : TxState)
    → s.aborted ≡ false
    → (Idempotency.mark_processing_record key s.work).0 ≢ 0
    → process_idempotency_record key s
      ≡ (ok none, record s { work = (Idempotency.mark_processing_record key s.work).1 })
unfolding process_idempotency_record select query statement
process-passes key s live claimable = ground arith

pub check-passes :
    (key : String) (s : TxState)
    → s.aborted ≡ false
    → Transfer.find_by_idempotency_key key s.work ≡ none
    → Ledger.find_by_idempotency_key key s.work ≡ none
    → check_existing_transactions key s
      ≡ (ok none, record s { work = (Idempotency.create_record key s.work).1 })
unfolding check_existing_transactions select query statement
check-passes key s live no_transfer no_entry = ground arith

pub create_record-SameButRecords :
    (key : String) (db : Db) → SameButRecords db (Idempotency.create_record key db).1
unfolding Idempotency.create_record Idempotency.find_by_key
create_record-SameButRecords key db = ground arith

pub IsPayable-of_same :
    (platform : Platform) (p : Payload) (db w : Db)
    → SameButRecords db w
    → IsPayable platform p db
    → IsPayable platform p w
unfolding Wallet.find_by_id Ledger.find_by_idempotency_key Ledger.get_balance_for_wallet
IsPayable-of_same platform p db w same i = rw same (record {
  from_wallet = i.from_wallet;
  to_wallet = i.to_wallet;
  from_found = i.from_found;
  to_found = i.to_found;
  owner = i.owner;
  distinct = i.distinct;
  untagged = i.untagged;
  value = i.value;
  parsed = i.parsed;
  positive = i.positive;
  covered = i.covered;
  sent = i.sent;
  priced = i.priced;
  amount = i.amount;
  read = i.read;
  credited = i.credited;
  credit_read = i.credit_read;
  no_entry = i.no_entry;
})

execute_body-passes :
    (platform : Platform) (p : Payload) (s u v t : TxState) (r : TransferResult)
    → p.idempotency_key ≢ ""
    → process_idempotency_record p.idempotency_key s ≡ (ok none, u)
    → check_existing_transactions p.idempotency_key u ≡ (ok none, v)
    → perform_transfer platform p v ≡ (ok r, t)
    → execute_body platform p s ≡ (ok r, t)
unfolding execute_body
execute_body-passes platform p s u v t r named claimed checked performed =
    ground (arith, eq_iff p.idempotency_key "")

-- Let the key be not empty, its record be pending, and no transfer be under it, and let the request be
-- payable: both wallets exist and differ, the payer owns the source, the amount is positive and not
-- more than the balance as the service reads them, the database reads it and what is credited, the
-- conversion succeeds, there is no `txId`, and no entry is under the key. Then `executeTransaction`
-- returns the next id of `transfer`.
pub payable_transfer_succeeds :
    (platform : Platform) (p : Payload) (db : Db) (r : Idempotency)
    → p.idempotency_key ≢ ""
    → find_row (Idempotency.is_pending_key p.idempotency_key) db.records ≡ some r
    → Transfer.find_by_idempotency_key p.idempotency_key db ≡ none
    → IsPayable platform p db
    → (execute_transaction platform p db).0 ≡ ok (some db.next_transfer)
unfolding execute_transaction Idempotency.mark_processing_record Transfer.find_by_idempotency_key
    Ledger.find_by_idempotency_key
payable_transfer_succeeds platform p db r named waiting new i =
    let key = p.idempotency_key in
    let s : TxState = record { committed = db; work = db; aborted = false } in
    let w1 = (Idempotency.mark_processing_record key db).1 in
    let s1 : TxState = record s { work = w1 } in
    let w2 = (Idempotency.create_record key w1).1 in
    let s2 : TxState = record s { work = w2 } in
    let one = count-of_some (Idempotency.is_pending_key key) db.records r waiting in
    let claimed = process-passes key s refl (λ e. omega (arith, e, one)) in
    let checked = check-passes key s1 refl new i.no_entry in
    let same : SameButRecords db w2 = create_record-SameButRecords key w1 in
    let (t, performed, live) =
      perform_transfer-passes platform p s2 refl (IsPayable-of_same platform p db w2 same i) in
    let number : w2.next_transfer ≡ db.next_transfer = ap (λ (d : Db). d.next_transfer) same in
    let body =
      execute_body-passes platform p s s1 s2 t (some w2.next_transfer) named claimed checked
        performed in
    ap (λ (q : Result TransferResult × Db). q.0)
      (transaction-of_ok (execute_body platform p) db (some w2.next_transfer) t body live)
    ∙ ap (λ n. ok (some n)) number
