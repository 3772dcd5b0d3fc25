-- ===== src/TransferService/Execute.antt =====
-- services/transfer.services.ts: `executeTransaction`, the transaction of one transfer.
use bukia_hft.Base.{ℕ, ⊤, String, Option, none, some, str_eq, if◌then◌else◌}
use bukia_hft.Base.Int.{ℤ}
use bukia_hft.Db.{Db, transfer_id, LedgerEntry, credit, debit, Wallet, Transfer}
use bukia_hft.Tx.{
  Error, permanent, Result, ok, err, Tx, pure, throw, throw_if, statement, query, select, outside,
  ◌>>=◌, ◌>>◌, transaction,
}
use bukia_hft.Platform.{Platform}
use bukia_hft.Repositories.Idempotency
use bukia_hft.Repositories.Ledger
use bukia_hft.Repositories.Ledger.{Amount, EntryParams}
use bukia_hft.Repositories.Transfer
use bukia_hft.TransferService.{
  Payload, TransferResult, is_duplicate_key_error, reconcile, process_idempotency_record,
  check_existing_transactions, get_wallets, update_wallet_versions, validate_transfer_request,
  get_credit_amount,
}

abbrev pub entry_params : Payload → Amount → EntryParams
entry_params payload credit_amount = record {
  amount = payload.amount;
  credit_amount = credit_amount;
  from_wallet_id = payload.from_wallet_id;
  idempotency_key = payload.idempotency_key;
  metadata = payload.metadata;
  to_wallet_id = payload.to_wallet_id;
  tx_id = payload.tx_id;
}

abbrev pub transfer_row : Payload → ℤ → ℕ → Transfer
transfer_row payload amount id = record {
  id = id;
  amount = amount;
  from_wallet_id = payload.from_wallet_id;
  idempotency_key = some payload.idempotency_key;
  metadata = payload.metadata;
  to_wallet_id = payload.to_wallet_id;
  tx_id = payload.tx_id;
}

-- What `catch` does with a result, in a transaction.
abbrev pub catch : {A : Type 0} → Tx A → (Error → Tx A) → Tx A
catch m handler s = let (r, s') = m s in elim r [ ok a ↦ (ok a, s') | err e ↦ handler e s' ]

-- A result computed outside the database.
abbrev pub lift : {A : Type 0} → Result A → Tx A
lift (ok a) = pure a
lift (err e) = throw e

-- The `catch` of `createLedgerEntries`.
unfoldable pub reconcile_duplicate : String → Error → Tx ⊤
unfolding outside reconcile
reconcile_duplicate key e s =
    if is_duplicate_key_error e
    then (let (r, s') = outside (reconcile key) s in
        elim r [ ok (some _) ↦ (ok tt, s') | ok none ↦ (err e, s') | err x ↦ (err x, s') ])
    else (err e, s)

module _ (platform : Platform) where
  open platform use {numeric}

  -- `LedgerRepository.createTransferEntries`: the INSERT, then the two rows.
  unfoldable pub create_transfer_entries :
      EntryParams → Tx (Option LedgerEntry × Option LedgerEntry)
  unfolding statement select Ledger.insert_transfer_entries Ledger.find_by_key_type
  create_transfer_entries p = do
    statement (λ db. elim (Ledger.insert_transfer_entries numeric p db) [
      | ok db' ↦ ok (tt {0}, db')
      | err e ↦ err e
    ])
    debit_row ← select (Ledger.find_by_key_type p.idempotency_key debit)
    credit_row ← select (Ledger.find_by_key_type p.idempotency_key credit)
    pure (credit_row, debit_row)

  -- `createLedgerEntries`: what it returns is dropped by its caller.
  unfoldable pub create_ledger_entries : Payload → Amount → Tx ⊤
  unfolding create_transfer_entries reconcile_duplicate
  create_ledger_entries payload credit_amount =
      catch (create_transfer_entries (entry_params payload credit_amount) >> pure tt)
        (reconcile_duplicate payload.idempotency_key)

  -- `createTransferRecord`
  unfoldable pub create_transfer_record : Payload → Tx Transfer
  unfolding statement Transfer.create_transfer
  create_transfer_record payload =
      statement (Transfer.create_transfer (numeric payload.amount) (transfer_row payload))

  -- The end of `executeTransaction`, after `createTransferRecord`.
  unfoldable pub complete_transfer : Payload → Wallet × Wallet → Transfer → Tx TransferResult
  unfolding update_wallet_versions query Idempotency.mark_completed
  complete_transfer payload wallets saved = do
    update_wallet_versions wallets.0 wallets.1
    query (Idempotency.mark_completed payload.idempotency_key (some (transfer_id (some saved.id))))
    pure (some saved.id)

  -- From `createLedgerEntries` on.
  unfoldable pub record_transfer : Payload → Wallet × Wallet → Amount → Tx TransferResult
  unfolding create_ledger_entries create_transfer_record complete_transfer
  record_transfer payload wallets credit_amount = do
    create_ledger_entries payload credit_amount
    saved ← create_transfer_record payload
    complete_transfer payload wallets saved

  -- From `getCreditAmount` on.
  unfoldable pub settle_transfer : Payload → Wallet × Wallet → Tx TransferResult
  unfolding get_credit_amount record_transfer
  settle_transfer payload wallets = do
    credit_amount ← lift (get_credit_amount platform payload wallets)
    record_transfer payload wallets credit_amount

  -- From `validateTransferRequest` on, for a key that has no transfer and no entry yet.
  unfoldable pub perform_transfer : Payload → Tx TransferResult
  unfolding validate_transfer_request get_wallets settle_transfer
  perform_transfer payload = do
    validate_transfer_request platform payload
    wallets ← get_wallets payload.from_wallet_id payload.to_wallet_id
    settle_transfer payload wallets

  -- The body of `executeTransaction`.
  unfoldable pub execute_body : Payload → Tx TransferResult
  execute_body payload = do
    throw_if (str_eq payload.idempotency_key "") (permanent "idempotencyKey required")
    process_idempotency_record payload.idempotency_key
    existing ← check_existing_transactions payload.idempotency_key
    elim existing [ some r ↦ pure r | none ↦ perform_transfer payload ]

  -- `executeTransaction`, which `@Transactional()` wraps.
  unfoldable pub execute_transaction : Payload → Db → Result TransferResult × Db
  execute_transaction payload = transaction (execute_body payload)
