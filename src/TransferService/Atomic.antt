-- ===== src/TransferService/Atomic.antt =====
-- The committed rows during `executeTransaction` (services/transfer.services.ts), and `reconcile`, which
-- commits on another connection.
use bukia_hft.Base.{◌≡◌, refl, ℕ, String, none, arith}
use bukia_hft.Db.{Db, Transfer, Wallet}
use bukia_hft.Tx.{Result, ok, err, ◌>>=◌}
use bukia_hft.Tx.Quiet.{IsQuiet, IsQuietWhen, >>=-IsQuietWhen}
use bukia_hft.Platform.{Platform}
use bukia_hft.Repositories.Ledger.{Amount}
use bukia_hft.TransferService.{
  Payload, reconcile, process_idempotency_record, check_existing_transactions,
  validate_transfer_request, get_wallets, get_credit_amount,
}
use bukia_hft.TransferService.Execute.{
  create_ledger_entries, create_transfer_record, complete_transfer, record_transfer,
  settle_transfer, perform_transfer, lift,
}

-- Nothing is committed under the key: `reconcile` finds nothing and writes nothing.
abbrev pub IsUnknown : String → Db → Type 0
IsUnknown key c = reconcile key c ≡ (none, c)

pub process_idempotency_record-IsQuiet : (key : String) → IsQuiet (process_idempotency_record key)
unfolding process_idempotency_record
process_idempotency_record-IsQuiet key s = ground arith

pub check_existing_transactions-IsQuiet : (key : String) → IsQuiet (check_existing_transactions key)
unfolding check_existing_transactions
check_existing_transactions-IsQuiet key s = ground arith

module _ (platform : Platform) (p : Payload) where
  validate_transfer_request-IsQuiet : IsQuiet (validate_transfer_request platform p)
  unfolding validate_transfer_request
  validate_transfer_request-IsQuiet s = ground arith

  get_wallets-IsQuiet : (from to : ℕ) → IsQuiet (get_wallets from to)
  unfolding get_wallets
  get_wallets-IsQuiet from to s = ground arith

  create_transfer_record-IsQuiet : IsQuiet (create_transfer_record platform p)
  unfolding create_transfer_record
  create_transfer_record-IsQuiet s = ground arith

  complete_transfer-IsQuiet :
      (ws : Wallet × Wallet) (row : Transfer) → IsQuiet (complete_transfer platform p ws row)
  unfolding complete_transfer
  complete_transfer-IsQuiet ws row s = ground arith

  create_ledger_entries-IsQuietWhen :
      (c : Amount) → IsQuietWhen (IsUnknown p.idempotency_key) (create_ledger_entries platform p c)
  unfolding create_ledger_entries
  create_ledger_entries-IsQuietWhen c s unknown = ground arith

  record_transfer-IsQuietWhen :
      (ws : Wallet × Wallet) (c : Amount)
      → IsQuietWhen (IsUnknown p.idempotency_key) (record_transfer platform p ws c)
  unfolding record_transfer
  record_transfer-IsQuietWhen ws c =
      let C = IsUnknown p.idempotency_key in
      >>=-IsQuietWhen C (create_ledger_entries platform p c)
        (λ _. create_transfer_record platform p >>= complete_transfer platform p ws)
        (create_ledger_entries-IsQuietWhen c)
        (λ _.
          >>=-IsQuietWhen C (create_transfer_record platform p) (complete_transfer platform p ws)
            (λ s _. create_transfer_record-IsQuiet s)
            (λ row s _. complete_transfer-IsQuiet ws row s))

  settle_transfer-IsQuietWhen :
      (ws : Wallet × Wallet)
      → IsQuietWhen (IsUnknown p.idempotency_key) (settle_transfer platform p ws)
  unfolding settle_transfer
  settle_transfer-IsQuietWhen ws s unknown = go (get_credit_amount platform p ws)
    where
      go :
          (q : Result Amount)
          → ((lift q >>= record_transfer platform p ws) s).1.committed ≡ s.committed
      go (ok c) = record_transfer-IsQuietWhen ws c s unknown
      go (err e) = refl

  pub perform_transfer-IsQuietWhen :
      IsQuietWhen (IsUnknown p.idempotency_key) (perform_transfer platform p)
  unfolding perform_transfer
  perform_transfer-IsQuietWhen =
      let C = IsUnknown p.idempotency_key in
      >>=-IsQuietWhen C (validate_transfer_request platform p)
        (λ _. get_wallets p.from_wallet_id p.to_wallet_id >>= settle_transfer platform p)
        (λ s _. validate_transfer_request-IsQuiet s)
        (λ _.
          >>=-IsQuietWhen C (get_wallets p.from_wallet_id p.to_wallet_id)
            (settle_transfer platform p)
            (λ s _. get_wallets-IsQuiet p.from_wallet_id p.to_wallet_id s)
            settle_transfer-IsQuietWhen)
