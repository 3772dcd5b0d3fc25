-- ===== src/TransferService.antt =====
-- services/transfer.services.ts: the steps of a transfer's transaction. `Execute` composes them,
-- `Process` has the loop around it, `Enqueue` the request; the other children prove.
pub mod Execute
pub mod Process
pub mod Enqueue
pub mod Admission
mod Steps
mod Performed
mod Effects
pub mod Reported
pub mod Replay
mod Atomic
pub mod Outcome
pub mod Payable
mod Passes
pub mod Succeeds
pub mod Funds
pub mod Once
pub mod Race
use bukia_hft.Base.{
  ℕ, ⊤, String, Bool, true, false, not, Option, none, some, ◌==◌, str_eq, if◌then◌else◌,
}
use bukia_hft.Base.Int.{ℤ, pos, ltb_ℤ, leb_ℤ}
use bukia_hft.Db.{Db, Status, completed, Response, transfer_id, Idempotency, Wallet, Transfer}
use bukia_hft.Tx.{
  Error, permanent, optimistic_lock, plain, duplicate_key, service, Result, ok, err, Tx, pure,
  throw, throw_if, statement, query, select, outside, ◌>>=◌, ◌>>◌, transaction,
}
use bukia_hft.Platform.{Platform}
use bukia_hft.Repositories.Idempotency
use bukia_hft.Repositories.Ledger
use bukia_hft.Repositories.Ledger.{Amount, text, number}
use bukia_hft.Repositories.Wallet
use bukia_hft.Repositories.Transfer

-- `TransferRequestType & { userId }`. `creditAmount`, which the code stores in the payload, is
-- passed on as an argument.
pub record Payload : Type 0 where
  pub amount : String
  pub currency : String
  pub from_wallet_id : ℕ
  pub idempotency_key : String
  pub metadata : Option String
  pub to_wallet_id : ℕ
  pub tx_id : Option String
  pub user_id : ℕ

-- `{ transferId }`
abbrev pub TransferResult : Type 0
TransferResult = Option ℕ

-- `/duplicate key value/` is tested on the text of an error; of those that the program or the
-- database raises here only 23505 has it.
abbrev pub is_duplicate_key_error : Error → Bool
is_duplicate_key_error duplicate_key = true
is_duplicate_key_error _ = false

-- `reconcile`, on a connection of its own.
unfoldable pub reconcile : String → Db → Option TransferResult × Db
unfolding Idempotency.mark_completed Ledger.find_by_idempotency_key Transfer.find_by_idempotency_key
reconcile key db =
    if str_eq key "" then (none, db) else elim (Transfer.find_by_idempotency_key key db) [
      | some t ↦
          (some (some t.id), (Idempotency.mark_completed key (some (transfer_id (some t.id))) db).1)
      | none ↦ elim (Ledger.find_by_idempotency_key key db) [
        | some _ ↦ (some none, (Idempotency.mark_completed key (some (transfer_id none)) db).1)
        | none ↦ (none, db)
      ]
    ]

-- `processIdempotencyRecord`: the record's response is returned to a caller that drops it.
unfoldable pub process_idempotency_record : String → Tx (Option Response)
unfolding query select Idempotency.mark_processing_record Idempotency.find_by_key
process_idempotency_record key = do
  affected ← query (Idempotency.mark_processing_record key)
  if affected == 0
      then select (Idempotency.find_by_key key) >>= (λ existing. elim existing [
        | none ↦ throw (plain "idempotency record not pending")
        | some r ↦ elim r.status [
          | completed ↦ pure r.response
          | _ ↦ throw (plain "idempotency record not pending")
        ]
      ])
      else pure none

-- `checkExistingTransactions`
unfoldable pub check_existing_transactions : String → Tx (Option TransferResult)
unfolding query select Transfer.find_by_idempotency_key Ledger.find_by_idempotency_key
    Idempotency.mark_completed Idempotency.create_record
check_existing_transactions key = do
  existing_transfer ← select (Transfer.find_by_idempotency_key key)
  elim existing_transfer [
    | some t ↦
        query (Idempotency.mark_completed key (some (transfer_id (some t.id))))
        >> pure (some (some t.id))
    | none ↦ do
      existing_ledger ← select (Ledger.find_by_idempotency_key key)
      elim existing_ledger [
        | some _ ↦
            query (Idempotency.mark_completed key (some (transfer_id none))) >> pure (some none)
        | none ↦ query (Idempotency.create_record key) >> pure none
      ]
  ]

-- `assertUserOwnsWallet`
unfoldable pub assert_user_owns_wallet : ℕ → ℕ → Tx ⊤
unfolding select Wallet.find_by_id
assert_user_owns_wallet user_id wallet_id = do
  wallet ← select (Wallet.find_by_id wallet_id)
  elim wallet [
    | none ↦ throw (permanent "User is not the owner of the source wallet")
    | some w ↦
        throw_if (not (w.user_id == user_id))
          (permanent "User is not the owner of the source wallet")
  ]

-- `getWallets`
unfoldable pub get_wallets : ℕ → ℕ → Tx (Wallet × Wallet)
unfolding select Wallet.find_by_id
get_wallets from_wallet_id to_wallet_id = do
  from_wallet ← select (Wallet.find_by_id from_wallet_id)
  to_wallet ← select (Wallet.find_by_id to_wallet_id)
  elim from_wallet [
    | none ↦ throw (plain "Wallet not found")
    | some f ↦ elim to_wallet [ none ↦ throw (plain "Wallet not found") | some t ↦ pure (f, t) ]
  ]

-- `updateWalletVersions`
unfoldable pub update_wallet_versions : Wallet → Wallet → Tx ⊤
unfolding query Wallet.increment_version_if_match
update_wallet_versions from_wallet to_wallet = do
  updated_from ← query (Wallet.increment_version_if_match from_wallet.id from_wallet.version)
  updated_to ← query (Wallet.increment_version_if_match to_wallet.id to_wallet.version)
  throw_if (updated_from == 0) (optimistic_lock "Optimistic lock failed for fromWallet")
  throw_if (updated_to == 0) (optimistic_lock "Optimistic lock failed for toWallet")

-- The two tests on the numbers; NaN fails every comparison.
abbrev pub is_invalid_amount : Option ℤ → Bool
is_invalid_amount none = true
is_invalid_amount (some v) = leb_ℤ v (pos 0)

abbrev pub lt_number : Option ℤ → Option ℤ → Bool
lt_number none b = false
lt_number (some a) none = false
lt_number (some a) (some b) = ltb_ℤ a b

module _ (platform : Platform) where
  open platform use {
    numeric, numeric_text, parse_float, to_number, times, unit_rate, conversion_rate,
  }

  -- `validateTransferRequest`, from the read of the balance on
  unfoldable pub check_funds : Payload → Tx ⊤
  unfolding select Ledger.get_balance_for_wallet
  check_funds payload = do
    from_balance ← select (Ledger.get_balance_for_wallet payload.from_wallet_id)
    let numeric_from = parse_float (numeric_text from_balance)
    let numeric_amount = parse_float payload.amount
    throw_if (is_invalid_amount numeric_amount) (permanent "Invalid amount")
    throw_if (lt_number numeric_from numeric_amount) (permanent "Insufficient funds")

  -- `validateTransferRequest`
  unfoldable pub validate_transfer_request : Payload → Tx ⊤
  unfolding assert_user_owns_wallet check_funds
  validate_transfer_request payload = do
    assert_user_owns_wallet payload.user_id payload.from_wallet_id
    check_funds payload

  -- `CurrencyConversionService.getRate` and `convert`
  unfoldable pub get_rate : String → String → Result ℕ
  get_rate from to = if str_eq from to then ok unit_rate else elim (conversion_rate from to) [
    | none ↦ err (service "Failed to fetch conversion rate")
    | some rate ↦ ok rate
  ]

  unfoldable pub convert : Option ℤ → String → String → Result (Option ℤ)
  unfolding get_rate
  convert amount from to = elim (get_rate from to) [
    | err e ↦ err e
    | ok rate ↦ ok (times amount rate)
  ]

  -- `getCreditAmount`
  unfoldable pub get_credit_amount : Payload → Wallet × Wallet → Result Amount
  unfolding convert
  get_credit_amount payload (from_wallet, to_wallet) =
      if str_eq from_wallet.currency to_wallet.currency
      then ok (text payload.amount)
      else elim (convert (to_number payload.amount) from_wallet.currency to_wallet.currency) [
        | err e ↦ err e
        | ok n ↦ ok (number n)
      ]
