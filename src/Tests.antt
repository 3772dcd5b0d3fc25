-- ===== src/Tests.antt =====
-- Runs of the sample transfer, on which the instances rest.
pub mod Instances
pub mod Wallets
pub mod Statuses
pub mod Limits
pub mod Logins
pub mod Admins
pub mod Accounts
pub mod Audits
pub mod Caches
pub mod Races
pub mod Routes
pub mod Books
mod Answers
use bukia_hft.Base.{
  ◌≡◌, refl, ℕ, String, none, some, [], ◌∷◌, find_row, count_rows, update_rows, arith,
}
use bukia_hft.Base.Int.{◌+ℤ◌, ◌-ℤ◌}
use bukia_hft.Db.{Db}
use bukia_hft.Tx.{permanent, ok, err, statement, query, select, outside, transaction}
use bukia_hft.Mail.{World, send}
use bukia_hft.Repositories.Idempotency
use bukia_hft.Repositories.Ledger
use bukia_hft.Repositories.Wallet
use bukia_hft.Repositories.Transfer
use bukia_hft.TransferService.{
  Payload, reconcile, process_idempotency_record, check_existing_transactions,
  assert_user_owns_wallet, get_wallets, update_wallet_versions, check_funds,
  validate_transfer_request, get_credit_amount,
}
use bukia_hft.TransferService.Execute.{
  reconcile_duplicate, create_transfer_entries, create_ledger_entries, create_transfer_record,
  complete_transfer, record_transfer, settle_transfer, perform_transfer, execute_body,
  execute_transaction,
}
use bukia_hft.TransferService.Process.{
  notify_recipient, send_transfer_status_email, attempt_transfer, settle_attempt, process_from,
  process,
}
use bukia_hft.TransferService.Once.{IsOnce}
use bukia_hft.TransferService.Replay.{IsCompleted}
use bukia_hft.Example.{platform, payload, db, paid, closed_record, sample_transfer, world, runtime}

pub executed : execute_transaction platform payload db ≡ (ok (some 5), paid)
unfolding execute_transaction execute_body transaction statement query select outside
    process_idempotency_record check_existing_transactions assert_user_owns_wallet get_wallets
    update_wallet_versions check_funds validate_transfer_request get_credit_amount
    reconcile_duplicate create_transfer_entries create_ledger_entries create_transfer_record
    complete_transfer record_transfer settle_transfer perform_transfer find_row count_rows
    update_rows Idempotency.mark_processing_record Idempotency.mark_completed
    Idempotency.find_by_key Idempotency.create_record Ledger.find_by_idempotency_key
    Ledger.insert_transfer_entries Ledger.insert_entry Ledger.find_by_key_type Ledger.balance_of
    Ledger.get_balance_for_wallet Wallet.find_by_id Wallet.increment_version_if_match
    Transfer.create_transfer Transfer.find_by_idempotency_key ◌+ℤ◌
executed = refl

-- More than the wallet holds.
abbrev pub greedy : Payload
greedy = record payload { amount = "IIIIIIIIIIII" }

pub refused : execute_transaction platform greedy db ≡ (err (permanent "Insufficient funds"), db)
unfolding execute_transaction execute_body transaction statement query select
    process_idempotency_record check_existing_transactions assert_user_owns_wallet check_funds
    validate_transfer_request perform_transfer find_row count_rows update_rows
    Idempotency.mark_processing_record Idempotency.find_by_key Idempotency.create_record
    Ledger.find_by_idempotency_key Ledger.balance_of Ledger.get_balance_for_wallet Wallet.find_by_id
    Transfer.find_by_idempotency_key ◌+ℤ◌
refused = refl

pub new_key : Transfer.find_by_idempotency_key "k1" db ≡ none
unfolding Transfer.find_by_idempotency_key find_row
new_key = refl

pub db-IsOnce : IsOnce "k1" db
unfolding count_rows
db-IsOnce = record { debits = omega arith; credits = omega arith; transfers = omega arith }

pub paid-IsCompleted : IsCompleted "k1" 5 paid
unfolding Transfer.find_by_idempotency_key Idempotency.find_by_key find_row
paid-IsCompleted = record {
  row = sample_transfer;
  found = refl;
  numbered = refl;
  entry = closed_record;
  recorded = refl;
  closed = refl;
}

-- The whole job, with its two e-mails.
abbrev pub after_job : World
unfolding process
after_job = (process runtime 3 payload world).1

pub processed : process runtime 3 payload world ≡ (ok (some 5), after_job)
unfolding process process_from attempt_transfer settle_attempt send_transfer_status_email
    notify_recipient send Wallet.find_user_by_wallet execute_transaction execute_body transaction
    statement query select outside process_idempotency_record check_existing_transactions
    assert_user_owns_wallet get_wallets update_wallet_versions check_funds validate_transfer_request
    get_credit_amount reconcile_duplicate create_transfer_entries create_ledger_entries
    create_transfer_record complete_transfer record_transfer settle_transfer perform_transfer
    find_row count_rows update_rows Idempotency.mark_processing_record Idempotency.mark_completed
    Idempotency.find_by_key Idempotency.create_record Ledger.find_by_idempotency_key
    Ledger.insert_transfer_entries Ledger.insert_entry Ledger.find_by_key_type Ledger.balance_of
    Ledger.get_balance_for_wallet Wallet.find_by_id Wallet.increment_version_if_match
    Transfer.create_transfer Transfer.find_by_idempotency_key ◌+ℤ◌
processed = refl
