-- ===== src/Tests/Instances.antt =====
-- The theorems at concrete inputs.
use bukia_hft.Base.{◌≡◌, refl, ◌⊎◌, inl, ◌↔◌, ◌<◌, arith, some, [], ◌∷◌, find_row}
use Prim.Native.Char.{code}
use bukia_hft.Base.Int.{pos, ◌+ℤ◌}
use bukia_hft.Tx.{bad_request, permanent, service, ok, err}
use bukia_hft.Repositories.Idempotency
use bukia_hft.Repositories.Ledger.{balance_of, text}
use bukia_hft.Repositories.Ledger
use bukia_hft.Repositories.Ledger.Entries.{total}
use bukia_hft.Repositories.Wallet
use bukia_hft.TransferService.{Payload, get_credit_amount}
use bukia_hft.TransferService.Execute.{execute_transaction}
use bukia_hft.TransferService.Enqueue.{Api, enqueue_transfer}
use bukia_hft.TransferService.Payable.{IsPayable}
use bukia_hft.TransferService.Succeeds.{payable_transfer_succeeds}
use bukia_hft.TransferService.Funds.{
  MovesFunds, execute_transaction-MovesFunds, transfer_conserves_total,
  self_or_tagged_transfer_writes_nothing,
}
use bukia_hft.TransferService.Outcome.{
  execute_transaction-eq-ok, execute_transaction-eq-err, IsReplay, IsFresh,
}
use bukia_hft.TransferService.Replay.{completed_key_returns_transfer}
use bukia_hft.TransferService.Reported.{HasTransfer, process-HasTransfer}
use bukia_hft.TransferService.Admission.{enqueue_decides_by_first_character}
use bukia_hft.TransferService.Once.{IsOnce}
use bukia_hft.Worker.{run_job}
use bukia_hft.Worker.Once.{run_jobs, run_jobs-IsOnce}
use bukia_hft.Worker.Overwrites.{email_error_fails_committed_transfer}
use bukia_hft.Example.{
  pending_record, ada, db, moody, paid, payload, platform, runtime, wallet, world,
}
use bukia_hft.Example.Reading.{platform-ReadsBalances, platform-ReadsAlike}
use bukia_hft.Tests.{
  after_job, db-IsOnce, executed, greedy, new_key, paid-IsCompleted, processed, refused,
}

execute_transaction-MovesFunds_example : MovesFunds platform payload db 5 paid
execute_transaction-MovesFunds_example =
    execute_transaction-MovesFunds platform payload db 5 paid platform-ReadsBalances
      platform-ReadsAlike new_key executed

run_jobs-IsOnce_example : IsOnce "k1" (run_jobs runtime 3 (payload ∷ payload ∷ []) world).db
run_jobs-IsOnce_example =
    run_jobs-IsOnce runtime 3 "k1" (payload ∷ payload ∷ []) world (λ ms v h. h) db-IsOnce

execute_transaction-eq-ok_example :
    IsReplay payload db (some 5) paid ⊎ IsFresh platform payload db (some 5) paid
execute_transaction-eq-ok_example =
    execute_transaction-eq-ok platform payload db (some 5) paid executed

execute_transaction-eq-err_example : db ≡ db
execute_transaction-eq-err_example =
    execute_transaction-eq-err platform greedy db (permanent "Insufficient funds") db refused

completed_key_returns_transfer_example :
    ((execute_transaction platform greedy paid).0 ≡ ok (some 5))
    × ((execute_transaction platform greedy paid).1
        ≡ record paid { records = (execute_transaction platform greedy paid).1.records })
completed_key_returns_transfer_example =
    completed_key_returns_transfer platform greedy 5 paid (λ e. cc) paid-IsCompleted

transfer_conserves_total_example : total paid.ledger ≡ total db.ledger
unfolding Wallet.find_by_id find_row
transfer_conserves_total_example =
    transfer_conserves_total platform payload db (some 5) paid (wallet 1 7 "USD") (wallet 2 8 "USD")
      refl refl refl executed

process-HasTransfer_example : HasTransfer "k1" 5 after_job.db
process-HasTransfer_example = process-HasTransfer runtime 3 payload world 5 after_job processed

abbrev to_self : Payload
to_self = record payload { to_wallet_id = 1 }

self_or_tagged_transfer_writes_nothing_example :
    (execute_transaction platform to_self db).1
    ≡ record db { records = (execute_transaction platform to_self db).1.records }
self_or_tagged_transfer_writes_nothing_example =
    self_or_tagged_transfer_writes_nothing platform to_self db (inl refl)

abbrev api : Api
api = record { db = db; jobs = [] }

abbrev odd : Payload
odd = record payload { amount = "Z" }

enqueue_decides_by_first_character_example :
    ((enqueue_transfer platform odd api).0 ≡ err (bad_request "Insufficient funds"))
    ↔ (code "I" < code "Z")
unfolding Wallet.find_by_id Wallet.get_balance balance_of find_row ◌+ℤ◌
enqueue_decides_by_first_character_example =
    enqueue_decides_by_first_character platform odd api (wallet 1 7 "USD") "I" "Z" "IIIIIIII" ""
      refl refl refl refl (omega arith)

email_error_fails_committed_transfer_example :
    ((run_job moody 3 payload world).0 ≡ err (service "email"))
    × ((run_job moody 3 payload world).1.db ≡ (Idempotency.mark_as_failed "k1" "email" paid).1)
    × HasTransfer "k1" 5 (run_job moody 3 payload world).1.db
unfolding find_row
email_error_fails_committed_transfer_example =
    email_error_fails_committed_transfer moody 3 payload world 5 paid ada executed refl refl refl

payload-IsPayable : IsPayable platform payload db
unfolding Wallet.find_by_id Ledger.find_by_idempotency_key Ledger.get_balance_for_wallet balance_of
    get_credit_amount find_row ◌+ℤ◌
payload-IsPayable = record {
  from_wallet = wallet 1 7 "USD";
  to_wallet = wallet 2 8 "USD";
  from_found = refl;
  to_found = refl;
  owner = refl;
  distinct = λ e. omega (arith, e);
  untagged = refl;
  value = pos 4;
  parsed = refl;
  positive = omega arith;
  covered = refl;
  sent = text "IIII";
  priced = refl;
  amount = pos 4;
  read = refl;
  credited = pos 4;
  credit_read = refl;
  no_entry = refl;
}

payable_transfer_succeeds_example : (execute_transaction platform payload db).0 ≡ ok (some 5)
unfolding find_row
payable_transfer_succeeds_example =
    payable_transfer_succeeds platform payload db pending_record (λ e. cc) refl new_key
      payload-IsPayable
