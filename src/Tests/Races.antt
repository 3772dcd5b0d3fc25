-- ===== src/Tests/Races.antt =====
-- Two transfers of the sample wallet at the same time: of 4 and of 6, from a balance of 9.
use bukia_hft.Base.{◌≡◌, refl, ℕ, arith, some, eq_iff, [], ◌∷◌, find_row}
use bukia_hft.Base.Int.{pos, ◌+ℤ◌, ◌<ℤ◌}
use bukia_hft.Db.{Db}
use bukia_hft.Tx.{ok, err, optimistic_lock}
use bukia_hft.Repositories.Ledger
use bukia_hft.Repositories.Ledger.{balance_of, text}
use bukia_hft.Repositories.Wallet
use bukia_hft.Repositories.Transfer
use bukia_hft.TransferService.{Payload, get_credit_amount}
use bukia_hft.TransferService.Execute.{execute_transaction}
use bukia_hft.TransferService.Payable.{IsPayable}
use bukia_hft.TransferService.Race.{execute_between}
use bukia_hft.TransferService.Race.Later.{AreRacing}
use bukia_hft.TransferService.Race.Overdraft.{carries_out}
use bukia_hft.TransferService.Race.Decided.{race_is_decided_by_commit}
use bukia_hft.Example.{platform, db, payload, pending_record, wallet}

abbrev second_payload : Payload
second_payload = record payload { amount = "IIIIII"; idempotency_key = "k2" }

abbrev busy : Db
busy = record db { records = pending_record ∷ record pending_record { key = "k2" } ∷ [] }

abbrev payload-IsPayable : IsPayable platform payload busy
unfolding Wallet.find_by_id Ledger.find_by_idempotency_key Ledger.get_balance_for_wallet balance_of
    get_credit_amount find_row ◌+ℤ◌
payload-IsPayable = record {
  from_wallet = wallet 1 7 "USD";
  to_wallet = wallet 2 8 "USD";
  from_found = refl;
  to_found = refl;
  owner = refl;
  distinct = λ e. omega (arith, e);
  untagged = refl;
  value = pos 4;
  parsed = refl;
  positive = omega arith;
  covered = refl;
  sent = text "IIII";
  priced = refl;
  amount = pos 4;
  read = refl;
  credited = pos 4;
  credit_read = refl;
  no_entry = refl;
}

abbrev second_payload-IsPayable : IsPayable platform second_payload busy
unfolding Wallet.find_by_id Ledger.find_by_idempotency_key Ledger.get_balance_for_wallet balance_of
    get_credit_amount find_row ◌+ℤ◌
second_payload-IsPayable = record {
  from_wallet = wallet 1 7 "USD";
  to_wallet = wallet 2 8 "USD";
  from_found = refl;
  to_found = refl;
  owner = refl;
  distinct = λ e. omega (arith, e);
  untagged = refl;
  value = pos 6;
  parsed = refl;
  positive = omega arith;
  covered = refl;
  sent = text "IIIIII";
  priced = refl;
  amount = pos 6;
  read = refl;
  credited = pos 6;
  credit_read = refl;
  no_entry = refl;
}

abbrev racing : AreRacing platform payload second_payload busy
unfolding find_row Transfer.find_by_idempotency_key
racing = record {
  one_source = refl;
  apart = λ e. cc ((eq_iff "k1" "k2").1 e);
  p_named = λ e. cc;
  q_named = λ e. cc;
  p_record = pending_record;
  p_waiting = refl;
  q_record = record pending_record { key = "k2" };
  q_waiting = refl;
  p_new = refl;
  q_new = refl;
  p_payable = payload-IsPayable;
  q_payable = second_payload-IsPayable;
}

race_is_decided_by_commit_example :
    let other = carries_out platform second_payload in
    let both = execute_between platform other (λ d. d) payload busy in
    (((id : ℕ) × (execute_transaction platform second_payload busy).0 ≡ ok (some id))
      × ((id : ℕ) × both.0 ≡ ok (some id))
      × (balance_of 1 both.1.ledger <ℤ pos 0))
    × (execute_between platform (λ d. d) other payload busy
        ≡ (err (optimistic_lock "Optimistic lock failed for fromWallet"), other busy))
unfolding Wallet.find_by_id Ledger.find_by_idempotency_key Ledger.get_balance_for_wallet balance_of
    get_credit_amount find_row ◌+ℤ◌ Transfer.find_by_idempotency_key
race_is_decided_by_commit_example =
    race_is_decided_by_commit platform payload second_payload busy racing (omega arith)
