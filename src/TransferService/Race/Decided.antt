-- ===== src/TransferService/Race/Decided.antt =====
-- Two transfers from one wallet that the balance does not cover together (services/transfer.services.ts).
use bukia_hft.Base.{◌≡◌, ℕ, some}
use bukia_hft.Base.Int.{pos, ◌+ℤ◌, ◌<ℤ◌}
use bukia_hft.Db.{Db}
use bukia_hft.Tx.{ok, err, optimistic_lock}
use bukia_hft.Platform.{Platform}
use bukia_hft.Repositories.Ledger.{balance_of}
use bukia_hft.TransferService.{Payload}
use bukia_hft.TransferService.Execute.{execute_transaction}
use bukia_hft.TransferService.Race.{execute_between}
use bukia_hft.TransferService.Race.Later.{AreRacing}
use bukia_hft.TransferService.Race.Overdraft.{carries_out, race_overdraws, late_commit_is_refused}

-- Let two requests from one wallet be under different keys, each pending and new, and let each be payable by
-- itself but not both: the balance is below the sum of the amounts. When the other transfer is committed
-- between `validateTransferRequest` and `getWallets`, both transfers return an id, and the balance of the
-- wallet ends below zero. When it is committed after `getWallets`, the call throws the error of a failed
-- optimistic lock, and the tables are as the other transfer alone leaves them.
pub race_is_decided_by_commit :
    (platform : Platform) (p q : Payload) (db : Db) (r : AreRacing platform p q db)
    → balance_of p.from_wallet_id db.ledger <ℤ r.p_payable.amount +ℤ r.q_payable.amount
    → let other = carries_out platform q in
      let both = execute_between platform other (λ d. d) p db in
      (((id : ℕ) × (execute_transaction platform q db).0 ≡ ok (some id))
        × ((id : ℕ) × both.0 ≡ ok (some id))
        × (balance_of p.from_wallet_id both.1.ledger <ℤ pos 0))
      × (execute_between platform (λ d. d) other p db
          ≡ (err (optimistic_lock "Optimistic lock failed for fromWallet"), other db))
race_is_decided_by_commit platform p q db r short =
    (race_overdraws platform p q db r short, late_commit_is_refused platform p q db r)
