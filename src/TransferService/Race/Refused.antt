-- ===== src/TransferService/Race/Refused.antt =====
-- The end of `executeTransaction` (services/transfer.services.ts) when the version of the source that was
-- read is out of date.
use bukia_hft.Base.{◌≡◌, refl, ◌+◌, false, [], ◌∷◌, ◌++◌, arith}
use bukia_hft.Db.{Db, Wallet, Transfer}
use bukia_hft.Tx.{err, optimistic_lock, TxState, ◌>>=◌, statement, query}
use bukia_hft.Platform.{Platform}
use bukia_hft.Repositories.Wallet
use bukia_hft.TransferService.{Payload, update_wallet_versions}
use bukia_hft.TransferService.Execute.{
  transfer_row, create_ledger_entries, create_transfer_record, complete_transfer, record_transfer,
}
use bukia_hft.TransferService.Payable.{IsSettleable, insert_passes}
use bukia_hft.TransferService.Passes.{
  with_entries, >>=-of_ok, create_ledger_entries-passes, create_transfer_record-passes,
}

complete_transfer-refuses :
    (platform : Platform) (p : Payload) (ws : Wallet × Wallet) (row : Transfer) (s : TxState)
    → s.aborted ≡ false
    → (Wallet.increment_version_if_match ws.0.id ws.0.version s.work).0 ≡ 0
    → (t : TxState) × (complete_transfer platform p ws row s
        ≡ (err (optimistic_lock "Optimistic lock failed for fromWallet"), t))
      × (t.committed ≡ s.committed)
unfolding complete_transfer update_wallet_versions query statement
complete_transfer-refuses platform p ws row s live gone = (
  record s {
    work =
        (Wallet.increment_version_if_match ws.1.id ws.1.version
          (Wallet.increment_version_if_match ws.0.id ws.0.version s.work).1).1;
  },
  ground arith,
  refl,
)

pub record_transfer-refuses :
    (platform : Platform) (p : Payload) (ws : Wallet × Wallet) (s : TxState)
    → s.aborted ≡ false
    → (i : IsSettleable platform p s.work)
    → (Wallet.increment_version_if_match ws.0.id ws.0.version s.work).0 ≡ 0
    → (t : TxState) × (record_transfer platform p ws i.sent s
        ≡ (err (optimistic_lock "Optimistic lock failed for fromWallet"), t))
      × (t.committed ≡ s.committed)
unfolding record_transfer Wallet.find_by_id Wallet.increment_version_if_match
record_transfer-refuses platform p ws s live i gone =
    let w1 : Db = record s.work {
      ledger = with_entries p i;
      next_entry = s.work.next_entry + 1 + 1;
    } in
    let row = transfer_row p i.amount s.work.next_transfer in
    let w2 : Db = record w1 {
      transfers = s.work.transfers ++ row ∷ [];
      next_transfer = s.work.next_transfer + 1;
    } in
    let s1 : TxState = record s { work = w1 } in
    let s2 : TxState = record s { work = w2 } in
    let inserted =
      create_ledger_entries-passes platform p i.sent s w1 live
        (insert_passes platform p s.work i) in
    let saved =
      create_transfer_record-passes platform p s1 i.amount i.from_wallet i.to_wallet live i.read
        i.from_found i.to_found in
    let (t, refused, kept) = complete_transfer-refuses platform p ws row s2 live gone in
    (
      t,
      >>=-of_ok (create_ledger_entries platform p i.sent)
          (λ _. create_transfer_record platform p >>= complete_transfer platform p ws) s s1 tt _
          inserted
          (>>=-of_ok (create_transfer_record platform p) (complete_transfer platform p ws) s1 s2 row
            _ saved refused),
      kept,
    )
