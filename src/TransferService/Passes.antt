-- ===== src/TransferService/Passes.antt =====
-- The steps of `executeTransaction` (services/transfer.services.ts) where they do not throw.
use bukia_hft.Base.{◌≡◌, ◌≢◌, ◌+◌, refl, false, some, List, [], ◌∷◌, ◌++◌, arith}
use bukia_hft.Base.Int.{ℤ}
use bukia_hft.Db.{Db, LedgerEntry, Wallet, Transfer, transfer_id}
use bukia_hft.Tx.{Result, ok, Tx, TxState, ◌>>=◌, statement, query, select}
use bukia_hft.Platform.{Platform}
use bukia_hft.Repositories.Idempotency
use bukia_hft.Repositories.Ledger
use bukia_hft.Repositories.Ledger.{
  Amount, numeric_of, clashes, key_is, wallet_is, insert_entry, debit_entry, credit_entry,
  EntryParams,
}
use bukia_hft.Repositories.Wallet
use bukia_hft.Repositories.Transfer
use bukia_hft.TransferService.{
  Payload, validate_transfer_request, assert_user_owns_wallet, check_funds, get_wallets,
  update_wallet_versions,
}
use bukia_hft.TransferService.Execute.{
  entry_params, transfer_row, create_transfer_entries, create_ledger_entries,
  create_transfer_record, complete_transfer, record_transfer,
}
use bukia_hft.TransferService.Payable.{IsPayable, IsSettleable, insert_passes, versions_match}

pub >>=-of_ok :
    {A B : Type 0} (m : Tx A) (f : A → Tx B) (s u : TxState) (a : A) (r : Result B × TxState)
    → m s ≡ (ok a, u)
    → f a u ≡ r
    → (m >>= f) s ≡ r
>>=-of_ok m f s u a r h k = ground (arith, k)

pub validate-passes :
    (platform : Platform) (p : Payload) (s : TxState)
    → s.aborted ≡ false
    → IsPayable platform p s.work
    → validate_transfer_request platform p s ≡ (ok tt, s)
unfolding validate_transfer_request assert_user_owns_wallet check_funds select query statement
validate-passes platform p s live i =
    ground (arith, i.from_found, i.owner, i.parsed, i.positive, i.covered)

pub get_wallets-passes :
    (p : Payload) (s : TxState) (f t : Wallet)
    → s.aborted ≡ false
    → Wallet.find_by_id p.from_wallet_id s.work ≡ some f
    → Wallet.find_by_id p.to_wallet_id s.work ≡ some t
    → get_wallets p.from_wallet_id p.to_wallet_id s ≡ (ok (f, t), s)
unfolding get_wallets select query statement
get_wallets-passes p s f t live hf ht = ground arith

pub update_wallet_versions-passes :
    (f t : Wallet) (s : TxState)
    → s.aborted ≡ false
    → (Wallet.increment_version_if_match f.id f.version s.work).0 ≢ 0
    → (Wallet.increment_version_if_match t.id t.version
        (Wallet.increment_version_if_match f.id f.version s.work).1).0
      ≢ 0
    → (u : TxState) × (update_wallet_versions f t s ≡ (ok tt, u))
      × (u.aborted ≡ false)
      × (u.work.ledger ≡ s.work.ledger)
unfolding update_wallet_versions query statement Wallet.increment_version_if_match
update_wallet_versions-passes f t s live hf ht = (
  record s {
    work =
        (Wallet.increment_version_if_match t.id t.version
          (Wallet.increment_version_if_match f.id f.version s.work).1).1;
  },
  ground arith,
  live,
  refl,
)

pub create_ledger_entries-passes :
    (platform : Platform) (p : Payload) (sent : Amount) (s : TxState) (w : Db)
    → s.aborted ≡ false
    → Ledger.insert_transfer_entries platform.numeric (entry_params p sent) s.work ≡ ok w
    → create_ledger_entries platform p sent s ≡ (ok tt, record s { work = w })
unfolding create_ledger_entries create_transfer_entries select query statement
create_ledger_entries-passes platform p sent s w live h = ground arith

pub create_transfer_record-passes :
    (platform : Platform) (p : Payload) (s : TxState) (a : ℤ) (f t : Wallet)
    → s.aborted ≡ false
    → platform.numeric p.amount ≡ some a
    → Wallet.find_by_id p.from_wallet_id s.work ≡ some f
    → Wallet.find_by_id p.to_wallet_id s.work ≡ some t
    → let row = transfer_row p a s.work.next_transfer in
      create_transfer_record platform p s ≡ (
        ok row,
        record s {
          work = record s.work {
            transfers = s.work.transfers ++ row ∷ [];
            next_transfer = s.work.next_transfer + 1;
          };
        },
      )
unfolding create_transfer_record statement Transfer.create_transfer Wallet.find_by_id
create_transfer_record-passes platform p s a f t live read hf ht = ground arith

pub complete_transfer-passes :
    (platform : Platform) (p : Payload) (f t : Wallet) (row : Transfer) (s u : TxState)
    → update_wallet_versions f t s ≡ (ok tt, u)
    → u.aborted ≡ false
    → complete_transfer platform p (f, t) row s ≡ (
      ok (some row.id),
      record u {
        work =
            (Idempotency.mark_completed p.idempotency_key
              (some (transfer_id (some row.id)))
              u.work).1;
      },
    )
unfolding complete_transfer query statement
complete_transfer-passes platform p f t row s u bumped live = ground arith

-- The ledger with the two rows of the transfer.
abbrev pub with_entries :
    {platform : Platform} (p : Payload) {db : Db} → IsSettleable platform p db → List LedgerEntry
with_entries p {db} i =
    (db.ledger ++ debit_entry (entry_params p i.sent) i.amount db.next_entry ∷ [])
    ++ credit_entry (entry_params p i.sent) i.credited (db.next_entry + 1) ∷ []

pub record_transfer-passes :
    (platform : Platform) (p : Payload) (s : TxState)
    → s.aborted ≡ false
    → (i : IsSettleable platform p s.work)
    → (t : TxState) × (record_transfer platform p (i.from_wallet, i.to_wallet) i.sent s
        ≡ (ok (some s.work.next_transfer), t))
      × (t.aborted ≡ false)
      × (t.work.ledger ≡ with_entries p i)
unfolding record_transfer Wallet.find_by_id Idempotency.mark_completed
record_transfer-passes platform p s live i =
    let q = entry_params p i.sent in
    let w1 : Db = record s.work {
      ledger = with_entries p i;
      next_entry = s.work.next_entry + 1 + 1;
    } in
    let row = transfer_row p i.amount s.work.next_transfer in
    let w2 : Db = record w1 {
      transfers = s.work.transfers ++ row ∷ [];
      next_transfer = s.work.next_transfer + 1;
    } in
    let s1 : TxState = record s { work = w1 } in
    let s2 : TxState = record s { work = w2 } in
    let (one, two) =
      versions_match p w2 i.from_wallet i.to_wallet i.from_found i.to_found i.distinct in
    let (u, bumped, live', kept) =
      update_wallet_versions-passes i.from_wallet i.to_wallet s2 live one two in
    let inserted =
      create_ledger_entries-passes platform p i.sent s w1 live
        (insert_passes platform p s.work i) in
    let saved =
      create_transfer_record-passes platform p s1 i.amount i.from_wallet i.to_wallet live i.read
        i.from_found i.to_found in
    let done =
      complete_transfer-passes platform p i.from_wallet i.to_wallet row s2 u bumped live' in
    (
      _,
      >>=-of_ok (create_ledger_entries platform p i.sent)
          (λ _.
            create_transfer_record platform p
            >>= complete_transfer platform p (i.from_wallet, i.to_wallet))
          s s1 tt _ inserted
          (>>=-of_ok (create_transfer_record platform p)
            (complete_transfer platform p (i.from_wallet, i.to_wallet)) s1 s2 row _ saved done),
      live',
      kept,
    )
