-- ===== src/TransferService/Effects.antt =====
-- The rows that a transfer which went through has written.
use bukia_hft.Base.{
  ◌≡◌, refl, sym, ap, ◌∙◌, update_rows, if◌then◌else◌, ℕ, Option, none, some, [], ◌∷◌, ◌++◌, ◌+◌,
  ◌==◌, arith, ◌≢◌, find_row_sound,
}
use mathlib.Core.Path.{ap₂}
use bukia_hft.Base.Int.{ℤ, pos, ◌+ℤ◌, ◌-ℤ◌, int_laws, +ℤ_zero}
use bukia_hft.Db.{Db, Wallet, Transfer}
use bukia_hft.Tx.{ok}
use bukia_hft.Platform.{Platform}
use bukia_hft.Repositories.Idempotency
use bukia_hft.Repositories.Ledger.{wallet_is, debit_entry, credit_entry, balance_of}
use bukia_hft.Repositories.Ledger.Entries.{
  Inserted, insert_transfer_entries-eq-ok, balance_of-append, total, total-append,
}
use bukia_hft.Repositories.Wallet
use bukia_hft.Repositories.Wallet.Versions.{increment_twice}
use bukia_hft.Repositories.Transfer
use bukia_hft.TransferService.{Payload}
use bukia_hft.TransferService.Execute.{entry_params, transfer_row}
use bukia_hft.TransferService.Performed.{Performed}

create_transfer-eq-ok :
    (o : Option ℤ) (f : ℤ → ℕ → Transfer) (db : Db) (row : Transfer) (w : Db)
    → Transfer.create_transfer o f db ≡ ok (row, w)
    → (v : ℤ) × (o ≡ some v)
      × (row ≡ f v db.next_transfer)
      × (w ≡ record db {
        transfers = db.transfers ++ row ∷ [];
        next_transfer = db.next_transfer + 1;
      })
unfolding Transfer.create_transfer
create_transfer-eq-ok none f db row w h = cc
create_transfer-eq-ok (some v) f db row w h = (v, refl, ground arith, ground arith)

-- The wallet found by an id has that id.
find_by_id-id : (id : ℕ) (db : Db) (w : Wallet) → Wallet.find_by_id id db ≡ some w → w.id ≡ id
unfolding Wallet.find_by_id
find_by_id-id id db w h = ground (arith, find_row_sound (wallet_is id) db.wallets w h)

module _ {platform : Platform} {p : Payload} {db : Db} {id : ℕ} {db' : Db}
    (t : Performed platform p db id db') where
  pub inserted : Inserted platform.numeric (entry_params p t.sent) db t.entered
  inserted =
      insert_transfer_entries-eq-ok platform.numeric (entry_params p t.sent) db t.entered t.entries

  -- No transfer goes from a wallet to itself.
  pub from-ne-to : p.from_wallet_id ≢ p.to_wallet_id
  from-ne-to same =
      let e : t.from_wallet ≡ t.to_wallet = cc (rw same at t.from_found, t.to_found) in
      t.to_bumped (rw (← e) (increment_twice t.from_wallet.id t.from_wallet.version t.saved))

  -- One row of `transfer`, under the next id.
  pub transfers_lem :
      (v : ℤ) × (platform.numeric p.amount ≡ some v)
      × (id ≡ db.next_transfer)
      × (db'.transfers ≡ db.transfers ++ transfer_row p v id ∷ [])
  unfolding Wallet.increment_version_if_match Idempotency.mark_completed
  transfers_lem =
      let (v, read, row, saved) =
        create_transfer-eq-ok (platform.numeric p.amount) (transfer_row p) t.entered t.row t.saved
          t.recorded in
      let next : t.entered.next_transfer ≡ db.next_transfer =
        ap (λ (d : Db). d.next_transfer) inserted.written in
      let old : t.entered.transfers ≡ db.transfers =
        ap (λ (d : Db). d.transfers) inserted.written in
      let numbered : id ≡ t.entered.next_transfer = t.numbered ∙ ap (λ (r : Transfer). r.id) row in
      let same : t.row ≡ transfer_row p v id = row ∙ ap (transfer_row p v) (sym numbered) in
      (
        v,
        read,
        numbered ∙ next,
        ap (λ (d : Db). d.transfers) t.final
            ∙ ap (λ (d : Db). d.transfers) saved
            ∙ ap₂ (λ xs x. xs ++ x ∷ []) old same,
      )

  -- The two rows of the ledger.
  pub ledger_lem :
      db'.ledger
      ≡ (db.ledger ++ debit_entry (entry_params p t.sent) inserted.amount db.next_entry ∷ [])
        ++ credit_entry (entry_params p t.sent) inserted.credited (db.next_entry + 1) ∷ []
  unfolding Wallet.increment_version_if_match Idempotency.mark_completed
  ledger_lem =
      let (v, read, row, saved) =
        create_transfer-eq-ok (platform.numeric p.amount) (transfer_row p) t.entered t.row t.saved
          t.recorded in
      ap (λ (d : Db). d.ledger) t.final
      ∙ ap (λ (d : Db). d.ledger) saved
      ∙ ap (λ (d : Db). d.ledger) inserted.written

  pub wallet_rows :
      db'.wallets
      ≡ (Wallet.increment_version_if_match t.to_wallet.id t.to_wallet.version
          (Wallet.increment_version_if_match t.from_wallet.id t.from_wallet.version db).1).1.wallets
  unfolding Wallet.increment_version_if_match Idempotency.mark_completed
  wallet_rows =
      let (v, read, row, saved) =
        create_transfer-eq-ok (platform.numeric p.amount) (transfer_row p) t.entered t.row t.saved
          t.recorded in
      let same : t.saved.wallets ≡ db.wallets =
        ap (λ (d : Db). d.wallets) saved ∙ ap (λ (d : Db). d.wallets) inserted.written in
      ap (λ (d : Db). d.wallets) t.final
      ∙ ap
          (λ ws.
            update_rows (Wallet.version_is t.to_wallet.id t.to_wallet.version)
              (λ w. record w { version = w.version + 1 })
              (update_rows (Wallet.version_is t.from_wallet.id t.from_wallet.version)
                (λ w. record w { version = w.version + 1 }) ws))
          same

  -- The balance of a wallet afterwards.
  pub balance_lem :
      (w : ℕ)
      → balance_of w db'.ledger
        ≡ balance_of w db.ledger
          +ℤ (if p.from_wallet_id == w then pos 0 -ℤ inserted.amount else pos 0)
          +ℤ (if p.to_wallet_id == w then inserted.credited else pos 0)
  unfolding balance_of
  balance_lem w = rw ledger_lem (simp (balance_of-append, +ℤ_zero))

  -- The sum over all wallets afterwards.
  pub total_lem : total db'.ledger ≡ total db.ledger -ℤ inserted.amount +ℤ inserted.credited
  total_lem = rw ledger_lem (simp total-append (omega int_laws))
