-- ===== src/TransferService/Performed.antt =====
-- What a transfer's transaction has done when it returns, as a relation between its two databases.
use bukia_hft.Base.{◌≡◌, refl, ap, ◌∙◌, ⊤, ℕ, true, false, some, arith, inl, inr, ◌≢◌, ◌⊎◌}
use bukia_hft.Db.{Db, Wallet, Transfer, transfer_id}
use bukia_hft.Tx.{Result, ok, err, TxState, ◌>>=◌}
use bukia_hft.Tx.Inversion.{>>=-eq-ok, statement-eq-ok}
use bukia_hft.Platform.{Platform}
use bukia_hft.Repositories.Idempotency
use bukia_hft.Repositories.Ledger
use bukia_hft.Repositories.Ledger.{Amount}
use bukia_hft.Repositories.Wallet
use bukia_hft.Repositories.Transfer
use bukia_hft.TransferService.{
  Payload, TransferResult, get_credit_amount, validate_transfer_request, get_wallets,
}
use bukia_hft.TransferService.Steps.{
  IsValidated, validate_transfer_request-eq-ok, get_wallets-eq-ok,
}
use bukia_hft.TransferService.Execute.{
  entry_params, transfer_row, create_ledger_entries, create_transfer_record, complete_transfer,
  record_transfer, settle_transfer, perform_transfer,
}

create_ledger_entries-eq-ok :
    (platform : Platform) (p : Payload) (c : Amount) (s : TxState) (a : ⊤) (t : TxState)
    → create_ledger_entries platform p c s ≡ (ok a, t)
    → (t.aborted ≡ true)
      ⊎ ((w : Db) × (Ledger.insert_transfer_entries platform.numeric (entry_params p c) s.work
            ≡ ok w)
          × (t ≡ record s { work = w }))
unfolding create_ledger_entries
create_ledger_entries-eq-ok platform p c s a t h =
    go (Ledger.insert_transfer_entries platform.numeric (entry_params p c) s.work) refl
  where
    go :
        (r : Result Db)
        → Ledger.insert_transfer_entries platform.numeric (entry_params p c) s.work ≡ r
        → (t.aborted ≡ true)
          ⊎ ((w : Db) × (Ledger.insert_transfer_entries platform.numeric (entry_params p c) s.work
                ≡ ok w)
              × (t ≡ record s { work = w }))
    go (ok w) e = inr (w, e, ground arith)
    go (err x) e = inl (ground arith)

create_transfer_record-eq-ok :
    (platform : Platform) (p : Payload) (s : TxState) (row : Transfer) (t : TxState)
    → create_transfer_record platform p s ≡ (ok row, t)
    → (s.aborted ≡ false)
      × (w : Db) × (Transfer.create_transfer (platform.numeric p.amount) (transfer_row p) s.work
          ≡ ok (row, w))
      × (t ≡ record s { work = w })
unfolding create_transfer_record
create_transfer_record-eq-ok platform p s row t h =
    statement-eq-ok (Transfer.create_transfer (platform.numeric p.amount) (transfer_row p)) s row t
      h

complete_transfer-eq-ok :
    (platform : Platform) (p : Payload) (ws : Wallet × Wallet) (row : Transfer) (s : TxState)
    (r : TransferResult) (t : TxState)
    → complete_transfer platform p ws row s ≡ (ok r, t)
    → let first = Wallet.increment_version_if_match ws.0.id ws.0.version s.work in
      let second = Wallet.increment_version_if_match ws.1.id ws.1.version first.1 in
      (first.0 ≢ 0)
      × (second.0 ≢ 0)
      × (r ≡ some row.id)
      × (t ≡ record s {
        work =
            (Idempotency.mark_completed p.idempotency_key
              (some (transfer_id (some row.id)))
              second.1).1;
      })
unfolding complete_transfer
complete_transfer-eq-ok platform p ws row s r t h =
    (ground arith, ground arith, ground arith, ground arith)

-- A transfer that went through from the database `db` to `db'`: its checks, its parts, and the
-- state after each statement.
pub record Performed (platform : Platform) (p : Payload) (db : Db) (id : ℕ) (db' : Db)
    : Type 0 where
  pub validated : IsValidated platform p db
  pub from_wallet : Wallet
  pub to_wallet : Wallet
  pub from_found : Wallet.find_by_id p.from_wallet_id db ≡ some from_wallet
  pub to_found : Wallet.find_by_id p.to_wallet_id db ≡ some to_wallet
  pub sent : Amount
  pub priced : get_credit_amount platform p (from_wallet, to_wallet) ≡ ok sent
  pub entered : Db
  pub entries :
      Ledger.insert_transfer_entries platform.numeric (entry_params p sent) db ≡ ok entered
  pub row : Transfer
  pub saved : Db
  pub recorded :
      Transfer.create_transfer (platform.numeric p.amount) (transfer_row p) entered
      ≡ ok (row, saved)
  pub from_bumped :
      (Wallet.increment_version_if_match from_wallet.id from_wallet.version saved).0 ≢ 0
  pub to_bumped :
      (Wallet.increment_version_if_match to_wallet.id to_wallet.version
        (Wallet.increment_version_if_match from_wallet.id from_wallet.version saved).1).0
      ≢ 0
  pub numbered : id ≡ row.id
  pub final :
      db'
      ≡ (Idempotency.mark_completed p.idempotency_key
          (some (transfer_id (some id)))
          (Wallet.increment_version_if_match to_wallet.id to_wallet.version
            (Wallet.increment_version_if_match from_wallet.id from_wallet.version saved).1).1).1

-- The statements after the checks.
abbrev Recorded : Platform → Payload → Wallet × Wallet → Amount → Db → ℕ → Db → Type 0
Recorded platform p ws c db id db' =
    (entered : Db) × (Ledger.insert_transfer_entries platform.numeric (entry_params p c) db
      ≡ ok entered)
    × (row : Transfer) × (saved : Db) × (Transfer.create_transfer (platform.numeric p.amount)
          (transfer_row p) entered
        ≡ ok (row, saved))
    × ((Wallet.increment_version_if_match ws.0.id ws.0.version saved).0 ≢ 0)
    × ((Wallet.increment_version_if_match ws.1.id ws.1.version
          (Wallet.increment_version_if_match ws.0.id ws.0.version saved).1).0
        ≢ 0)
    × (id ≡ row.id)
    × (db'
        ≡ (Idempotency.mark_completed p.idempotency_key (some (transfer_id (some id)))
            (Wallet.increment_version_if_match ws.1.id ws.1.version
              (Wallet.increment_version_if_match ws.0.id ws.0.version saved).1).1).1)

record_transfer-eq-ok :
    (platform : Platform) (p : Payload) (ws : Wallet × Wallet) (c : Amount) (s : TxState)
    (r : TransferResult) (t : TxState)
    → record_transfer platform p ws c s ≡ (ok r, t)
    → (id : ℕ) × (r ≡ some id) × (t.aborted ≡ false) × Recorded platform p ws c s.work id t.work
unfolding record_transfer
record_transfer-eq-ok platform p ws c s r t h =
    let (_, u, entered, more) =
      >>=-eq-ok (create_ledger_entries platform p c)
        (λ _. create_transfer_record platform p >>= λ saved. complete_transfer platform p ws saved)
        s h in
    let (row, v, saved, rest) =
      >>=-eq-ok (create_transfer_record platform p) (complete_transfer platform p ws) u more in
    let (live, w, made, vw) = create_transfer_record-eq-ok platform p u row v saved in
    elim (create_ledger_entries-eq-ok platform p c s tt u entered) [
      | inl dead ↦ absurd (ground arith)
      | inr (w0, inserted, uw) ↦
          let (b1, b2, same, tw) = complete_transfer-eq-ok platform p ws row v r t rest in
          (
            row.id,
            same,
            ap (λ (x : TxState). x.aborted) tw ∙ ap (λ (x : TxState). x.aborted) vw ∙ live,
            (
              w0,
              inserted,
              row,
              w,
              (rw uw at made),
              (rw vw at b1),
              (rw vw at b2),
              refl,
              ap (λ (x : TxState). x.work) tw ∙ (rw vw),
            ),
          )
    ]

settle_transfer-eq-ok :
    (platform : Platform) (p : Payload) (ws : Wallet × Wallet) (s : TxState) (r : TransferResult)
    (t : TxState)
    → settle_transfer platform p ws s ≡ (ok r, t)
    → (c : Amount) × (get_credit_amount platform p ws ≡ ok c)
      × (record_transfer platform p ws c s ≡ (ok r, t))
unfolding settle_transfer
settle_transfer-eq-ok platform p ws s r t h = go (get_credit_amount platform p ws) refl
  where
    go :
        (q : Result Amount)
        → get_credit_amount platform p ws ≡ q
        → (c : Amount) × (get_credit_amount platform p ws ≡ ok c)
          × (record_transfer platform p ws c s ≡ (ok r, t))
    go (ok c) e = (c, e, ground arith)
    go (err x) e = absurd (ground arith)

-- A transfer's transaction that returns for a new key returns the id of its row, and has passed
-- every check and written every row.
pub perform_transfer-eq-ok :
    (platform : Platform) (p : Payload) (s : TxState) (r : TransferResult) (t : TxState)
    → perform_transfer platform p s ≡ (ok r, t)
    → (id : ℕ) × (r ≡ some id) × (t.aborted ≡ false) × Performed platform p s.work id t.work
unfolding perform_transfer
perform_transfer-eq-ok platform p s r t h =
    let (_, u, checked, more) =
      >>=-eq-ok (validate_transfer_request platform p)
        (λ _. get_wallets p.from_wallet_id p.to_wallet_id >>= settle_transfer platform p) s h in
    let (same, live, validated) = validate_transfer_request-eq-ok platform p s tt u checked in
    let (ws, v, got, rest) =
      >>=-eq-ok (get_wallets p.from_wallet_id p.to_wallet_id) (settle_transfer platform p) u more in
    let (same', from_found, to_found) =
      get_wallets-eq-ok p.from_wallet_id p.to_wallet_id u ws v got in
    let back : v ≡ s = same' ∙ same in
    let (c, priced, settled) = settle_transfer-eq-ok platform p ws v r t rest in
    let (id, is_id, ended, (entered, entries, row, saved, recorded, b1, b2, numbered, final)) =
      record_transfer-eq-ok platform p ws c s r t (rw back at settled) in
    (
      id,
      is_id,
      ended,
      record {
        validated = validated;
        from_wallet = ws.0;
        to_wallet = ws.1;
        from_found = (rw same at from_found);
        to_found = (rw same at to_found);
        sent = c;
        priced = priced;
        entered = entered;
        entries = entries;
        row = row;
        saved = saved;
        recorded = recorded;
        from_bumped = b1;
        to_bumped = b2;
        numbered = numbered;
        final = final;
      },
    )
