-- ===== src/TransferService/Funds.antt =====
-- What `executeTransaction` does to the money: balances, the total, and the cases in which no money
-- moves.
use bukia_hft.Base.{
  [], ◌∷◌, ◌++◌, ◌≡◌, refl, sym, ap, ◌∙◌, ℕ, false, none, some, arith, inl, inr, ◌⊎◌, ◌≢◌, eq_iff,
  ◌==◌, if◌then◌else◌,
}
use bukia_hft.Base.Int.{ℤ, pos, ◌+ℤ◌, ◌-ℤ◌, ◌≤ℤ◌, ◌<ℤ◌, int_laws, ltb_ℤ}
use bukia_hft.Db.{Db, Wallet}
use bukia_hft.Tx.{Result, ok, err}
use bukia_hft.Platform.{Platform, ReadsBalances, ReadsAlike}
use bukia_hft.Repositories.Ledger
use bukia_hft.Repositories.Ledger.{Amount, text, balance_of, numeric_of}
use bukia_hft.Repositories.Ledger.Entries.{total}
use bukia_hft.Repositories.Wallet
use bukia_hft.Repositories.Transfer
use bukia_hft.TransferService.{Payload, TransferResult, get_credit_amount}
use bukia_hft.TransferService.Execute.{execute_transaction, transfer_row}
use bukia_hft.TransferService.Performed.{Performed}
use bukia_hft.TransferService.Effects.{inserted, from-ne-to, balance_lem, total_lem, transfers_lem}
use bukia_hft.TransferService.Outcome.{
  SameButRecords, execute_transaction-eq-ok, execute_transaction-eq-err,
}

-- Between wallets of one currency the amount itself is credited.
same_currency_amount :
    (platform : Platform) (p : Payload) (ws : Wallet × Wallet) (c : Amount)
    → ws.0.currency ≡ ws.1.currency
    → get_credit_amount platform p ws ≡ ok c
    → c ≡ text p.amount
unfolding get_credit_amount
same_currency_amount platform p ws c same h = ground (arith, eq_iff ws.0.currency ws.1.currency)

module _ {platform : Platform} {p : Payload} {db : Db} {id : ℕ} {db' : Db}
    (t : Performed platform p db id db') where
  credited-eq-amount :
      t.from_wallet.currency ≡ t.to_wallet.currency → (inserted t).credited ≡ (inserted t).amount
  credited-eq-amount same =
      let e : t.sent ≡ text p.amount =
        same_currency_amount platform p (t.from_wallet, t.to_wallet) t.sent same t.priced in
      let read : numeric_of platform.numeric (text p.amount) ≡ some (inserted t).credited =
        (rw e at (inserted t).credit_read) in
      cc (read, (inserted t).read)

  -- The amount that is debited is positive and was in the wallet.
  amount_covered :
      ReadsBalances platform
      → ReadsAlike platform p.amount
      → (pos 0 <ℤ (inserted t).amount)
        × ((inserted t).amount ≤ℤ balance_of p.from_wallet_id db.ledger)
  unfolding Ledger.get_balance_for_wallet
  amount_covered balances alike =
      let v = t.validated in
      let read : some v.amount ≡ some (inserted t).amount =
        sym v.parsed ∙ alike (inserted t).amount (inserted t).read in
      let same : v.amount ≡ (inserted t).amount = cc in
      let covered : ltb_ℤ (balance_of p.from_wallet_id db.ledger) v.amount ≡ false =
        (rw (balances (balance_of p.from_wallet_id db.ledger)) at v.covered) in
      (rw (← same) v.positive, rw (← same) (ground arith))

-- What a transfer does: its owner's wallet pays an amount that it covers, the other wallet is credited
-- with it, or with its conversion, and one row of `transfer` records it.
pub record MovesFunds (platform : Platform) (p : Payload) (db : Db) (id : ℕ) (db' : Db)
    : Type 0 where
  pub from_wallet : Wallet
  pub to_wallet : Wallet
  pub from_found : Wallet.find_by_id p.from_wallet_id db ≡ some from_wallet
  pub to_found : Wallet.find_by_id p.to_wallet_id db ≡ some to_wallet
  pub distinct : p.from_wallet_id ≢ p.to_wallet_id
  pub owner : from_wallet.user_id ≡ p.user_id
  pub amount : ℤ
  pub read : platform.numeric p.amount ≡ some amount
  pub positive : pos 0 <ℤ amount
  pub covered : amount ≤ℤ balance_of p.from_wallet_id db.ledger
  pub sent : Amount
  pub priced : get_credit_amount platform p (from_wallet, to_wallet) ≡ ok sent
  pub credited : ℤ
  pub credit_read : numeric_of platform.numeric sent ≡ some credited
  pub balances :
      (w : ℕ)
      → balance_of w db'.ledger
        ≡ balance_of w db.ledger
          +ℤ (if p.from_wallet_id == w then pos 0 -ℤ amount else pos 0)
          +ℤ (if p.to_wallet_id == w then credited else pos 0)
  pub recorded : db'.transfers ≡ db.transfers ++ transfer_row p amount id ∷ []

Performed-MovesFunds :
    (platform : Platform) (p : Payload) (db claimed : Db) (id : ℕ) (db' : Db)
    → ReadsBalances platform
    → ReadsAlike platform p.amount
    → SameButRecords db claimed
    → Performed platform p claimed id db'
    → MovesFunds platform p db id db'
unfolding Wallet.find_by_id
Performed-MovesFunds platform p db claimed id db' balances alike kept t =
    let ledger : claimed.ledger ≡ db.ledger = ap (λ (d : Db). d.ledger) kept in
    let wallets : claimed.wallets ≡ db.wallets = ap (λ (d : Db). d.wallets) kept in
    let transfers : claimed.transfers ≡ db.transfers = ap (λ (d : Db). d.transfers) kept in
    let (positive, covered) = amount_covered t balances alike in
    let v = t.validated in
    let (a, read, numbered, rows) = transfers_lem t in
    let one : some a ≡ some (inserted t).amount = sym read ∙ (inserted t).read in
    let payer : some v.wallet ≡ some t.from_wallet = sym v.found ∙ t.from_found in
    record {
      from_wallet = t.from_wallet;
      to_wallet = t.to_wallet;
      from_found = rw wallets at t.from_found;
      to_found = rw wallets at t.to_found;
      distinct = from-ne-to t;
      owner = cc (payer, v.owner);
      amount = (inserted t).amount;
      read = (inserted t).read;
      positive = positive;
      covered = rw ledger at covered;
      sent = t.sent;
      priced = t.priced;
      credited = (inserted t).credited;
      credit_read = (inserted t).credit_read;
      balances = λ w. rw ledger at (balance_lem t w);
      recorded = cc (rows, transfers, one);
    }

-- Let the platform read back the balances that it prints, and the amount as the database reads it. When
-- `executeTransaction` returns an id for a key that had no transfer, the owner of the source wallet has
-- paid a positive amount that the wallet covered, into another wallet: the source balance has fallen by
-- the amount, the target balance has risen by the credited amount, which is that of `getCreditAmount`,
-- every other balance is the same, and one row with this id has been added to `transfer`.
pub execute_transaction-MovesFunds :
    (platform : Platform) (p : Payload) (db : Db) (id : ℕ) (db' : Db)
    → ReadsBalances platform
    → ReadsAlike platform p.amount
    → Transfer.find_by_idempotency_key p.idempotency_key db ≡ none
    → execute_transaction platform p db ≡ (ok (some id), db')
    → MovesFunds platform p db id db'
execute_transaction-MovesFunds platform p db id db' balances alike new h =
    elim (execute_transaction-eq-ok platform p db (some id) db' h) [
      | inl old ↦ absurd (cc (old.existing.1, new))
      | inr f ↦
          let same : f.id ≡ id = cc (f.returned) in
          rw same at (
            Performed-MovesFunds platform p db f.claimed f.id db' balances alike f.kept f.performed)
    ]

-- When `executeTransaction` returns, and both wallets exist and have one currency, the sum of the
-- ledger's credits less its debits, over all wallets, is as before.
pub transfer_conserves_total :
    (platform : Platform) (p : Payload) (db : Db) (r : TransferResult) (db' : Db)
    (from_wallet to_wallet : Wallet)
    → Wallet.find_by_id p.from_wallet_id db ≡ some from_wallet
    → Wallet.find_by_id p.to_wallet_id db ≡ some to_wallet
    → from_wallet.currency ≡ to_wallet.currency
    → execute_transaction platform p db ≡ (ok r, db')
    → total db'.ledger ≡ total db.ledger
unfolding Wallet.find_by_id
transfer_conserves_total platform p db r db' fw tw found_from found_to same h =
    elim (execute_transaction-eq-ok platform p db r db' h) [
      | inl old ↦ ap (λ (d : Db). total d.ledger) old.kept
      | inr f ↦
          let t = f.performed in
          let ledger : f.claimed.ledger ≡ db.ledger = ap (λ (d : Db). d.ledger) f.kept in
          let wallets : f.claimed.wallets ≡ db.wallets = ap (λ (d : Db). d.wallets) f.kept in
          let from_same : some fw ≡ some t.from_wallet =
            sym found_from ∙ (rw wallets at t.from_found) in
          let to_same : some tw ≡ some t.to_wallet = sym found_to ∙ (rw wallets at t.to_found) in
          let one : (inserted t).credited ≡ (inserted t).amount =
            credited-eq-amount t (cc (from_same, to_same, same)) in
          total_lem t ∙ (rw (one, ledger) (omega int_laws))
    ]

-- A call for a transfer from a wallet to itself, or for one with a `txId`, writes nothing besides the
-- idempotency records, whether it throws or returns the outcome of an earlier run.
pub self_or_tagged_transfer_writes_nothing :
    (platform : Platform) (p : Payload) (db : Db)
    → (p.from_wallet_id ≡ p.to_wallet_id) ⊎ (p.tx_id ≢ none)
    → let db' = (execute_transaction platform p db).1 in db' ≡ record db { records = db'.records }
self_or_tagged_transfer_writes_nothing platform p db which =
    go (execute_transaction platform p db) refl
  where
    go :
        (q : Result TransferResult × Db)
        → execute_transaction platform p db ≡ q
        → q.1 ≡ record db { records = q.1.records }
    go (err e, db') h = rw (execute_transaction-eq-err platform p db e db' h) refl
    go (ok r, db') h = elim (execute_transaction-eq-ok platform p db r db' h) [
      | inl old ↦ old.kept
      | inr f ↦ elim which [
        | inl self ↦ absurd (from-ne-to f.performed self)
        | inr tagged ↦ absurd (tagged (inserted f.performed).untagged)
      ]
    ]
