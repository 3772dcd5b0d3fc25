-- ===== src/TransferService/Race/Overdraft.antt =====
-- Two transfers from one wallet that run at the same time (services/transfer.services.ts): what becomes of
-- the second one depends on whether the first is committed before or after `getWallets`.
use bukia_hft.Base.{
  ◌≡◌, ◌≢◌, refl, sym, ap, ◌∙◌, ℕ, true, false, some, none, arith, ◌==◌, count-of_some, eq_iff,
}
use mathlib.Core.Path.{subst, ap₂}
use bukia_hft.Base.Int.{pos, ◌+ℤ◌, ◌-ℤ◌, ◌<ℤ◌, int_laws}
use bukia_hft.Db.{Db, Wallet}
use bukia_hft.Tx.{Result, ok, err, optimistic_lock, TxState}
use bukia_hft.Tx.Inversion.{transaction-of_ok, transaction-of_err}
use bukia_hft.Platform.{Platform}
use bukia_hft.Repositories.Idempotency
use bukia_hft.Repositories.Ledger
use bukia_hft.Repositories.Ledger.{balance_of}
use bukia_hft.Repositories.Ledger.Entries.{balance_of-append}
use bukia_hft.Repositories.Wallet
use bukia_hft.Repositories.Transfer
use bukia_hft.TransferService.{
  Payload, TransferResult, process_idempotency_record, check_existing_transactions,
  validate_transfer_request, get_wallets,
}
use bukia_hft.TransferService.Execute.{settle_transfer, execute_transaction}
use bukia_hft.TransferService.Payable.{IsSettleable}
use bukia_hft.TransferService.Passes.{
  with_entries, validate-passes, get_wallets-passes, record_transfer-passes,
}
use bukia_hft.TransferService.Effects.{inserted, balance_lem}
use bukia_hft.TransferService.Succeeds.{
  process-passes, check-passes, settle_transfer-passes, IsPayable-of_same,
}
use bukia_hft.TransferService.Race.{commits, perform_between, body_between, execute_between}
use bukia_hft.TransferService.Race.Refused.{record_transfer-refuses}
use bukia_hft.TransferService.Race.Later.{
  AreRacing, claimed_by, claimed-SameButRecords, alone, same_base, meanwhile, later-IsSettleable,
  stale,
}

-- The effect of a transfer on the tables.
abbrev pub carries_out : Platform → Payload → Db → Db
carries_out platform q db = (execute_transaction platform q db).1

body_between-passes :
    (platform : Platform) (before after : Db → Db) (p : Payload) (s u v : TxState)
    (r : Result TransferResult × TxState)
    → p.idempotency_key ≢ ""
    → process_idempotency_record p.idempotency_key s ≡ (ok none, u)
    → check_existing_transactions p.idempotency_key u ≡ (ok none, v)
    → perform_between platform before after p v ≡ r
    → body_between platform before after p s ≡ r
unfolding body_between
body_between-passes platform before after p s u v r named claimed checked performed =
    ground (arith, eq_iff p.idempotency_key "", performed)

perform_between-passes :
    (platform : Platform) (before after : Db → Db) (p : Payload) (s : TxState)
    (ws : Wallet × Wallet) (r : Result TransferResult × TxState)
    → validate_transfer_request platform p s ≡ (ok tt, s)
    → get_wallets p.from_wallet_id p.to_wallet_id (commits before s).1
      ≡ (ok ws, (commits before s).1)
    → settle_transfer platform p ws (commits after (commits before s).1).1 ≡ r
    → perform_between platform before after p s ≡ r
unfolding perform_between
perform_between-passes platform before after p s ws r validated got settled =
    ground (arith, settled)

-- Up to the gap: the transaction has claimed its key.
module _ {platform : Platform} {p q : Payload} {db : Db} (r : AreRacing platform p q db) where
  abbrev at_start : TxState
  at_start = record { committed = db; work = db; aborted = false }

  abbrev at_gap : TxState
  at_gap = record at_start { work = claimed_by p db }

  reaches_gap :
      (before after : Db → Db) (result : Result TransferResult × TxState)
      → perform_between platform before after p at_gap ≡ result
      → body_between platform before after p at_start ≡ result
  unfolding Idempotency.mark_processing_record Transfer.find_by_idempotency_key
      Ledger.find_by_idempotency_key
  reaches_gap before after result performed =
      let key = p.idempotency_key in
      let s1 : TxState = record at_start { work = (Idempotency.mark_processing_record key db).1 } in
      let one = count-of_some (Idempotency.is_pending_key key) db.records r.p_record r.p_waiting in
      let claimed = process-passes key at_start refl (λ e. omega (arith, e, one)) in
      let checked = check-passes key s1 refl r.p_new r.p_payable.no_entry in
      body_between-passes platform before after p at_start s1 at_gap result r.p_named claimed
        checked performed

  validated_at_gap : validate_transfer_request platform p at_gap ≡ (ok tt, at_gap)
  validated_at_gap =
      validate-passes platform p at_gap refl
        (IsPayable-of_same platform p db (claimed_by p db) (claimed-SameButRecords r) r.p_payable)

  -- The other transfer has been carried out in the gap.
  abbrev after_other : TxState
  after_other = (commits (carries_out platform q) at_gap).1

  other_ran : (meanwhile r).db' ≡ after_other.work
  other_ran = sym (ap (λ o. o.1) (meanwhile r).ran)

  settleable_after : (y : IsSettleable platform p after_other.work) × (y.sent ≡ r.p_payable.sent)
  settleable_after =
      subst (λ d. (y : IsSettleable platform p d) × (y.sent ≡ r.p_payable.sent)) other_ran
        (later-IsSettleable r)

  -- The wallets are read after the other transfer: nothing shows that the funds have gone.
  goes_through :
      (id : ℕ) × (db' : Db) × (execute_between platform (carries_out platform q) (λ d. d) p db
        ≡ (ok (some id), db'))
      × (db'.ledger ≡ with_entries p settleable_after.0)
  unfolding execute_between
  goes_through =
      let i = settleable_after.0 in
      let ws : Wallet × Wallet = (i.from_wallet, i.to_wallet) in
      let (t, recorded, live, written) = record_transfer-passes platform p after_other refl i in
      let settled = settle_transfer-passes platform p ws i.sent after_other _ i.priced recorded in
      let got =
        get_wallets-passes p after_other i.from_wallet i.to_wallet refl i.from_found i.to_found in
      let performed =
        perform_between-passes platform (carries_out platform q) (λ d. d) p at_gap ws _
          validated_at_gap got settled in
      let body = reaches_gap (carries_out platform q) (λ d. d) _ performed in
      (
        after_other.work.next_transfer,
        t.work,
        transaction-of_ok (body_between platform (carries_out platform q) (λ d. d) p) db
            (some after_other.work.next_transfer) t body live,
        written,
      )

-- The two rows of a transfer take its amount from the source.
spends :
    {platform : Platform} (p : Payload) {db : Db} (i : IsSettleable platform p db)
    → balance_of p.from_wallet_id (with_entries p i)
      ≡ balance_of p.from_wallet_id db.ledger -ℤ i.amount
unfolding balance_of
spends p {db} i =
    let own : (p.from_wallet_id == p.from_wallet_id) ≡ true = ground arith in
    let other : (p.to_wallet_id == p.from_wallet_id) ≡ false =
      let apart = i.distinct in ground arith in
    rw (balance_of-append, balance_of-append, own, other) (omega int_laws)

module _ {platform : Platform} {p q : Payload} {db : Db} (r : AreRacing platform p q db) where
  left_by_other :
      balance_of p.from_wallet_id (after_other r).work.ledger
      ≡ balance_of p.from_wallet_id db.ledger -ℤ r.q_payable.amount
  left_by_other =
      let t = (meanwhile r).performed in
      let paid : (inserted t).amount ≡ r.q_payable.amount =
        cc ((inserted t).read, r.q_payable.read) in
      let own : (q.from_wallet_id == p.from_wallet_id) ≡ true =
        let one = r.one_source in ground arith in
      let other : (q.to_wallet_id == p.from_wallet_id) ≡ false =
        let apart = r.q_payable.distinct in let one = r.one_source in ground arith in
      let before = ap (λ (d : Db). balance_of p.from_wallet_id d.ledger) (same_base r) in
      ap (λ (d : Db). balance_of p.from_wallet_id d.ledger) (sym (other_ran r))
      ∙ balance_lem t p.from_wallet_id
      ∙ (rw (own, other, before, paid) (omega int_laws))

-- Let two requests from one wallet be under different keys, each pending and new, and let each be payable by
-- itself but not both: the balance is below the sum of the amounts. When the other transfer is committed
-- between `validateTransferRequest` and `getWallets`, both transfers return an id, and the balance of the
-- wallet ends below zero.
pub race_overdraws :
    (platform : Platform) (p q : Payload) (db : Db) (r : AreRacing platform p q db)
    → balance_of p.from_wallet_id db.ledger <ℤ r.p_payable.amount +ℤ r.q_payable.amount
    → let other = carries_out platform q in
      let both = execute_between platform other (λ d. d) p db in
      ((id : ℕ) × (execute_transaction platform q db).0 ≡ ok (some id))
      × ((id : ℕ) × both.0 ≡ ok (some id))
      × (balance_of p.from_wallet_id both.1.ledger <ℤ pos 0)
race_overdraws platform p q db r short =
    let first = alone r in
    let (id, db', ran, written) = goes_through r in
    let i = (settleable_after r).0 in
    let one : i.amount ≡ r.p_payable.amount = cc (i.read, r.p_payable.read) in
    let left =
      ap (λ o. balance_of p.from_wallet_id o.1.ledger) ran
      ∙ ap (balance_of p.from_wallet_id) written
      ∙ spends p i
      ∙ ap₂ ◌-ℤ◌ (left_by_other r) one in
    (
      (first.id, ap (λ o. o.0) first.ran),
      (id, ap (λ o. o.0) ran),
      rw left (omega (int_laws, short)),
    )

-- Of the same two requests the second is refused when the other transfer is committed after `getWallets`:
-- the call throws the error of a failed optimistic lock, and the tables are as the other transfer alone
-- leaves them.
pub late_commit_is_refused :
    (platform : Platform) (p q : Payload) (db : Db)
    → AreRacing platform p q db
    → execute_between platform (λ d. d) (carries_out platform q) p db ≡ (
      err (optimistic_lock "Optimistic lock failed for fromWallet"),
      (execute_transaction platform q db).1,
    )
unfolding execute_between Wallet.find_by_id
late_commit_is_refused platform p q db r =
    let i = r.p_payable in
    let ws : Wallet × Wallet = (i.from_wallet, i.to_wallet) in
    let (later, same_price) = settleable_after r in
    let gone =
      subst
        (λ (d : Db).
          (Wallet.increment_version_if_match i.from_wallet.id i.from_wallet.version d).0 ≡ 0)
        (other_ran r) (stale r) in
    let (t, refused, kept) =
      record_transfer-refuses platform p ws (after_other r) refl later gone in
    let settled =
      settle_transfer-passes platform p ws later.sent (after_other r) _
        (i.priced ∙ ap ok (sym same_price)) refused in
    let same = claimed-SameButRecords r in
    let got =
      get_wallets-passes p (at_gap r) i.from_wallet i.to_wallet refl
        (ap (λ (d : Db). Wallet.find_by_id p.from_wallet_id d) same ∙ i.from_found)
        (ap (λ (d : Db). Wallet.find_by_id p.to_wallet_id d) same ∙ i.to_found) in
    let performed =
      perform_between-passes platform (λ d. d) (carries_out platform q) p (at_gap r) ws _
        (validated_at_gap r) got settled in
    let body = reaches_gap r (λ d. d) (carries_out platform q) _ performed in
    transaction-of_err (body_between platform (λ d. d) (carries_out platform q) p) db
      (optimistic_lock "Optimistic lock failed for fromWallet") t body
    ∙ ap (λ d. (err (optimistic_lock "Optimistic lock failed for fromWallet"), d)) kept
