-- ===== src/TransferService/Race/Later.antt =====
-- What a transfer finds in the tables when another one from the same wallet has been committed
-- (services/transfer.services.ts).
use bukia_hft.Base.{
  ◌≡◌, ◌≢◌, refl, ap, ◌∙◌, ℕ, String, List, none, some, arith, find_row, [], ◌∷◌, ◌++◌, eq_iff, inl,
  inr, find_row-append_none, find_row_sound, count_rows, ◌+◌,
}
use mathlib.Core.Path.{subst}
use bukia_hft.Db.{Db, Wallet, LedgerEntry, Idempotency}
use bukia_hft.Tx.{ok}
use bukia_hft.Platform.{Platform}
use bukia_hft.Repositories.Idempotency
use bukia_hft.Repositories.Idempotency.{is_pending_key}
use bukia_hft.Repositories.Ledger
use bukia_hft.Repositories.Ledger.{wallet_is, key_is, debit_entry, credit_entry}
use bukia_hft.Repositories.Wallet
use bukia_hft.Repositories.Transfer
use bukia_hft.TransferService.{Payload}
use bukia_hft.TransferService.Execute.{entry_params, execute_transaction}
use bukia_hft.TransferService.Payable.{IsPayable, IsSettleable}
use bukia_hft.TransferService.Performed.{Performed}
use bukia_hft.TransferService.Effects.{inserted, from-ne-to, ledger_lem, wallet_rows}
use bukia_hft.TransferService.Outcome.{SameButRecords, execute_transaction-eq-ok}
use bukia_hft.TransferService.Succeeds.{
  payable_transfer_succeeds, create_record-SameButRecords, IsPayable-of_same,
}
use bukia_hft.TransferService.Race.Rows.{
  IsVersionOf, find-increment, pending-claimed, stale_version, get_credit_amount-of_versions,
}

-- Two requests from one wallet under different keys, each of which could be paid by itself.
pub record AreRacing (platform : Platform) (p q : Payload) (db : Db) : Type 0 where
  pub one_source : q.from_wallet_id ≡ p.from_wallet_id
  pub apart : p.idempotency_key ≢ q.idempotency_key
  pub p_named : p.idempotency_key ≢ ""
  pub q_named : q.idempotency_key ≢ ""
  pub p_record : Idempotency
  pub p_waiting : find_row (is_pending_key p.idempotency_key) db.records ≡ some p_record
  pub q_record : Idempotency
  pub q_waiting : find_row (is_pending_key q.idempotency_key) db.records ≡ some q_record
  pub p_new : Transfer.find_by_idempotency_key p.idempotency_key db ≡ none
  pub q_new : Transfer.find_by_idempotency_key q.idempotency_key db ≡ none
  pub p_payable : IsPayable platform p db
  pub q_payable : IsPayable platform q db

-- The rows as a transfer has them that has claimed its key.
abbrev pub claimed_by : Payload → Db → Db
claimed_by p db =
    (Idempotency.create_record p.idempotency_key
      (Idempotency.mark_processing_record p.idempotency_key db).1).1

-- The other transfer is carried out whether this one has claimed its key or not.
pub record IsCarriedOut (platform : Platform) (q : Payload) (db : Db) : Type 0 where
  pub id : ℕ
  pub db' : Db
  pub ran : execute_transaction platform q db ≡ (ok (some id), db')
  pub base : Db
  pub kept : SameButRecords db base
  pub performed : Performed platform q base id db'

carried_out :
    (platform : Platform) (q : Payload) (db : Db) (r : Idempotency)
    → q.idempotency_key ≢ ""
    → find_row (is_pending_key q.idempotency_key) db.records ≡ some r
    → Transfer.find_by_idempotency_key q.idempotency_key db ≡ none
    → IsPayable platform q db
    → IsCarriedOut platform q db
carried_out platform q db r named waiting new i =
    let id = db.next_transfer in
    let done = execute_transaction platform q db in
    let ran : done ≡ (ok (some id), done.1) =
      ap (λ o. (o, done.1)) (payable_transfer_succeeds platform q db r named waiting new i) in
    elim (execute_transaction-eq-ok platform q db (some id) done.1 ran) [
      | inl old ↦ absurd (let (row, found, same) = old.existing in cc (found, new))
      | inr f ↦ record {
        id = id;
        db' = done.1;
        ran = ran;
        base = f.claimed;
        kept = f.kept;
        performed =
            let same : f.id ≡ id = cc (f.returned) in
            subst (λ n. Performed platform q f.claimed n done.1) same f.performed;
      }
    ]

missed :
    (key other : String) (e : LedgerEntry)
    → key ≢ other
    → e.idempotency_key ≡ some other
    → find_row (key_is key) (e ∷ []) ≡ none
unfolding find_row
missed key other e apart h = rw h (ground (arith, eq_iff other key))

-- An entry of another key is not found.
other_entries :
    (key other : String) (ls : List LedgerEntry) (d c : LedgerEntry)
    → key ≢ other
    → d.idempotency_key ≡ some other
    → c.idempotency_key ≡ some other
    → find_row (key_is key) ls ≡ none
    → find_row (key_is key) ((ls ++ d ∷ []) ++ c ∷ []) ≡ none
other_entries key other ls d c apart hd hc absent =
    let one = find_row-append_none (key_is key) ls (d ∷ []) absent ∙ not_found d hd in
    find_row-append_none (key_is key) (ls ++ d ∷ []) (c ∷ []) one ∙ not_found c hc
  where
    not_found :
        (e : LedgerEntry) → e.idempotency_key ≡ some other → find_row (key_is key) (e ∷ []) ≡ none
    not_found e h = missed key other e apart h

module _ {platform : Platform} {p q : Payload} {db : Db} (r : AreRacing platform p q db) where
  pub claimed-SameButRecords : SameButRecords db (claimed_by p db)
  unfolding Idempotency.mark_processing_record
  claimed-SameButRecords =
      create_record-SameButRecords p.idempotency_key
        (Idempotency.mark_processing_record p.idempotency_key db).1

  pub alone : IsCarriedOut platform q db
  alone = carried_out platform q db r.q_record r.q_named r.q_waiting r.q_new r.q_payable

  pub meanwhile : IsCarriedOut platform q (claimed_by p db)
  unfolding Transfer.find_by_idempotency_key
  meanwhile =
      let same = claimed-SameButRecords in
      carried_out platform q (claimed_by p db) r.q_record r.q_named
        (pending-claimed p.idempotency_key q.idempotency_key db r.q_record r.apart r.q_waiting)
        (ap (λ (d : Db). Transfer.find_by_idempotency_key q.idempotency_key d) same ∙ r.q_new)
        (IsPayable-of_same platform q db (claimed_by p db) same r.q_payable)

  -- Only the idempotency records differ when the other transfer starts to write.
  pub same_base : SameButRecords db meanwhile.base
  same_base =
      meanwhile.kept
      ∙ ap (λ (d : Db). record d { records = meanwhile.base.records }) claimed-SameButRecords

  pub wallet_later :
      (id : ℕ) (v : Wallet)
      → Wallet.find_by_id id db ≡ some v
      → (w : Wallet) × (Wallet.find_by_id id meanwhile.db' ≡ some w) × IsVersionOf w v
  unfolding Wallet.find_by_id
  wallet_later id v found =
      let t = meanwhile.performed in
      let base = meanwhile.base in
      let there = ap (λ (d : Db). Wallet.find_by_id id d) same_base ∙ found in
      let (u, one, same) = find-increment id t.from_wallet.id t.from_wallet.version base v there in
      let (w, two, same') =
        find-increment id t.to_wallet.id t.to_wallet.version
          (Wallet.increment_version_if_match t.from_wallet.id t.from_wallet.version base).1 u one in
      (
        w,
        ap (find_row (wallet_is id)) (wallet_rows t) ∙ two,
        (same'.0 ∙ same.0, same'.1 ∙ same.1, same'.2 ∙ same.2, same'.3 ∙ same.3),
      )

  -- What is left to do of the first transfer can still be done.
  pub later-IsSettleable : (y : IsSettleable platform p meanwhile.db') × (y.sent ≡ r.p_payable.sent)
  unfolding Ledger.find_by_idempotency_key
  later-IsSettleable =
      let i = r.p_payable in
      let t = meanwhile.performed in
      let (from, from_found, from_same) =
        wallet_later p.from_wallet_id i.from_wallet i.from_found in
      let (to, to_found, to_same) = wallet_later p.to_wallet_id i.to_wallet i.to_found in
      let absent =
        ap (λ (d : Db). find_row (key_is p.idempotency_key) d.ledger) same_base ∙ i.no_entry in
      let q_params = entry_params q t.sent in
      (
        record {
          from_wallet = from;
          to_wallet = to;
          from_found = from_found;
          to_found = to_found;
          distinct = i.distinct;
          untagged = i.untagged;
          sent = i.sent;
          priced =
              get_credit_amount-of_versions platform p i.from_wallet i.to_wallet from to from_same
                to_same
              ∙ i.priced;
          amount = i.amount;
          read = i.read;
          credited = i.credited;
          credit_read = i.credit_read;
          no_entry =
              ap (find_row (key_is p.idempotency_key)) (ledger_lem t)
              ∙ other_entries p.idempotency_key q.idempotency_key meanwhile.base.ledger
                  (debit_entry q_params (inserted t).amount meanwhile.base.next_entry)
                  (credit_entry q_params (inserted t).credited (meanwhile.base.next_entry + 1))
                  r.apart refl refl absent;
        },
        refl,
      )

  -- The version that the first transfer may have read matches no row any more.
  pub stale :
      (Wallet.increment_version_if_match r.p_payable.from_wallet.id r.p_payable.from_wallet.version
        meanwhile.db').0
      ≡ 0
  unfolding Wallet.find_by_id Wallet.increment_version_if_match
  stale =
      let i = r.p_payable in
      let t = meanwhile.performed in
      let base = meanwhile.base in
      let payer : t.from_wallet ≡ i.from_wallet = cc (
        t.from_found,
        ap (λ n. find_row (wallet_is n) base.wallets) r.one_source,
        ap (λ (d : Db). find_row (wallet_is p.from_wallet_id) d.wallets) same_base,
        i.from_found,
      ) in
      let from_id =
        find_row_sound (wallet_is q.from_wallet_id) base.wallets t.from_wallet t.from_found in
      let to_id = find_row_sound (wallet_is q.to_wallet_id) base.wallets t.to_wallet t.to_found in
      let apart : t.from_wallet.id ≢ t.to_wallet.id = λ e. from-ne-to t (ground arith) in
      let none_left =
        stale_version t.from_wallet.id t.from_wallet.version t.to_wallet.id t.to_wallet.version base
          apart in
      ap (count_rows (Wallet.version_is i.from_wallet.id i.from_wallet.version)) (wallet_rows t)
      ∙ subst
          (λ (w : Wallet).
            count_rows (Wallet.version_is w.id w.version)
              (Wallet.increment_version_if_match t.to_wallet.id t.to_wallet.version
                (Wallet.increment_version_if_match t.from_wallet.id t.from_wallet.version
                  base).1).1.wallets
            ≡ 0)
          payer none_left
