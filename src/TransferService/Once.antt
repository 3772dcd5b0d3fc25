-- ===== src/TransferService/Once.antt =====
-- The rows that the ledger and `transfer` hold of one key (services/transfer.services.ts,
-- `executeTransaction`).
use bukia_hft.Base.{
  ◌≡◌, refl, ap, ◌∙◌, ◌≤◌, ◌+◌, String, Bool, false, arith, inl, inr, List, [], ◌∷◌, ◌++◌,
  count_rows, count-append, count-of_none, count_one, count_one-false, Bool-cases, str_eq, eq_iff,
}
use mathlib.Core.Path.{subst}
use bukia_hft.Db.{Db, LedgerEntry, LedgerEntryType, credit, debit}
use bukia_hft.Tx.{Result, ok, err}
use bukia_hft.Platform.{Platform}
use bukia_hft.Repositories.Ledger
use bukia_hft.Repositories.Ledger.{key_type_is, debit_entry, credit_entry}
use bukia_hft.Repositories.Transfer
use bukia_hft.TransferService.{Payload, TransferResult}
use bukia_hft.TransferService.Execute.{entry_params, execute_transaction}
use bukia_hft.TransferService.Effects.{inserted, ledger_lem, transfers_lem}
use bukia_hft.TransferService.Outcome.{
  IsFresh, execute_transaction-eq-ok, execute_transaction-eq-err,
}

-- The bound, for one key.
pub record IsOnce (key : String) (db : Db) : Type 0 where
  pub debits : count_rows (key_type_is key debit) db.ledger ≤ 1
  pub credits : count_rows (key_type_is key credit) db.ledger ≤ 1
  pub transfers : count_rows (Transfer.key_is key) db.transfers ≤ 1

one_more {ℓ} :
    {A : Type ℓ} (p : A → Bool) (xs : List A) (x : A)
    → count_rows p xs ≡ 0
    → count_rows p (xs ++ x ∷ []) ≤ 1
one_more p xs x h = omega (arith, count-append p xs (x ∷ []), count_one p x)

none_more {ℓ} :
    {A : Type ℓ} (p : A → Bool) (xs : List A) (x : A)
    → p x ≡ false
    → count_rows p (xs ++ x ∷ []) ≡ count_rows p xs
none_more p xs x h = omega (arith, count-append p xs (x ∷ []), count_one-false p x h)

module _ {platform : Platform} {p : Payload} {db : Db} {r : TransferResult} {db' : Db}
    (f : IsFresh platform p db r db') where
  claimed_ledger : f.claimed.ledger ≡ db.ledger
  claimed_ledger = ap (λ (d : Db). d.ledger) f.kept

  claimed_transfers : f.claimed.transfers ≡ db.transfers
  claimed_transfers = ap (λ (d : Db). d.transfers) f.kept

  no_entry :
      (type : LedgerEntryType) → count_rows (key_type_is p.idempotency_key type) db.ledger ≡ 0
  unfolding Ledger.find_by_idempotency_key
  no_entry type =
      count-of_none (Ledger.key_is p.idempotency_key) (key_type_is p.idempotency_key type) db.ledger
        (λ e h. ground arith) f.absent.1

  no_transfer : count_rows (Transfer.key_is p.idempotency_key) db.transfers ≡ 0
  unfolding Transfer.find_by_idempotency_key
  no_transfer =
      count-of_none (Transfer.key_is p.idempotency_key) (Transfer.key_is p.idempotency_key)
        db.transfers (λ e h. h) f.absent.0

  debited : LedgerEntry
  debited =
      debit_entry (entry_params p f.performed.sent) (inserted f.performed).amount
        f.claimed.next_entry

  credited : LedgerEntry
  credited =
      credit_entry (entry_params p f.performed.sent) (inserted f.performed).credited
        (f.claimed.next_entry + 1)

  own_debits : count_rows (key_type_is p.idempotency_key debit) db'.ledger ≤ 1
  unfolding debited credited
  own_debits =
      let q = key_type_is p.idempotency_key debit in
      rw (ledger_lem f.performed, claimed_ledger)
        (rw (none_more q (db.ledger ++ debited ∷ []) credited (ground arith))
          (one_more q db.ledger debited (no_entry debit)))

  own_credits : count_rows (key_type_is p.idempotency_key credit) db'.ledger ≤ 1
  unfolding debited credited
  own_credits =
      let q = key_type_is p.idempotency_key credit in
      rw (ledger_lem f.performed, claimed_ledger)
        (one_more q (db.ledger ++ _ ∷ []) _
          (none_more q db.ledger _ (ground arith) ∙ no_entry credit))

  own_transfers : count_rows (Transfer.key_is p.idempotency_key) db'.transfers ≤ 1
  own_transfers =
      let (v, read, numbered, rows) = transfers_lem f.performed in
      rw (rows, claimed_transfers)
        (one_more (Transfer.key_is p.idempotency_key) db.transfers _ no_transfer)

  other_entries :
      (key : String) (type : LedgerEntryType)
      → str_eq p.idempotency_key key ≡ false
      → count_rows (key_type_is key type) db'.ledger ≡ count_rows (key_type_is key type) db.ledger
  unfolding debited credited
  other_entries key type other =
      let q = key_type_is key type in
      rw (ledger_lem f.performed, claimed_ledger)
        (none_more q (db.ledger ++ _ ∷ []) _ (ground arith)
          ∙ none_more q db.ledger _ (ground arith))

  other_transfers :
      (key : String)
      → str_eq p.idempotency_key key ≡ false
      → count_rows (Transfer.key_is key) db'.transfers
        ≡ count_rows (Transfer.key_is key) db.transfers
  other_transfers key other =
      let (v, read, numbered, rows) = transfers_lem f.performed in
      rw (rows, claimed_transfers) (none_more (Transfer.key_is key) db.transfers _ other)

  fresh-IsOnce : (key : String) → IsOnce key db → IsOnce key db'
  fresh-IsOnce key h = elim (Bool-cases (str_eq p.idempotency_key key)) [
    | inl own ↦
        subst (λ k. IsOnce k db') ((eq_iff p.idempotency_key key).0 own)
          (record { debits = own_debits; credits = own_credits; transfers = own_transfers })
    | inr other ↦ record {
      debits = rw (other_entries key debit other) h.debits;
      credits = rw (other_entries key credit other) h.credits;
      transfers = rw (other_transfers key other) h.transfers;
    }
  ]

-- Whatever the payload, and whether it returns or throws, `executeTransaction` leaves at most one
-- debit row, one credit row and one transfer under each key, if there was no more before.
pub execute_transaction-IsOnce :
    (platform : Platform) (p : Payload) (key : String) (db : Db)
    → IsOnce key db
    → IsOnce key (execute_transaction platform p db).1
execute_transaction-IsOnce platform p key db h = go (execute_transaction platform p db) refl
  where
    go : (q : Result TransferResult × Db) → execute_transaction platform p db ≡ q → IsOnce key q.1
    go (ok r, db') e = elim (execute_transaction-eq-ok platform p db r db' e) [
      | inl old ↦
          rw old.kept (record { debits = h.debits; credits = h.credits; transfers = h.transfers })
      | inr f ↦ fresh-IsOnce f key h
    ]
    go (err x, db') e = rw (execute_transaction-eq-err platform p db x db' e) h
