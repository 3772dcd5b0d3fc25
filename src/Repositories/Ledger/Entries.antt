-- ===== src/Repositories/Ledger/Entries.antt =====
-- The two rows of a transfer, when their INSERT succeeds, and the sums over an extended ledger.
use bukia_hft.Base.{
  ◌≡◌, ℕ, String, false, Option, none, some, List, [], ◌∷◌, ◌++◌, ◌+◌, ◌==◌, arith, find_row,
  Option-cases, Bool-cases, inl, inr, find_row-append_last,
}
use bukia_hft.Base.Int.{ℤ, pos, ◌+ℤ◌, int_laws}
use bukia_hft.Db.{Db, LedgerEntry}
use bukia_hft.Db.Keys.{has_text_self}
use bukia_hft.Tx.{Result-cases, ok}
use bukia_hft.Repositories.Ledger.{
  numeric_of, clashes, insert_entry, EntryParams, debit_entry, credit_entry,
  insert_transfer_entries, signed, balance_of,
}

insert_entry-eq-ok :
    (e : LedgerEntry) (db w : Db)
    → insert_entry e db ≡ ok w
    → (find_row (clashes e) db.ledger ≡ none)
      × (w ≡ record db { ledger = db.ledger ++ e ∷ []; next_entry = db.next_entry + 1 })
unfolding insert_entry
insert_entry-eq-ok e db w h = (ground arith, ground arith)

-- The values read and the two inserts of an INSERT that succeeds.
insert_parts :
    (numeric : String → Option ℤ) (p : EntryParams) (db w : Db)
    → insert_transfer_entries numeric p db ≡ ok w
    → (a c : ℤ) × (v : Db) × (numeric p.amount ≡ some a)
      × (numeric_of numeric p.credit_amount ≡ some c)
      × (insert_entry (debit_entry p a db.next_entry) db ≡ ok v)
      × (insert_entry (credit_entry p c v.next_entry) v ≡ ok w)
unfolding insert_transfer_entries
insert_parts numeric p db w h = elim (Option-cases (numeric p.amount)) [
  | inl e ↦ absurd (ground arith)
  | inr (a, ea) ↦ elim (Option-cases (numeric_of numeric p.credit_amount)) [
    | inl e ↦ absurd (ground arith)
    | inr (c, ec) ↦ elim (Result-cases (insert_entry (debit_entry p a db.next_entry) db)) [
      | inl (x, ex) ↦ absurd (ground arith)
      | inr (v, ev) ↦ (a, c, v, ea, ec, ev, ground arith)
    ]
  ]
]

-- What a successful INSERT has read and written.
pub record Inserted (numeric : String → Option ℤ) (p : EntryParams) (db w : Db) : Type 0 where
  pub amount : ℤ
  pub credited : ℤ
  pub read : numeric p.amount ≡ some amount
  pub credit_read : numeric_of numeric p.credit_amount ≡ some credited
  pub untagged : p.tx_id ≡ none
  pub debit_new : find_row (clashes (debit_entry p amount db.next_entry)) db.ledger ≡ none
  pub credit_new : find_row (clashes (credit_entry p credited (db.next_entry + 1))) db.ledger ≡ none
  pub written : w ≡ record db {
    ledger =
        (db.ledger ++ debit_entry p amount db.next_entry ∷ [])
        ++ credit_entry p credited (db.next_entry + 1) ∷ [];
    next_entry = db.next_entry + 1 + 1;
  }

-- The credit row repeats the `txId` of the debit row, which the unique index allows for no value.
untagged_of_clash :
    (p : EntryParams) (a c : ℤ) (i j : ℕ)
    → clashes (credit_entry p c j) (debit_entry p a i) ≡ false
    → p.tx_id ≡ none
untagged_of_clash p a c i j h = elim (Option-cases p.tx_id) [
  | inl e ↦ e
  | inr (t, e) ↦ ground (arith, has_text_self t)
]

pub insert_transfer_entries-eq-ok :
    (numeric : String → Option ℤ) (p : EntryParams) (db w : Db)
    → insert_transfer_entries numeric p db ≡ ok w
    → Inserted numeric p db w
insert_transfer_entries-eq-ok numeric p db w h =
    let (a, c, d, e1, e2, e3, h3) = insert_parts numeric p db w h in
    let (debit_new, same) = insert_entry-eq-ok (debit_entry p a db.next_entry) db d e3 in
    let (credit_new, final) = insert_entry-eq-ok (credit_entry p c d.next_entry) d w h3 in
    let (fresh, apart) =
      find_row-append_last (clashes (credit_entry p c (db.next_entry + 1))) db.ledger
        (debit_entry p a db.next_entry) (rw same at credit_new) in
    record {
      amount = a;
      credited = c;
      read = e1;
      credit_read = e2;
      untagged = untagged_of_clash p a c db.next_entry (db.next_entry + 1) apart;
      debit_new = debit_new;
      credit_new = fresh;
      written = (rw same at final);
    }

-- The sum over a longer ledger.
pub balance_of-append :
    (w : ℕ) (xs ys : List LedgerEntry)
    → balance_of w (xs ++ ys) ≡ balance_of w xs +ℤ balance_of w ys
unfolding balance_of
balance_of-append w [] ys = omega int_laws
balance_of-append w (e ∷ xs) ys = elim (Bool-cases (e.wallet_id == w)) [
  | inl own ↦ rw (own, balance_of-append w xs ys) (omega int_laws)
  | inr other ↦ rw (other, balance_of-append w xs ys)
]

-- The sum over all wallets.
abbrev pub total : List LedgerEntry → ℤ
total [] = pos 0
total (e ∷ es) = signed e.type e.amount +ℤ total es

pub total-append : (xs ys : List LedgerEntry) → total (xs ++ ys) ≡ total xs +ℤ total ys
total-append [] ys = omega int_laws
total-append (e ∷ xs) ys = rw (total-append xs ys) (omega int_laws)
