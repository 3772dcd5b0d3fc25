-- ===== src/Repositories/Ledger.antt =====
-- repositories/ledger.repository.ts, and the constraints that the migrations put on `ledger_entry`:
-- the foreign key to `wallet`, the unique index on `txId`, and the one on `idempotencyKey` and
-- `type`.
pub mod Entries
pub mod Statistics
pub mod Joins
use bukia_hft.Base.{
  ℕ, String, Bool, true, false, ◌&&◌, ◌||◌, Option, none, some, List, [], ◌∷◌, ◌++◌, find_row,
  if◌then◌else◌, ◌+◌, ◌==◌,
}
use bukia_hft.Base.Int.{ℤ, pos, ◌+ℤ◌, ◌-ℤ◌}
use bukia_hft.Db.{Db, LedgerEntryType, credit, debit, LedgerEntry, Wallet}
use bukia_hft.Db.Keys.{has_text, same_text}
use bukia_hft.Tx.{Result, ok, err, invalid_text, foreign_key, duplicate_key}

-- A value sent for a numeric column: a text, or a JavaScript number.
pub data Amount : Type 0 where
  text : String → Amount
  number : Option ℤ → Amount

-- Postgres would store NaN; here it is refused, like a malformed text.
abbrev pub numeric_of : (String → Option ℤ) → Amount → Option ℤ
numeric_of numeric (text s) = numeric s
numeric_of numeric (number n) = n

abbrev pub same_type : LedgerEntryType → LedgerEntryType → Bool
same_type credit credit = true
same_type debit debit = true
same_type _ _ = false

abbrev pub key_is : String → LedgerEntry → Bool
key_is key e = has_text key e.idempotency_key

abbrev pub key_type_is : String → LedgerEntryType → LedgerEntry → Bool
key_type_is key type e = key_is key e && same_type type e.type

-- `UQ_ledger_txId` or `UQ_ledger_idempotencyKey_type` is violated by the two rows.
abbrev pub clashes : LedgerEntry → LedgerEntry → Bool
clashes new e =
    same_text new.tx_id e.tx_id
    || same_text new.idempotency_key e.idempotency_key && same_type new.type e.type

abbrev pub wallet_is : ℕ → Wallet → Bool
wallet_is id w = w.id == id

-- One row of an INSERT, with its constraints.
unfoldable pub insert_entry : LedgerEntry → Db → Result Db
insert_entry e db = elim (find_row (wallet_is e.wallet_id) db.wallets) [
  | none ↦ err foreign_key
  | some _ ↦ elim (find_row (clashes e) db.ledger) [
    | none ↦ ok (record db { ledger = db.ledger ++ e ∷ []; next_entry = db.next_entry + 1 })
    | some _ ↦ err duplicate_key
  ]
]

-- The argument of `createTransferEntries`.
pub record EntryParams : Type 0 where
  pub amount : String
  pub credit_amount : Amount
  pub from_wallet_id : ℕ
  pub idempotency_key : String
  pub metadata : Option String
  pub to_wallet_id : ℕ
  pub tx_id : Option String

abbrev pub debit_entry : EntryParams → ℤ → ℕ → LedgerEntry
debit_entry p amount id = record {
  id = id;
  amount = amount;
  idempotency_key = some p.idempotency_key;
  metadata = p.metadata;
  tx_id = p.tx_id;
  type = debit;
  wallet_id = p.from_wallet_id;
}

abbrev pub credit_entry : EntryParams → ℤ → ℕ → LedgerEntry
credit_entry p amount id = record {
  id = id;
  amount = amount;
  idempotency_key = some p.idempotency_key;
  metadata = p.metadata;
  tx_id = p.tx_id;
  type = credit;
  wallet_id = p.to_wallet_id;
}

-- The INSERT of both rows, which is one statement.
unfoldable pub insert_transfer_entries : (String → Option ℤ) → EntryParams → Db → Result Db
unfolding insert_entry
insert_transfer_entries numeric p db = elim (numeric p.amount) [
  | none ↦ err invalid_text
  | some amount ↦ elim (numeric_of numeric p.credit_amount) [
    | none ↦ err invalid_text
    | some credited ↦ elim (insert_entry (debit_entry p amount db.next_entry) db) [
      | err e ↦ err e
      | ok db' ↦ insert_entry (credit_entry p credited db'.next_entry) db'
    ]
  ]
]

unfoldable pub find_by_key_type : String → LedgerEntryType → Db → Option LedgerEntry
find_by_key_type key type db = find_row (key_type_is key type) db.ledger

unfoldable pub find_by_idempotency_key : String → Db → Option LedgerEntry
find_by_idempotency_key key db = find_row (key_is key) db.ledger

-- `CASE WHEN type = 'credit' THEN amount ELSE -amount END`
abbrev pub signed : LedgerEntryType → ℤ → ℤ
signed credit v = v
signed debit v = pos 0 -ℤ v

-- `COALESCE(SUM(…), 0)` over the rows of a wallet.
unfoldable pub balance_of : ℕ → List LedgerEntry → ℤ
balance_of w [] = pos 0
balance_of w (e ∷ es) =
    let rest = balance_of w es in if e.wallet_id == w then signed e.type e.amount +ℤ rest else rest

unfoldable pub get_balance_for_wallet : ℕ → Db → ℤ
unfolding balance_of
get_balance_for_wallet w db = balance_of w db.ledger
