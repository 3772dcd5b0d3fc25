-- ===== src/TransferService/Payable.antt =====
-- What `executeTransaction` (services/transfer.services.ts) needs of a request, and the rows it writes.
use bukia_hft.Base.{
  ◌≡◌, ◌≢◌, refl, ◌∙◌, ◌≤◌, ◌+◌, String, Bool, true, false, none, some, List, [], ◌∷◌, ◌++◌, arith,
  find_row, count_rows, update_rows, find_row-append_none, find_row_sound,
}
use bukia_hft.Base.Int.{ℤ, pos, ◌<ℤ◌}
use bukia_hft.Db.{Db, Wallet, LedgerEntry}
use bukia_hft.Tx.{ok}
use bukia_hft.Platform.{Platform}
use bukia_hft.Repositories.Ledger
use bukia_hft.Repositories.Ledger.{
  Amount, numeric_of, clashes, key_is, wallet_is, insert_entry, debit_entry, credit_entry,
  EntryParams,
}
use bukia_hft.Repositories.Wallet
use bukia_hft.TransferService.{Payload, lt_number, get_credit_amount}
use bukia_hft.TransferService.Execute.{entry_params}

-- What a transfer needs of the tables, the idempotency records aside.
pub record IsPayable (platform : Platform) (p : Payload) (db : Db) : Type 0 where
  pub from_wallet : Wallet
  pub to_wallet : Wallet
  pub from_found : Wallet.find_by_id p.from_wallet_id db ≡ some from_wallet
  pub to_found : Wallet.find_by_id p.to_wallet_id db ≡ some to_wallet
  pub owner : from_wallet.user_id ≡ p.user_id
  pub distinct : p.from_wallet_id ≢ p.to_wallet_id
  pub untagged : p.tx_id ≡ none
  pub value : ℤ
  pub parsed : platform.parse_float p.amount ≡ some value
  pub positive : pos 0 <ℤ value
  pub covered :
      lt_number
        (platform.parse_float
          (platform.numeric_text (Ledger.get_balance_for_wallet p.from_wallet_id db)))
        (some value)
      ≡ false
  pub sent : Amount
  pub priced : get_credit_amount platform p (from_wallet, to_wallet) ≡ ok sent
  pub amount : ℤ
  pub read : platform.numeric p.amount ≡ some amount
  pub credited : ℤ
  pub credit_read : numeric_of platform.numeric sent ≡ some credited
  pub no_entry : Ledger.find_by_idempotency_key p.idempotency_key db ≡ none

-- What it needs once the funds have been checked.
pub record IsSettleable (platform : Platform) (p : Payload) (db : Db) : Type 0 where
  pub from_wallet : Wallet
  pub to_wallet : Wallet
  pub from_found : Wallet.find_by_id p.from_wallet_id db ≡ some from_wallet
  pub to_found : Wallet.find_by_id p.to_wallet_id db ≡ some to_wallet
  pub distinct : p.from_wallet_id ≢ p.to_wallet_id
  pub untagged : p.tx_id ≡ none
  pub sent : Amount
  pub priced : get_credit_amount platform p (from_wallet, to_wallet) ≡ ok sent
  pub amount : ℤ
  pub read : platform.numeric p.amount ≡ some amount
  pub credited : ℤ
  pub credit_read : numeric_of platform.numeric sent ≡ some credited
  pub no_entry : Ledger.find_by_idempotency_key p.idempotency_key db ≡ none

abbrev pub settleable :
    {platform : Platform} {p : Payload} {db : Db}
    → IsPayable platform p db
    → IsSettleable platform p db
settleable i = record {
  from_wallet = i.from_wallet;
  to_wallet = i.to_wallet;
  from_found = i.from_found;
  to_found = i.to_found;
  distinct = i.distinct;
  untagged = i.untagged;
  sent = i.sent;
  priced = i.priced;
  amount = i.amount;
  read = i.read;
  credited = i.credited;
  credit_read = i.credit_read;
  no_entry = i.no_entry;
}

-- A new row whose key no entry has, and that has no `txId`, clashes with none.
pub no_clash :
    (key : String) (e : LedgerEntry) (es : List LedgerEntry)
    → e.tx_id ≡ none
    → e.idempotency_key ≡ some key
    → find_row (key_is key) es ≡ none
    → find_row (clashes e) es ≡ none
unfolding find_row
no_clash key e [] untagged keyed new = refl
no_clash key e (x ∷ xs) untagged keyed new = ground (arith, no_clash key e xs untagged keyed)

pub insert_entry-passes :
    (e : LedgerEntry) (db : Db) (w : Wallet)
    → find_row (wallet_is e.wallet_id) db.wallets ≡ some w
    → find_row (clashes e) db.ledger ≡ none
    → insert_entry e db
      ≡ ok (record db { ledger = db.ledger ++ e ∷ []; next_entry = db.next_entry + 1 })
unfolding insert_entry
insert_entry-passes e db w found new = ground arith

-- Some row passes a test that the row found by another test passes.
pub count-of_found :
    {A : Type 0} (p q : A → Bool) (xs : List A) (x : A)
    → find_row p xs ≡ some x
    → q x ≡ true
    → 1 ≤ count_rows q xs
unfolding find_row count_rows
count-of_found p q [] x h k = cc
count-of_found p q (y ∷ xs) x h k = ground (arith, count-of_found p q xs x)

-- An UPDATE of other rows leaves the row that is found.
pub find-update_other :
    {A : Type 0} (p q : A → Bool) (f : A → A) (xs : List A) (x : A)
    → ((y : A) → p (f y) ≡ p y)
    → q x ≡ false
    → find_row p xs ≡ some x
    → find_row p (update_rows q f xs) ≡ some x
unfolding find_row update_rows
find-update_other p q f [] x same other h = cc
find-update_other p q f (y ∷ xs) x same other h =
    ground (arith, same y, find-update_other p q f xs x same other)

pub insert_passes :
    (platform : Platform) (p : Payload) (db : Db) (i : IsSettleable platform p db)
    → Ledger.insert_transfer_entries platform.numeric (entry_params p i.sent) db
      ≡ ok (record db {
        ledger =
            (db.ledger ++ debit_entry (entry_params p i.sent) i.amount db.next_entry ∷ [])
            ++ credit_entry (entry_params p i.sent) i.credited (db.next_entry + 1) ∷ [];
        next_entry = db.next_entry + 1 + 1;
      })
unfolding Ledger.insert_transfer_entries Ledger.find_by_idempotency_key Wallet.find_by_id find_row
insert_passes platform p db i =
    let q = entry_params p i.sent in
    let d = debit_entry q i.amount db.next_entry in
    let c = credit_entry q i.credited (db.next_entry + 1) in
    let db1 : Db = record db { ledger = db.ledger ++ d ∷ []; next_entry = db.next_entry + 1 } in
    let first =
      insert_entry-passes d db i.from_wallet i.from_found
        (no_clash p.idempotency_key d db.ledger i.untagged refl i.no_entry) in
    let second = insert_entry-passes c db1 i.to_wallet i.to_found (
      find_row-append_none (clashes c) db.ledger (d ∷ [])
        (no_clash p.idempotency_key c db.ledger i.untagged refl i.no_entry)
      ∙ ground (arith, i.untagged)) in
    ground (arith, first, second, i.read, i.credit_read)

-- The two version updates of different wallets affect a row each.
pub versions_match :
    (p : Payload) (db : Db) (f t : Wallet)
    → Wallet.find_by_id p.from_wallet_id db ≡ some f
    → Wallet.find_by_id p.to_wallet_id db ≡ some t
    → p.from_wallet_id ≢ p.to_wallet_id
    → ((Wallet.increment_version_if_match f.id f.version db).0 ≢ 0)
      × ((Wallet.increment_version_if_match t.id t.version
            (Wallet.increment_version_if_match f.id f.version db).1).0
          ≢ 0)
unfolding Wallet.find_by_id Wallet.increment_version_if_match
versions_match p db f t hf ht distinct =
    let bump : Wallet → Wallet = λ w. record w { version = w.version + 1 } in
    let from_id = find_row_sound (wallet_is p.from_wallet_id) db.wallets f hf in
    let to_id = find_row_sound (wallet_is p.to_wallet_id) db.wallets t ht in
    let one =
      count-of_found (wallet_is p.from_wallet_id) (Wallet.version_is f.id f.version) db.wallets f hf
        (ground arith) in
    let kept =
      find-update_other (wallet_is p.to_wallet_id) (Wallet.version_is f.id f.version) bump
        db.wallets t (λ y. refl) (ground arith) ht in
    let two =
      count-of_found (wallet_is p.to_wallet_id) (Wallet.version_is t.id t.version)
        (update_rows (Wallet.version_is f.id f.version) bump db.wallets) t kept (ground arith) in
    (λ e. omega (arith, e, one), λ e. omega (arith, e, two))
