-- ===== src/Repositories/Ledger/Statistics.antt =====
-- repositories/ledger.repository.ts: the queries over the ledger and its wallets. A COUNT is a natural
-- number and a SUM an integer; the service reads the text of a SUM. The order by `createdAt` is a parameter.
use bukia_hft.Base.{
  ℕ, ◌+◌, ◌-◌, ◌*◌, ◌==◌, length, take, drop, String, Bool, ◌&&◌, Option, none, some, List, [], ◌∷◌,
  ◌++◌, str_eq, filter_rows, if◌then◌else◌,
}
use bukia_hft.Base.Int.{ℤ, pos, ◌+ℤ◌, ltb_ℤ}
use bukia_hft.Base.Groups.{group_by}
use bukia_hft.Tx.{Result, ok, err}
use bukia_hft.Db.{Db, LedgerEntryType, debit, LedgerEntry, Wallet}
use bukia_hft.Repositories.Ledger.{same_type}

-- `innerJoin("wallet", "w", 'w.id = l."walletId"')`: every entry with every wallet of its id.
pub record Joined : Type 0 where
  pub entry : LedgerEntry
  pub wallet : Wallet

abbrev pub with_wallets : LedgerEntry → List Wallet → List Joined
with_wallets e [] = []
with_wallets e (w ∷ ws) =
    let rest = with_wallets e ws in
    if w.id == e.wallet_id then record { entry = e; wallet = w } ∷ rest else rest

unfoldable pub inner_join : List LedgerEntry → List Wallet → List Joined
inner_join [] ws = []
inner_join (e ∷ es) ws = with_wallets e ws ++ inner_join es ws

-- `where('w."userId" = :userId')`
abbrev pub of_user : ℕ → Joined → Bool
of_user user_id j = j.wallet.user_id == user_id

unfoldable pub joined_for_user : ℕ → Db → List Joined
unfolding inner_join
joined_for_user user_id db = filter_rows (of_user user_id) (inner_join db.ledger db.wallets)

-- `COUNT(l.id)` and `COALESCE(SUM(l.amount),0)` of a group.
pub record Totals : Type 0 where
  pub count : ℕ
  pub total : ℤ

abbrev pub first_total : Joined → Totals
first_total j = record { count = 1; total = j.entry.amount }

abbrev pub add_total : Joined → Totals → Totals
add_total j t = record { count = t.count + 1; total = j.entry.amount +ℤ t.total }

abbrev pub TypeCurrency : Type 0
TypeCurrency = LedgerEntryType × String

abbrev pub same_type_currency : TypeCurrency → TypeCurrency → Bool
same_type_currency (t, c) (u, d) = same_type t u && str_eq c d

abbrev pub type_currency : Joined → TypeCurrency
type_currency j = (j.entry.type, j.wallet.currency)

unfoldable pub get_credits_debits_breakdown_by_currency_for_user :
    ℕ → Db → List (TypeCurrency × Totals)
unfolding joined_for_user group_by
get_credits_debits_breakdown_by_currency_for_user user_id db =
    group_by same_type_currency type_currency first_total add_total (joined_for_user user_id db)

unfoldable pub get_credits_debits_breakdown_for_user : ℕ → Db → List (LedgerEntryType × Totals)
unfolding joined_for_user group_by
get_credits_debits_breakdown_for_user user_id db =
    group_by same_type (λ (j : Joined). j.entry.type) first_total add_total
      (joined_for_user user_id db)

-- `MAX(l.amount)`
abbrev pub larger : Joined → ℤ → ℤ
larger j m = if ltb_ℤ m j.entry.amount then j.entry.amount else m

abbrev pub currency_of : Joined → String
currency_of j = j.wallet.currency

unfoldable pub get_largest_by_currency_for_user : ℕ → Db → List (String × ℤ)
unfolding joined_for_user group_by
get_largest_by_currency_for_user user_id db =
    group_by str_eq currency_of (λ j. j.entry.amount) larger (joined_for_user user_id db)

abbrev pub max_amount : List Joined → Option ℤ
max_amount [] = none
max_amount (j ∷ js) = elim (max_amount js) [
  | none ↦ some j.entry.amount
  | some m ↦ some (larger j m)
]

-- `res?.max ?? "0"`
abbrev or_zero : Option ℤ → ℤ
or_zero none = pos 0
or_zero (some m) = m

unfoldable pub get_largest_transfer_for_user : ℕ → Db → ℤ
unfolding joined_for_user
get_largest_transfer_for_user user_id db = or_zero (max_amount (joined_for_user user_id db))

abbrev pub is_debit : LedgerEntry → Bool
is_debit e = same_type e.type debit

unfoldable pub get_total_transfer_count : Db → ℕ
get_total_transfer_count db = length (filter_rows is_debit db.ledger)

unfoldable pub get_total_transfers_by_currency : Db → List (String × Totals)
unfolding inner_join group_by
get_total_transfers_by_currency db =
    group_by str_eq currency_of first_total add_total
      (filter_rows (λ (j : Joined). is_debit j.entry) (inner_join db.ledger db.wallets))

unfoldable pub get_transaction_count_for_user : ℕ → Db → ℕ
unfolding joined_for_user
get_transaction_count_for_user user_id db = length (joined_for_user user_id db)

-- `getEntriesForUser`
pub record EntryPage : Type 0 where
  pub items : List Joined
  pub page : ℕ
  pub page_size : ℕ
  pub total : ℕ

-- TypeORM refuses a text that is no direction of an order.
unfoldable pub get_entries_for_user :
    (by_created : Option String → List Joined → Result (List Joined)) (user_id page page_size : ℕ)
    (sort : Option String)
    → Db
    → Result EntryPage
unfolding joined_for_user
get_entries_for_user by_created user_id page page_size sort db =
    let found = joined_for_user user_id db in
    elim (by_created sort found) [
      | err e ↦ err e
      | ok sorted ↦ ok (record {
        items = take page_size (drop ((page - 1) * page_size) sorted);
        page = page;
        page_size = page_size;
        total = length found;
      })
    ]
