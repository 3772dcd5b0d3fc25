-- ===== src/Analytics.antt =====
-- services/analytics.services.ts. What a Number is as a text, and JSON, are parameters; logging is left out.
pub mod Cached
pub mod Counts
use bukia_hft.Base.{
  ℕ, ◌+◌, String, Bool, Option, none, some, List, [], ◌∷◌, map, filter_rows, if◌then◌else◌,
}
use bukia_hft.Base.Int.{ℤ, pos, ◌+ℤ◌, ltb_ℤ}
use bukia_hft.Db.{Db, LedgerEntryType, credit, debit}
use bukia_hft.Tx.{Result, ok, err}
use bukia_hft.Platform.{Platform}
use bukia_hft.Repositories.Ledger.{same_type}
use bukia_hft.Repositories.Ledger.Statistics.{
  Totals, TypeCurrency, get_credits_debits_breakdown_by_currency_for_user,
  get_largest_by_currency_for_user, get_total_transfer_count, get_total_transfers_by_currency,
  get_transaction_count_for_user,
}
use bukia_hft.TransferService.{convert}

-- `{ count, total }`, once as a Number and once as a text
pub record Aggregate : Type 0 where
  pub count : ℕ
  pub total : Option ℤ

pub record Breakdown : Type 0 where
  pub count : ℕ
  pub total : String

pub record UserAnalytics : Type 0 where
  pub credits : Breakdown
  pub currency : String
  pub debits : Breakdown
  pub largest_transfer : String
  pub total_transactions : ℕ

pub record CurrencyBreakdown : Type 0 where
  pub count : ℕ
  pub currency : String
  pub total : String

pub record SystemSummary : Type 0 where
  pub currency : String
  pub currency_breakdown : List CurrencyBreakdown
  pub total_transfers_count : ℕ
  pub total_value : String

-- A sum of Numbers, of which NaN is one.
abbrev pub add_number : Option ℤ → Option ℤ → Option ℤ
add_number none b = none
add_number (some a) none = none
add_number (some a) (some b) = some (a +ℤ b)

-- `if (conv > largestNum) largestNum = conv`
abbrev pub larger_number : Option ℤ → ℤ → ℤ
larger_number none m = m
larger_number (some c) m = if ltb_ℤ m c then c else m

-- `Promise.all` of conversions, of which the first error is thrown.
abbrev pub and_then : {A B : Type 0} → Result A → (A → Result B) → Result B
and_then (ok a) f = f a
and_then (err e) f = err e

unfoldable pub convert_all : {A B : Type 0} → (A → Result B) → List A → Result (List B)
convert_all f [] = ok []
convert_all f (r ∷ rs) = and_then (f r) (λ c. and_then (convert_all f rs) (λ cs. ok (c ∷ cs)))

abbrev pub of_type : LedgerEntryType → TypeCurrency × Totals → Bool
of_type type ((t, currency), totals) = same_type t type

abbrev pub sum_counts : List Aggregate → ℕ
sum_counts [] = 0
sum_counts (a ∷ xs) = a.count + sum_counts xs

abbrev pub sum_totals : List Aggregate → Option ℤ
sum_totals [] = some (pos 0)
sum_totals (a ∷ xs) = add_number a.total (sum_totals xs)

abbrev pub largest : List (Option ℤ) → ℤ
largest [] = pos 0
largest (c ∷ cs) = larger_number c (largest cs)

module _ (platform : Platform) (number_text : Option ℤ → String) where
  open platform use {numeric_text, to_number}

  -- A SUM or MAX, as the database returns it, in the base currency.
  abbrev pub in_base : String → String → ℤ → Result (Option ℤ)
  in_base base currency v = convert platform (to_number (numeric_text v)) currency base

  abbrev pub convert_row : String → TypeCurrency × Totals → Result Aggregate
  convert_row base ((type, currency), t) =
      and_then (in_base base currency t.total) (λ c. ok (record { count = t.count; total = c }))

  -- `convertAndAggregateRows`
  unfoldable pub convert_and_aggregate_rows :
      List (TypeCurrency × Totals) → String → Result Aggregate
  unfolding convert_all
  convert_and_aggregate_rows rows base =
      and_then (convert_all (convert_row base) rows)
        (λ cs. ok (record { count = sum_counts cs; total = sum_totals cs }))

  unfoldable pub get_credits_debits_breakdown :
      ℕ → Db → List (TypeCurrency × Totals) × List (TypeCurrency × Totals)
  unfolding get_credits_debits_breakdown_by_currency_for_user
  get_credits_debits_breakdown user_id db =
      let rows = get_credits_debits_breakdown_by_currency_for_user user_id db in
      (filter_rows (of_type credit) rows, filter_rows (of_type debit) rows)

  unfoldable pub get_largest_transfer_amount : ℕ → String → Db → Result ℤ
  unfolding get_largest_by_currency_for_user convert_all
  get_largest_transfer_amount user_id base db =
      and_then
        (convert_all (λ ((currency, m) : String × ℤ). in_base base currency m)
          (get_largest_by_currency_for_user user_id db))
        (λ cs. ok (largest cs))

  abbrev pub user_analytics : String → Aggregate → Aggregate → ℤ → ℕ → UserAnalytics
  user_analytics base credits debits largest_transfer total = record {
    credits = record { count = credits.count; total = number_text credits.total };
    currency = base;
    debits = record { count = debits.count; total = number_text debits.total };
    largest_transfer = number_text (some largest_transfer);
    total_transactions = total;
  }

  -- The method under the decorator of `computeAnalytics`. The counts are natural numbers, so
  -- that the schema takes every result.
  unfoldable pub compute_analytics : ℕ → String → Db → Result UserAnalytics
  unfolding get_transaction_count_for_user get_credits_debits_breakdown convert_and_aggregate_rows
      get_largest_transfer_amount
  compute_analytics user_id base db =
      let total = get_transaction_count_for_user user_id db in
      let (credits_rows, debits_rows) = get_credits_debits_breakdown user_id db in
      and_then (convert_and_aggregate_rows credits_rows base) (λ credits.
        and_then (convert_and_aggregate_rows debits_rows base) (λ debits.
          and_then (get_largest_transfer_amount user_id base db)
            (λ largest_transfer. ok (user_analytics base credits debits largest_transfer total))))

  abbrev pub convert_currency : String → String × Totals → Result (String × Aggregate)
  convert_currency base (currency, t) =
      and_then (in_base base currency t.total)
        (λ c. ok (currency, record { count = t.count; total = c }))

  abbrev pub breakdown_of : String × Aggregate → CurrencyBreakdown
  breakdown_of (currency, a) = record {
    count = a.count;
    currency = currency;
    total = number_text a.total;
  }

  -- The method under the decorator of `getSystemSummary`.
  unfoldable pub system_summary : String → Db → Result SystemSummary
  unfolding get_total_transfers_by_currency get_total_transfer_count convert_all
  system_summary base db =
      let total_count = get_total_transfer_count db in
      and_then (convert_all (convert_currency base) (get_total_transfers_by_currency db))
        (λ converted. ok (record {
          currency = base;
          currency_breakdown = map breakdown_of converted;
          total_transfers_count = total_count;
          total_value =
              number_text (sum_totals (map (λ ((c, a) : String × Aggregate). a) converted));
        }))
