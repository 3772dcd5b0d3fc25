-- ===== src/Analytics/Counts.antt =====
-- The counts of services/analytics.services.ts.
use bukia_hft.Base.{
  ◌≡◌, refl, sym, ap, ◌∙◌, ℕ, ◌+◌, String, true, length, Option, List, [], ◌∷◌, arith, filter_rows,
}
use mathlib.Core.Path.{subst}
use bukia_hft.Base.Int.{ℤ, pos, pos_part, int_laws}
use bukia_hft.Base.Groups.{sum_where, sum-group_by}
use bukia_hft.Db.{Db, credit, debit}
use bukia_hft.Tx.{Result, ok, err}
use bukia_hft.Platform.{Platform}
use bukia_hft.Repositories.Ledger.Statistics.{
  Joined, Totals, TypeCurrency, first_total, add_total, same_type_currency, type_currency,
  joined_for_user, get_credits_debits_breakdown_by_currency_for_user,
  get_transaction_count_for_user,
}
use bukia_hft.Analytics.{
  Aggregate, UserAnalytics, and_then, convert_all, of_type, sum_counts, sum_totals, in_base,
  user_analytics, convert_row, convert_and_aggregate_rows, get_credits_debits_breakdown,
  get_largest_transfer_amount, compute_analytics,
}

and_then-eq-ok :
    {A B : Type 0} (m : Result A) (f : A → Result B) (b : B)
    → and_then m f ≡ ok b
    → (a : A) × (m ≡ ok a) × (f a ≡ ok b)
and_then-eq-ok (ok a) f b h = (a, refl, h)
and_then-eq-ok (err e) f b h = cc

from_ok : {A : Type 0} {a b : A} → ok a ≡ ok b → a ≡ b
from_ok h = cc

-- The rows' counts.
abbrev row_counts : List (TypeCurrency × Totals) → ℕ
row_counts [] = 0
row_counts ((k, t) ∷ rows) = t.count + row_counts rows

split_counts :
    (rows : List (TypeCurrency × Totals))
    → row_counts (filter_rows (of_type credit) rows) + row_counts (filter_rows (of_type debit) rows)
      ≡ row_counts rows
unfolding filter_rows
split_counts [] = refl
split_counts (((credit, c), t) ∷ rows) = omega (arith, split_counts rows)
split_counts (((debit, c), t) ∷ rows) = omega (arith, split_counts rows)

-- The same, as a sum of integers over the groups.
row_counts-sum :
    (rows : List (TypeCurrency × Totals))
    → sum_where
        (λ ((k, t) : TypeCurrency × Totals). true)
        (λ ((k, t) : TypeCurrency × Totals). pos t.count)
        rows
      ≡ pos (row_counts rows)
unfolding sum_where
row_counts-sum [] = refl
row_counts-sum ((k, t) ∷ rows) = rw (row_counts-sum rows) (omega int_laws)

length-sum : (js : List Joined) → sum_where (λ (j : Joined). true) (λ j. pos 1) js ≡ pos (length js)
unfolding sum_where
length-sum [] = refl
length-sum (j ∷ js) = rw (length-sum js) (omega int_laws)

breakdown_counts :
    (user_id : ℕ) (db : Db)
    → row_counts (get_credits_debits_breakdown_by_currency_for_user user_id db)
      ≡ get_transaction_count_for_user user_id db
unfolding get_credits_debits_breakdown_by_currency_for_user get_transaction_count_for_user
breakdown_counts user_id db = ap pos_part (
    sym (row_counts-sum (get_credits_debits_breakdown_by_currency_for_user user_id db))
    ∙ sum-group_by same_type_currency type_currency first_total add_total (λ k. true) (λ j. pos 1)
        (λ t. pos t.count) (λ j k h. refl) (λ r. refl) (λ r a. omega int_laws)
        (joined_for_user user_id db)
    ∙ length-sum (joined_for_user user_id db))

module _ (platform : Platform) (number_text : Option ℤ → String) (base : String) where
  converted_counts :
      (rows : List (TypeCurrency × Totals)) (cs : List Aggregate)
      → convert_all (convert_row platform number_text base) rows ≡ ok cs
      → sum_counts cs ≡ row_counts rows
  unfolding convert_all
  converted_counts [] cs h = ground arith
  converted_counts (((k, currency), t) ∷ rows) cs h =
      let f = convert_row platform number_text base in
      let (c, one, rest) =
        and_then-eq-ok (f ((k, currency), t))
          (λ c. and_then (convert_all f rows) (λ cs. ok (c ∷ cs))) cs h in
      let (cs', others, same) = and_then-eq-ok (convert_all f rows) (λ cs. ok (c ∷ cs)) cs rest in
      let (v, priced, made) =
        and_then-eq-ok (in_base platform number_text base currency t.total)
          (λ v. ok (record { count = t.count; total = v })) c one in
      let all : c ∷ cs' ≡ cs = from_ok same in
      let count : c.count ≡ t.count = ap (λ (a : Aggregate). a.count) (sym (from_ok made)) in
      sym (ap sum_counts all) ∙ omega (arith, count, converted_counts rows cs' others)

  aggregate_count :
      (rows : List (TypeCurrency × Totals)) (a : Aggregate)
      → convert_and_aggregate_rows platform number_text rows base ≡ ok a
      → a.count ≡ row_counts rows
  unfolding convert_and_aggregate_rows
  aggregate_count rows a h =
      let (cs, converted, same) =
        and_then-eq-ok (convert_all (convert_row platform number_text base) rows)
          (λ cs. ok (record { count = sum_counts cs; total = sum_totals cs })) a h in
      ap (λ (a : Aggregate). a.count) (sym (from_ok same)) ∙ converted_counts rows cs converted

  -- The counts of credits and debits of a result add up to its number of transactions, which is counted
  -- by another query on the same tables.
  pub counts_add_up :
      (user_id : ℕ) (db : Db) (a : UserAnalytics)
      → compute_analytics platform number_text user_id base db ≡ ok a
      → a.credits.count + a.debits.count ≡ a.total_transactions
  unfolding compute_analytics get_credits_debits_breakdown
  counts_add_up user_id db a h =
      let rows = get_credits_debits_breakdown_by_currency_for_user user_id db in
      let total = get_transaction_count_for_user user_id db in
      let credits_of =
        convert_and_aggregate_rows platform number_text (filter_rows (of_type credit) rows) base in
      let debits_of =
        convert_and_aggregate_rows platform number_text (filter_rows (of_type debit) rows) base in
      let largest_of = get_largest_transfer_amount platform number_text user_id base db in
      let made = user_analytics platform number_text base in
      let (c, credits, h1) =
        and_then-eq-ok credits_of
          (λ c. and_then debits_of (λ d. and_then largest_of (λ m. ok (made c d m total)))) a h in
      let (d, debits, h2) =
        and_then-eq-ok debits_of (λ d. and_then largest_of (λ m. ok (made c d m total))) a h1 in
      let (m, biggest, h3) = and_then-eq-ok largest_of (λ m. ok (made c d m total)) a h2 in
      let all : made c d m total ≡ a = from_ok h3 in
      let one = aggregate_count (filter_rows (of_type credit) rows) c credits in
      let two = aggregate_count (filter_rows (of_type debit) rows) d debits in
      let sum : c.count + d.count ≡ total =
        omega (arith, one, two, split_counts rows, breakdown_counts user_id db) in
      subst (λ (a : UserAnalytics). a.credits.count + a.debits.count ≡ a.total_transactions) all sum
