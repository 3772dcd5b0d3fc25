-- ===== src/Tests/Books.antt =====
-- The theorems on the statistics of the ledger at concrete inputs, over the tables after a transfer of 4.
use bukia_hft.Base.{
  ◌≡◌, ◌≢◌, refl, ◌⊎◌, ◌+◌, ◌-◌, ◌*◌, String, Option, none, some, List, [], length, take, drop,
  filter_rows,
}
use bukia_hft.Base.Int.{ℤ, ◌-ℤ◌, ◌+ℤ◌}
use bukia_hft.Base.Groups.{group_by, sum_where}
use bukia_hft.Db.{credit, debit}
use bukia_hft.Tx.{Result, ok, err, service}
use bukia_hft.Admin.Transactions.{PaginationQuery, get_user_transactions, only_empty_pages_parse}
use bukia_hft.TransferService.{convert, get_rate}
use bukia_hft.Repositories.Ledger.{get_balance_for_wallet}
use bukia_hft.Repositories.Ledger.Statistics.{
  Joined, EntryPage, inner_join, joined_for_user, get_credits_debits_breakdown_by_currency_for_user,
  get_largest_by_currency_for_user, get_transaction_count_for_user,
}
use bukia_hft.Repositories.Ledger.Joins.{total_of, owned_in, breakdown_balances}
use bukia_hft.Analytics.{
  UserAnalytics, convert_all, convert_and_aggregate_rows, get_credits_debits_breakdown,
  get_largest_transfer_amount, compute_analytics,
}
use bukia_hft.Analytics.Counts.{counts_add_up}
use bukia_hft.Example.{platform, paid, print}

breakdown_balances_example :
    let rows = get_credits_debits_breakdown_by_currency_for_user 7 paid in
    total_of "USD" credit rows -ℤ total_of "USD" debit rows
    ≡ sum_where (owned_in 7 "USD") (λ w. get_balance_for_wallet w.id paid) paid.wallets
breakdown_balances_example = breakdown_balances 7 "USD" paid

abbrev number_text : Option ℤ → String
number_text none = "NaN"
number_text (some n) = print n

abbrev analytics : UserAnalytics
analytics = record {
  credits = record { count = 1; total = "IIIIIIIII" };
  currency = "USD";
  debits = record { count = 1; total = "IIII" };
  largest_transfer = "IIIIIIIII";
  total_transactions = 2;
}

analysed : compute_analytics platform number_text 7 "USD" paid ≡ ok analytics
unfolding compute_analytics get_transaction_count_for_user get_credits_debits_breakdown
    convert_and_aggregate_rows get_largest_transfer_amount convert_all convert get_rate group_by
    get_credits_debits_breakdown_by_currency_for_user get_largest_by_currency_for_user
    joined_for_user inner_join filter_rows ◌+ℤ◌
analysed = refl

counts_add_up_example :
    analytics.credits.count + analytics.debits.count ≡ analytics.total_transactions
counts_add_up_example = counts_add_up platform number_text "USD" 7 paid analytics analysed

abbrev as_stored : Option String → List Joined → Result (List Joined)
as_stored sort js = ok js

abbrev first_page : PaginationQuery
first_page = record { order = none; page = 1; page_size = 10; search = none; sort = none }

only_empty_pages_parse_example :
    let shown = take 10 (drop ((1 - 1) * 10) (joined_for_user 7 paid)) in
    let page : EntryPage = record {
      items = shown;
      page = 1;
      page_size = 10;
      total = length (joined_for_user 7 paid);
    } in
    let answer = get_user_transactions as_stored 7 first_page paid in
    ((shown ≡ []) × (answer ≡ ok page)) ⊎ ((shown ≢ []) × (answer ≡ err (service "zod")))
only_empty_pages_parse_example =
    only_empty_pages_parse as_stored 7 first_page paid (joined_for_user 7 paid) refl
