-- ===== src/Controllers/Customers.antt =====
-- The controllers of wallets, of the own user and of analytics (controllers/wallet.controller.ts,
-- controllers/user.controller.ts, controllers/analytics.controller.ts) and their routes.
use bukia_hft.Base.{ℕ, String, Bool, Option, none, some, [], ◌∷◌, str_eq, if◌then◌else◌}
use bukia_hft.Base.Int.{ℤ}
use bukia_hft.Db.{admin}
use bukia_hft.Tx.{Result, ok, null_access, invalid_input}
use bukia_hft.Redis.{Redis, Session}
use bukia_hft.Platform.{Platform}
use bukia_hft.Repositories.Wallet.{get_wallets_for_user}
use bukia_hft.WalletService.{wallet_repository, create_wallet}
use bukia_hft.Admin.{get_user_by_id}
use bukia_hft.Analytics.{UserAnalytics, SystemSummary}
use bukia_hft.Analytics.Cached.{get_user_analytics, get_system_summary}
use bukia_hft.Controllers.{
  me_body, wallets_body, wallet_body, analytics_body, summary_body, Server, Handler, fails,
  responds, for_roles, authenticated,
}
use bukia_hft.Controllers.AdminUser.{on_db}

-- The routes, with the currency of a body or a query.
pub data CustomerCall : Type 0 where
  open_wallet : (currency : String) → CustomerCall
  own_wallets me : CustomerCall
  own_analytics system_report : (currency : Option String) → CustomerCall

-- What the analytics take from outside: JSON, `String` of a number, `Intl.NumberFormat` on a currency, and
-- what others do between the polls of the cache.
pub record Reports (r : Redis) : Type 0 where
  pub platform : Platform
  pub number_text : Option ℤ → String
  pub text_of : ℕ → String
  pub parse_analytics : String → Result UserAnalytics
  pub print_analytics : UserAnalytics → String
  pub parse_summary : String → Result SystemSummary
  pub print_summary : SystemSummary → String
  pub is_valid_currency_code : String → Bool
  pub meanwhile : Session r → Session r

module _ (r : Redis) (server : Server r) (reports : Reports r) where
  -- `UserAnalyticsQuerySchema` and `SystemSummaryQuerySchema`
  abbrev pub query_currency : Option String → String
  query_currency none = "USD"
  query_currency (some c) = if str_eq (server.trim c) "" then "USD" else server.to_upper c

  -- `validateRequestQuery` with these schemas
  unfoldable pub valid_currency : (String → Handler r server) → Option String → Handler r server
  unfolding fails
  valid_currency handler currency req s =
      let c = query_currency currency in
      if reports.is_valid_currency_code c
      then handler c req s
      else fails r server (invalid_input "Invalid query schema") s

  -- A handler that reads `req.user.id`
  unfoldable pub with_user : (ℕ → Handler r server) → Handler r server
  unfolding fails
  with_user handler req s = elim req.user [
    | none ↦ fails r server null_access s
    | some user ↦ handler user.id req s
  ]

  -- `createWallet` is called without a manager.
  unfoldable pub create_wallet_route : String → ℕ → Handler r server
  unfolding responds create_wallet
  create_wallet_route currency user_id req s =
      responds r server 201 (λ w. "Wallet created") wallet_body
        (on_db r (create_wallet server.to_upper wallet_repository user_id currency) s)

  unfoldable pub list_wallets_route : ℕ → Handler r server
  unfolding responds get_wallets_for_user
  list_wallets_route user_id req s =
      responds r server 200 (λ ws. "Wallets") wallets_body
        (ok (get_wallets_for_user user_id s.db), s)

  unfoldable pub get_me_route : ℕ → Handler r server
  unfolding responds get_user_by_id
  get_me_route user_id req s =
      responds r server 200 (λ u. "User Profile") me_body (get_user_by_id user_id s.db, s)

  unfoldable pub user_analytics_route : String → ℕ → Handler r server
  unfolding responds get_user_analytics
  user_analytics_route currency user_id req s =
      responds r server 200 (λ a. "User analytics") analytics_body
        (get_user_analytics reports.platform reports.number_text r reports.meanwhile reports.text_of
          reports.parse_analytics reports.print_analytics user_id currency s)

  unfoldable pub system_summary_route : String → Handler r server
  unfolding responds get_system_summary
  system_summary_route currency req s =
      responds r server 200 (λ a. "System summary") summary_body
        (get_system_summary reports.platform reports.number_text r reports.meanwhile
          reports.parse_summary reports.print_summary currency s)

  -- The methods behind the token; the summary is for administrators.
  unfoldable pub customer_controller : CustomerCall → Handler r server
  unfolding with_user valid_currency for_roles create_wallet_route list_wallets_route get_me_route
      user_analytics_route system_summary_route
  customer_controller (open_wallet currency) = with_user (create_wallet_route currency)
  customer_controller own_wallets = with_user list_wallets_route
  customer_controller me = with_user get_me_route
  customer_controller (own_analytics currency) =
      valid_currency (λ c. with_user (user_analytics_route c)) currency
  customer_controller (system_report currency) =
      valid_currency (λ c. for_roles r server (admin ∷ []) (system_summary_route c)) currency

  unfoldable pub customer_router : CustomerCall → Handler r server
  unfolding authenticated customer_controller
  customer_router call = authenticated r server (customer_controller call)
