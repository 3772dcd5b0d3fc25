-- ===== src/Repositories/Wallet.antt =====
-- repositories/wallet.repository.ts
pub mod Versions
use bukia_hft.Base.{
  ℕ, String, Bool, ◌&&◌, Option, none, some, List, map, ◌+◌, ◌==◌, str_eq, find_row, count_rows,
  update_rows, filter_rows,
}
use bukia_hft.Base.Int.{ℤ}
use bukia_hft.Db.{Db, User, Wallet}
use bukia_hft.Repositories.Ledger.{balance_of, wallet_is}
use bukia_hft.Repositories.User.{live_user_is}

unfoldable pub find_by_id : ℕ → Db → Option Wallet
find_by_id id db = find_row (wallet_is id) db.wallets

abbrev pub user_currency_is : ℕ → String → Wallet → Bool
user_currency_is user_id currency w = w.user_id == user_id && str_eq w.currency currency

unfoldable pub find_by_user_and_currency : ℕ → String → Db → Option Wallet
find_by_user_and_currency user_id currency db =
    find_row (user_currency_is user_id currency) db.wallets

-- The relation `user` of the wallet.
unfoldable pub find_user_by_wallet : ℕ → Db → Option User
unfolding find_by_id
find_user_by_wallet wallet_id db = elim (find_by_id wallet_id db) [
  | none ↦ none
  | some w ↦ find_row (live_user_is w.user_id) db.users
]

unfoldable pub get_balance : ℕ → Db → ℤ
unfolding balance_of
get_balance wallet_id db = balance_of wallet_id db.ledger

unfoldable pub get_wallets_for_user : ℕ → Db → List (Wallet × ℤ)
unfolding balance_of
get_wallets_for_user user_id db =
    map (λ w. (w, balance_of w.id db.ledger)) (filter_rows (λ w. w.user_id == user_id) db.wallets)

-- `WHERE id = :id AND version = :version`
abbrev pub version_is : ℕ → ℕ → Wallet → Bool
version_is id expected w = w.id == id && w.version == expected

unfoldable pub increment_version_if_match : ℕ → ℕ → Db → ℕ × Db
increment_version_if_match id expected db =
    let p = version_is id expected in
    (
      count_rows p db.wallets,
      record db { wallets = update_rows p (λ w. record w { version = w.version + 1 }) db.wallets },
    )
