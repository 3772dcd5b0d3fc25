-- ===== src/Tests/Wallets.antt =====
-- The theorems of the wallet service at concrete inputs.
use bukia_hft.Base.{
  List, ◌++◌, ◌≡◌, refl, String, [], ◌∷◌, arith, find_row, count_rows, str_eq, if◌then◌else◌,
}
use bukia_hft.Db.{Db, Wallet}
use bukia_hft.Tx.{ok, transaction}
use bukia_hft.WalletService.{
  create_and_save_default_wallets_for_user, get_default_currencies_for_country,
}
use bukia_hft.WalletService.Defaults.{HasOnePerCurrency, default_rows, default_wallets_are_created}
use bukia_hft.Example.{ada, db, wallet}

abbrev capitals : String → String
capitals s = if str_eq s "usd" then "USD" else s

abbrev bare : Db
bare = record db { wallets = [] }

abbrev single : Db
single = record db { wallets = wallet 1 7 "USD" ∷ [] }

bare-HasOnePerCurrency : HasOnePerCurrency bare
unfolding count_rows
bare-HasOnePerCurrency u c = omega arith

default_wallets_are_created_example :
    (created : List Wallet) × (db' : Db) × (transaction
        (create_and_save_default_wallets_for_user capitals ada)
        bare
      ≡ (ok created, db'))
    × (created ≡ default_rows 7 bare.next_wallet (get_default_currencies_for_country capitals "NG"))
    × (db'.wallets ≡ bare.wallets ++ created)
    × HasOnePerCurrency db'
unfolding find_row
default_wallets_are_created_example =
    default_wallets_are_created capitals ada ada bare refl refl bare-HasOnePerCurrency
