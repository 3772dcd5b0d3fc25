-- ===== src/WalletService.antt =====
-- services/wallet.services.ts: the wallets of a user. `toUpperCase` of JavaScript is a parameter.
pub mod Defaults
use bukia_hft.Base.{
  ℕ, String, Bool, true, false, Option, none, some, List, [], ◌∷◌, ◌++◌, ◌+◌, ◌==◌, find_row,
  str_eq, if◌then◌else◌,
}
use bukia_hft.Db.{Db, User, Wallet}
use bukia_hft.Tx.{foreign_key, conflict, service, Result, ok, err, Tx, pure, statement, ◌>>=◌}
use bukia_hft.Repositories.Wallet

abbrev pub user_is : ℕ → User → Bool
user_is id u = u.id == id

-- The INSERT of `repo.save`, with the foreign key to `user`.
unfoldable pub save_wallet : (ℕ → Wallet) → Db → Result (Wallet × Db)
save_wallet entity db =
    let row = entity db.next_wallet in
    elim (find_row (user_is row.user_id) db.users) [
      | none ↦ err foreign_key
      | some _ ↦
          ok (row, record db { wallets = db.wallets ++ row ∷ []; next_wallet = db.next_wallet + 1 })
    ]

abbrev pub wallet_row : ℕ → String → Bool → ℕ → Wallet
wallet_row user_id currency is_default id = record {
  id = id;
  currency = currency;
  is_default = is_default;
  user_id = user_id;
  version = 0;
}

-- `COUNTRY_DEFAULTS[up] ?? ["USD"]`
unfoldable pub country_defaults : String → List String
country_defaults up =
    if str_eq up "EU"
    then "EUR" ∷ "USD" ∷ []
    else if str_eq up "NG"
    then "NGN" ∷ "USD" ∷ []
    else if str_eq up "UK"
    then "GBP" ∷ "USD" ∷ []
    else "USD" ∷ []

-- The loop of `createAndSaveDefaultWalletsForUser`.
unfoldable pub save_default_wallets : ℕ → List String → Tx (List Wallet)
unfolding statement save_wallet
save_default_wallets user_id [] = pure []
save_default_wallets user_id (currency ∷ currencies) = do
  wallet ← statement (save_wallet (wallet_row user_id currency true))
  created ← save_default_wallets user_id currencies
  pure (wallet ∷ created)

-- The `repo` of `createWallet`: that of a given manager, or `WalletRepository`.
pub data WalletRepo : Type 0 where
  of_manager wallet_repository : WalletRepo

-- What `repo.create` gives. In `WalletRepository` (repositories/wallet.repository.ts) it is overridden by an
-- async function, which without a manager calls itself until the stack overflows; `createWallet` does not await
-- its promise. What Node does with a rejected promise that nothing awaits, which may end the process, is left out.
pub data Created : Type 0 where
  entity : (ℕ → Wallet) → Created
  promise : Created

abbrev pub create : WalletRepo → (ℕ → Wallet) → Created
create of_manager row = entity row
create wallet_repository row = promise

-- `repo.save`: a promise has none of the columns of a wallet, and the currency must not be null.
unfoldable pub save_created : Created → Db → Result (Wallet × Db)
unfolding save_wallet
save_created (entity row) db = save_wallet row db
save_created promise db = err (service "not null")

module _ (to_upper : String → String) where
  -- `getDefaultCurrenciesForCountry`
  unfoldable pub get_default_currencies_for_country : String → List String
  unfolding country_defaults
  get_default_currencies_for_country country = country_defaults (to_upper country)

  -- `createAndSaveDefaultWalletsForUser`. The user's row, which is saved again at the end, is as
  -- before.
  unfoldable pub create_and_save_default_wallets_for_user : User → Tx (List Wallet)
  unfolding save_default_wallets get_default_currencies_for_country
  create_and_save_default_wallets_for_user user =
      save_default_wallets user.id (get_default_currencies_for_country user.country)

  -- `createWallet`
  unfoldable pub create_wallet : WalletRepo → ℕ → String → Db → Result Wallet × Db
  unfolding Wallet.find_by_user_and_currency save_created
  create_wallet repo user_id currency db =
      elim (Wallet.find_by_user_and_currency user_id currency db) [
        | some _ ↦ (err (conflict "Wallet already exists for this currency"), db)
        | none ↦
            elim (save_created (create repo (wallet_row user_id (to_upper currency) false)) db) [
              | err e ↦ (err e, db)
              | ok (w, db') ↦ (ok w, db')
            ]
      ]
