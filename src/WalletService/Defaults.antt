-- ===== src/WalletService/Defaults.antt =====
-- The default wallets of a new user (services/wallet.services.ts).
use bukia_hft.Base.{
  ◌≡◌, ◌==◌, refl, sym, ◌∙◌, ℕ, ◌≤◌, ◌+◌, String, true, false, none, some, List, [], ◌∷◌, ◌++◌,
  arith, find_row, count_rows, count-append, count_one, count-of_none, Bool-cases, inl, inr, str_eq,
  eq_iff,
}
use mathlib.Core.List.{append_assoc, append-nil}
use bukia_hft.Db.{Db, User, Wallet}
use bukia_hft.Tx.{ok, TxState, statement, transaction}
use bukia_hft.Tx.Inversion.{transaction-of_ok}
use bukia_hft.Repositories.Wallet.{user_currency_is}
use bukia_hft.WalletService.{
  user_is, save_wallet, wallet_row, save_default_wallets, country_defaults,
  get_default_currencies_for_country, create_and_save_default_wallets_for_user,
}

-- A user has no two wallets of one currency.
abbrev pub HasOnePerCurrency : Db → Type 0
HasOnePerCurrency db = (u : ℕ) (c : String) → count_rows (user_currency_is u c) db.wallets ≤ 1

-- The default wallets, from the next id on.
abbrev pub default_rows : ℕ → ℕ → List String → List Wallet
default_rows user_id next [] = []
default_rows user_id next (c ∷ cs) =
    wallet_row user_id c true next ∷ default_rows user_id (next + 1) cs

save_wallet-new :
    (entity : ℕ → Wallet) (db : Db) (u : User)
    → find_row (user_is (entity db.next_wallet).user_id) db.users ≡ some u
    → save_wallet entity db
      ≡ ok (
        entity db.next_wallet,
        record db {
          wallets = db.wallets ++ entity db.next_wallet ∷ [];
          next_wallet = db.next_wallet + 1;
        },
      )
unfolding save_wallet
save_wallet-new entity db u found = ground arith

-- The loop adds its rows to the table and returns them.
pub save_default_wallets_lem :
    (user_id : ℕ) (cs : List String) (s : TxState) (u : User)
    → s.aborted ≡ false
    → find_row (user_is user_id) s.work.users ≡ some u
    → (t : TxState) × (save_default_wallets user_id cs s
        ≡ (ok (default_rows user_id s.work.next_wallet cs), t))
      × (t.aborted ≡ false)
      × (t.work.wallets ≡ s.work.wallets ++ default_rows user_id s.work.next_wallet cs)
      × (t.work.users ≡ s.work.users)
unfolding save_default_wallets statement
save_default_wallets_lem user_id [] s u live found =
    (s, refl, live, sym (append-nil s.work.wallets), refl)
save_default_wallets_lem user_id (c ∷ cs) s u live found =
    let row = wallet_row user_id c true s.work.next_wallet in
    let s' : TxState = record s {
      work = record s.work {
        wallets = s.work.wallets ++ row ∷ [];
        next_wallet = s.work.next_wallet + 1;
      };
    } in
    let saved = save_wallet-new (wallet_row user_id c true) s.work u found in
    let (t, ran, live', rows, same) = save_default_wallets_lem user_id cs s' u live found in
    (t, ground (arith, saved, ran), live', rows ∙ append_assoc s.work.wallets (row ∷ []) _, same)

default_rows_count :
    (u user_id next : ℕ) (c : String) (cs : List String)
    → count_rows (user_currency_is u c) (default_rows user_id next cs)
      ≤ count_rows (λ d. str_eq d c) cs
unfolding count_rows
default_rows_count u user_id next c [] = omega arith
default_rows_count u user_id next c (d ∷ cs) =
    ground (arith, default_rows_count u user_id (next + 1) c cs)

default_rows_other :
    (u user_id next : ℕ) (c : String) (cs : List String)
    → (user_id == u) ≡ false
    → count_rows (user_currency_is u c) (default_rows user_id next cs) ≡ 0
unfolding count_rows
default_rows_other u user_id next c [] h = refl
default_rows_other u user_id next c (d ∷ cs) h =
    ground (arith, default_rows_other u user_id (next + 1) c cs h)

two_apart : (a b c : String) → str_eq a b ≡ false → count_rows (λ d. str_eq d c) (a ∷ b ∷ []) ≤ 1
unfolding count_rows
two_apart a b c h = ground (arith, eq_iff a b, eq_iff a c, eq_iff b c)

-- No default currency is listed twice.
country_defaults_once : (up c : String) → count_rows (λ d. str_eq d c) (country_defaults up) ≤ 1
unfolding country_defaults
country_defaults_once up c =
    let one = count_one (λ (d : String). str_eq d c) "USD" in
    ground (
      arith,
      one,
      two_apart "EUR" "USD" c refl,
      two_apart "NGN" "USD" c refl,
      two_apart "GBP" "USD" c refl,
    )

-- For a user whose row is in the table, and who has no wallet yet, the transaction of
-- `createAndSaveDefaultWalletsForUser` goes through: it adds one default wallet of this user for each
-- default currency of the country, in order, and returns them; if no user had two wallets of one
-- currency before, none has two afterwards.
pub default_wallets_are_created :
    (to_upper : String → String) (user row : User) (db : Db)
    → find_row (user_is user.id) db.users ≡ some row
    → find_row (λ (w : Wallet). w.user_id == user.id) db.wallets ≡ none
    → HasOnePerCurrency db
    → (created : List Wallet) × (db' : Db) × (transaction
          (create_and_save_default_wallets_for_user to_upper user)
          db
        ≡ (ok created, db'))
      × (created
          ≡ default_rows user.id db.next_wallet
              (get_default_currencies_for_country to_upper user.country))
      × (db'.wallets ≡ db.wallets ++ created)
      × HasOnePerCurrency db'
unfolding create_and_save_default_wallets_for_user get_default_currencies_for_country
default_wallets_are_created to_upper user row db found new once =
    let cs = country_defaults (to_upper user.country) in
    let created = default_rows user.id db.next_wallet cs in
    let s : TxState = record { committed = db; work = db; aborted = false } in
    let (t, ran, live, rows, same) = save_default_wallets_lem user.id cs s row refl found in
    let done =
      transaction-of_ok (create_and_save_default_wallets_for_user to_upper user) db created t ran
        live in
    (
      created,
      t.work,
      done,
      refl,
      rows,
      λ u c.
          rw (rows, count-append (user_currency_is u c) db.wallets created)
            (elim (Bool-cases (user.id == u)) [
              | inr other ↦
                  rw (default_rows_other u user.id db.next_wallet c cs other)
                    (ground (arith, once u c))
              | inl own ↦
                  let none_yet : count_rows (user_currency_is u c) db.wallets ≡ 0 =
                    count-of_none (λ (w : Wallet). w.user_id == user.id) (user_currency_is u c)
                      db.wallets (λ x h. ground arith) new in
                  rw none_yet (
                    ground (
                      arith,
                      default_rows_count u user.id db.next_wallet c cs,
                      country_defaults_once (to_upper user.country) c,
                    ))
            ]),
    )
