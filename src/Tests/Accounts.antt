-- ===== src/Tests/Accounts.antt =====
-- The theorems on the rows of users at concrete inputs.
use bukia_hft.Base.{◌≡◌, refl, ◌++◌, String, none, some, [], ◌∷◌, find_row}
use bukia_hft.Db.{Db, UserRole, user}
use bukia_hft.Tx.{Error, ok, err}
use bukia_hft.WalletService.{get_default_currencies_for_country}
use bukia_hft.WalletService.Defaults.{default_rows}
use bukia_hft.Auth.Register.{RegisterUserRequest, new_user, email_is, register_user}
use bukia_hft.Auth.Register.Accounts.{register_creates_account, taken_email_is_refused}
use bukia_hft.Tests.Logins.{bea, users}

abbrev capitals : String → String
capitals t = "NG"

abbrev as_user : UserRole → UserRole
as_user t = user

abbrev carol : RegisterUserRequest
carol = record {
  country = "ng";
  email = "carol@example.com";
  first_name = "Carol";
  last_name = "Eze";
  password = "Secret3!";
  type = user;
}

no_carol : find_row (email_is "carol@example.com") users.users ≡ none
unfolding find_row
no_carol = refl

register_creates_account_example :
    (db' : Db) × (register_user capitals as_user "#Secret3!" carol users
      ≡ (ok (new_user as_user "#Secret3!" carol 9), db'))
    × (db'.users ≡ users.users ++ new_user as_user "#Secret3!" carol 9 ∷ [])
    × (db'.wallets
        ≡ users.wallets ++ default_rows 9 4 (get_default_currencies_for_country capitals "ng"))
register_creates_account_example =
    register_creates_account capitals as_user "#Secret3!" carol users refl no_carol

-- The e-mail of a user who has been deactivated.
abbrev gone : Db
gone = record users { users = record bea { deleted_at = some 1 } ∷ [] }

abbrev again : RegisterUserRequest
again = record carol { email = "ada@example.com" }

has_row :
    find_row (email_is "ada@example.com") gone.users ≡ some (record bea { deleted_at = some 1 })
unfolding find_row
has_row = refl

taken_email_is_refused_example :
    (e : Error) × (register_user capitals as_user "#Secret3!" again gone ≡ (err e, gone))
taken_email_is_refused_example =
    taken_email_is_refused capitals as_user "#Secret3!" again gone refl
      (record bea { deleted_at = some 1 }) has_row
