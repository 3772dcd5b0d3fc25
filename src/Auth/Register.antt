-- ===== src/Auth/Register.antt =====
-- `registerUser` of services/auth.services.ts. What TypeORM stores in the column `type` of an entity of
-- the class `User` is a parameter, a function of the `type` that was set; so are the hash of the
-- password and `toUpperCase`.
pub mod Accounts
use bukia_hft.Base.{
  ℕ, ◌+◌, String, Bool, true, false, Option, none, some, List, [], ◌∷◌, ◌++◌, str_eq, find_row,
}
use bukia_hft.Db.{Db, User, UserRole}
use bukia_hft.Tx.{
  conflict, duplicate_key, Result, ok, err, Tx, pure, throw, outside, statement, transaction, ◌>>=◌,
}
use bukia_hft.Repositories.User.{find_by_email, create_user}
use bukia_hft.WalletService.{create_and_save_default_wallets_for_user}

pub record RegisterUserRequest : Type 0 where
  pub country : String
  pub email : String
  pub first_name : String
  pub last_name : String
  pub password : String
  pub type : UserRole

-- The entity with its profile, but for the id.
abbrev pub new_user : (UserRole → UserRole) → String → RegisterUserRequest → ℕ → User
new_user stored_type hash payload id = record {
  id = id;
  country = payload.country;
  deleted_at = none;
  email = payload.email;
  first_name = some payload.first_name;
  isverified = false;
  jwt_version = 0;
  last_name = some payload.last_name;
  password = some hash;
  type = stored_type payload.type;
}

-- The INSERT, with the unique index on the e-mail, which takes the deleted rows in.
abbrev pub email_is : String → User → Bool
email_is email u = str_eq u.email email

unfoldable pub insert_user : (ℕ → User) → Db → Result (User × Db)
insert_user entity db =
    let row = entity db.next_user in
    elim (find_row (email_is row.email) db.users) [
      | some _ ↦ err duplicate_key
      | none ↦ ok (row, record db { users = db.users ++ row ∷ []; next_user = db.next_user + 1 })
    ]

module _ (to_upper : String → String) (stored_type : UserRole → UserRole) where
  unfoldable pub add_wallets : User → Tx User
  unfolding create_and_save_default_wallets_for_user
  add_wallets u = create_and_save_default_wallets_for_user to_upper u >>= (λ created. pure u)

  unfoldable pub insert_account : (ℕ → User) → Tx User
  unfolding insert_user add_wallets statement
  insert_account entity = statement (insert_user entity) >>= add_wallets

  abbrev pub unless_taken : String → RegisterUserRequest → Option User → Tx User
  unless_taken hash payload (some v) = throw (conflict "Something went wrong")
  unless_taken hash payload none =
      create_user payload.type (new_user stored_type hash payload) >>= insert_account

  unfoldable pub register_body : String → RegisterUserRequest → Tx User
  unfolding insert_account create_user find_by_email outside
  register_body hash payload =
      outside (λ db. (find_by_email payload.email db, db)) >>= unless_taken hash payload

  unfoldable pub register_user : String → RegisterUserRequest → Db → Result User × Db
  unfolding register_body transaction
  register_user hash payload db = transaction (register_body hash payload) db
