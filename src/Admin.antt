-- ===== src/Admin.antt =====
-- services/admin-user.services.ts, a function per method; `getUserTransactions` is in Transactions. The schema of
-- an answer keeps some columns of the row; the wallets that are loaded with a user are not among
-- them. A lock is given in whole minutes, and the names of an edited profile are not null. The salt of bcrypt,
-- and the password that is made up, are parameters.
pub mod Locks
pub mod Edits
pub mod Transactions
use bukia_hft.Base.{
  ⊤, ℕ, ◌+◌, ◌*◌, ◌==◌, String, Bool, true, false, not, ◌&&◌, ◌||◌, Option, none, some, List, [],
  ◌∷◌, map, ◌++◌, str_eq, if◌then◌else◌, find_row,
}
use bukia_hft.Base.Int.{ℤ}
use Prim.Native.String
use bukia_hft.Db.{Db, User, UserRole, Wallet}
use bukia_hft.Tx.{
  Error, not_found, conflict, duplicate_key, service, Result, ok, err, Tx, pure, throw, throw_if,
  query, select, statement, outside, transaction, ◌>>=◌, ◌>>◌,
}
use bukia_hft.Mail.{Email, Mailer, World, admin_password_reset}
use bukia_hft.Redis.{Redis, Session}
use bukia_hft.Repositories.User.{
  find_by_id, find_by_email, save_user, set_password_and_increment_jwt, UserListQuery, UserList,
  list_users,
}
use bukia_hft.Repositories.Wallet.{get_wallets_for_user}
use bukia_hft.Auth.{Crypto}
use bukia_hft.Lockout.{or_default}

-- `MeResponseSchema`
pub record MeResponse : Type 0 where
  pub id : ℕ
  pub email : String
  pub first_name : Option String
  pub isverified : Bool
  pub last_name : Option String
  pub type : UserRole

abbrev pub me_of : User → MeResponse
me_of u = record {
  id = u.id;
  email = u.email;
  first_name = u.first_name;
  isverified = u.isverified;
  last_name = u.last_name;
  type = u.type;
}

-- `MeResponseSchema.parse`, which throws on null
abbrev pub parse_me : Option User → Result MeResponse
parse_me none = err (service "zod")
parse_me (some u) = ok (me_of u)

-- `getUserById` of services/user.services.ts
unfoldable pub get_user_by_id : ℕ → Db → Result MeResponse
unfolding find_by_id
get_user_by_id user_id db = parse_me (find_by_id user_id db)

unfoldable pub get_user : ℕ → Db → Result MeResponse
unfolding find_by_id
get_user user_id db = elim (find_by_id user_id db) [
  | none ↦ err (not_found "User not found")
  | some u ↦ ok (me_of u)
]

unfoldable pub get_user_wallets : ℕ → Db → List (Wallet × ℤ)
unfolding get_wallets_for_user
get_user_wallets user_id db = get_wallets_for_user user_id db

abbrev pub bumped : User → User
bumped u = record u { jwt_version = u.jwt_version + 1 }

unfoldable pub deactivate_user : ℕ → Db → Result ⊤ × Db
unfolding find_by_id save_user
deactivate_user user_id db = elim (find_by_id user_id db) [
  | none ↦ (err (not_found "User not found"), db)
  | some u ↦ (ok tt, save_user (record (bumped u) { deleted_at = some db.now }) db)
]

abbrev pub login_lock_key : String → String
login_lock_key email = String.◌++◌ "lockout:lock:auth:loginUser:" email

module _ (r : Redis) where
  -- Redis refuses a time of 0 seconds.
  unfoldable pub lock_user : ℕ → ℕ → Session r → Result MeResponse × Session r
  unfolding find_by_id save_user
  lock_user user_id number_of_mins_to_lock_user s = elim (find_by_id user_id s.db) [
    | none ↦ (err (not_found "User not found"), s)
    | some u ↦
        if number_of_mins_to_lock_user == 0
        then (err (service "redis"), s)
        else (let s' : Session r = record s {
          db = save_user (bumped u) s.db;
          store = r.set (login_lock_key u.email) "1" (number_of_mins_to_lock_user * 60) s.store;
        } in
            (parse_me (find_by_id user_id s'.db), s'))
  ]

  unfoldable pub unlock_user : ℕ → Session r → Result MeResponse × Session r
  unfolding find_by_id save_user
  unlock_user user_id s = elim (find_by_id user_id s.db) [
    | none ↦ (err (not_found "User not found"), s)
    | some u ↦
        let s' : Session r = record s {
          db = save_user (bumped u) s.db;
          store = r.del (login_lock_key u.email) s.store;
        } in
        (parse_me (find_by_id user_id s'.db), s')
  ]

-- The transaction of `resetPassword`: the e-mail is sent inside it, and is returned here with the
-- answer, to be added to the queue.
abbrev pub reset_email : User → String → Email
reset_email u temp = record {
  to = u.email;
  template = admin_password_reset (or_default u.first_name "") temp;
  subject = some "Password reset by admin";
}

abbrev pub queue_reset : Mailer → List Email → String → Option User → Tx Email
queue_reset mailer outbox temp none = throw (not_found "User not found")
queue_reset mailer outbox temp (some u) =
    if mailer outbox (reset_email u temp)
    then pure (reset_email u temp)
    else throw (service "email")

unfoldable pub reset_in_transaction : Mailer → List Email → ℕ → String → String → Tx Email
unfolding set_password_and_increment_jwt query statement
reset_in_transaction mailer outbox user_id hashed temp =
    query (set_password_and_increment_jwt user_id hashed) >>= queue_reset mailer outbox temp

unfoldable pub admin_reset_password :
    Crypto
    → Mailer
    → (salt : String) → (made_up : String) → (user_id : ℕ) → (new_password : Option String) → World
    → Result (Option String) × World
unfolding reset_in_transaction transaction
admin_reset_password c mailer salt made_up user_id new_password w =
    let temp = or_default new_password made_up in
    let (result, db) =
      transaction (reset_in_transaction mailer w.outbox user_id (c.bcrypt_hash salt temp) temp)
        w.db in
    elim result [
      | err e ↦ (err e, record w { db = db })
      | ok email ↦ (ok new_password, record { db = db; outbox = w.outbox ++ email ∷ [] })
    ]

pub record AdminUserEditBody : Type 0 where
  pub email : Option String
  pub first_name : Option String
  pub last_name : Option String
  pub profile_id : Option ℕ

-- The unique index on the e-mail takes the deleted rows in.
abbrev pub takes_email : User → User → Bool
takes_email u v = str_eq v.email u.email && not (v.id == u.id)

unfoldable pub save_unique : User → Db → Result (⊤ × Db)
unfolding save_user
save_unique u db = elim (find_row (takes_email u) db.users) [
  | some _ ↦ err duplicate_key
  | none ↦ ok (tt, save_user u db)
]

abbrev pub edited_email : Option String → User → User
edited_email none u = u
edited_email (some email) u = if str_eq email "" then u else record u { email = email }

abbrev pub wants_email : Option String → User → Option String
wants_email none u = none
wants_email (some email) u = if str_eq email "" || str_eq email u.email then none else some email

-- `Object.assign` on a profile that is there.
abbrev pub edited_profile : AdminUserEditBody → User → User
edited_profile body u = elim u.first_name [
  | none ↦ u
  | some name ↦ record u {
    first_name = some (or_default body.first_name name);
    last_name = elim body.last_name [ none ↦ u.last_name | some last ↦ some last ];
  }
]

abbrev pub refuse_taken : Option User → Tx ⊤
refuse_taken (some v) = throw (conflict "Email already belongs to another user.")
refuse_taken none = pure tt

unfoldable pub check_email : Option String → Tx ⊤
unfolding find_by_email select query statement
check_email none = pure tt
check_email (some email) = select (find_by_email email) >>= refuse_taken

-- The end of `updateUser` reads on another connection.
abbrev pub edited : AdminUserEditBody → User → User
edited body u = edited_profile body (edited_email body.email u)

unfoldable pub refresh_me : ℕ → Tx MeResponse
unfolding find_by_id outside
refresh_me id = outside (λ db. (find_by_id id db, db)) >>= (λ refreshed s. (parse_me refreshed, s))

-- The id that `Object.assign` puts on a profile that is there.
abbrev pub other_profile : AdminUserEditBody → User → Option ℕ
other_profile body u = elim u.first_name [ none ↦ none | some name ↦ body.profile_id ]

-- The table of profiles is not modelled, so that what TypeORM and Postgres do when a profile has been given an
-- id, and it and its user are saved, is a parameter.
module _ (save_as : ℕ → User → Db → Result (⊤ × Db)) where
  unfoldable pub save_with_profile : AdminUserEditBody → User → Db → Result (⊤ × Db)
  unfolding save_unique
  save_with_profile body u db = elim (other_profile body u) [
    | none ↦ save_unique (edited body u) db
    | some id ↦ save_as id (edited body u) db
  ]

  unfoldable pub save_edited : AdminUserEditBody → User → Tx MeResponse
  unfolding refresh_me save_with_profile statement
  save_edited body u = statement (save_with_profile body u) >> refresh_me u.id

  unfoldable pub update_found : AdminUserEditBody → Option User → Tx MeResponse
  unfolding check_email save_edited
  update_found body none = throw (not_found "User not found.")
  update_found body (some u) = check_email (wants_email body.email u) >> save_edited body u

  unfoldable pub update_body : ℕ → AdminUserEditBody → Tx MeResponse
  unfolding find_by_id update_found select query statement
  update_body user_id body = select (find_by_id user_id) >>= update_found body

  unfoldable pub update_user : ℕ → AdminUserEditBody → Db → Result MeResponse × Db
  unfolding update_body transaction
  update_user user_id body db = transaction (update_body user_id body) db
