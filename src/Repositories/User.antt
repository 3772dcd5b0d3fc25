-- ===== src/Repositories/User.antt =====
-- repositories/user.repository.ts, and the methods of TypeORM's repositories that are called on users:
-- lookups skip those that are soft-deleted, which have a `deletedAt`; so do the joins of other
-- repositories. ILIKE of Postgres and `trim` of JavaScript are parameters.
pub mod Rows
pub mod Listing
use bukia_hft.Base.{
  ℕ, zero, suc, ◌+◌, ◌*◌, ◌-◌, ◌==◌, length, take, drop, String, Bool, true, false, ◌&&◌, ◌||◌, not,
  Option, none, some, List, [], ◌∷◌, map, str_eq, if◌then◌else◌, find_row, filter_rows, update_rows,
}
use Prim.Native.String.{◌++◌}
use bukia_hft.Db.{Db, User, UserRole, admin, super_admin, user}
use bukia_hft.Tx.{bad_request, Result, ok, err, Tx, pure, throw, select, ◌>>=◌}

abbrev pub is_live : Option ℕ → Bool
is_live none = true
is_live (some t) = false

-- `findWithProfile({ where: { id } })`
abbrev pub live_user_is : ℕ → User → Bool
live_user_is id u = if u.id == id then is_live u.deleted_at else false

unfoldable pub find_by_id : ℕ → Db → Option User
find_by_id id db = find_row (live_user_is id) db.users

-- `findOne({ where: { email } })`
abbrev pub live_email_is : String → User → Bool
live_email_is email u = if str_eq u.email email then is_live u.deleted_at else false

unfoldable pub find_by_email : String → Db → Option User
find_by_email email db = find_row (live_email_is email) db.users

abbrev pub same_role : UserRole → UserRole → Bool
same_role admin admin = true
same_role super_admin super_admin = true
same_role user user = true
same_role _ _ = false

-- enums/user-roles.ts
abbrev pub role_name : UserRole → String
role_name admin = "Admin"
role_name super_admin = "Superadmin"
role_name user = "User"

abbrev pub includes : List UserRole → UserRole → Bool
includes [] t = false
includes (r ∷ rs) t = same_role r t || includes rs t

abbrev pub live_with : (User → Bool) → User → Bool
live_with p u = p u && is_live u.deleted_at

-- `findByTypes`
unfoldable pub find_by_types : List UserRole → Db → List User
find_by_types [] db = []
find_by_types (t ∷ ts) db = filter_rows (live_with (λ u. includes (t ∷ ts) u.type)) db.users

-- `save` of a row that was read
abbrev pub user_is : ℕ → User → Bool
user_is id u = u.id == id

unfoldable pub save_user : User → Db → Db
save_user u db = record db { users = update_rows (user_is u.id) (λ _. u) db.users }

-- `create` makes no row, but looks for a super admin.
unfoldable pub create_user : {A : Type 0} → UserRole → A → Tx A
create_user super_admin entity = do
  existing ← select (λ db. find_row (live_with (λ u. same_role u.type super_admin)) db.users)
  elim existing [
    | some _ ↦ throw (bad_request "A super admin already exists.")
    | none ↦ pure entity
  ]
create_user admin entity = pure entity
create_user user entity = pure entity

-- `setPasswordAndIncrementJwt`
unfoldable pub set_password_and_increment_jwt : ℕ → String → Db → Option User × Db
unfolding find_by_id save_user
set_password_and_increment_jwt id hashed_password db = elim (find_by_id id db) [
  | none ↦ (none, db)
  | some u ↦
      let u' = record u { password = some hashed_password; jwt_version = u.jwt_version + 1 } in
      (some u', save_user u' db)
]

-- `listUsers`. SQL's AND binds before OR, and TypeORM adds the condition on `deletedAt` around both.
pub record UserListQuery : Type 0 where
  pub page : ℕ
  pub page_size : ℕ
  pub role : Option String
  pub search : Option String

pub record UserList : Type 0 where
  pub items : List User
  pub page : ℕ
  pub page_size : ℕ
  pub total : ℕ

abbrev pub ilike_opt : (String → String → Bool) → Option String → String → Bool
ilike_opt ilike none pattern = false
ilike_opt ilike (some t) pattern = ilike t pattern

module _ (ilike : String → String → Bool) (trim : String → String) where
  abbrev pub has_role : Option String → User → Bool
  has_role none u = true
  has_role (some role) u =
      if not (str_eq (trim role) "") then str_eq (role_name u.type) role else true

  unfoldable pub user_matches : Option String → Option String → User → Bool
  user_matches none role u = has_role role u
  user_matches (some search) role u =
      let q = "%" ++ search ++ "%" in
      if not (str_eq (trim search) "")
      then ilike u.email q
        || (ilike_opt ilike u.first_name q || (ilike_opt ilike u.last_name q && has_role role u))
      else has_role role u

  unfoldable pub list_users : UserListQuery → Db → UserList
  unfolding user_matches
  list_users params db =
      let found = filter_rows (live_with (user_matches params.search params.role)) db.users in
      record {
        items = take params.page_size (drop ((params.page - 1) * params.page_size) found);
        page = params.page;
        page_size = params.page_size;
        total = length found;
      }
