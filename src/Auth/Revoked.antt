-- ===== src/Auth/Revoked.antt =====
-- Tokens whose version is no longer that of the user (middleware/auth.ts and `refreshToken` and
-- `logout` of services/auth.services.ts).
use bukia_hft.Base.{
  ◌≡◌, ◌⊎◌, ◌&&◌, find_row, update_rows, refl, ap, ◌∙◌, ℕ, ◌≤◌, ◌<◌, ◌+◌, String, Bool, true, none,
  some, arith, Bool-cases, inl, inr,
}
use bukia_hft.Db.{Db, User}
use bukia_hft.Tx.{unauthorized, Result, ok, err}
use bukia_hft.Repositories.User.{find_by_id, save_user, is_live, live_user_is, user_is}
use bukia_hft.Repositories.User.Rows.{find_row-save, find_row-live}
use bukia_hft.Auth.{
  Crypto, JwtType, JwtUserPayload, is_access, is_refresh, read_token, current_user,
  authenticate_token, Request,
}
use bukia_hft.Auth.Service.{refresh_token, logout}

abbrev pub IsRefused : {A : Type 0} → Result A → Type 0
IsRefused q = (why : String) × (q ≡ err (unauthorized why))

-- A payload with an older version than the user's row has, or without a row, is refused.
pub current_user-outdated :
    (p : JwtUserPayload) (u : User) (db : Db)
    → find_by_id p.id db ≡ some u
    → p.jwt_version < u.jwt_version
    → IsRefused (current_user p db)
unfolding current_user
current_user-outdated p u db found older =
    ("Token version mismatch or user not found", rw (current_user, found) (ground arith))

pub current_user-missing :
    (p : JwtUserPayload) (db : Db) → find_by_id p.id db ≡ none → IsRefused (current_user p db)
unfolding current_user
current_user-missing p db gone =
    ("Token version mismatch or user not found", rw (current_user, gone) refl)

module _ (c : Crypto) (token : String) (p : JwtUserPayload) (db : Db)
    (reads : c.verify db.now token ≡ some p) (refused : IsRefused (current_user p db)) where
  -- A token is read as its payload, or not at all.
  read_token-cases :
      (is_type : JwtType → Bool)
      → (read_token c is_type db.now token ≡ none) ⊎ (read_token c is_type db.now token ≡ some p)
  unfolding read_token
  read_token-cases is_type = elim (Bool-cases (c.is_email p.email && is_type p.type)) [
    | inl fits ↦ inr (rw (read_token, reads, fits) refl)
    | inr fails ↦ inl (rw (read_token, reads, fails) refl)
  ]

  pub authenticate_token-IsRefused : (req : Request) → IsRefused (authenticate_token c token req db)
  unfolding authenticate_token
  authenticate_token-IsRefused req =
      let (why, no_user) = refused in
      elim (read_token-cases is_access) [
        | inl unread ↦
            ("Invalid or expired authentication token", rw (authenticate_token, unread) refl)
        | inr read ↦ (why, rw (authenticate_token, read, no_user) refl)
      ]

  pub refresh_token-IsRefused : IsRefused (refresh_token c token db)
  unfolding refresh_token
  refresh_token-IsRefused =
      let (why, no_user) = refused in
      elim (read_token-cases is_refresh) [
        | inl unread ↦ ("Invalid or expired refresh token", rw (refresh_token, unread) refl)
        | inr read ↦ (why, rw (refresh_token, read, no_user) refl)
      ]

-- Neither use of a token is accepted.
pub record IsRevoked (c : Crypto) (token : String) (db : Db) : Type 0 where
  pub no_access : (req : Request) → IsRefused (authenticate_token c token req db)
  pub no_refresh : IsRefused (refresh_token c token db)

pub token-IsRevoked :
    (c : Crypto) (token : String) (p : JwtUserPayload) (db : Db)
    → c.verify db.now token ≡ some p
    → IsRefused (current_user p db)
    → IsRevoked c token db
token-IsRevoked c token p db reads refused = record {
  no_access = authenticate_token-IsRefused c token p db reads refused;
  no_refresh = refresh_token-IsRefused c token p db reads refused;
}

-- A row saved over the one that was found is found under the id.
pub find_by_id-save :
    (id : ℕ) (u v : User) (db : Db)
    → v.id ≡ id
    → is_live v.deleted_at ≡ true
    → find_by_id id db ≡ some u
    → find_by_id id (save_user v db) ≡ some v
unfolding find_by_id save_user
find_by_id-save id u v db same live found =
    ap (λ i. find_row (live_user_is id) (update_rows (user_is i) (λ _. v) db.users)) same
    ∙ find_row-save id u v db.users same live found

-- When `logout` finds the user, it returns, and no token of that user which has been signed up to
-- then, with the version of the row or an older one, is accepted afterwards: not by the
-- middleware, and not by `refreshToken`.
pub logout-IsRevoked :
    (c : Crypto) (token : String) (p : JwtUserPayload) (u : User) (db : Db)
    → find_by_id p.id db ≡ some u
    → c.verify db.now token ≡ some p
    → p.jwt_version ≤ u.jwt_version
    → ((logout p.id db).0 ≡ ok tt) × IsRevoked c token (logout p.id db).1
unfolding logout find_by_id
logout-IsRevoked c token p u db found reads older =
    let (same, live) = find_row-live p.id u db.users found in
    let u' = record u { jwt_version = u.jwt_version + 1 } in
    let after = find_by_id-save p.id u u' db same live found in
    let refused = current_user-outdated p u' (save_user u' db) after (omega (arith, older)) in
    rw (logout, found) (refl, token-IsRevoked c token p (save_user u' db) reads refused)
