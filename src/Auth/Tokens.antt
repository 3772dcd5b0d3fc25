-- ===== src/Auth/Tokens.antt =====
-- The tokens of a login and of a refresh (services/auth.services.ts), and who reads them: the
-- middleware (middleware/auth.ts) and `refreshToken`.
use bukia_hft.Base.{
  ◌≡◌, refl, ap, ◌∙◌, ℕ, ◌≤◌, ◌<◌, ◌+◌, String, Bool, true, false, none, some, arith, inl, inr,
  Option-cases,
}
use Prim.Native.String.{◌++◌}
use mathlib.Core.Path.{subst}
use bukia_hft.Db.{Db, User}
use bukia_hft.Tx.{unauthorized, ok, err}
use bukia_hft.Repositories.User.{find_by_email, find_by_id}
use bukia_hft.Repositories.User.Rows.{HasUniqueIds}
use bukia_hft.Auth.{
  Crypto, JwtType, JwtUserPayload, refresh, is_access, is_refresh, read_token, current_user,
  authenticate_token, authenticate_jwt, Request, bearer,
}
use bukia_hft.Auth.Laws.{CryptoLaws}
use bukia_hft.Auth.Header.{remove_first-bearer, bearer_filled}
use bukia_hft.Auth.Service.{
  LoginUserResponse, Credentials, payload_of, login_response, login_result, refresh_token,
}
use bukia_hft.Auth.Granted.{login_response-IsIssued, login_result-found, find_of_email}

module _ (c : Crypto) (laws : CryptoLaws c) where
  open laws use {verify-sign, verify_sound}

  -- A signed payload of the type that is asked for is read, and one of the other type is not.
  read_token-sign :
      (is_type : JwtType → Bool) (now later expires_in : ℕ) (p : JwtUserPayload)
      → now ≤ later
      → later < now + expires_in
      → c.is_email p.email ≡ true
      → is_type p.type ≡ true
      → read_token c is_type later (c.sign now p expires_in) ≡ some p
  unfolding read_token
  read_token-sign is_type now later expires_in p after before fine right =
      rw (read_token, verify-sign now later expires_in p after before, fine, right) refl

  read_token-other_type :
      (is_type : JwtType → Bool) (now later expires_in : ℕ) (p : JwtUserPayload)
      → is_type p.type ≡ false
      → read_token c is_type later (c.sign now p expires_in) ≡ none
  unfolding read_token
  read_token-other_type is_type now later expires_in p wrong =
      elim (Option-cases (c.verify later (c.sign now p expires_in))) [
        | inl gone ↦ rw (read_token, gone) refl
        | inr (q, read) ↦
            let same = verify_sound now later expires_in p q read in
            let wrong' : is_type q.type ≡ false =
              ap (λ (p : JwtUserPayload). is_type p.type) same ∙ wrong in
            rw (read_token, read) (ground (arith, wrong'))
      ]

  current_user-found :
      (p : JwtUserPayload) (u : User) (db : Db)
      → find_by_id p.id db ≡ some u
      → p.jwt_version ≡ u.jwt_version
      → current_user p db ≡ ok u
  unfolding current_user
  current_user-found p u db found same = rw (current_user, found) (ground arith)

  -- What `authenticateJWT` makes of a header with a token, and of a token that is read.
  authenticate_jwt-bearer :
      (token : String) (req : Request) (db : Db)
      → let req' = record req { authorization = some (bearer ++ token) } in
        authenticate_jwt c req' db ≡ authenticate_token c token req' db
  unfolding authenticate_jwt
  authenticate_jwt-bearer token req db = rw (bearer_filled token) (
      ap (λ t. authenticate_token c t (record req { authorization = some (bearer ++ token) }) db)
        (remove_first-bearer token))

  pub authenticate_token-read :
      (token : String) (req : Request) (db : Db) (p : JwtUserPayload) (u : User)
      → read_token c is_access db.now token ≡ some p
      → current_user p db ≡ ok u
      → authenticate_token c token req db ≡ ok (record req { user = some p })
  unfolding authenticate_token
  authenticate_token-read token req db p u read user = rw (authenticate_token, read, user) refl

  -- Let no two rows of users have one id. The access token that a login returns is accepted by
  -- `authenticateJWT`, in a header after `Bearer `, from then until it expires, as long as the users
  -- are as they were; the request goes on with the id, the e-mail, the version and the role of the user
  -- who has the e-mail of the login.
  login_token_authenticates :
      (payload : Credentials) (authorized : Bool) (db : Db) (res : LoginUserResponse)
      (req : Request) (later : ℕ)
      → HasUniqueIds db.users
      → login_result c payload authorized db ≡ ok res
      → db.now ≤ later
      → later < db.now + c.access_token_expiry
      → let req' = record req { authorization = some (bearer ++ res.access_token) } in
        (u : User) × (find_by_email payload.email db ≡ some u)
        × (authenticate_jwt c req' (record db { now = later })
            ≡ ok (record req' { user = some (payload_of u) }))
  login_token_authenticates payload authorized db res req later keyed given after before =
      let (u, found, issued) = login_result-found c payload authorized db res given in
      let i = login_response-IsIssued c db.now u res issued in
      let read =
        read_token-sign is_access db.now later c.access_token_expiry (payload_of u) after before
          i.has_email refl in
      let row = find_of_email payload.email u db later keyed found in
      let user = current_user-found (payload_of u) u (record db { now = later }) row refl in
      (
        u,
        found,
        authenticate_jwt-bearer res.access_token req (record db { now = later })
            ∙ authenticate_token-read res.access_token _ (record db { now = later }) (payload_of u)
                u (ap (read_token c is_access later) i.access_signed ∙ read) user,
      )

  -- Whenever it is presented, and to whatever state of the tables, the refresh token of a login is
  -- refused by the middleware, and its access token is refused by `refreshToken`.
  pub tokens_not_exchanged :
      (payload : Credentials) (authorized : Bool) (db db' : Db) (res : LoginUserResponse)
      (req : Request)
      → login_result c payload authorized db ≡ ok res
      → (authenticate_token c res.refresh_token req db'
          ≡ err (unauthorized "Invalid or expired authentication token"))
        × (refresh_token c res.access_token db'
            ≡ err (unauthorized "Invalid or expired refresh token"))
  unfolding authenticate_token refresh_token
  tokens_not_exchanged payload authorized db db' res req given =
      let (u, found, issued) = login_result-found c payload authorized db res given in
      let i = login_response-IsIssued c db.now u res issued in
      let p = payload_of u in
      let no_access =
        read_token-other_type is_access db.now db'.now c.refresh_token_expiry
          (record p { type = refresh }) refl in
      let no_refresh =
        read_token-other_type is_refresh db.now db'.now c.access_token_expiry p refl in
      (
        rw (i.refresh_signed, authenticate_token, no_access) refl,
        rw (i.access_signed, refresh_token, no_refresh) refl,
      )

  -- Let no two rows of users have one id. From a login until its refresh token expires, and as long as
  -- the users are as they were, `refreshToken` accepts this token and answers as for new tokens of
  -- the user who logged in.
  refresh_renews_login :
      (payload : Credentials) (authorized : Bool) (db : Db) (res : LoginUserResponse) (later : ℕ)
      → HasUniqueIds db.users
      → login_result c payload authorized db ≡ ok res
      → db.now ≤ later
      → later < db.now + c.refresh_token_expiry
      → (u : User) × (find_by_email payload.email db ≡ some u)
        × (refresh_token c res.refresh_token (record db { now = later }) ≡ login_response c later u)
  unfolding refresh_token
  refresh_renews_login payload authorized db res later keyed given after before =
      let (u, found, issued) = login_result-found c payload authorized db res given in
      let i = login_response-IsIssued c db.now u res issued in
      let p = record (payload_of u) { type = refresh } in
      let read =
        read_token-sign is_refresh db.now later c.refresh_token_expiry p after before i.has_email
          refl in
      let row = find_of_email payload.email u db later keyed found in
      let user = current_user-found p u (record db { now = later }) row refl in
      (u, found, rw (i.refresh_signed, refresh_token, read, user) refl)

  -- Let no two rows of users have one id. As long as the users are as they were, and until it expires, the
  -- access token of a login is accepted by the middleware, with the id, e-mail, version and role of the
  -- user of the login's e-mail; and until that one expires, the refresh token is accepted by
  -- `refreshToken`, which answers as for new tokens of this user.
  pub login_tokens_work :
      (payload : Credentials) (authorized : Bool) (db : Db) (res : LoginUserResponse)
      (req : Request) (later much_later : ℕ)
      → HasUniqueIds db.users
      → login_result c payload authorized db ≡ ok res
      → db.now ≤ later
      → later < db.now + c.access_token_expiry
      → db.now ≤ much_later
      → much_later < db.now + c.refresh_token_expiry
      → let req' = record req { authorization = some (bearer ++ res.access_token) } in
        (u : User) × (find_by_email payload.email db ≡ some u)
        × (authenticate_jwt c req' (record db { now = later })
            ≡ ok (record req' { user = some (payload_of u) }))
        × (refresh_token c res.refresh_token (record db { now = much_later })
            ≡ login_response c much_later u)
  login_tokens_work payload authorized db res req later much_later keyed given after before after'
        before' =
      let (u, found, accepted) =
        login_token_authenticates payload authorized db res req later keyed given after before in
      let (v, same, renewed) =
        refresh_renews_login payload authorized db res much_later keyed given after' before' in
      let one : v ≡ u = cc (same, found) in
      (
        u,
        found,
        accepted,
        subst
            (λ u.
              refresh_token c res.refresh_token (record db { now = much_later })
              ≡ login_response c much_later u)
            one renewed,
      )
