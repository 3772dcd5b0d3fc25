-- ===== src/Auth.antt =====
-- Tokens and guards: utils/auth.ts, middleware/auth.ts and utils/authorization.ts. The libraries of
-- cryptography, and Zod's tests of an address and of a token, are
-- parameters.
pub mod Service
pub mod Laws
pub mod Header
pub mod Granted
pub mod Tokens
pub mod Revoked
pub mod Login
pub mod Locked
pub mod Admitted
pub mod Otp
pub mod Verified
pub mod Issued
pub mod Reset
pub mod Register
use bukia_hft.Base.{
  ℕ, ◌+◌, ◌==◌, String, Bool, true, false, not, ◌&&◌, ◌||◌, Option, none, some, List, map, str_eq,
  if◌then◌else◌,
}
use Prim.Native.Char.{code}
use Prim.Native.String
use Prim.Native.String.{◌++◌}
use bukia_hft.Base.Text.{remove_first}
use bukia_hft.Db.{Db, User, UserRole, admin, super_admin, user}
use bukia_hft.Tx.{Error, unauthorized, forbidden, service, Result, ok, err}
use bukia_hft.Redis.{Redis, Session}
use bukia_hft.Repositories.User.{find_by_id, same_role, includes}

-- `JWT_TYPE`
pub data JwtType : Type 0 where
  access refresh : JwtType

abbrev pub is_access : JwtType → Bool
is_access access = true
is_access refresh = false

abbrev pub is_refresh : JwtType → Bool
is_refresh access = false
is_refresh refresh = true

-- `JWTUserPayloadSchema`
pub record JwtUserPayload : Type 0 where
  pub email : String
  pub id : ℕ
  pub jwt_version : ℕ
  pub role : UserRole
  pub type : JwtType

-- Node's crypto, jsonwebtoken with the service's secret, bcrypt, and the configuration of the service.
-- `sign` and `verify` take the time; `bcrypt_hash` takes the salt.
pub record Crypto : Type 0 where
  pub hash_otp : String → String
  pub sign : ℕ → JwtUserPayload → ℕ → String
  pub verify : ℕ → String → Option JwtUserPayload
  pub bcrypt_hash : String → String → String
  pub bcrypt_compare : String → String → Bool
  pub is_email : String → Bool
  pub is_jwt : String → Bool
  pub access_token_expiry : ℕ
  pub refresh_token_expiry : ℕ
  pub otp_ttl_sec : ℕ

-- `generateOtp`, where the random number times 900000 is a parameter with its text
abbrev pub generate_otp : (ℕ → String) → ℕ → String
generate_otp to_string random = to_string (100000 + random)

module _ (c : Crypto) where
  -- `JWTUserPayloadSchema.parse` throws an error of Zod.
  unfoldable pub sign_as : ℕ → JwtType → ℕ → JwtUserPayload → Result String
  sign_as now type expires_in payload =
      if c.is_email payload.email
      then ok (c.sign now (record payload { type = type }) expires_in)
      else err (service "zod")

  unfoldable pub sign_access_token : ℕ → JwtUserPayload → Result String
  unfolding sign_as
  sign_access_token now payload = sign_as now access c.access_token_expiry payload

  unfoldable pub sign_refresh_token : ℕ → JwtUserPayload → Result String
  unfolding sign_as
  sign_refresh_token now payload = sign_as now refresh c.refresh_token_expiry payload

  -- A token whose payload passes the schema and has the type that is asked for.
  unfoldable pub read_token : (JwtType → Bool) → ℕ → String → Option JwtUserPayload
  read_token is_type now token = elim (c.verify now token) [
    | none ↦ none
    | some payload ↦ if c.is_email payload.email && is_type payload.type then some payload else none
  ]

-- The user of a payload, if the version is that of the row.
unfoldable pub current_user : JwtUserPayload → Db → Result User
unfolding find_by_id
current_user payload db = elim (find_by_id payload.id db) [
  | none ↦ err (unauthorized "Token version mismatch or user not found")
  | some u ↦
      if u.jwt_version == payload.jwt_version
      then ok u
      else err (unauthorized "Token version mismatch or user not found")
]

abbrev pub bearer : String
bearer = "Bearer "

-- What the modelled middleware reads of a request, and `req.user`.
pub record Request : Type 0 where
  pub authorization : Option String
  pub method : String
  pub user : Option JwtUserPayload

module _ (c : Crypto) where
  -- The test of a token, and of its user.
  unfoldable pub authenticate_token : String → Request → Db → Result Request
  unfolding read_token current_user
  authenticate_token token req db = elim (read_token c is_access db.now token) [
    | none ↦ err (unauthorized "Invalid or expired authentication token")
    | some payload ↦ elim (current_user payload db) [
      | err e ↦ err e
      | ok u ↦ ok (record req { user = some payload })
    ]
  ]

  -- `authenticateJWT`: the request that is passed on, or the error.
  unfoldable pub authenticate_jwt : Request → Db → Result Request
  unfolding authenticate_token
  authenticate_jwt req db = elim req.authorization [
    | none ↦ err (unauthorized "Missing authentication token")
    | some header ↦
        if str_eq header ""
        then err (unauthorized "Missing authentication token")
        else authenticate_token (remove_first bearer header) req db
  ]

  -- `MUTATING_METHODS`
  abbrev pub is_mutating : String → Bool
  is_mutating method =
      str_eq method "DELETE"
      || (str_eq method "PATCH" || (str_eq method "POST" || str_eq method "PUT"))

  unfoldable pub mutate_only_auth : Request → Db → Result Request
  unfolding authenticate_jwt
  mutate_only_auth req db = if not (is_mutating req.method) then ok req else authenticate_jwt req db

-- `RoleGuard`: the handler, unless an error is passed on.
unfoldable pub role_guard : {A : Type 0} → List UserRole → (Request → Result A) → Request → Result A
role_guard allowed_roles original req = elim req.user [
  | none ↦ err (unauthorized "User not authenticated")
  | some payload ↦
      if not (same_role payload.role super_admin) && not (includes allowed_roles payload.role)
      then err (forbidden "You do not have permission to access this resource")
      else original req
]

-- What JavaScript takes for true.
abbrev pub truthy : Option String → Bool
truthy none = false
truthy (some t) = not (str_eq t "")

-- `OTP_PURPOSE`
abbrev pub email_verification : String
email_verification = "emailVerification"

abbrev pub password_reset_purpose : String
password_reset_purpose = "passwordReset"

abbrev pub authorize : String
authorize = "authorize"

abbrev pub verified_key : String → String → String
verified_key email purpose = "otp_verified:" ++ email ++ ":" ++ purpose

-- `isAuthorized`, with the prefix that it has by default.
unfoldable pub is_authorized :
    (r : Redis) {A : Type 0}
    → (email : String) → (Bool → Session r → Result A × Session r)
    → Session r
    → Result A × Session r
is_authorized r email original s =
    let key = verified_key email authorize in
    let authorized = truthy (r.get key s.store) in
    let s' : Session r = if authorized then record s { store = r.del key s.store } else s in
    original authorized s'
