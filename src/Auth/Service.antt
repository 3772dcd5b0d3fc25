-- ===== src/Auth/Service.antt =====
-- services/auth.services.ts, a function per method; the lookups and rows of `registerUser` are in
-- Register.
use bukia_hft.Base.{
  ⊤, ℕ, ◌+◌, String, Bool, true, false, not, ◌&&◌, ◌||◌, Option, none, some, str_eq, [], ◌∷◌,
  if◌then◌else◌,
}
use Prim.Native.String.{◌++◌}
use bukia_hft.Db.{Db, User, UserRole, admin, super_admin}
use bukia_hft.Tx.{unauthorized, service, Result, ok, err}
use bukia_hft.Repositories.User.{find_by_id, find_by_email, save_user, includes}
use bukia_hft.Lockout.{LockoutOptions, LockoutConfig}
use bukia_hft.RateLimit.{RateLimitOptions}
use bukia_hft.Auth.{
  Crypto, JwtUserPayload, access, is_refresh, sign_access_token, sign_refresh_token, read_token,
  current_user,
}

pub record LoginUserResponse : Type 0 where
  pub access_token : String
  pub refresh_token : String
  pub role : UserRole

pub record Credentials : Type 0 where
  pub email : String
  pub password : String

abbrev pub payload_of : User → JwtUserPayload
payload_of u = record {
  email = u.email;
  id = u.id;
  jwt_version = u.jwt_version;
  role = u.type;
  type = access;
}

module _ (c : Crypto) where
  -- `generateUserTokens`
  unfoldable pub generate_user_tokens : ℕ → User → Result (String × String)
  unfolding sign_access_token sign_refresh_token
  generate_user_tokens now u = elim (sign_access_token c now (payload_of u)) [
    | err e ↦ err e
    | ok access_token ↦ elim (sign_refresh_token c now (payload_of u)) [
      | err e ↦ err e
      | ok refresh_token ↦ ok (access_token, refresh_token)
    ]
  ]

  -- The tokens, through `LoginUserResponseSchema.parse`.
  unfoldable pub login_response : ℕ → User → Result LoginUserResponse
  unfolding generate_user_tokens
  login_response now u = elim (generate_user_tokens now u) [
    | err e ↦ err e
    | ok (access_token, refresh_token) ↦
        if c.is_jwt access_token && c.is_jwt refresh_token
        then ok
            (record { access_token = access_token; refresh_token = refresh_token; role = u.type })
        else err (service "zod")
  ]

  -- `validatePassword`
  abbrev pub validate_password : String → User → Bool
  validate_password password u = elim u.password [
    | none ↦ false
    | some hash ↦ if str_eq hash "" then false else c.bcrypt_compare password hash
  ]

  -- The checks of `loginUser`.
  unfoldable pub check_login : Credentials → Bool → Option User → Result User
  check_login payload authorized none = err (unauthorized "Invalid email or password")
  check_login payload authorized (some u) =
      if not (validate_password payload.password u) || not u.isverified
      then err (unauthorized "Invalid email or password")
      else if includes (admin ∷ super_admin ∷ []) u.type && not authorized
      then err (unauthorized "Not authorized")
      else ok u

  -- `loginUser` without its decorators.
  unfoldable pub login_result : Credentials → Bool → Db → Result LoginUserResponse
  unfolding check_login login_response find_by_email
  login_result payload authorized db =
      elim (check_login payload authorized (find_by_email payload.email db)) [
        | err e ↦ err e
        | ok u ↦ login_response db.now u
      ]

  -- `refreshToken`
  unfoldable pub refresh_token : String → Db → Result LoginUserResponse
  unfolding read_token current_user login_response
  refresh_token token db = elim (read_token c is_refresh db.now token) [
    | none ↦ err (unauthorized "Invalid or expired refresh token")
    | some payload ↦ elim (current_user payload db) [
      | err e ↦ err e
      | ok u ↦ login_response db.now u
    ]
  ]

-- `logout`
unfoldable pub logout : ℕ → Db → Result ⊤ × Db
unfolding find_by_id save_user
logout user_id db = elim (find_by_id user_id db) [
  | none ↦ (err (unauthorized "User not found"), db)
  | some u ↦ (ok tt, save_user (record u { jwt_version = u.jwt_version + 1 }) db)
]

-- `err instanceof Unauthorized`
abbrev pub is_unauthorized : {A : Type 0} → Result A → Bool
is_unauthorized (err (unauthorized why)) = true
is_unauthorized _ = false

-- The options of `loginUser`'s lock.
abbrev pub login_options : LockoutOptions LoginUserResponse
login_options = record {
  failure_predicate = some is_unauthorized;
  lock_seconds = some 900;
  method_name = none;
  redis_key_prefix = none;
  service_name = "auth";
  threshold = some 5;
  window_seconds = some 60;
}

abbrev pub login_config : LockoutConfig LoginUserResponse
login_config = record {
  failure_predicate = some is_unauthorized;
  lock_seconds = 900;
  method_name = none;
  redis_key_prefix = "lockout";
  service_name = "auth";
  threshold = 5;
  window_seconds = 60;
}

-- The options of `getOtp`'s limit.
abbrev pub otp_limit : RateLimitOptions
otp_limit = record {
  max = 1;
  message = some "Too many OTP requests for this email. Try again later.";
  prefix = "rl";
  window_sec = 60;
}

abbrev pub otp_key : String → String → String
otp_key email purpose = "otp:" ++ email ++ ":" ++ purpose
