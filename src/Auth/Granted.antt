-- ===== src/Auth/Granted.antt =====
-- What a login that is answered with tokens has found and signed (services/auth.services.ts).
use bukia_hft.Base.{
  ◌≡◌, ap, ℕ, String, Bool, true, ◌&&◌, Option, none, some, arith, Bool-cases, inl, inr,
}
use bukia_hft.Db.{Db, User}
use bukia_hft.Tx.{Result-cases, ok}
use bukia_hft.Repositories.User.{find_by_email, find_by_id, live_email_is}
use bukia_hft.Repositories.User.Rows.{HasUniqueIds, find_by_id-of_found, find_email-live}
use bukia_hft.Auth.{Crypto, access, refresh, sign_as, sign_access_token, sign_refresh_token}
use bukia_hft.Auth.Service.{
  LoginUserResponse, Credentials, payload_of, generate_user_tokens, login_response, check_login,
  login_result,
}

-- The tokens that a user is given at a time.
pub record IsIssued (c : Crypto) (now : ℕ) (u : User) (res : LoginUserResponse) : Type 0 where
  pub access_signed :
      res.access_token ≡ c.sign now (record (payload_of u) { type = access }) c.access_token_expiry
  pub refresh_signed :
      res.refresh_token
      ≡ c.sign now (record (payload_of u) { type = refresh }) c.refresh_token_expiry
  pub has_email : c.is_email u.email ≡ true

pub login_response-IsIssued :
    (c : Crypto) (now : ℕ) (u : User) (res : LoginUserResponse)
    → login_response c now u ≡ ok res
    → IsIssued c now u res
unfolding login_response generate_user_tokens sign_access_token sign_refresh_token sign_as
login_response-IsIssued c now u res given = elim (Bool-cases (c.is_email u.email)) [
  | inl fine ↦
      let a = c.sign now (payload_of u) c.access_token_expiry in
      let f = c.sign now (record (payload_of u) { type = refresh }) c.refresh_token_expiry in
      elim (Bool-cases (c.is_jwt a && c.is_jwt f)) [
        | inl tokens ↦
            let issued : LoginUserResponse = record {
              access_token = a;
              refresh_token = f;
              role = u.type;
            } in
            let same : res ≡ issued = cc (
              rw
                (
                  login_response, generate_user_tokens, sign_access_token, sign_as, fine,
                  sign_refresh_token, sign_as, fine, tokens,
                )
                at given) in
            record {
              access_signed = ap (λ (l : LoginUserResponse). l.access_token) same;
              refresh_signed = ap (λ (l : LoginUserResponse). l.refresh_token) same;
              has_email = fine;
            }
        | inr bad ↦ cc (
            rw
              (
                login_response, generate_user_tokens, sign_access_token, sign_as, fine,
                sign_refresh_token, sign_as, fine, bad,
              )
              at given)
      ]
  | inr bad ↦
      cc (rw (login_response, generate_user_tokens, sign_access_token, sign_as, bad) at given)
]

-- What a login has found.
check_login-ok :
    (c : Crypto) (payload : Credentials) (authorized : Bool) (o : Option User) (u : User)
    → check_login c payload authorized o ≡ ok u
    → o ≡ some u
unfolding check_login
check_login-ok c payload authorized none u h = cc
check_login-ok c payload authorized (some v) u h = ground arith

pub login_result-found :
    (c : Crypto) (payload : Credentials) (authorized : Bool) (db : Db) (res : LoginUserResponse)
    → login_result c payload authorized db ≡ ok res
    → (u : User) × (find_by_email payload.email db ≡ some u) × (login_response c db.now u ≡ ok res)
unfolding login_result
login_result-found c payload authorized db res given =
    elim (Result-cases (check_login c payload authorized (find_by_email payload.email db))) [
      | inr (u, checked) ↦ (
        u,
        check_login-ok c payload authorized (find_by_email payload.email db) u checked,
        rw (login_result, checked) at given,
      )
      | inl (e, refused) ↦ cc (rw (login_result, refused) at given)
    ]

pub find_of_email :
    (email : String) (u : User) (db : Db) (later : ℕ)
    → HasUniqueIds db.users
    → find_by_email email db ≡ some u
    → find_by_id u.id (record db { now = later }) ≡ some u
unfolding find_by_email find_by_id
find_of_email email u db later keyed found =
    find_by_id-of_found (live_email_is email) u db.users keyed found
      (find_email-live email u db.users found)
