-- ===== src/Tests/Logins.antt =====
-- The theorems on logins, tokens and one-time passwords at concrete inputs.
use bukia_hft.Base.{
  ◌≡◌, refl, String, false, true, none, some, [], ◌∷◌, arith, inl, find_row, update_rows,
  count_rows,
}
use bukia_hft.Base.Int.{ℤ}
use Prim.Native.String.{◌++◌}
use text.Mathlib.TextLemmas.{cons≢nil}
use bukia_hft.Lockout.{lock_key}
use bukia_hft.Auth.Login.{login_user}
use bukia_hft.Auth.Admitted.{tokens_of, unless_locked}
use bukia_hft.Db.{Db, User, user}
use bukia_hft.Mail.{Mailer, send}
use bukia_hft.Tx.{unauthorized, bad_request, ok, err}
use bukia_hft.Redis.{Session}
use bukia_hft.Redis.Memory.{memory, empty, memory-RedisLaws}
use bukia_hft.Repositories.User.{find_by_email, find_by_id, save_user}
use bukia_hft.Repositories.User.Rows.{HasUniqueIds}
use bukia_hft.RateLimit.{count_call, rate_limit_by_key}
use bukia_hft.Auth.{
  Request, refresh, bearer, sign_as, sign_access_token, sign_refresh_token, authenticate_jwt,
  authenticate_token, verified_key, password_reset_purpose,
}
use bukia_hft.Auth.Service.{
  Credentials, LoginUserResponse, payload_of, generate_user_tokens, login_response, check_login,
  login_config, login_result, refresh_token, otp_key,
}
use bukia_hft.Auth.Tokens.{login_tokens_work, tokens_not_exchanged}
use bukia_hft.Auth.Otp.{handle_otp_type, issue_otp, get_otp, validate_otp, reset_password}
use bukia_hft.Auth.Verified.{settled_for}
use bukia_hft.Auth.Issued.{issued_otp_validates, otp_used_once}
use bukia_hft.Auth.Reset.{reset_password_logs_in, reset_password_keeps_tokens}
use bukia_hft.Example.{ada, db}
use bukia_hft.Example.Tokens.{crypto, crypto-CryptoLaws}

abbrev pub bea : User
bea = record ada { password = some "#Secret1!" }

abbrev pub users : Db
users = record db { users = bea ∷ []; now = 2 }

pub users-HasUniqueIds : HasUniqueIds users.users
unfolding count_rows
users-HasUniqueIds = (refl, tt)

abbrev pub cred : Credentials
cred = record { email = "ada@example.com"; password = "Secret1!" }

abbrev res : LoginUserResponse
res = record {
  access_token = crypto.sign 2 (payload_of bea) 5;
  refresh_token = crypto.sign 2 (record (payload_of bea) { type = refresh }) 9;
  role = user;
}

logged_in : login_result crypto cred false users ≡ ok res
unfolding login_result check_login login_response generate_user_tokens sign_access_token
    sign_refresh_token sign_as find_by_email find_row
logged_in = refl

abbrev request : Request
request = record { authorization = none; method = "POST"; user = none }

login_tokens_work_example :
    let req' = record request { authorization = some (bearer ++ res.access_token) } in
    (u : User) × (find_by_email cred.email users ≡ some u)
    × (authenticate_jwt crypto req' (record users { now = 4 })
        ≡ ok (record req' { user = some (payload_of u) }))
    × (refresh_token crypto res.refresh_token (record users { now = 8 })
        ≡ login_response crypto 8 u)
login_tokens_work_example =
    login_tokens_work crypto crypto-CryptoLaws cred false users res request 4 8 users-HasUniqueIds
      logged_in (omega arith) (omega arith) (omega arith) (omega arith)

tokens_not_exchanged_example :
    (authenticate_token crypto res.refresh_token request users
      ≡ err (unauthorized "Invalid or expired authentication token"))
    × (refresh_token crypto res.access_token users
        ≡ err (unauthorized "Invalid or expired refresh token"))
tokens_not_exchanged_example =
    tokens_not_exchanged crypto crypto-CryptoLaws cred false users users res request logged_in

pub by_id : find_by_id 7 users ≡ some bea
unfolding find_by_id find_row
by_id = refl

by_email : find_by_email "ada@example.com" users ≡ some bea
unfolding find_by_email find_row
by_email = refl

abbrev pub token : String
token = crypto.sign 2 (payload_of bea) 5

abbrev mailer : Mailer
mailer sent e = true

abbrev fresh : Session memory
fresh = record { db = users; store = empty; outbox = [] }

abbrev no_text : ℤ → String
no_text t = ""

issued :
    (get_otp memory mailer crypto no_text "123456" "ada@example.com" "emailVerification" fresh).0
    ≡ ok tt
unfolding get_otp rate_limit_by_key count_call issue_otp send find_by_email find_row
issued = refl

issued_otp_validates_example :
    let s' =
      (get_otp memory mailer crypto no_text "123456" "ada@example.com" "emailVerification"
        fresh).1 in
    let q = validate_otp memory mailer crypto "ada@example.com" "123456" "emailVerification" s' in
    (q.0 ≡ ok tt)
    × (memory.get (verified_key "ada@example.com" "emailVerification") q.1.store ≡ some "true")
    × (u : User) × (find_by_email "ada@example.com" fresh.db ≡ some u)
    × (find_by_email "ada@example.com" q.1.db ≡ some (settled_for "emailVerification" u))
issued_otp_validates_example =
    issued_otp_validates memory memory-RedisLaws mailer crypto crypto-CryptoLaws no_text "123456"
      "ada@example.com" "emailVerification" fresh (omega arith) (inl refl) issued (λ is e. refl)

-- A password that waits in the store.
abbrev waiting : Session memory
waiting = record fresh {
  store = memory.set (otp_key "ada@example.com" "passwordReset") "#123456" 600 empty;
}

valid :
    (validate_otp memory mailer crypto "ada@example.com" "123456" "passwordReset" waiting).0 ≡ ok tt
unfolding validate_otp handle_otp_type
valid = refl

otp_used_once_example :
    let s' =
      (validate_otp memory mailer crypto "ada@example.com" "123456" "passwordReset" waiting).1 in
    validate_otp memory mailer crypto "ada@example.com" "123456" "passwordReset" s'
    ≡ (err (bad_request "Invalid or expired OTP."), s')
otp_used_once_example =
    otp_used_once memory memory-RedisLaws mailer crypto crypto-CryptoLaws "123456" "123456"
      "ada@example.com" "passwordReset" waiting valid

abbrev permitted : Session memory
permitted = record fresh {
  store = memory.set (verified_key "ada@example.com" "passwordReset") "true" 600 empty;
}

reset :
    (reset_password memory mailer crypto "salt" "ada@example.com" "Other2!!" permitted).0 ≡ ok tt
unfolding reset_password send find_by_email find_row save_user update_rows
reset = refl

reset_password_logs_in_example :
    let s' =
      (reset_password memory mailer crypto "salt" "ada@example.com" "Other2!!" permitted).1 in
    let lock = lock_key login_config "loginUser" "ada@example.com" in
    ((login_user memory crypto
        (λ t. t)
        (record { email = "ada@example.com"; password = "Other2!!" })
        s').0
      ≡ unless_locked (memory.ttl lock permitted.store) (tokens_of crypto 2 bea))
    × (memory.get (verified_key "ada@example.com" password_reset_purpose) s'.store ≡ none)
reset_password_logs_in_example =
    reset_password_logs_in memory memory-RedisLaws mailer crypto crypto-CryptoLaws (λ t. t) "salt"
      "ada@example.com" "Other2!!" bea permitted reset by_email refl refl refl (λ e. cons≢nil e)

reset_password_keeps_tokens_example :
    authenticate_token crypto token request
      (reset_password memory mailer crypto "salt" "ada@example.com" "Other2!!" permitted).1.db
    ≡ authenticate_token crypto token request users
reset_password_keeps_tokens_example =
    reset_password_keeps_tokens memory memory-RedisLaws mailer crypto crypto-CryptoLaws "salt"
      "ada@example.com" "Other2!!" token request permitted users-HasUniqueIds reset
