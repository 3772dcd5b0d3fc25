-- ===== src/Auth/Otp.antt =====
-- One-time passwords and what they permit: `getOtp`, `handleOtpType`, `validateOtp` and `resetPassword`
-- of services/auth.services.ts.
use bukia_hft.Base.{
  ⊤, String, Bool, true, false, not, ◌||◌, Option, none, some, str_eq, if◌then◌else◌,
}
use bukia_hft.Base.Int.{ℤ}
use bukia_hft.Db.{User}
use bukia_hft.Db.Keys.{has_text}
use bukia_hft.Tx.{unauthorized, bad_request, not_found, null_access, Result, ok, err}
use bukia_hft.Mail.{Email, Mailer, welcome, otp_code, password_reset, send}
use bukia_hft.Redis.{Redis, Session}
use bukia_hft.Repositories.User.{find_by_email, save_user}
use bukia_hft.RateLimit.{rate_limit_by_key}
use bukia_hft.Auth.{Crypto, verified_key, email_verification, password_reset_purpose, authorize}
use bukia_hft.Auth.Service.{otp_limit, otp_key}

module _ (r : Redis) (mailer : Mailer) where
  abbrev pub send_email : Email → Session r → Result ⊤ × Session r
  send_email e s =
      let (result, w) = send mailer e (record { db = s.db; outbox = s.outbox }) in
      (result, record s { outbox = w.outbox })

  abbrev pub has_failed : {A : Type 0} → Result A → Bool
  has_failed (ok a) = false
  has_failed (err e) = true

  -- The first purpose: the user becomes verified, once, and is welcomed.
  unfoldable pub verify_user : Option User → Session r → Result ⊤ × Session r
  unfolding send save_user
  verify_user none s = (ok tt, s)
  verify_user (some u) s =
      if u.isverified
      then (ok tt, s)
      else (let s1 : Session r = record s {
        db = save_user (record u { isverified = true }) s.db;
      } in
          elim u.first_name [
            | none ↦ (err null_access, s1)
            | some name ↦
                send_email (record { to = u.email; template = welcome name; subject = none }) s1
          ])

  -- `handleOtpType`
  unfoldable pub handle_otp_type : String → String → Session r → Result ⊤ × Session r
  unfolding verify_user find_by_email
  handle_otp_type email purpose s =
      if str_eq purpose email_verification
      then verify_user (find_by_email email s.db) s
      else if str_eq purpose password_reset_purpose
      then (ok tt, s)
      else if str_eq purpose authorize
      then (ok tt, s)
      else (err (bad_request "Unknown OTP type."), s)

  module _ (c : Crypto) where
    -- The body of `getOtp`.
    unfoldable pub issue_otp : String → String → String → Session r → Result ⊤ × Session r
    unfolding send find_by_email
    issue_otp otp email purpose s = elim (find_by_email email s.db) [
      | none ↦ (err (not_found "No user found with the provided email."), s)
      | some u ↦
          let s1 : Session r = record s {
            store = r.set (otp_key email purpose) (c.hash_otp otp) c.otp_ttl_sec s.store;
          } in
          elim u.first_name [
            | none ↦ (err null_access, s1)
            | some name ↦
                send_email
                  (record {
                    to = u.email;
                    template = otp_code 10 name otp;
                    subject = some "Bukia Gold HFT OTP code (expires in 10 minutes)";
                  })
                  s1
          ]
    ]

    -- `getOtp`, for the password that is generated.
    unfoldable pub get_otp :
        (ℤ → String)
        → (otp : String) → (email : String) → (purpose : String) → Session r
        → Result ⊤ × Session r
    unfolding issue_otp rate_limit_by_key
    get_otp show otp email purpose s =
        rate_limit_by_key r otp_limit show email (issue_otp otp email purpose) s

    -- `validateOtp`
    unfoldable pub validate_otp : String → String → String → Session r → Result ⊤ × Session r
    unfolding handle_otp_type
    validate_otp email otp purpose s = elim (r.get (otp_key email purpose) s.store) [
      | none ↦ (err (bad_request "Invalid or expired OTP."), s)
      | some hash ↦
          if str_eq hash "" || not (str_eq hash (c.hash_otp otp))
          then (err (bad_request "Invalid or expired OTP."), s)
          else (let marked = r.set (verified_key email purpose) "true" c.otp_ttl_sec s.store in
              handle_otp_type email purpose
                (record s { store = r.del (otp_key email purpose) marked }))
    ]

    -- `resetPassword`. The profile is not loaded, so its name is missing.
    unfoldable pub reset_password : String → String → String → Session r → Result ⊤ × Session r
    unfolding send save_user find_by_email
    reset_password salt email new_password s =
        let key = verified_key email password_reset_purpose in
        if not (has_text "true" (r.get key s.store))
        then (err (unauthorized "Password reset not verified."), s)
        else elim (find_by_email email s.db) [
          | none ↦ (err (bad_request "No user found with the provided email."), s)
          | some u ↦
              let u' = record u { password = some (c.bcrypt_hash salt new_password) } in
              send_email
                (record {
                  to = u.email;
                  template = password_reset "";
                  subject = some "Your password has been reset successfully";
                })
                (record s { db = save_user u' s.db; store = r.del key s.store })
        ]
