-- ===== src/Auth/Verified.antt =====
-- `handleOtpType` of services/auth.services.ts by the purpose of a password.
use bukia_hft.Base.{
  ◌≡◌, ◌⊎◌, inl, inr, refl, ap, ◌∙◌, String, true, false, none, some, arith, Bool-cases, str_eq,
  if◌then◌else◌,
}
use bukia_hft.Db.{User}
use bukia_hft.Tx.{ok}
use bukia_hft.Mail.{Email, Mailer, welcome, send}
use bukia_hft.Redis.{Redis, Session}
use bukia_hft.Repositories.User.{find_by_email, save_user}
use bukia_hft.Repositories.User.Rows.{find_email-live, find_email-eq, find_email-save}
use bukia_hft.Auth.{email_verification, password_reset_purpose, authorize}
use bukia_hft.Auth.Otp.{verify_user, handle_otp_type}

-- The purposes that the schemas allow.
abbrev pub IsPurpose : String → Type 0
IsPurpose purpose =
    (purpose ≡ email_verification) ⊎ (purpose ≡ password_reset_purpose) ⊎ (purpose ≡ authorize)

-- The user's row after a password of a purpose was accepted.
abbrev pub settled_for : String → User → User
settled_for purpose u =
    if str_eq purpose email_verification then record u { isverified = true } else u

module _ (r : Redis) (mailer : Mailer) where
  verify_user-new :
      (u : User) (name : String) (s : Session r)
      → u.isverified ≡ false
      → u.first_name ≡ some name
      → ((e : Email) → mailer s.outbox e ≡ true)
      → ((verify_user r mailer (some u) s).0 ≡ ok tt)
        × ((verify_user r mailer (some u) s).1.db ≡ save_user (record u { isverified = true }) s.db)
  unfolding verify_user send
  verify_user-new u name s new named sends =
      let welcomed : Email = record { to = u.email; template = welcome name; subject = none } in
      (rw (verify_user, new, named, send, sends welcomed) refl, ground (arith, new))

  verify_user-verified :
      (u : User) (s : Session r)
      → u.isverified ≡ true
      → verify_user r mailer (some u) s ≡ (ok tt, s)
  unfolding verify_user
  verify_user-verified u s old = rw (verify_user, old) refl

  verify_user-settles :
      (email name : String) (u : User) (s : Session r)
      → find_by_email email s.db ≡ some u
      → u.first_name ≡ some name
      → ((e : Email) → mailer s.outbox e ≡ true)
      → ((verify_user r mailer (some u) s).0 ≡ ok tt)
        × (find_by_email email (verify_user r mailer (some u) s).1.db
            ≡ some (record u { isverified = true }))
  unfolding find_by_email save_user
  verify_user-settles email name u s found named sends = elim (Bool-cases u.isverified) [
    | inl old ↦
        let same = verify_user-verified u s old in
        let row : u ≡ record u { isverified = true } = ap (λ b. record u { isverified = b }) old in
        (ap (λ q. q.0) same, ap (λ q. find_by_email email q.1.db) same ∙ found ∙ ap some row)
    | inr new ↦
        let (fine, saved) = verify_user-new u name s new named sends in
        (
          fine,
          ap (find_by_email email) saved
              ∙ find_email-save email u (record u { isverified = true }) s.db.users
                  (find_email-eq email u s.db.users found)
                  (find_email-live email u s.db.users found) found (ground arith),
        )
  ]

  -- Every purpose of the schemas is handled, if a welcome is accepted where one is sent.
  pub handle_otp_type-settles :
      (email name purpose : String) (u : User) (s : Session r)
      → IsPurpose purpose
      → find_by_email email s.db ≡ some u
      → u.first_name ≡ some name
      → (purpose ≡ email_verification → (e : Email) → mailer s.outbox e ≡ true)
      → ((handle_otp_type r mailer email purpose s).0 ≡ ok tt)
        × (find_by_email email (handle_otp_type r mailer email purpose s).1.db
            ≡ some (settled_for purpose u))
  unfolding handle_otp_type
  handle_otp_type-settles email name purpose u s (inl is) found named sends =
      rw (is, handle_otp_type, found) (verify_user-settles email name u s found named (sends is))
  handle_otp_type-settles email name purpose u s (inr (inl is)) found named sends =
      rw (is, handle_otp_type) (refl, found)
  handle_otp_type-settles email name purpose u s (inr (inr is)) found named sends =
      rw (is, handle_otp_type) (refl, found)
