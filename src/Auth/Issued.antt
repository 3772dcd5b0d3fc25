-- ===== src/Auth/Issued.antt =====
-- One-time passwords from `getOtp` to `validateOtp` (services/auth.services.ts).
use bukia_hft.Base.{
  ◌≡◌, ◌≢◌, refl, ap, sym, ◌∙◌, ◌<◌, ltb, String, true, not, ◌||◌, Option, none, some, arith,
  Bool-cases, Option-cases, inl, inr, str_eq, eq_refl,
}
use bukia_hft.Base.Int.{ℤ}
use Prim.Native.Char.{Char, code}
use Prim.Native.String.{◌++◌}
use text.Mathlib.TextLemmas.{cons-append}
use bukia_hft.Db.{User}
use bukia_hft.Db.Keys.{not_blank}
use bukia_hft.Tx.{bad_request, ok, err}
use bukia_hft.Mail.{Email, Mailer}
use bukia_hft.Redis.{Redis, Session}
use bukia_hft.Redis.Laws.{RedisLaws}
use bukia_hft.Repositories.User.{find_by_email}
use bukia_hft.RateLimit.{count_call, redis_key, rate_limit_by_key}
use bukia_hft.Auth.{Crypto, verified_key, email_verification}
use bukia_hft.Auth.Verified.{IsPurpose, settled_for, handle_otp_type-settles}
use bukia_hft.Auth.Laws.{CryptoLaws}
use bukia_hft.Auth.Service.{otp_limit, otp_key}
use bukia_hft.Auth.Otp.{send_email, verify_user, handle_otp_type, issue_otp, get_otp, validate_otp}

-- The keys of a password and of its flag differ in the fourth character.
otp-verified_apart : (email purpose : String) → verified_key email purpose ≢ otp_key email purpose
otp-verified_apart email purpose e =
    let x = email ++ ":" ++ purpose in
    let fourth : ◌≡◌ {A = Char} "_" ":" = cc (
      e,
      cons-append "o" "tp_verified:" x,
      cons-append "t" "p_verified:" x,
      cons-append "p" "_verified:" x,
      cons-append "_" "verified:" x,
      cons-append "o" "tp:" x,
      cons-append "t" "p:" x,
      cons-append "p" ":" x,
      cons-append ":" "" x,
    ) in
    absurd (omega (arith, ap code fourth))

module _ (r : Redis) (laws : RedisLaws r) (mailer : Mailer) where
  send_email-store : (e : Email) (s : Session r) → (send_email r mailer e s).1.store ≡ s.store
  send_email-store e s = refl

  verify_user-store :
      (o : Option User) (s : Session r) → (verify_user r mailer o s).1.store ≡ s.store
  unfolding verify_user
  verify_user-store none s = refl
  verify_user-store (some u) s = ground arith

  handle_otp_type-store :
      (email purpose : String) (s : Session r)
      → (handle_otp_type r mailer email purpose s).1.store ≡ s.store
  unfolding handle_otp_type
  handle_otp_type-store email purpose s =
      ground (arith, verify_user-store (find_by_email email s.db) s)

  module _ (c : Crypto) (clear : CryptoLaws c) where
    -- Whom a password was issued for, and what is stored.
    issue_otp-stored :
        (otp email purpose : String) (s : Session r)
        → 0 < c.otp_ttl_sec
        → (issue_otp r mailer c otp email purpose s).0 ≡ ok tt
        → let q = issue_otp r mailer c otp email purpose s in
          (u : User) × (name : String) × (find_by_email email s.db ≡ some u)
          × (u.first_name ≡ some name)
          × (r.get (otp_key email purpose) q.1.store ≡ some (c.hash_otp otp))
          × (q.1.db ≡ s.db)
    unfolding issue_otp
    issue_otp-stored otp email purpose s lives sent =
        elim (Option-cases (find_by_email email s.db)) [
          | inl gone ↦ cc (rw (issue_otp, gone) at sent)
          | inr (u, found) ↦ elim (Option-cases u.first_name) [
            | inl nameless ↦ cc (rw (issue_otp, found, nameless) at sent)
            | inr (name, named) ↦ (
              u,
              name,
              found,
              named,
              rw (issue_otp, found, named)
                  (laws.get-set (otp_key email purpose) (c.hash_otp otp) c.otp_ttl_sec s.store
                    lives),
              rw (issue_otp, found, named) refl,
            )
          ]
        ]

    -- A password that is stored is accepted, once.
    validate_otp-stored :
        (otp email purpose : String) (s : Session r)
        → r.get (otp_key email purpose) s.store ≡ some (c.hash_otp otp)
        → validate_otp r mailer c email otp purpose s
          ≡ handle_otp_type r mailer email purpose (record s {
            store =
                r.del
                  (otp_key email purpose)
                  (r.set (verified_key email purpose) "true" c.otp_ttl_sec s.store);
          })
    unfolding validate_otp
    validate_otp-stored otp email purpose s stored =
        rw
          (
            validate_otp,
            stored,
            not_blank (c.hash_otp otp) (clear.hash_otp_filled otp),
            eq_refl (c.hash_otp otp),
          )
          refl

    -- A call of `getOtp` that returns has issued a password.
    get_otp-issued :
        (show : ℤ → String) (otp email purpose : String) (s : Session r)
        → (get_otp r mailer c show otp email purpose s).0 ≡ ok tt
        → (s' : Session r) × (s'.db ≡ s.db)
          × (get_otp r mailer c show otp email purpose s
              ≡ issue_otp r mailer c otp email purpose s')
    unfolding get_otp rate_limit_by_key
    get_otp-issued show otp email purpose s sent =
        let count = (count_call r (redis_key otp_limit email) otp_limit.window_sec s.store).0 in
        elim (Bool-cases (ltb 1 count)) [
          | inl over ↦ cc (rw (get_otp, rate_limit_by_key, over) at sent)
          | inr within ↦ (
            record s {
              store = (count_call r (redis_key otp_limit email) otp_limit.window_sec s.store).1;
            },
            refl,
            rw (get_otp, rate_limit_by_key, within) refl,
          )
        ]

    -- Let the life of a password be not 0, and `getOtp` return for an e-mail and any purpose of the schemas;
    -- where the purpose is the verification of the e-mail, let the welcome be accepted that `validateOtp` sends.
    -- Then `validateOtp` accepts the password that was sent, for its e-mail and purpose, the flag of the purpose
    -- is set, and the user of the e-mail is as before, or verified where that is the purpose.
    pub issued_otp_validates :
        (show : ℤ → String) (otp email purpose : String) (s : Session r)
        → 0 < c.otp_ttl_sec
        → IsPurpose purpose
        → (get_otp r mailer c show otp email purpose s).0 ≡ ok tt
        → (purpose ≡ email_verification
            → (e : Email) → mailer (get_otp r mailer c show otp email purpose s).1.outbox e ≡ true)
        → let s' = (get_otp r mailer c show otp email purpose s).1 in
          let q = validate_otp r mailer c email otp purpose s' in
          (q.0 ≡ ok tt)
          × (r.get (verified_key email purpose) q.1.store ≡ some "true")
          × (u : User) × (find_by_email email s.db ≡ some u)
          × (find_by_email email q.1.db ≡ some (settled_for purpose u))
    issued_otp_validates show otp email purpose s lives known sent sends =
        let k = otp_key email purpose in
        let flag = verified_key email purpose in
        let s' = (get_otp r mailer c show otp email purpose s).1 in
        let (s0, tables, same) = get_otp-issued show otp email purpose s sent in
        let (u, name, found, named, kept, left) =
          issue_otp-stored otp email purpose s0 lives (ap (λ q. q.0) (sym same) ∙ sent) in
        let stored = ap (λ q. r.get k q.1.store) same ∙ kept in
        let before = ap (find_by_email email) (sym tables) ∙ found in
        let found' =
          ap (λ q. find_by_email email q.1.db) same ∙ ap (find_by_email email) left ∙ found in
        let marked = r.set flag "true" c.otp_ttl_sec s'.store in
        let s2 : Session r = record s' { store = r.del k marked } in
        let (fine, row) =
          handle_otp_type-settles r mailer email name purpose u s2 known found' named sends in
        let done = validate_otp-stored otp email purpose s' stored in
        (
          ap (λ q. q.0) done ∙ fine,
          ap (λ q. r.get flag q.1.store) done
              ∙ ap (r.get flag) (handle_otp_type-store email purpose s2)
              ∙ laws.get-del_other flag k marked (otp-verified_apart email purpose)
              ∙ laws.get-set flag "true" c.otp_ttl_sec s'.store lives,
          u,
          before,
          ap (λ q. find_by_email email q.1.db) done ∙ row,
        )

    validate_otp-absent :
        (otp email purpose : String) (s : Session r)
        → r.get (otp_key email purpose) s.store ≡ none
        → validate_otp r mailer c email otp purpose s
          ≡ (err (bad_request "Invalid or expired OTP."), s)
    unfolding validate_otp
    validate_otp-absent otp email purpose s gone = rw (validate_otp, gone) refl

    validate_otp-spends :
        (otp email purpose : String) (s : Session r)
        → (validate_otp r mailer c email otp purpose s).0 ≡ ok tt
        → r.get (otp_key email purpose) (validate_otp r mailer c email otp purpose s).1.store ≡ none
    unfolding validate_otp
    validate_otp-spends otp email purpose s valid =
        let k = otp_key email purpose in
        elim (Option-cases (r.get k s.store)) [
          | inl gone ↦ cc (rw (validate_otp, gone) at valid)
          | inr (hash, stored) ↦
              elim (Bool-cases (str_eq hash "" || not (str_eq hash (c.hash_otp otp)))) [
                | inl wrong ↦ cc (rw (validate_otp, stored, wrong) at valid)
                | inr right ↦
                    let marked = r.set (verified_key email purpose) "true" c.otp_ttl_sec s.store in
                    let s2 : Session r = record s { store = r.del k marked } in
                    rw (validate_otp, stored, right)
                      (ap (r.get k) (handle_otp_type-store email purpose s2)
                        ∙ laws.get-del k marked)
              ]
        ]

    -- When `validateOtp` has returned for an e-mail and a purpose, it refuses the next password for
    -- them, be it the same or another one, until a new one is issued.
    pub otp_used_once :
        (otp other email purpose : String) (s : Session r)
        → (validate_otp r mailer c email otp purpose s).0 ≡ ok tt
        → let s' = (validate_otp r mailer c email otp purpose s).1 in
          validate_otp r mailer c email other purpose s'
          ≡ (err (bad_request "Invalid or expired OTP."), s')
    otp_used_once otp other email purpose s valid =
        validate_otp-absent other email purpose _ (validate_otp-spends otp email purpose s valid)
