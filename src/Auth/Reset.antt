-- ===== src/Auth/Reset.antt =====
-- `resetPassword` of services/auth.services.ts, and what it means for logins and tokens.
use bukia_hft.Base.{
  ◌≡◌, ◌≢◌, refl, ap, sym, ◌∙◌, ◌==◌, String, Bool, true, false, not, none, some, arith, Bool-cases,
  Option-cases, inl, inr,
}
use bukia_hft.Db.{Db, User, user}
use bukia_hft.Db.Keys.{has_text, not_blank}
use bukia_hft.Tx.{ok}
use bukia_hft.Mail.{Mailer}
use bukia_hft.Redis.{Redis, Session}
use bukia_hft.Redis.Laws.{RedisLaws}
use bukia_hft.Repositories.User.{find_by_email, find_by_id, save_user, is_live, live_email_is}
use bukia_hft.Repositories.User.Rows.{
  HasUniqueIds, find_by_id-of_found, find_email-live, find_email-eq, find_email-save,
  find_row-save_other,
}
use bukia_hft.Auth.{
  Crypto, Request, is_access, read_token, current_user, authenticate_token, verified_key,
  password_reset_purpose,
}
use bukia_hft.Auth.Laws.{CryptoLaws}
use bukia_hft.Auth.Service.{
  Credentials, login_config, login_result, login_response, check_login, validate_password,
}
use bukia_hft.Lockout.{lock_key}
use bukia_hft.Auth.Login.{login_user}
use bukia_hft.Auth.Locked.{first_apart}
use bukia_hft.Auth.Admitted.{tokens_of, login_response-tokens_of, unless_locked, admitted_login}
use bukia_hft.Auth.Otp.{reset_password}
use bukia_hft.Auth.Revoked.{find_by_id-save}

abbrev pub with_password : Crypto → String → String → User → User
with_password c salt new_password u = record u { password = some (c.bcrypt_hash salt new_password) }

module _ (r : Redis) (laws : RedisLaws r) (mailer : Mailer) (c : Crypto)
    (clear : CryptoLaws c) where
  -- What a reset that returns has found, and the tables that it leaves.
  reset_password-saved :
      (salt email new_password : String) (s : Session r)
      → (reset_password r mailer c salt email new_password s).0 ≡ ok tt
      → (u : User) × (find_by_email email s.db ≡ some u)
        × ((reset_password r mailer c salt email new_password s).1.db
            ≡ save_user (with_password c salt new_password u) s.db)
        × ((reset_password r mailer c salt email new_password s).1.store
            ≡ r.del (verified_key email password_reset_purpose) s.store)
  unfolding reset_password
  reset_password-saved salt email new_password s done =
      let key = verified_key email password_reset_purpose in
      elim (Bool-cases (not (has_text "true" (r.get key s.store)))) [
        | inl unverified ↦ cc (rw (reset_password, unverified) at done)
        | inr verified ↦ elim (Option-cases (find_by_email email s.db)) [
          | inl gone ↦ cc (rw (reset_password, verified, gone) at done)
          | inr (u, found) ↦ (
            u,
            found,
            rw (reset_password, verified, found) refl,
            rw (reset_password, verified, found) refl,
          )
        ]
      ]

  validate_new_password :
      (salt new_password : String) (u : User)
      → validate_password c new_password (with_password c salt new_password u) ≡ true
  validate_new_password salt new_password u =
      rw (not_blank (c.bcrypt_hash salt new_password) (clear.bcrypt_hash_filled salt new_password))
        (clear.compare-hash salt new_password)

  login_result-admits :
      (cred : Credentials) (authorized : Bool) (v : User) (db : Db)
      → find_by_email cred.email db ≡ some v
      → validate_password c cred.password v ≡ true
      → v.isverified ≡ true
      → v.type ≡ user
      → login_result c cred authorized db ≡ login_response c db.now v
  unfolding login_result check_login
  login_result-admits cred authorized v db found valid verified plain =
      rw (login_result, found, check_login, valid, verified, plain) refl

  -- Let a reset return, and the user of the e-mail be verified, of the role `User`, and have an e-mail that a
  -- token may hold and that is not empty when trimmed. Then `loginUser` with the new password answers with
  -- tokens for this user, unless logins with the e-mail are locked: a lock outlasts the reset, and while it has
  -- time left the answer is its error. The flag that permitted the reset is gone.
  pub reset_password_logs_in :
      (trim : String → String) (salt email new_password : String) (u : User) (s : Session r)
      → (reset_password r mailer c salt email new_password s).0 ≡ ok tt
      → find_by_email email s.db ≡ some u
      → u.isverified ≡ true
      → u.type ≡ user
      → c.is_email u.email ≡ true
      → trim email ≢ ""
      → let s' = (reset_password r mailer c salt email new_password s).1 in
        let lock = lock_key login_config "loginUser" (trim email) in
        ((login_user r c trim (record { email = email; password = new_password }) s').0
          ≡ unless_locked (r.ttl lock s.store) (tokens_of c s.db.now u))
        × (r.get (verified_key email password_reset_purpose) s'.store ≡ none)
  unfolding find_by_email save_user
  reset_password_logs_in trim salt email new_password u s done found verified plain valid named =
      let (w, found', saved, store) = reset_password-saved salt email new_password s done in
      let s' = (reset_password r mailer c salt email new_password s).1 in
      let v = with_password c salt new_password w in
      let we : w ≡ u = cc (sym found' ∙ found) in
      let row =
        find_email-save email w v s.db.users (find_email-eq email w s.db.users found')
          (find_email-live email w s.db.users found') found' (ground arith) in
      let cred : Credentials = record { email = email; password = new_password } in
      let admits : (a : Bool) → login_result c cred a s'.db ≡ ok (tokens_of c s.db.now u) = λ a.
        ap (login_result c cred a) saved
        ∙ login_result-admits cred a v (save_user v s.db) row
            (validate_new_password salt new_password w)
            (ap (λ (u : User). u.isverified) we ∙ verified) (ap (λ (u : User). u.type) we ∙ plain)
        ∙ login_response-tokens_of c clear s.db.now v
            (ap (λ (u : User). c.is_email u.email) we ∙ valid)
        ∙ ap (λ u. ok (tokens_of c s.db.now u)) we in
      let lock = lock_key login_config "loginUser" (trim email) in
      let key = verified_key email password_reset_purpose in
      let held = ap (r.ttl lock) store ∙ laws.ttl-del_other lock key s.store (first_apart _ _) in
      (
        admitted_login r laws c trim cred s' (tokens_of c s.db.now u) named admits
            ∙ ap (λ t. unless_locked t (tokens_of c s.db.now u)) held,
        ap (r.get key) store ∙ laws.get-del key s.store,
      )

  -- A token depends on the version in the row only.
  authenticate_token-save :
      (token : String) (req : Request) (u v : User) (db : Db)
      → find_by_id u.id db ≡ some u
      → v.id ≡ u.id
      → is_live v.deleted_at ≡ true
      → v.jwt_version ≡ u.jwt_version
      → authenticate_token c token req (save_user v db) ≡ authenticate_token c token req db
  unfolding authenticate_token current_user save_user find_by_id
  authenticate_token-save token req u v db found same live version =
      elim (Option-cases (read_token c is_access db.now token)) [
        | inl unread ↦ rw (authenticate_token, unread) refl
        | inr (p, read) ↦ elim (Bool-cases (u.id == p.id)) [
          | inl mine ↦
              let same_id : u.id ≡ p.id = ground arith in
              let before : find_by_id p.id db ≡ some u =
                ap (λ i. find_by_id i db) (sym same_id) ∙ found in
              let after = find_by_id-save p.id u v db (same ∙ same_id) live before in
              rw (authenticate_token, read, current_user, after, before) (ground (arith, version))
          | inr other ↦
              let apart : (v.id == p.id) ≡ false = ground (arith, same) in
              let row = find_row-save_other v.id p.id v db.users refl apart in
              rw (authenticate_token, read, current_user, row) refl
        ]
      ]

  -- Let no two rows of users have one id. After a reset that returns, every token is accepted or refused
  -- by the middleware just as before.
  pub reset_password_keeps_tokens :
      (salt email new_password token : String) (req : Request) (s : Session r)
      → HasUniqueIds s.db.users
      → (reset_password r mailer c salt email new_password s).0 ≡ ok tt
      → authenticate_token c token req (reset_password r mailer c salt email new_password s).1.db
        ≡ authenticate_token c token req s.db
  unfolding find_by_email find_by_id
  reset_password_keeps_tokens salt email new_password token req s keyed done =
      let (u, found, saved, store) = reset_password-saved salt email new_password s done in
      let live = find_email-live email u s.db.users found in
      ap (authenticate_token c token req) saved
      ∙ authenticate_token-save token req u (with_password c salt new_password u) s.db
          (find_by_id-of_found (live_email_is email) u s.db.users keyed found live) refl live refl
