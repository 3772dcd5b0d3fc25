-- ===== src/Auth/Admitted.antt =====
-- A login that `loginUser` (services/auth.services.ts) admits, through its decorators.
use bukia_hft.Base.{
  ◌≡◌, ◌≢◌, refl, ap, ◌∙◌, ℕ, String, Bool, true, Bool-cases, inl, inr, if◌then◌else◌, str_eq,
  eq_iff,
}
use bukia_hft.Base.Int.{ℤ, pos, ltb_ℤ}
use bukia_hft.Db.{User}
use bukia_hft.Tx.{Result, ok, err}
use bukia_hft.Redis.{Redis, Session}
use bukia_hft.Redis.Laws.{RedisLaws}
use bukia_hft.Lockout.{lock_key, too_many, lockout, guarded, settle, settle_result}
use bukia_hft.Auth.{Crypto, access, refresh, sign_as, sign_access_token, sign_refresh_token}
use bukia_hft.Auth.Laws.{CryptoLaws}
use bukia_hft.Auth.Locked.{
  flag, past_flag, past_flag-ttl, past_flag-db, login_user-lockout, lock-verified_apart,
}
use bukia_hft.Auth.Service.{
  Credentials, LoginUserResponse, payload_of, generate_user_tokens, login_response, login_config,
  login_result,
}
use bukia_hft.Auth.Login.{login_user}

-- The tokens of a user at a time.
abbrev pub tokens_of : Crypto → ℕ → User → LoginUserResponse
tokens_of c now u = record {
  access_token = c.sign now (record (payload_of u) { type = access }) c.access_token_expiry;
  refresh_token = c.sign now (record (payload_of u) { type = refresh }) c.refresh_token_expiry;
  role = u.type;
}

pub login_response-tokens_of :
    (c : Crypto) (clear : CryptoLaws c) (now : ℕ) (u : User)
    → c.is_email u.email ≡ true
    → login_response c now u ≡ ok (tokens_of c now u)
unfolding login_response generate_user_tokens sign_access_token sign_refresh_token sign_as
login_response-tokens_of c clear now u fine =
    rw
      (
        login_response,
        generate_user_tokens,
        sign_access_token,
        sign_as,
        fine,
        sign_refresh_token,
        sign_as,
        fine,
        clear.sign-IsJwt now c.access_token_expiry (record (payload_of u) { type = access }),
        clear.sign-IsJwt now c.refresh_token_expiry (record (payload_of u) { type = refresh }),
      )
      refl

-- The answer of the lock, if it has time left, or else that of the method.
abbrev pub unless_locked : {A : Type 0} → ℤ → A → Result A
unless_locked left a = if ltb_ℤ (pos 0) left then err (too_many left) else ok a

module _ (r : Redis) (laws : RedisLaws r) (c : Crypto) (trim : String → String)
    (payload : Credentials) where
  pub admitted_login :
      (s : Session r) (res : LoginUserResponse)
      → trim payload.email ≢ ""
      → ((a : Bool) → login_result c payload a s.db ≡ ok res)
      → (login_user r c trim payload s).0
        ≡ unless_locked (r.ttl (lock_key login_config "loginUser" (trim payload.email)) s.store) res
  unfolding lockout guarded settle settle_result
  admitted_login s res named admits =
      let k = lock_key login_config "loginUser" (trim payload.email) in
      let f = flag r laws c trim payload s in
      let s1 = past_flag r laws c trim payload s in
      let still = past_flag-ttl r laws c trim payload s k (lock-verified_apart _ _ payload.email) in
      let admitted =
        ap (login_result c payload f) (past_flag-db r laws c trim payload s) ∙ admits f in
      elim (Bool-cases (str_eq (trim payload.email) "")) [
        | inl blank ↦ absurd (named ((eq_iff (trim payload.email) "").0 blank))
        | inr fine ↦ elim (Bool-cases (ltb_ℤ (pos 0) (r.ttl k s.store))) [
          | inl held ↦
              rw (login_user-lockout r laws c trim payload s, lockout, guarded, fine, still, held)
                refl
          | inr free ↦
              rw
                (
                  login_user-lockout r laws c trim payload s,
                  lockout,
                  guarded,
                  fine,
                  still,
                  free,
                  admitted,
                  settle,
                  settle_result,
                )
                refl
        ]
      ]
