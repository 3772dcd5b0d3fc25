-- ===== src/Auth/Locked.antt =====
-- A login whose key is locked (services/auth.services.ts, utils/lockout.ts).
use bukia_hft.Base.{
  ◌≡◌, ◌≢◌, refl, ap, ◌∙◌, ℕ, ◌<◌, ◌≤◌, String, Bool, true, arith, Bool-cases, inl, inr,
  if◌then◌else◌, str_eq, eq_iff,
}
use bukia_hft.Base.Int.{pos, ltb_ℤ}
use Prim.Native.Char.{Char, code}
use Prim.Native.String.{◌++◌}
use text.Mathlib.TextLemmas.{cons-append}
use bukia_hft.Tx.{Result, err}
use bukia_hft.Redis.{Redis, Session}
use bukia_hft.Redis.Laws.{RedisLaws, absent}
use bukia_hft.Lockout.{lock_key, fail_key, too_many, lockout, guarded, counts}
use bukia_hft.Lockout.Guard.{guard_step, guard_of}
use bukia_hft.Lockout.Attempts.{lockout-Follows}
use bukia_hft.Auth.{Crypto, is_authorized, verified_key, authorize, truthy}
use bukia_hft.Auth.Service.{
  Credentials, LoginUserResponse, login_config, login_result, is_unauthorized,
}
use bukia_hft.Auth.Login.{login_user}

-- The keys of Redis that a login uses begin with different characters.
pub first_apart : (t v : String) → "lockout" ++ t ≢ "otp_verified:" ++ v
first_apart t v e =
    let first : ◌≡◌ {A = Char} "l" "o" =
      cc (e, cons-append "l" "ockout" t, cons-append "o" "tp_verified:" v) in
    absurd (omega (arith, ap code first))

pub lock-verified_apart :
    (method identifier email : String)
    → lock_key login_config method identifier ≢ verified_key email authorize
lock-verified_apart method identifier email = first_apart _ _

pub fail-verified_apart :
    (method identifier email : String)
    → fail_key login_config method identifier ≢ verified_key email authorize
fail-verified_apart method identifier email = first_apart _ _

-- The guard's answer to an unauthorized login after four failures.
relocks :
    (n : ℕ) (o : Result LoginUserResponse)
    → 4 ≤ n
    → is_unauthorized o ≡ true
    → (guard_step login_config (guard_of absent n) o).0 ≡ err (too_many (pos 900))
unfolding guard_step counts
relocks n o failures fails = ground (arith, fails)

module _ (r : Redis) (laws : RedisLaws r) (c : Crypto) (trim : String → String)
    (payload : Credentials) where
  -- The flag that a login finds, and the session in which it goes on.
  abbrev pub flag : Session r → Bool
  flag s = truthy (r.get (verified_key payload.email authorize) s.store)

  abbrev pub past_flag : Session r → Session r
  past_flag s =
      if flag s
      then record s { store = r.del (verified_key payload.email authorize) s.store }
      else s

  pub past_flag-ttl :
      (s : Session r) (k : String)
      → k ≢ verified_key payload.email authorize
      → r.ttl k (past_flag s).store ≡ r.ttl k s.store
  past_flag-ttl s k apart = elim (Bool-cases (flag s)) [
    | inl set ↦ rw set (laws.ttl-del_other k _ s.store apart)
    | inr unset ↦ rw unset refl
  ]

  pub past_flag-counter :
      (s : Session r) (k : String)
      → k ≢ verified_key payload.email authorize
      → laws.counter k (past_flag s).store ≡ laws.counter k s.store
  past_flag-counter s k apart = elim (Bool-cases (flag s)) [
    | inl set ↦ rw set (laws.counter-del_other k _ s.store apart)
    | inr unset ↦ rw unset refl
  ]

  pub past_flag-db : (s : Session r) → (past_flag s).db ≡ s.db
  past_flag-db s = elim (Bool-cases (flag s)) [ inl set ↦ rw set refl | inr unset ↦ rw unset refl ]

  -- `loginUser` as its lock, after the flag.
  pub login_user-lockout :
      (s : Session r)
      → login_user r c trim payload s
        ≡ lockout r login_config "loginUser" trim payload.email
            (λ s'. (login_result c payload (flag s) s'.db, s'))
            (past_flag s)
  unfolding login_user is_authorized
  login_user-lockout s = refl

  -- While the lock of an e-mail has time left, a login with it is refused, and the tables and the lock
  -- stay as they are.
  pub locked_login :
      (s : Session r) (t : ℕ)
      → trim payload.email ≢ ""
      → r.ttl (lock_key login_config "loginUser" (trim payload.email)) s.store ≡ pos t
      → 0 < t
      → ((login_user r c trim payload s).0 ≡ err (too_many (pos t)))
        × ((login_user r c trim payload s).1.db ≡ s.db)
        × (r.ttl
              (lock_key login_config "loginUser" (trim payload.email))
              (login_user r c trim payload s).1.store
            ≡ pos t)
  unfolding lockout guarded
  locked_login s t named set more =
      let k = lock_key login_config "loginUser" (trim payload.email) in
      let still = past_flag-ttl s k (lock-verified_apart _ _ payload.email) ∙ set in
      let later : ltb_ℤ (pos 0) (pos t) ≡ true = ground arith in
      elim (Bool-cases (str_eq (trim payload.email) "")) [
        | inl blank ↦ absurd (named ((eq_iff (trim payload.email) "").0 blank))
        | inr fine ↦
            rw (login_user-lockout s, lockout, guarded, fine, still, later)
              (refl, past_flag-db s, still)
      ]

  -- An unauthorized login sets the lock, where four failures or more have been counted.
  pub failing_login_locks :
      (s : Session r)
      → trim payload.email ≢ ""
      → r.ttl (lock_key login_config "loginUser" (trim payload.email)) s.store ≡ absent
      → 4 ≤ laws.counter (fail_key login_config "loginUser" (trim payload.email)) s.store
      → ((a : Bool) → is_unauthorized (login_result c payload a s.db) ≡ true)
      → (login_user r c trim payload s).0 ≡ err (too_many (pos 900))
  failing_login_locks s named free failures wrong =
      let e = trim payload.email in
      let s1 = past_flag s in
      let free1 = past_flag-ttl s _ (lock-verified_apart "loginUser" e payload.email) ∙ free in
      let count1 = past_flag-counter s _ (fail-verified_apart "loginUser" e payload.email) in
      let o = login_result c payload (flag s) s1.db in
      let fails : is_unauthorized o ≡ true =
        ap (λ db. is_unauthorized (login_result c payload (flag s) db)) (past_flag-db s)
        ∙ wrong (flag s) in
      let f =
        lockout-Follows r laws login_config "loginUser" trim payload.email named (omega arith)
          (omega arith) (λ s'. (login_result c payload (flag s) s'.db, s')) s1 (λ s'. (refl, refl))
          (inl free1) in
      ap (λ q. q.0) (login_user-lockout s)
      ∙ f.answer
      ∙ ap
          (λ t.
            (guard_step login_config
              (guard_of t (laws.counter (fail_key login_config "loginUser" e) s1.store)) o).0)
          free1
      ∙ relocks _ o (omega (arith, count1)) fails
