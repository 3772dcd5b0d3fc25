-- ===== src/Admin/Locks.antt =====
-- Locks that an administrator sets and takes away (services/admin-user.services.ts), and logins.
use bukia_hft.Base.{
  ◌≡◌, ◌≢◌, refl, ap, sym, ◌∙◌, ℕ, ◌<◌, ◌≤◌, ◌*◌, ◌==◌, find_row, update_rows, String, Bool, true,
  false, none, some, arith,
}
use bukia_hft.Base.Int.{pos}
use Prim.Native.String.{◌++◌}
use text.Mathlib.TextLemmas.{append_assoc}
use bukia_hft.Db.{Db, User}
use bukia_hft.Tx.{ok, err}
use bukia_hft.Redis.{Redis, Session}
use bukia_hft.Redis.Laws.{RedisLaws}
use bukia_hft.Repositories.User.{find_by_id, live_user_is, save_user, user_is}
use bukia_hft.Repositories.User.Rows.{find_row-live, find_row-save_deleted}
use bukia_hft.Lockout.{lock_key, fail_key, too_many}
use bukia_hft.Lockout.Attempts.{keys_apart}
use bukia_hft.Auth.{Crypto, JwtUserPayload}
use bukia_hft.Auth.Service.{Credentials, login_config, login_result, is_unauthorized}
use bukia_hft.Auth.Login.{login_user}
use bukia_hft.Auth.Locked.{locked_login, failing_login_locks}
use bukia_hft.Auth.Revoked.{
  IsRevoked, token-IsRevoked, current_user-outdated, current_user-missing, find_by_id-save,
}
use bukia_hft.Admin.{lock_user, unlock_user, deactivate_user, login_lock_key, bumped}

-- The administrator's key is that of the lock on `loginUser`.
pub login_lock_key-lock_key :
    (email : String) → login_lock_key email ≡ lock_key login_config "loginUser" email
login_lock_key-lock_key e =
    append_assoc "lockout" ":lock:auth:loginUser:" e
    ∙ ap (λ s. "lockout" ++ s)
        (append_assoc ":lock:" "auth:loginUser:" e
          ∙ ap (λ s. ":lock:" ++ s)
              (append_assoc "auth" ":loginUser:" e
                ∙ ap (λ s. "auth" ++ s)
                    (append_assoc ":" "loginUser:" e
                      ∙ ap (λ s. ":" ++ s) (append_assoc "loginUser" ":" e))))

module _ (r : Redis) (laws : RedisLaws r) (c : Crypto) (trim : String → String) where
  -- Let the user be found, have a trimmed e-mail that is not empty, and be locked for some minutes. The lock
  -- then has as many seconds as the minutes have. In every later session, whatever has become of tables and
  -- store, as long as this lock has time left, each login with the e-mail, with whatever password, is answered
  -- with the error of the lock and the seconds that are left; it changes no table and leaves the lock its time.
  pub locked_user_cannot_login :
      (user_id minutes left : ℕ) (u : User) (payload : Credentials) (s later : Session r)
      → find_by_id user_id s.db ≡ some u
      → 0 < minutes
      → payload.email ≡ u.email
      → trim u.email ≡ u.email
      → u.email ≢ ""
      → r.ttl (login_lock_key u.email) later.store ≡ pos left
      → 0 < left
      → let q = login_user r c trim payload later in
        (r.ttl (login_lock_key u.email) (lock_user r user_id minutes s).1.store
          ≡ pos (minutes * 60))
        × (q.0 ≡ err (too_many (pos left)))
        × (q.1.db ≡ later.db)
        × (r.ttl (login_lock_key u.email) q.1.store ≡ pos left)
  unfolding lock_user
  locked_user_cannot_login user_id minutes left u payload s later found more same trimmed filled
        held some_left =
      let k = login_lock_key u.email in
      let seconds : 0 < minutes * 60 = omega (arith, more) in
      let name : trim payload.email ≡ u.email = ap trim same ∙ trimmed in
      let key : lock_key login_config "loginUser" (trim payload.email) ≡ k =
        ap (lock_key login_config "loginUser") name ∙ sym (login_lock_key-lock_key u.email) in
      let given : (minutes == 0) ≡ false = ground (arith, more) in
      let (refused, tables, still) =
        locked_login r laws c trim payload later left (λ blank. filled (sym name ∙ blank))
          (ap (λ k. r.ttl k later.store) key ∙ held) some_left in
      (
        rw (lock_user, found, given) (laws.ttl-set k "1" (minutes * 60) s.store seconds),
        refused,
        tables,
        ap (λ k. r.ttl k (login_user r c trim payload later).1.store) (sym key) ∙ still,
      )

  -- Let the user be found, have a trimmed e-mail that is not empty, and have four or more counted
  -- failures. `unlockUser` takes the lock away, but not the count: the next login with this e-mail
  -- that is not authorized is answered with a new lock of 900 seconds.
  pub unlocked_user_relocks :
      (user_id : ℕ) (u : User) (payload : Credentials) (s : Session r)
      → find_by_id user_id s.db ≡ some u
      → payload.email ≡ u.email
      → trim u.email ≡ u.email
      → u.email ≢ ""
      → 4 ≤ laws.counter (fail_key login_config "loginUser" u.email) s.store
      → let s' = (unlock_user r user_id s).1 in
        ((a : Bool) → is_unauthorized (login_result c payload a s'.db) ≡ true)
        → (login_user r c trim payload s').0 ≡ err (too_many (pos 900))
  unfolding unlock_user
  unlocked_user_relocks user_id u payload s found same trimmed filled failures wrong =
      let k = login_lock_key u.email in
      let s1 : Session r = record s { db = save_user (bumped u) s.db; store = r.del k s.store } in
      let name : trim payload.email ≡ u.email = ap trim same ∙ trimmed in
      let fail = fail_key login_config "loginUser" in
      let free =
        ap (λ e. r.ttl (lock_key login_config "loginUser" e) s1.store) name
        ∙ ap (λ k. r.ttl k s1.store) (sym (login_lock_key-lock_key u.email))
        ∙ laws.ttl-del k s.store in
      let apart : fail u.email ≢ k = λ e.
        keys_apart login_config "loginUser" u.email (sym (e ∙ login_lock_key-lock_key u.email)) in
      let counted =
        ap (λ e. laws.counter (fail e) s1.store) name
        ∙ laws.counter-del_other (fail u.email) k s.store apart in
      let wrong1 : (a : Bool) → is_unauthorized (login_result c payload a s1.db) ≡ true =
        λ a. rw (unlock_user, found) at wrong a in
      rw (unlock_user, found)
        (failing_login_locks r laws c trim payload s1 (λ blank. filled (sym name ∙ blank)) free
          (omega (arith, counted, failures)) wrong1)

-- When `deactivateUser` finds the user, it returns, and no token of that user is accepted afterwards.
deactivate_user-IsRevoked :
    (c : Crypto) (token : String) (p : JwtUserPayload) (u : User) (db : Db)
    → find_by_id p.id db ≡ some u
    → c.verify db.now token ≡ some p
    → ((deactivate_user p.id db).0 ≡ ok tt) × IsRevoked c token (deactivate_user p.id db).1
unfolding deactivate_user find_by_id save_user
deactivate_user-IsRevoked c token p u db found reads =
    let (same, live) = find_row-live p.id u db.users found in
    let u' = record (bumped u) { deleted_at = some db.now } in
    let gone : find_by_id p.id (save_user u' db) ≡ none =
      ap (λ i. find_row (live_user_is p.id) (update_rows (user_is i) (λ _. u') db.users)) same
      ∙ find_row-save_deleted p.id u' db.users same refl in
    let refused = current_user-missing p (save_user u' db) gone in
    rw (deactivate_user, found) (refl, token-IsRevoked c token p (save_user u' db) reads refused)

-- When `lockUser` or `unlockUser` finds the user, no token of that user which has been signed up to
-- then, with the version of the row or an older one, is accepted afterwards; a lock is of one minute
-- or more.
locks-IsRevoked :
    (r : Redis) (c : Crypto) (token : String) (p : JwtUserPayload) (u : User) (s : Session r)
    (minutes : ℕ)
    → find_by_id p.id s.db ≡ some u
    → c.verify s.db.now token ≡ some p
    → p.jwt_version ≤ u.jwt_version
    → 0 < minutes
    → IsRevoked c token (lock_user r p.id minutes s).1.db
      × IsRevoked c token (unlock_user r p.id s).1.db
unfolding lock_user unlock_user find_by_id
locks-IsRevoked r c token p u s minutes found reads older more =
    let (same, live) = find_row-live p.id u s.db.users found in
    let after = find_by_id-save p.id u (bumped u) s.db same live found in
    let refused =
      current_user-outdated p (bumped u) (save_user (bumped u) s.db) after (omega (arith, older)) in
    let revoked = token-IsRevoked c token p (save_user (bumped u) s.db) reads refused in
    let given : (minutes == 0) ≡ false = ground (arith, more) in
    (rw (lock_user, found, given) revoked, rw (unlock_user, found) revoked)

-- Let the user be found, and the minutes of a lock be not 0. After `deactivateUser`, which returns, after
-- `lockUser` and after `unlockUser` no token of that user which has been signed up to then is accepted, by the
-- middleware or by `refreshToken`.
pub admin_acts-IsRevoked :
    (r : Redis) (c : Crypto) (token : String) (p : JwtUserPayload) (u : User) (s : Session r)
    (minutes : ℕ)
    → find_by_id p.id s.db ≡ some u
    → c.verify s.db.now token ≡ some p
    → p.jwt_version ≤ u.jwt_version
    → 0 < minutes
    → ((deactivate_user p.id s.db).0 ≡ ok tt)
      × IsRevoked c token (deactivate_user p.id s.db).1
      × IsRevoked c token (lock_user r p.id minutes s).1.db
      × IsRevoked c token (unlock_user r p.id s).1.db
admin_acts-IsRevoked r c token p u s minutes found reads older more =
    let (left, gone) = deactivate_user-IsRevoked c token p u s.db found reads in
    let (locked, unlocked) = locks-IsRevoked r c token p u s minutes found reads older more in
    (left, gone, locked, unlocked)
