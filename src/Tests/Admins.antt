-- ===== src/Tests/Admins.antt =====
-- The theorems on the administration of users at concrete inputs.
use bukia_hft.Base.{
  ℕ, ⊤, ◌≡◌, ◌≢◌, ◌*◌, refl, String, Bool, true, none, some, [], arith, find_row, update_rows,
}
use bukia_hft.Base.Int.{pos}
use text.Mathlib.TextLemmas.{cons≢nil}
use bukia_hft.Mail.{World}
use bukia_hft.Db.{User, Db}
use bukia_hft.Tx.{duplicate_key, Result, ok, err, select, query, statement, outside, transaction}
use bukia_hft.Redis.{Session}
use bukia_hft.Redis.Memory.{memory, empty, memory-RedisLaws, put, counter-memory}
use bukia_hft.Repositories.User.{find_by_email, find_by_id, save_user}
use bukia_hft.Lockout.{fail_key, too_many}
use bukia_hft.Auth.Service.{
  Credentials, login_config, login_result, check_login, is_unauthorized, payload_of,
}
use bukia_hft.Auth.Login.{login_user}
use bukia_hft.Auth.Revoked.{IsRevoked}
use bukia_hft.Admin.{
  save_with_profile, me_of, bumped, login_lock_key, AdminUserEditBody, edited, deactivate_user,
  lock_user, unlock_user, admin_reset_password, update_user, update_body, update_found, save_edited,
  refresh_me, check_email, save_unique,
}
use bukia_hft.Admin.Locks.{locked_user_cannot_login, unlocked_user_relocks, admin_acts-IsRevoked}
use bukia_hft.Admin.Edits.{admin_reset_password-IsRevoked}
use bukia_hft.Example.Tokens.{crypto}
use bukia_hft.Tests.Logins.{bea, users, cred, by_id, token}

abbrev trim : String → String
trim t = t

filled : bea.email ≢ ""
filled e = cons≢nil e

abbrev fresh : Session memory
fresh = record { db = users; store = empty; outbox = [] }

-- 1500 of the 1800 seconds have passed.
abbrev waited : Session memory
waited = record fresh {
  store = memory.wait 1500 (memory.set (login_lock_key bea.email) "1" 1800 empty);
}

left_of_lock : memory.ttl (login_lock_key bea.email) waited.store ≡ pos 300
left_of_lock = refl

locked_user_cannot_login_example :
    let q = login_user memory crypto trim cred waited in
    (memory.ttl (login_lock_key bea.email) (lock_user memory 7 30 fresh).1.store ≡ pos (30 * 60))
    × (q.0 ≡ err (too_many (pos 300)))
    × (q.1.db ≡ waited.db)
    × (memory.ttl (login_lock_key bea.email) q.1.store ≡ pos 300)
locked_user_cannot_login_example =
    locked_user_cannot_login memory memory-RedisLaws crypto trim 7 30 300 bea cred fresh waited
      by_id (omega arith) refl refl filled left_of_lock (omega arith)

-- Four failures have been counted.
abbrev failed : Session memory
failed = record fresh {
  store =
      put (fail_key login_config "loginUser" "ada@example.com")
        (some (record { text = ""; number = 4; life = some 60 })) empty;
}

four : memory-RedisLaws.counter (fail_key login_config "loginUser" bea.email) failed.store ≡ 4
four = counter-memory (fail_key login_config "loginUser" bea.email) failed.store

abbrev wrong : Credentials
wrong = record { email = "ada@example.com"; password = "guess" }

is_wrong :
    (a : Bool)
    → is_unauthorized (login_result crypto wrong a (unlock_user memory 7 failed).1.db) ≡ true
unfolding unlock_user login_result check_login find_by_email find_by_id find_row save_user
    update_rows
is_wrong a = refl

unlocked_user_relocks_example :
    (login_user memory crypto trim wrong (unlock_user memory 7 failed).1).0
    ≡ err (too_many (pos 900))
unlocked_user_relocks_example =
    unlocked_user_relocks memory memory-RedisLaws crypto trim 7 bea wrong failed by_id refl refl
      filled (omega (arith, four)) is_wrong

admin_acts-IsRevoked_example :
    ((deactivate_user 7 users).0 ≡ ok tt)
    × IsRevoked crypto token (deactivate_user 7 users).1
    × IsRevoked crypto token (lock_user memory 7 30 fresh).1.db
    × IsRevoked crypto token (unlock_user memory 7 fresh).1.db
admin_acts-IsRevoked_example =
    admin_acts-IsRevoked memory crypto token (payload_of bea) bea fresh 30 by_id refl (omega arith)
      (omega arith)

abbrev new_name : AdminUserEditBody
new_name = record {
  email = some "countess@example.com";
  first_name = some "Augusta";
  last_name = none;
  profile_id = none;
}

abbrev refused : ℕ → User → Db → Result (⊤ × Db)
refused id u db = err duplicate_key

updated :
    update_user refused 7 new_name users ≡ (ok (me_of bea), save_user (edited new_name bea) users)
unfolding update_user update_body update_found save_edited save_with_profile refresh_me check_email
    save_unique select query statement outside transaction find_by_id find_by_email find_row
    save_user update_rows
updated = refl

abbrev world : World
world = record { db = users; outbox = [] }

admin_reset_password-IsRevoked_example :
    let q =
      admin_reset_password crypto (λ sent e. true) "salt" "made-up" 7 (some "Other2!!") world in
    (q.0 ≡ ok (some "Other2!!"))
    × (find_by_id 7 q.1.db ≡ some (record (bumped bea) { password = some "#Other2!!" }))
    × IsRevoked crypto token q.1.db
admin_reset_password-IsRevoked_example =
    admin_reset_password-IsRevoked crypto (λ sent e. true) "salt" "made-up" token (some "Other2!!")
      (payload_of bea) bea world by_id (λ e. refl) refl (omega arith)
