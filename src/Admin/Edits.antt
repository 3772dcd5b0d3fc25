-- ===== src/Admin/Edits.antt =====
-- `updateUser` and `resetPassword` of services/admin-user.services.ts.
use bukia_hft.Base.{
  ◌≡◌, refl, ap, sym, ◌∙◌, ℕ, ◌≤◌, ⊤, String, true, false, Option, none, some, List, [], ◌∷◌, ◌++◌,
  arith, Option-cases, inl, inr,
}
use bukia_hft.Db.{Db, User}
use bukia_hft.Tx.{Result, ok, TxState, select, query, statement, outside}
use bukia_hft.Tx.Inversion.{
  >>=-eq-ok, statement-eq-ok, select-eq-ok, transaction-eq-ok, transaction-of_ok,
}
use mathlib.Core.Path.{subst}
use bukia_hft.Mail.{Email, Mailer, World}
use bukia_hft.Repositories.User.{
  find_by_id, find_by_email, save_user, set_password_and_increment_jwt,
}
use bukia_hft.Repositories.User.Rows.{find_row-live}
use bukia_hft.Lockout.{or_default}
use bukia_hft.Auth.{Crypto, JwtUserPayload}
use bukia_hft.Auth.Revoked.{IsRevoked, token-IsRevoked, current_user-outdated, find_by_id-save}
use bukia_hft.Admin.{
  MeResponse, me_of, bumped, parse_me, AdminUserEditBody, wants_email, check_email, save_unique,
  refuse_taken, edited, save_with_profile, refresh_me, save_edited, update_found, update_body,
  update_user, reset_email, reset_in_transaction, admin_reset_password,
}

abbrev begun : Db → TxState
begun db = record { committed = db; work = db; aborted = false }

-- A check of an e-mail that passes changes nothing.
check_email-eq-ok :
    (o : Option String) (s t : TxState) (a : ⊤) → check_email o s ≡ (ok a, t) → t ≡ s
unfolding check_email
check_email-eq-ok none s t a h = cc
check_email-eq-ok (some email) s t a h =
    let (taken, s1, looked, k) = >>=-eq-ok (select (find_by_email email)) refuse_taken s h in
    let (fine, found, same) = select-eq-ok (find_by_email email) s taken s1 looked in
    elim (Option-cases taken) [
      | inl free ↦ cc (same, rw free at k)
      | inr (u, clash) ↦ cc (rw clash at k)
    ]

save_unique-eq-ok :
    (u : User) (db w : Db) (a : ⊤) → save_unique u db ≡ ok (a, w) → w ≡ save_user u db
unfolding save_unique
save_unique-eq-ok u db w a h = ground arith

-- A body without the id of a profile.
pub save_with_profile-same :
    (save_as : ℕ → User → Db → Result (⊤ × Db)) (body : AdminUserEditBody) (u : User) (db : Db)
    → body.profile_id ≡ none
    → save_with_profile save_as body u db ≡ save_unique (edited body u) db
unfolding save_with_profile
save_with_profile-same save_as body u db same_id =
    ap
      (λ o. elim o [
        | none ↦ save_unique (edited body u) db
        | some id ↦ save_as id (edited body u) db
      ])
      (same u.first_name)
  where
    same : (o : Option String) → elim o [ none ↦ none | some name ↦ body.profile_id ] ≡ none
    same none = refl
    same (some name) = same_id

ok-me :
    (o : Option User) (u : User) (res : MeResponse)
    → o ≡ some u
    → parse_me o ≡ ok res
    → res ≡ me_of u
ok-me none u res h k = cc
ok-me (some v) u res h k = cc

module _ (save_as : ℕ → User → Db → Result (⊤ × Db)) where
  save_with_profile-eq-ok :
      (body : AdminUserEditBody) (u : User) (db w : Db) (a : ⊤)
      → body.profile_id ≡ none
      → save_with_profile save_as body u db ≡ ok (a, w)
      → w ≡ save_user (edited body u) db
  unfolding save_with_profile
  save_with_profile-eq-ok body u db w a same_id h =
      save_unique-eq-ok (edited body u) db w a
        (sym (save_with_profile-same save_as body u db same_id) ∙ h)

  save_edited-eq-ok :
      (body : AdminUserEditBody) (u : User) (s t : TxState) (res : MeResponse)
      → body.profile_id ≡ none
      → save_edited save_as body u s ≡ (ok res, t)
      → (parse_me (find_by_id u.id s.committed) ≡ ok res)
        × (t.aborted ≡ false)
        × (t.work ≡ save_user (edited body u) s.work)
  unfolding save_edited refresh_me outside
  save_edited-eq-ok body u s t res same_id h =
      let (a, s2, stored, k) =
        >>=-eq-ok (statement (save_with_profile save_as body u)) (λ _. refresh_me u.id) s h in
      let (fine, w, wrote, after) =
        statement-eq-ok (save_with_profile save_as body u) s a s2 stored in
      let row = save_with_profile-eq-ok body u s.work w a same_id wrote in
      let end : t ≡ s2 = cc (k) in
      let seen = ap (λ (s : TxState). s.committed) after in
      (
        ap (λ db. parse_me (find_by_id u.id db)) (sym seen) ∙ cc (k),
        ap (λ (s : TxState). s.aborted) (end ∙ after) ∙ fine,
        ap (λ (s : TxState). s.work) (end ∙ after) ∙ row,
      )

  update_found-eq-ok :
      (body : AdminUserEditBody) (found : Option User) (s t : TxState) (res : MeResponse)
      → body.profile_id ≡ none
      → update_found save_as body found s ≡ (ok res, t)
      → (u : User) × (found ≡ some u)
        × (parse_me (find_by_id u.id s.committed) ≡ ok res)
        × (t.aborted ≡ false)
        × (t.work ≡ save_user (edited body u) s.work)
  unfolding update_found
  update_found-eq-ok body none s t res same_id h = cc
  update_found-eq-ok body (some u) s t res same_id h =
      let (a, s2, checked, rest) =
        >>=-eq-ok (check_email (wants_email body.email u)) (λ _. save_edited save_as body u) s h in
      let same = check_email-eq-ok (wants_email body.email u) s s2 a checked in
      let (shown, live, saved) = save_edited-eq-ok body u s2 t res same_id rest in
      (
        u,
        refl,
        ap (λ (s : TxState). parse_me (find_by_id u.id s.committed)) (sym same) ∙ shown,
        live,
        saved ∙ ap (λ (s : TxState). save_user (edited body u) s.work) same,
      )

  -- When `updateUser` returns, and the body has no id of a profile, the row that was found has been replaced by the edited one, and the
  -- answer shows the row as it was before the edit.
  pub update_user_answers_before :
      (user_id : ℕ) (body : AdminUserEditBody) (db db' : Db) (res : MeResponse)
      → body.profile_id ≡ none
      → update_user save_as user_id body db ≡ (ok res, db')
      → (u : User) × (find_by_id user_id db ≡ some u)
        × (db' ≡ save_user (edited body u) db)
        × (res ≡ me_of u)
  unfolding update_user update_body find_by_id
  update_user_answers_before user_id body db db' res same_id h =
      let (t, ran, kept) = transaction-eq-ok (update_body save_as user_id body) db db' res h in
      let (o, s1, looked, k) =
        >>=-eq-ok (select (find_by_id user_id)) (update_found save_as body) (begun db) ran in
      let (fine, is_row, same) = select-eq-ok (find_by_id user_id) (begun db) o s1 looked in
      let (u, row, shown, live, saved) = update_found-eq-ok body o s1 t res same_id k in
      let found : find_by_id user_id db ≡ some u = sym is_row ∙ row in
      let (mine, alive) = find_row-live user_id u db.users found in
      (
        u,
        found,
        kept live ∙ saved ∙ ap (λ (s : TxState). save_user (edited body u) s.work) same,
        ok-me (find_by_id u.id s1.committed) u res
            (ap (λ (s : TxState). find_by_id u.id s.committed) same
              ∙ ap (λ i. find_by_id i db) mine
              ∙ found)
            shown,
      )

reset_in_transaction-of_found :
    (mailer : Mailer) (outbox : List Email) (user_id : ℕ) (hash temp : String) (v : User)
    (s : TxState) (db : Db)
    → s.aborted ≡ false
    → set_password_and_increment_jwt user_id hash s.work ≡ (some v, db)
    → mailer outbox (reset_email v temp) ≡ true
    → reset_in_transaction mailer outbox user_id hash temp s
      ≡ (ok (reset_email v temp), record s { work = db })
unfolding reset_in_transaction query statement
reset_in_transaction-of_found mailer outbox user_id hash temp v s db fine set sent =
    rw (reset_in_transaction, query, statement, fine, set, sent) refl

-- Let the user be found, and the e-mail with the new password be accepted. Then the administrator's
-- reset returns the password that was asked for, the new password is that of the row, and no token
-- of that user which has been signed up to then is accepted afterwards.
pub admin_reset_password-IsRevoked :
    (c : Crypto) (mailer : Mailer) (salt made_up token : String) (new_password : Option String)
    (p : JwtUserPayload) (u : User) (w : World)
    → find_by_id p.id w.db ≡ some u
    → ((e : Email) → mailer w.outbox e ≡ true)
    → c.verify w.db.now token ≡ some p
    → p.jwt_version ≤ u.jwt_version
    → let q = admin_reset_password c mailer salt made_up p.id new_password w in
      let hash = c.bcrypt_hash salt (or_default new_password made_up) in
      (q.0 ≡ ok new_password)
      × (find_by_id p.id q.1.db ≡ some (record (bumped u) { password = some hash }))
      × IsRevoked c token q.1.db
unfolding admin_reset_password set_password_and_increment_jwt find_by_id
admin_reset_password-IsRevoked c mailer salt made_up token new_password p u w found sends reads
      older =
    let hash = c.bcrypt_hash salt (or_default new_password made_up) in
    let v = record (bumped u) { password = some hash } in
    let (same, live) = find_row-live p.id u w.db.users found in
    let after = find_by_id-save p.id u v w.db same live found in
    let refused = current_user-outdated p v (save_user v w.db) after (omega (arith, older)) in
    let revoked = token-IsRevoked c token p (save_user v w.db) reads refused in
    let set : set_password_and_increment_jwt p.id hash w.db ≡ (some v, save_user v w.db) =
      rw (set_password_and_increment_jwt, found) refl in
    let temp = or_default new_password made_up in
    let t : TxState = record { committed = w.db; work = save_user v w.db; aborted = false } in
    let ran : reset_in_transaction mailer w.outbox p.id hash temp (begun w.db)
        ≡ (ok (reset_email v temp), t) =
      reset_in_transaction-of_found mailer w.outbox p.id hash temp v (begun w.db) (save_user v w.db)
        refl set (sends (reset_email v temp)) in
    let committed =
      transaction-of_ok (reset_in_transaction mailer w.outbox p.id hash temp) w.db
        (reset_email v temp) t ran refl in
    let done : admin_reset_password c mailer salt made_up p.id new_password w ≡ (
      ok new_password,
      record { db = save_user v w.db; outbox = w.outbox ++ reset_email v temp ∷ [] },
    ) =
      rw (admin_reset_password, committed, committed) refl in
    (
      ap (λ q. q.0) done,
      ap (λ q. find_by_id p.id q.1.db) done ∙ after,
      subst (λ q. IsRevoked c token q.1.db) (sym done) revoked,
    )
