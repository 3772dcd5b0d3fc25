-- ===== src/Controllers/OwnRow.antt =====
-- PATCH /user/:id of routes/admin-user.routes.ts: `updateUser` of controllers/admin-user.controller.ts passes
-- the id of the administrator to the service, in place of the one in the path.
use bukia_hft.Base.{
  ◌≡◌, ◌≢◌, refl, sym, ap, ◌∙◌, inl, inr, ℕ, String, ◌==◌, ⊤, false, Option, none, some, arith,
}
use bukia_hft.Db.{Db, User}
use bukia_hft.Tx.{
  Error, Result, Result-cases, ok, err, TxState, Tx, select, statement, outside, transaction,
}
use bukia_hft.Tx.Quiet.{IsQuietWhen, >>=-IsQuietWhen, statement-IsQuiet, select-IsQuiet}
use bukia_hft.Redis.{Redis, Session}
use bukia_hft.Repositories.User.{find_by_id, find_by_email, save_user}
use bukia_hft.Repositories.User.Rows.{find_row-save_other, find_row-live}
use bukia_hft.Auth.{Request, JwtUserPayload, authenticate_jwt}
use bukia_hft.Admin.{
  AdminUserEditBody, wants_email, refuse_taken, check_email, save_with_profile, edited, refresh_me,
  save_edited, update_found, update_body, update_user,
}
use bukia_hft.Admin.Edits.{update_user_answers_before}
use bukia_hft.Controllers.{Server, me_body}
use bukia_hft.Controllers.AdminUser.{edit, edit_user, admin_controller, admin_router, on_db}
use bukia_hft.Controllers.Access.{admin_routes_are_guarded}
use bukia_hft.Controllers.Sessions.{responds_state}

-- No part of the transaction writes on another connection.
abbrev Anything : Db → Type 0
Anything db = ⊤

check_email-IsQuiet : (o : Option String) → IsQuietWhen Anything (check_email o)
unfolding check_email
check_email-IsQuiet none s c = refl
check_email-IsQuiet (some email) s c =
    >>=-IsQuietWhen Anything (select (find_by_email email)) refuse_taken
      (λ s c. select-IsQuiet (find_by_email email) s) quiet s c
  where
    quiet : (v : Option User) → IsQuietWhen Anything (refuse_taken v)
    quiet none s c = refl
    quiet (some v) s c = refl

refresh_me-IsQuiet : (id : ℕ) → IsQuietWhen Anything (refresh_me id)
unfolding refresh_me outside
refresh_me-IsQuiet id s c = refl

module _ (save_as : ℕ → User → Db → Result (⊤ × Db)) where
  save_edited-IsQuiet :
      (body : AdminUserEditBody) (u : User) → IsQuietWhen Anything (save_edited save_as body u)
  unfolding save_edited
  save_edited-IsQuiet body u =
      >>=-IsQuietWhen Anything (statement (save_with_profile save_as body u)) (λ t. refresh_me u.id)
        (λ s c. statement-IsQuiet (save_with_profile save_as body u) s)
        (λ t. refresh_me-IsQuiet u.id)

  update_body-IsQuiet :
      (id : ℕ) (body : AdminUserEditBody) → IsQuietWhen Anything (update_body save_as id body)
  unfolding update_body update_found
  update_body-IsQuiet id body =
      >>=-IsQuietWhen Anything (select (find_by_id id)) (update_found save_as body)
        (λ s c. select-IsQuiet (find_by_id id) s) quiet
    where
      quiet : (o : Option User) → IsQuietWhen Anything (update_found save_as body o)
      quiet none s c = refl
      quiet (some u) s c =
          >>=-IsQuietWhen Anything (check_email (wants_email body.email u))
            (λ t. save_edited save_as body u) (check_email-IsQuiet (wants_email body.email u))
            (λ t. save_edited-IsQuiet body u) s c

from_ok : {A : Type 0} {a b : A} → ok a ≡ ok b → a ≡ b
from_ok h = cc

rolled_back :
    {A : Type 0} (m : Tx A) (db db' : Db) (e : Error)
    → IsQuietWhen Anything m
    → transaction m db ≡ (err e, db')
    → db' ≡ db
unfolding transaction
rolled_back m db db' e quiet h =
    let begun : TxState = record { committed = db; work = db; aborted = false } in
    let same = quiet begun tt in ground arith

edited_id : (body : AdminUserEditBody) (u : User) → (edited body u).id ≡ u.id
edited_id body u = ground arith

module _ (save_as : ℕ → User → Db → Result (⊤ × Db)) where
  -- `updateUser` leaves the rows of all other users.
  update_user-others :
      (id other : ℕ) (body : AdminUserEditBody) (db : Db)
      → body.profile_id ≡ none
      → other ≢ id
      → find_by_id other (update_user save_as id body db).1 ≡ find_by_id other db
  unfolding find_by_id save_user update_user
  update_user-others id other body db same_id apart =
      elim (Result-cases (update_user save_as id body db).0) [
        | inl (e, failed) ↦ ap (find_by_id other) (
            rolled_back (update_body save_as id body) db (update_user save_as id body db).1 e
              (update_body-IsQuiet save_as id body)
              (ap (λ o. (o, (update_user save_as id body db).1)) failed))
        | inr (res, returned) ↦
            let (u, found, saved, shown) =
              update_user_answers_before save_as id body db (update_user save_as id body db).1 res
                same_id (ap (λ o. (o, (update_user save_as id body db).1)) returned) in
            let (mine, alive) = find_row-live id u db.users found in
            let elsewhere : (u.id == other) ≡ false = ground (arith, mine) in
            ap (find_by_id other) saved
            ∙ find_row-save_other (edited body u).id other (edited body u) db.users refl
                (ap (λ i. i == other) (edited_id body u) ∙ elsewhere)
      ]

module _ (r : Redis) (server : Server r) where
  edit_user-others :
      (body : AdminUserEditBody) (req : Request) (p : JwtUserPayload) (other : ℕ) (s : Session r)
      → req.user ≡ some p
      → body.profile_id ≡ none
      → other ≢ p.id
      → find_by_id other (edit_user r server body req s).1.db ≡ find_by_id other s.db
  unfolding edit_user
  edit_user-others body req p other s who same_id apart =
      rw (edit_user, who)
        (ap (λ (s : Session r). find_by_id other s.db)
            (responds_state r server 200 (λ m. "User updated successfully") me_body
              (on_db r (update_user server.save_as p.id body) s))
          ∙ update_user-others server.save_as p.id other body s.db same_id apart)

  -- Let a request to PATCH /user/:id have a token that is accepted, and a body without the id of a profile.
  -- Whatever the id in the path is, the row and the profile of no user but the one who asks are changed: an
  -- administrator cannot edit another user.
  pub edit_changes_own_row :
      (id other : ℕ) (body : AdminUserEditBody) (req passed : Request) (p : JwtUserPayload)
      (s : Session r)
      → authenticate_jwt server.crypto req s.db ≡ ok passed
      → passed.user ≡ some p
      → body.profile_id ≡ none
      → other ≢ p.id
      → find_by_id other (admin_router r server (edit id body) req s).1.db ≡ find_by_id other s.db
  unfolding admin_controller
  edit_changes_own_row id other body req passed p s accepted who same_id apart =
      elim (admin_routes_are_guarded r server (edit id body) req s) [
        | inr away ↦ ap (λ (s : Session r). find_by_id other s.db) away.unchanged
        | inl through ↦
            let same : through.passed ≡ passed = from_ok (sym through.accepted ∙ accepted) in
            ap (λ o. find_by_id other o.1.db) through.run
            ∙ edit_user-others body through.passed p other s
                (ap (λ (q : Request). q.user) same ∙ who) same_id apart
      ]
