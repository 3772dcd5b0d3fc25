-- ===== src/Controllers/AdminUser.antt =====
-- controllers/admin-user.controller.ts and routes/admin-user.routes.ts.
use bukia_hft.Base.{ℕ, String, Option, none, some, [], ◌∷◌}
use bukia_hft.Db.{Db, admin}
use bukia_hft.Mail.{World}
use bukia_hft.Tx.{Result, ok, null_access}
use bukia_hft.Redis.{Redis, Session}
use bukia_hft.Repositories.User.{UserListQuery, list_users}
use bukia_hft.Admin.{
  AdminUserEditBody, get_user, get_user_wallets, deactivate_user, lock_user, unlock_user,
  admin_reset_password, update_user,
}
use bukia_hft.Admin.Transactions.{PaginationQuery, get_user_transactions}
use bukia_hft.Controllers.{
  no_data, me_body, wallets_body, users_body, password_body, entries_body, Server, Handler, fails,
  responds, for_roles, authenticated,
}

-- The routes, with the `id` of the path and what the schemas keep of a query or a body.
pub data AdminCall : Type 0 where
  deactivate show show_wallets unlock : ℕ → AdminCall
  show_transactions : ℕ → PaginationQuery → AdminCall
  list : UserListQuery → AdminCall
  lock : ℕ → ℕ → AdminCall
  reset : ℕ → Option String → AdminCall
  edit : ℕ → AdminUserEditBody → AdminCall

-- A method on the tables, or on the tables and the queue of e-mails.
abbrev pub on_db :
    {A : Type 0} → (r : Redis) → (Db → Result A × Db) → Session r → Result A × Session r
on_db r f s = let (a, db) = f s.db in (a, record s { db = db })

abbrev pub on_world :
    {A : Type 0} → (r : Redis) → (World → Result A × World) → Session r → Result A × Session r
on_world r f s =
    let (a, w) = f (record { db = s.db; outbox = s.outbox }) in
    (a, record s { db = w.db; outbox = w.outbox })

module _ (r : Redis) (server : Server r) where
  open server use {crypto, mailer, salt, made_up, ilike, trim, by_created}

  -- `updateUser` of the controller passes the id of the user who asks.
  unfoldable pub edit_user : AdminUserEditBody → Handler r server
  unfolding responds update_user fails
  edit_user body req s = elim req.user [
    | none ↦ fails r server null_access s
    | some payload ↦
        responds r server 200 (λ m. "User updated successfully") me_body
          (on_db r (update_user server.save_as payload.id body) s)
  ]

  -- The other methods of the controller, without their guard.
  unfoldable pub deactivate_route : ℕ → Handler r server
  unfolding responds deactivate_user
  deactivate_route id req s =
      responds r server 200 (λ t. "Deactivate User") (λ t. no_data) (on_db r (deactivate_user id) s)

  unfoldable pub show_route : ℕ → Handler r server
  unfolding responds get_user
  show_route id req s = responds r server 201 (λ m. "Get User") me_body (get_user id s.db, s)

  unfoldable pub transactions_route : ℕ → PaginationQuery → Handler r server
  unfolding responds get_user_transactions
  transactions_route id query req s =
      responds r server 200 (λ p. "User transactions") entries_body
        (get_user_transactions by_created id query s.db, s)

  unfoldable pub wallets_route : ℕ → Handler r server
  unfolding responds get_user_wallets
  wallets_route id req s =
      responds r server 200 (λ ws. "User wallets") wallets_body (ok (get_user_wallets id s.db), s)

  unfoldable pub list_route : UserListQuery → Handler r server
  unfolding responds list_users
  list_route query req s =
      responds r server 200 (λ us. "Users list") users_body
        (ok (list_users ilike trim query s.db), s)

  unfoldable pub lock_route : ℕ → ℕ → Handler r server
  unfolding responds lock_user
  lock_route id minutes req s =
      responds r server 200 (λ m. "lock user successfully") me_body (lock_user r id minutes s)

  unfoldable pub reset_route : ℕ → Option String → Handler r server
  unfolding responds admin_reset_password
  reset_route id new_password req s =
      responds r server 200 (λ p. "User password resetted") password_body
        (on_world r (admin_reset_password crypto mailer salt made_up id new_password) s)

  unfoldable pub unlock_route : ℕ → Handler r server
  unfolding responds unlock_user
  unlock_route id req s =
      responds r server 200 (λ m. "User unlocked successfully") me_body (unlock_user r id s)

  unfoldable pub admin_controller : AdminCall → Handler r server
  unfolding deactivate_route show_route transactions_route wallets_route list_route lock_route
      reset_route unlock_route edit_user
  admin_controller (deactivate id) = deactivate_route id
  admin_controller (show id) = show_route id
  admin_controller (show_transactions id query) = transactions_route id query
  admin_controller (show_wallets id) = wallets_route id
  admin_controller (list query) = list_route query
  admin_controller (lock id minutes) = lock_route id minutes
  admin_controller (reset id new_password) = reset_route id new_password
  admin_controller (unlock id) = unlock_route id
  admin_controller (edit id body) = edit_user body

  -- The router: every method is guarded for administrators.
  unfoldable pub admin_router : AdminCall → Handler r server
  unfolding authenticated for_roles admin_controller
  admin_router call =
      authenticated r server (for_roles r server (admin ∷ []) (admin_controller call))
