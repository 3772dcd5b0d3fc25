-- ===== src/Auth/Register/Accounts.antt =====
-- The account of a new user (services/auth.services.ts).
use bukia_hft.Base.{
  ◌≡◌, refl, ap, ◌∙◌, ◌+◌, String, true, false, none, some, List, [], ◌∷◌, ◌++◌, find_row, arith,
  Option-cases, inl, inr, find_row-append_none, find_row-append_some, find_row_one,
}
use bukia_hft.Db.{Db, User, UserRole, admin, super_admin, user}
use bukia_hft.Tx.{Error, conflict, duplicate_key, ok, err, TxState, pure, statement, outside}
use bukia_hft.Tx.Inversion.{transaction-of_ok, transaction-of_err, >>=-of_ok, >>=-of_err}
use bukia_hft.Repositories.User.{find_by_email, create_user, same_role, live_email_is}
use bukia_hft.WalletService.{
  user_is, create_and_save_default_wallets_for_user, get_default_currencies_for_country,
}
use bukia_hft.WalletService.Defaults.{default_rows, save_default_wallets_lem}
use bukia_hft.Auth.Register.{
  RegisterUserRequest, new_user, email_is, insert_user, add_wallets, insert_account, unless_taken,
  register_body, register_user,
}

-- An e-mail of no row is that of no live row.
no_live_email :
    (email : String) (us : List User)
    → find_row (email_is email) us ≡ none
    → find_row (live_email_is email) us ≡ none
unfolding find_row
no_live_email email [] free = refl
no_live_email email (u ∷ us) free = ground (arith, no_live_email email us)

-- A row that is added is found, or an earlier one of its id is.
found_after_insert :
    (u : User) (us : List User) → (v : User) × (find_row (user_is u.id) (us ++ u ∷ []) ≡ some v)
found_after_insert u us = elim (Option-cases (find_row (user_is u.id) us)) [
  | inl new ↦ (
    u,
    find_row-append_none (user_is u.id) us (u ∷ []) new
        ∙ find_row_one (user_is u.id) u (ground arith),
  )
  | inr (v, old) ↦ (v, find_row-append_some (user_is u.id) us (u ∷ []) v old)
]

create_user-plain :
    {A : Type 0} (t : UserRole) (entity : A) (s : TxState)
    → same_role t super_admin ≡ false
    → create_user t entity s ≡ (ok entity, s)
unfolding create_user
create_user-plain admin entity s plain = refl
create_user-plain user entity s plain = refl
create_user-plain super_admin entity s plain = cc

module _ (to_upper : String → String) (stored_type : UserRole → UserRole) (hash : String)
    (payload : RegisterUserRequest) (db : Db)
    (plain : same_role payload.type super_admin ≡ false) where
  abbrev row : User
  row = new_user stored_type hash payload db.next_user

  abbrev begun : TxState
  begun = record { committed = db; work = db; aborted = false }

  abbrev inserted : TxState
  inserted = record begun {
    work = record db { users = db.users ++ row ∷ []; next_user = db.next_user + 1 };
  }

  -- The body, where no live row has the e-mail, and where one has.
  register_body-free :
      find_by_email payload.email db ≡ none
      → register_body to_upper stored_type hash payload begun
        ≡ insert_account to_upper stored_type (new_user stored_type hash payload) begun
  unfolding register_body outside
  register_body-free free =
      ap (λ o. unless_taken to_upper stored_type hash payload o begun) free
      ∙ >>=-of_ok (create_user payload.type (new_user stored_type hash payload))
          (insert_account to_upper stored_type) begun (new_user stored_type hash payload) begun
          (create_user-plain payload.type (new_user stored_type hash payload) begun plain)

  register_body-taken :
      (v : User)
      → find_by_email payload.email db ≡ some v
      → register_body to_upper stored_type hash payload begun
        ≡ (err (conflict "Something went wrong"), begun)
  unfolding register_body outside
  register_body-taken v taken =
      ap (λ o. unless_taken to_upper stored_type hash payload o begun) taken

  insert_user-free :
      find_row (email_is payload.email) db.users ≡ none
      → statement (insert_user (new_user stored_type hash payload)) begun ≡ (ok row, inserted)
  unfolding statement insert_user
  insert_user-free free = rw (statement, insert_user, free) refl

  insert_user-taken :
      (v : User)
      → find_row (email_is payload.email) db.users ≡ some v
      → statement (insert_user (new_user stored_type hash payload)) begun
        ≡ (err duplicate_key, record begun { aborted = true })
  unfolding statement insert_user
  insert_user-taken v taken = rw (statement, insert_user, taken) refl

  -- Let the role that is asked for not be that of the super admin, and let no row of users, deleted ones
  -- included, have the e-mail. Then `registerUser` returns a user with the next id, this e-mail, the
  -- hash as password and version 0, who is not verified; this user's row and the default wallets of
  -- the country are added.
  pub register_creates_account :
      find_row (email_is payload.email) db.users ≡ none
      → (db' : Db) × (register_user to_upper stored_type hash payload db
          ≡ (ok (new_user stored_type hash payload db.next_user), db'))
        × (db'.users ≡ db.users ++ new_user stored_type hash payload db.next_user ∷ [])
        × (db'.wallets
            ≡ db.wallets
              ++ default_rows db.next_user db.next_wallet
                  (get_default_currencies_for_country to_upper payload.country))
  unfolding register_user insert_account add_wallets find_by_email
      create_and_save_default_wallets_for_user
  register_creates_account free =
      let cs = get_default_currencies_for_country to_upper payload.country in
      let (v, found) = found_after_insert row db.users in
      let (t, ran, live, rows, users) =
        save_default_wallets_lem db.next_user cs inserted v refl found in
      let wallets =
        >>=-of_ok (create_and_save_default_wallets_for_user to_upper row) (λ _. pure row) inserted
          (default_rows db.next_user db.next_wallet cs) t ran in
      let entity = new_user stored_type hash payload in
      let body =
        register_body-free (no_live_email payload.email db.users free)
        ∙ >>=-of_ok (statement (insert_user entity)) (add_wallets to_upper stored_type) begun row
            inserted (insert_user-free free)
        ∙ wallets in
      (
        t.work,
        transaction-of_ok (register_body to_upper stored_type hash payload) db row t body live,
        users,
        rows,
      )

  -- Let the role that is asked for not be that of the super admin, and let a row of users, deleted or not,
  -- have the e-mail. Then `registerUser` throws, and no table changes.
  pub taken_email_is_refused :
      (v : User)
      → find_row (email_is payload.email) db.users ≡ some v
      → (e : Error) × (register_user to_upper stored_type hash payload db ≡ (err e, db))
  unfolding register_user insert_account
  taken_email_is_refused v taken =
      let body = register_body to_upper stored_type hash payload in
      let entity = new_user stored_type hash payload in
      elim (Option-cases (find_by_email payload.email db)) [
        | inr (w, live) ↦ (
          conflict "Something went wrong",
          transaction-of_err body db (conflict "Something went wrong") begun
              (register_body-taken w live),
        )
        | inl gone ↦
            let ran =
              register_body-free gone
              ∙ >>=-of_err (statement (insert_user entity)) (add_wallets to_upper stored_type) begun
                  duplicate_key (record begun { aborted = true }) (insert_user-taken v taken) in
            (
              duplicate_key,
              transaction-of_err body db duplicate_key (record begun { aborted = true }) ran,
            )
      ]
