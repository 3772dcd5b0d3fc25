-- ===== src/Repositories/User/Rows.antt =====
-- Lookups of a user before and after a row is saved (repositories/user.repository.ts).
use bukia_hft.Base.{
  ◌≡◌, refl, ℕ, ⊤, String, Bool, true, false, none, some, List, [], ◌∷◌, arith, find_row,
  count_rows, update_rows, str_eq, ◌==◌,
}
use bukia_hft.Db.{User}
use bukia_hft.Repositories.User.{is_live, live_user_is, live_email_is, user_is}

-- A row that replaces the live row of an id is found under it, if it is live.
pub find_row-save :
    (id : ℕ) (u v : User) (us : List User)
    → v.id ≡ id
    → is_live v.deleted_at ≡ true
    → find_row (live_user_is id) us ≡ some u
    → find_row (live_user_is id) (update_rows (user_is id) (λ _. v) us) ≡ some v
unfolding find_row update_rows
find_row-save id u v [] same live found = cc
find_row-save id u v (x ∷ us) same live found =
    ground (arith, same, live, find_row-save id u v us same live)

pub find_row-save_deleted :
    (id : ℕ) (v : User) (us : List User)
    → v.id ≡ id
    → is_live v.deleted_at ≡ false
    → find_row (live_user_is id) (update_rows (user_is id) (λ _. v) us) ≡ none
unfolding find_row update_rows
find_row-save_deleted id v [] same gone = refl
find_row-save_deleted id v (x ∷ us) same gone =
    ground (arith, same, gone, find_row-save_deleted id v us same gone)

-- A found row has the id, and is live.
pub find_row-live :
    (id : ℕ) (u : User) (us : List User)
    → find_row (live_user_is id) us ≡ some u
    → (u.id ≡ id) × (is_live u.deleted_at ≡ true)
unfolding find_row
find_row-live id u [] found = cc
find_row-live id u (x ∷ us) found = ground (arith, find_row-live id u us)

-- The primary key: no two rows of one id.
abbrev pub HasUniqueIds : List User → Type 0
HasUniqueIds [] = ⊤
HasUniqueIds (u ∷ us) = (count_rows (user_is u.id) us ≡ 0) × HasUniqueIds us

other_id :
    (p : User → Bool) (x u : User) (us : List User)
    → count_rows (user_is x.id) us ≡ 0
    → find_row p us ≡ some u
    → (x.id == u.id) ≡ false
unfolding find_row count_rows
other_id p x u [] apart found = cc
other_id p x u (y ∷ us) apart found = ground (arith, other_id p x u us)

-- A live row that is found by another column is found by its id.
pub find_by_id-of_found :
    (p : User → Bool) (u : User) (us : List User)
    → HasUniqueIds us
    → find_row p us ≡ some u
    → is_live u.deleted_at ≡ true
    → find_row (live_user_is u.id) us ≡ some u
unfolding find_row
find_by_id-of_found p u [] keyed found live = cc
find_by_id-of_found p u (x ∷ us) (apart, keyed) found live =
    ground (arith, other_id p x u us apart, find_by_id-of_found p u us keyed, live)

pub find_email-live :
    (email : String) (u : User) (us : List User)
    → find_row (live_email_is email) us ≡ some u
    → is_live u.deleted_at ≡ true
unfolding find_row
find_email-live email u [] found = cc
find_email-live email u (x ∷ us) found = ground (arith, find_email-live email u us)

pub find_row-save_other :
    (i j : ℕ) (v : User) (us : List User)
    → v.id ≡ i
    → (i == j) ≡ false
    → find_row (live_user_is j) (update_rows (user_is i) (λ _. v) us) ≡ find_row (live_user_is j) us
unfolding find_row update_rows
find_row-save_other i j v [] same other = refl
find_row-save_other i j v (x ∷ us) same other =
    ground (arith, same, find_row-save_other i j v us same other)

-- A row that is saved with its e-mail is found under it.
pub find_email-save :
    (email : String) (u v : User) (us : List User)
    → str_eq v.email email ≡ true
    → is_live v.deleted_at ≡ true
    → find_row (live_email_is email) us ≡ some u
    → (u.id == v.id) ≡ true
    → find_row (live_email_is email) (update_rows (user_is v.id) (λ _. v) us) ≡ some v
unfolding find_row update_rows
find_email-save email u v [] named live found same = cc
find_email-save email u v (x ∷ us) named live found same =
    ground (arith, named, live, same, find_email-save email u v us named live)

pub find_email-eq :
    (email : String) (u : User) (us : List User)
    → find_row (live_email_is email) us ≡ some u
    → str_eq u.email email ≡ true
unfolding find_row
find_email-eq email u [] found = cc
find_email-eq email u (x ∷ us) found = ground (arith, find_email-eq email u us)
