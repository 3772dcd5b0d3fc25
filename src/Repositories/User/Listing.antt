-- ===== src/Repositories/User/Listing.antt =====
-- `listUsers` of repositories/user.repository.ts.
use bukia_hft.Base.{
  ◌≡◌, ◌≢◌, refl, ℕ, zero, suc, ◌≤◌, String, Bool, true, Option, some, List, [], ◌∷◌, arith, length,
  take, count_rows, filter_rows,
}
use Prim.Native.String.{◌++◌}
use bukia_hft.Db.{Db, User}
use bukia_hft.Db.Keys.{not_blank}
use bukia_hft.Repositories.User.{live_with, user_matches, UserListQuery, list_users}

length-take : {A : Type 0} (n : ℕ) (xs : List A) → length (take n xs) ≤ n
length-take zero xs = omega arith
length-take (suc n) [] = omega arith
length-take (suc n) (x ∷ xs) = omega (arith, length-take n xs)

count-filter :
    (p q : User → Bool) (us : List User)
    → ((u : User) → q u ≡ true → p u ≡ true)
    → count_rows q us ≤ length (filter_rows p us)
unfolding count_rows filter_rows
count-filter p q [] stronger = omega arith
count-filter p q (u ∷ us) stronger = ground (arith, stronger u, count-filter p q us stronger)

module _ (ilike : String → String → Bool) (trim : String → String) where
  -- A match of the e-mail passes the filter, whatever the role is.
  email_matches :
      (search : String) (role : Option String) (u : User)
      → trim search ≢ ""
      → ilike u.email ("%" ++ search ++ "%") ≡ true
      → user_matches ilike trim (some search) role u ≡ true
  unfolding user_matches
  email_matches search role u given found =
      rw (user_matches, not_blank (trim search) given, found) refl

  -- Let a search be given. A page has no more users than its size, and the total is no less than the
  -- number of live users whose e-mail matches the search, whichever role the query asks for: the
  -- role restricts those alone who are found by their last name.
  list_users_bounds :
      (page page_size : ℕ) (search : String) (role : Option String) (db : Db)
      → trim search ≢ ""
      → let query : UserListQuery = record {
        page = page;
        page_size = page_size;
        role = role;
        search = some search;
      } in
        let found = list_users ilike trim query db in
        (length found.items ≤ page_size)
        × (count_rows (live_with (λ u. ilike u.email ("%" ++ search ++ "%"))) db.users
            ≤ found.total)
  unfolding list_users
  list_users_bounds page page_size search role db given = (
    length-take page_size _,
    count-filter (live_with (user_matches ilike trim (some search) role))
        (live_with (λ u. ilike u.email ("%" ++ search ++ "%"))) db.users
        (λ u h. ground (arith, h, email_matches search role u given)),
  )
