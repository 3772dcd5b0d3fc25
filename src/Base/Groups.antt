-- ===== src/Base/Groups.antt =====
-- GROUP BY: the rows of a query as groups with a key, each with an aggregate of its rows. The groups stand
-- in no order that the database promises; here a row's group comes last if the rows after it have none.
use bukia_hft.Base.Tests.{if◌then◌else◌, Bool-cases}
use bukia_hft.Base.Int.{ℤ, pos, ◌+ℤ◌, int_laws}
use mathlib.Core.Logic.{inl, inr}
use mathlib.Core.Path.{◌≡◌, refl, ap, ◌∙◌}
use mathlib.Core.Bool.{Bool, true}
use mathlib.Core.List.{List, [], ◌∷◌}

module _ {R K A : Type 0} (same : K → K → Bool) (key : R → K) (start : R → A)
    (add : R → A → A) where
  -- One more row for its group.
  unfoldable pub add_row : R → List (K × A) → List (K × A)
  add_row r [] = (key r, start r) ∷ []
  add_row r ((k, a) ∷ gs) =
      let rest = add_row r gs in if same (key r) k then (k, add r a) ∷ gs else (k, a) ∷ rest

  unfoldable pub group_by : List R → List (K × A)
  unfolding add_row
  group_by [] = []
  group_by (r ∷ rs) = add_row r (group_by rs)

-- A sum over the groups or rows whose key passes a test.
module _ {A : Type 0} (test : A → Bool) (value : A → ℤ) where
  unfoldable pub sum_where : List A → ℤ
  sum_where [] = pos 0
  sum_where (x ∷ xs) = (if test x then value x else pos 0) +ℤ sum_where xs

module _ {R K A : Type 0} (same : K → K → Bool) (key : R → K) (start : R → A) (add : R → A → A)
    (test : K → Bool) (worth : R → ℤ) (measure : A → ℤ)
    (like : (j k : K) → same j k ≡ true → test j ≡ test k)
    (start_worth : (r : R) → measure (start r) ≡ worth r)
    (add_worth : (r : R) (a : A) → measure (add r a) ≡ worth r +ℤ measure a) where
  abbrev group_test : K × A → Bool
  group_test (k, a) = test k

  abbrev group_value : K × A → ℤ
  group_value (k, a) = measure a

  sum-add_row :
      (r : R) (gs : List (K × A))
      → sum_where group_test group_value (add_row same key start add r gs)
        ≡ (if test (key r) then worth r else pos 0) +ℤ sum_where group_test group_value gs
  unfolding add_row sum_where
  sum-add_row r [] = rw (start_worth r) refl
  sum-add_row r ((k, a) ∷ gs) = elim (Bool-cases (same (key r) k)) [
    | inr other ↦ rw (other, sum-add_row r gs) (omega int_laws)
    | inl joined ↦ elim (Bool-cases (test k)) [
      | inl passes ↦ rw (joined, like (key r) k joined, passes, add_worth r a) (omega int_laws)
      | inr fails ↦ rw (joined, like (key r) k joined, fails) (omega int_laws)
    ]
  ]

  -- Over the groups an aggregate adds up to what it adds up to over the rows.
  pub sum-group_by :
      (rs : List R)
      → sum_where group_test group_value (group_by same key start add rs)
        ≡ sum_where (λ r. test (key r)) worth rs
  unfolding group_by sum_where
  sum-group_by [] = refl
  sum-group_by (r ∷ rs) =
      sum-add_row r (group_by same key start add rs)
      ∙ ap (λ s. (if test (key r) then worth r else pos 0) +ℤ s) (sum-group_by rs)
