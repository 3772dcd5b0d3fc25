-- ===== src/Base/Rows.antt =====
-- A table as the list of its rows: WHERE, the count of the rows that an UPDATE affects, and the
-- lookup of one row.
use Prim.Native.Nat.{ℕ, zero, suc, ◌+◌, ◌≤◌}
use mathlib.Core.Path.{◌≡◌, refl}
use mathlib.Core.Bool.{Bool, true, false}
use mathlib.Core.Option.{Option, none, some}
use mathlib.Core.List.{List, [], ◌∷◌, ◌++◌}
use native.Mathlib.Omega.{arith}
use bukia_hft.Base.Tests.{if◌then◌else◌}

module _ {ℓ} {A : Type ℓ} where
  abbrev pub length : List A → ℕ
  length [] = 0
  length (x ∷ xs) = suc (length xs)

  abbrev pub take : ℕ → List A → List A
  take zero xs = []
  take (suc n) [] = []
  take (suc n) (x ∷ xs) = x ∷ take n xs

  abbrev pub drop : ℕ → List A → List A
  drop zero xs = xs
  drop (suc n) [] = []
  drop (suc n) (x ∷ xs) = drop n xs

  -- The first row that passes the test.
  unfoldable pub find_row : (A → Bool) → List A → Option A
  find_row p [] = none
  find_row p (x ∷ xs) = if p x then some x else find_row p xs

  -- The number of rows that pass it.
  unfoldable pub count_rows : (A → Bool) → List A → ℕ
  count_rows p [] = 0
  count_rows p (x ∷ xs) = let n = count_rows p xs in if p x then suc n else n

  -- The table after an UPDATE of the rows that pass it.
  unfoldable pub update_rows : (A → Bool) → (A → A) → List A → List A
  update_rows p f [] = []
  update_rows p f (x ∷ xs) = (if p x then f x else x) ∷ update_rows p f xs

  unfoldable pub filter_rows : (A → Bool) → List A → List A
  filter_rows p [] = []
  filter_rows p (x ∷ xs) = let rest = filter_rows p xs in if p x then x ∷ rest else rest

  -- No row passes exactly when the count is 0.
  pub find_row-of-count : (p : A → Bool) (xs : List A) → count_rows p xs ≡ 0 → find_row p xs ≡ none
  unfolding find_row count_rows
  find_row-of-count p [] h = refl
  find_row-of-count p (x ∷ xs) h = ground (arith, find_row-of-count p xs)

  pub update_rows-of-none :
      (p : A → Bool) (f : A → A) (xs : List A) → find_row p xs ≡ none → update_rows p f xs ≡ xs
  unfolding find_row update_rows
  update_rows-of-none p f [] h = refl
  update_rows-of-none p f (x ∷ xs) h = ground (arith, update_rows-of-none p f xs)

  pub find_row-append_none :
      (p : A → Bool) (xs ys : List A) → find_row p xs ≡ none → find_row p (xs ++ ys) ≡ find_row p ys
  unfolding find_row
  find_row-append_none p [] ys h = refl
  find_row-append_none p (x ∷ xs) ys h = ground (arith, find_row-append_none p xs ys)

  pub find_row-append_some :
      (p : A → Bool) (xs ys : List A) (x : A)
      → find_row p xs ≡ some x
      → find_row p (xs ++ ys) ≡ some x
  unfolding find_row
  find_row-append_some p [] ys x h = cc
  find_row-append_some p (y ∷ xs) ys x h = ground (arith, find_row-append_some p xs ys x)

  -- A row that is found passes the test.
  pub find_row_sound : (p : A → Bool) (xs : List A) (x : A) → find_row p xs ≡ some x → p x ≡ true
  unfolding find_row
  find_row_sound p [] x h = cc
  find_row_sound p (y ∷ xs) x h = ground (arith, find_row_sound p xs x)

  pub find_row-append_last :
      (p : A → Bool) (xs : List A) (x : A)
      → find_row p (xs ++ x ∷ []) ≡ none
      → (find_row p xs ≡ none) × (p x ≡ false)
  unfolding find_row
  find_row-append_last p [] x h = ground arith
  find_row-append_last p (y ∷ xs) x h = ground (arith, find_row-append_last p xs x)

  -- An UPDATE whose new rows fail its own test leaves none that passes.
  pub count-update_none :
      (p : A → Bool) (f : A → A) (xs : List A)
      → ((x : A) → p x ≡ true → p (f x) ≡ false)
      → count_rows p (update_rows p f xs) ≡ 0
  unfolding count_rows update_rows
  count-update_none p f [] h = refl
  count-update_none p f (x ∷ xs) h = ground (arith, h x, count-update_none p f xs h)

  pub count-append :
      (p : A → Bool) (xs ys : List A) → count_rows p (xs ++ ys) ≡ count_rows p xs + count_rows p ys
  unfolding count_rows
  count-append p [] ys = omega arith
  count-append p (x ∷ xs) ys = ground (arith, count-append p xs ys)

  -- Where no row passes a test, none passes a stronger one.
  pub count-of_none :
      (p q : A → Bool) (xs : List A)
      → ((x : A) → q x ≡ true → p x ≡ true)
      → find_row p xs ≡ none
      → count_rows q xs ≡ 0
  unfolding find_row count_rows
  count-of_none p q [] h e = refl
  count-of_none p q (x ∷ xs) h e = ground (arith, h x, count-of_none p q xs h)

  pub count-of_some :
      (p : A → Bool) (xs : List A) (x : A) → find_row p xs ≡ some x → 1 ≤ count_rows p xs
  unfolding find_row count_rows
  count-of_some p [] x h = cc
  count-of_some p (y ∷ xs) x h = ground (arith, count-of_some p xs x)

  pub count_one : (p : A → Bool) (x : A) → count_rows p (x ∷ []) ≤ 1
  unfolding count_rows
  count_one p x = ground arith

  pub count_one-false : (p : A → Bool) (x : A) → p x ≡ false → count_rows p (x ∷ []) ≡ 0
  unfolding count_rows
  count_one-false p x h = ground arith

  pub find_row_one : (p : A → Bool) (x : A) → p x ≡ true → find_row p (x ∷ []) ≡ some x
  unfolding find_row
  find_row_one p x h = ground arith
