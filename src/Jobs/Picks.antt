-- ===== src/Jobs/Picks.antt =====
-- What a queue keeps when the job at some place is taken out.
use bukia_hft.Base.{◌≡◌, refl, ℕ, zero, suc, ◌+◌, ⊤, List, [], ◌∷◌, ◌++◌, arith}
use bukia_hft.Jobs.{Job, take_at, attempts_left}

module _ {A : Type 0} where
  -- A sum over a list, and a predicate on all its members.
  unfoldable pub sum_of : (A → ℕ) → List A → ℕ
  sum_of f [] = 0
  sum_of f (x ∷ xs) = f x + sum_of f xs

  pub sum_of-append : (f : A → ℕ) (xs ys : List A) → sum_of f (xs ++ ys) ≡ sum_of f xs + sum_of f ys
  unfolding sum_of
  sum_of-append f [] ys = omega arith
  sum_of-append f (x ∷ xs) ys = omega (arith, sum_of-append f xs ys)

  pub sum_of-snoc : (f : A → ℕ) (xs : List A) (x : A) → sum_of f (xs ++ x ∷ []) ≡ sum_of f xs + f x
  unfolding sum_of
  sum_of-snoc f xs x = omega (arith, sum_of-append f xs (x ∷ []))

  abbrev pub All : (A → Type 0) → List A → Type 0
  All P [] = ⊤
  All P (x ∷ xs) = P x × All P xs

  pub All-append : (P : A → Type 0) (xs ys : List A) → All P xs → All P ys → All P (xs ++ ys)
  All-append P [] ys h k = k
  All-append P (x ∷ xs) ys (h, hs) k = (h, All-append P xs ys hs k)

module _ {A : Type 0} where
  pub sum_of-take_at :
      (f : Job A → ℕ) (i : ℕ) (j : Job A) (js : List (Job A))
      → f (take_at i j js).0 + sum_of f (take_at i j js).1 ≡ f j + sum_of f js
  unfolding take_at sum_of
  sum_of-take_at f zero j js = refl
  sum_of-take_at f (suc i) j [] = refl
  sum_of-take_at f (suc i) j (k ∷ ks) = omega (arith, sum_of-take_at f i k ks)

  pub All-take_at :
      (P : Job A → Type 0) (i : ℕ) (j : Job A) (js : List (Job A))
      → P j
      → All P js
      → P (take_at i j js).0 × All P (take_at i j js).1
  unfolding take_at
  All-take_at P zero j js h hs = (h, hs)
  All-take_at P (suc i) j [] h hs = (h, hs)
  All-take_at P (suc i) j (k ∷ ks) h (k_fine, hs) =
      let (x_fine, rest) = All-take_at P i k ks k_fine hs in (x_fine, (h, rest))

  abbrev pub cost : Job A → ℕ
  cost j = suc j.left

  pub attempts_left-sum : (js : List (Job A)) → attempts_left js ≡ sum_of cost js
  unfolding sum_of
  attempts_left-sum [] = refl
  attempts_left-sum (j ∷ js) = omega (arith, attempts_left-sum js)
