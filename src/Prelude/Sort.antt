-- ===== src/Prelude/Sort.antt =====
-- Stable insertion sort by a Boolean order: `sorted(xs, key=...)` and SQL's ORDER BY.
use Prim.Native.Nat.{ℕ, zero, suc, ◌+◌}
use mathlib.Core.Path.{◌≡◌, refl, ap, ◌∙◌}
use mathlib.Core.Bool.{Bool, true, false, ◌&&◌, ◌||◌}
use mathlib.Core.List.{List, [], ◌∷◌}
use native.Mathlib.Omega.{arith}
use fuko_pr.Prelude.Tests.{if◌then◌else◌}
use fuko_pr.Prelude.Lists.{any, take, length, countb, sum_by, All}

module _ {ℓ} {A : Type ℓ} (le : A → A → Bool) where
  -- Puts `x` before the first element that it does not exceed.
  unfoldable pub insert_sorted : A → List A → List A
  insert_sorted x [] = x ∷ []
  insert_sorted x (y ∷ ys) = if le x y then x ∷ y ∷ ys else y ∷ insert_sorted x ys

  unfoldable pub sort : List A → List A
  unfolding insert_sorted
  sort [] = []
  sort (x ∷ xs) = insert_sorted x (sort xs)

  countb-insert_sorted :
      (p : A → Bool) (x : A) (ys : List A)
      → countb p (insert_sorted x ys) ≡ (if p x then 1 else 0) + countb p ys
  unfolding insert_sorted
  countb-insert_sorted p x [] = refl
  countb-insert_sorted p x (y ∷ ys) = ground (arith, countb-insert_sorted p x ys)

  -- Sorting keeps the number of elements that pass a test, whatever the test.
  pub countb-sort : (p : A → Bool) (xs : List A) → countb p (sort xs) ≡ countb p xs
  unfolding sort
  countb-sort p [] = refl
  countb-sort p (x ∷ xs) = omega (arith, countb-insert_sorted p x (sort xs), countb-sort p xs)

  sum_by-insert_sorted :
      (f : A → ℕ) (x : A) (ys : List A) → sum_by f (insert_sorted x ys) ≡ f x + sum_by f ys
  unfolding insert_sorted
  sum_by-insert_sorted f x [] = refl
  sum_by-insert_sorted f x (y ∷ ys) = ground (arith, sum_by-insert_sorted f x ys)

  pub sum_by-sort : (f : A → ℕ) (xs : List A) → sum_by f (sort xs) ≡ sum_by f xs
  unfolding sort
  sum_by-sort f [] = refl
  sum_by-sort f (x ∷ xs) = omega (arith, sum_by-insert_sorted f x (sort xs), sum_by-sort f xs)

  any-insert_sorted :
      (p : A → Bool) (x : A) (ys : List A) → any p (insert_sorted x ys) ≡ (p x || any p ys)
  unfolding insert_sorted
  any-insert_sorted p x [] = refl
  any-insert_sorted p x (y ∷ ys) = ground (arith, any-insert_sorted p x ys)

  pub any-sort : (p : A → Bool) (xs : List A) → any p (sort xs) ≡ any p xs
  unfolding sort
  any-sort p [] = refl
  any-sort p (x ∷ xs) = any-insert_sorted p x (sort xs) ∙ ap (λ b. p x || b) (any-sort p xs)

  length-insert_sorted : (x : A) (ys : List A) → length (insert_sorted x ys) ≡ suc (length ys)
  unfolding insert_sorted
  length-insert_sorted x [] = refl
  length-insert_sorted x (y ∷ ys) = ground (arith, length-insert_sorted x ys)

  pub length-sort : (xs : List A) → length (sort xs) ≡ length xs
  unfolding sort
  length-sort [] = refl
  length-sort (x ∷ xs) = omega (arith, length-insert_sorted x (sort xs), length-sort xs)

  pub All-insert_sorted {κ} :
      (P : A → Type κ) (x : A) (ys : List A) → P x → All P ys → All P (insert_sorted x ys)
  unfolding insert_sorted
  All-insert_sorted P x [] h k = (h, tt)
  All-insert_sorted P x (y ∷ ys) h k = branch (le x y) (All-insert_sorted P x ys h k.1)
    where
      branch :
          (b : Bool)
          → All P (insert_sorted x ys)
          → All P (if b then x ∷ y ∷ ys else y ∷ insert_sorted x ys)
      branch true rest = (h, k)
      branch false rest = (k.0, rest)

  pub All-sort {κ} : (P : A → Type κ) (xs : List A) → All P xs → All P (sort xs)
  unfolding sort
  All-sort P [] h = tt
  All-sort P (x ∷ xs) h = All-insert_sorted P x (sort xs) h.0 (All-sort P xs h.1)

  -- Each element is in order with all that follow it.
  abbrev pub is_sorted : List A → Bool
  is_sorted [] = true
  is_sorted (x ∷ []) = true
  is_sorted (x ∷ y ∷ ys) = le x y && is_sorted (y ∷ ys)

  pub is_sorted-take : (n : ℕ) (xs : List A) → is_sorted xs ≡ true → is_sorted (take n xs) ≡ true
  is_sorted-take zero xs h = refl
  is_sorted-take (suc n) [] h = refl
  is_sorted-take (suc zero) (x ∷ xs) h = refl
  is_sorted-take (suc (suc n)) (x ∷ []) h = refl
  is_sorted-take (suc (suc n)) (x ∷ y ∷ ys) h = ground (arith, is_sorted-take (suc n) (y ∷ ys))

  module _ (total : (x y : A) → (le x y || le y x) ≡ true) where
    is_sorted-insert_sorted :
        (x : A) (ys : List A) → is_sorted ys ≡ true → is_sorted (insert_sorted x ys) ≡ true
    unfolding insert_sorted
    is_sorted-insert_sorted x [] h = refl
    is_sorted-insert_sorted x (y ∷ []) h = ground (arith, total x y)
    is_sorted-insert_sorted x (y ∷ z ∷ ys) h =
        ground (arith, total x y, is_sorted-insert_sorted x (z ∷ ys))

    pub is_sorted-sort : (xs : List A) → is_sorted (sort xs) ≡ true
    unfolding sort
    is_sorted-sort [] = refl
    is_sorted-sort (x ∷ xs) = is_sorted-insert_sorted x (sort xs) (is_sorted-sort xs)
