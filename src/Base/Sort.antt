-- ===== src/Base/Sort.antt =====
-- `Array.prototype.sort` with a comparison of numbers: it is stable, so that elements of one rank
-- keep their order.
use Prim.Native.Nat.{ℕ, ◌≤◌}
use mathlib.Core.Path.{◌≡◌, refl, ◌∙◌}
use mathlib.Core.Logic.{inl, inr}
use mathlib.Core.Bool.{Bool, false}
use mathlib.Core.List.{List, [], ◌∷◌}
use native.Mathlib.Omega.{arith}
use netkitty.Base.Tests.{if◌then◌else◌, Bool-cases, ltb, ◌==◌}
use netkitty.Base.Lists.{All}

module _ {ℓ} {A : Type ℓ} where
  -- `x` stood before the elements of the list: it stays before those that are not to come first.
  unfoldable pub insert : (A → A → Bool) → A → List A → List A
  insert first x [] = x ∷ []
  insert first x (y ∷ ys) = if first y x then y ∷ insert first x ys else x ∷ (y ∷ ys)

  -- `first y x` says that `y` has to come before `x`.
  unfoldable pub sort : (A → A → Bool) → List A → List A
  unfolding insert
  sort first [] = []
  sort first (x ∷ xs) = insert first x (sort first xs)

  -- The elements that pass a test, in their order.
  unfoldable pub keep : (A → Bool) → List A → List A
  keep p [] = []
  keep p (x ∷ xs) = let rest = keep p xs in if p x then x ∷ rest else rest

  -- No element has to come before one that stands before it.
  abbrev pub IsSorted : (A → A → Bool) → List A → Type ℓ
  IsSorted first [] = Unit {ℓ}
  IsSorted first (x ∷ xs) = All (λ y. first y x ≡ false) xs × IsSorted first xs

module _ {ℓ} {A : Type ℓ} (rank : A → ℕ) where
  abbrev pub lower : A → A → Bool
  lower a b = ltb (rank a) (rank b)

  keep-insert :
      (n : ℕ) (x : A) (ys : List A)
      → keep (λ y. rank y == n) (insert lower x ys) ≡ keep (λ y. rank y == n) (x ∷ ys)
  unfolding insert keep
  keep-insert n x [] = refl
  keep-insert n x (y ∷ ys) = ground (arith, keep-insert n x ys)

  -- Those of one rank keep their order.
  pub keep-sort :
      (n : ℕ) (xs : List A) → keep (λ y. rank y == n) (sort lower xs) ≡ keep (λ y. rank y == n) xs
  unfolding sort keep
  keep-sort n [] = refl
  keep-sort n (x ∷ xs) = keep-insert n x (sort lower xs) ∙ ground (arith, keep-sort n xs)

  All-insert :
      (n : ℕ) (x : A) (ys : List A)
      → n ≤ rank x
      → All (λ y. ltb (rank y) n ≡ false) ys
      → All (λ y. ltb (rank y) n ≡ false) (insert lower x ys)
  unfolding insert
  All-insert n x [] h all = (ground (arith), tt)
  All-insert n x (y ∷ ys) h (p, all) = elim (Bool-cases (ltb (rank y) (rank x))) [
    | inl before ↦ rw before (p, All-insert n x ys h all)
    | inr after ↦ rw after (ground (arith), (p, all))
  ]

  raise :
      (m n : ℕ) (ys : List A)
      → m ≤ n
      → All (λ y. ltb (rank y) n ≡ false) ys
      → All (λ y. ltb (rank y) m ≡ false) ys
  raise m n [] h all = tt
  raise m n (y ∷ ys) h (p, all) = (ground (arith), raise m n ys h all)

  insert-IsSorted : (x : A) (ys : List A) → IsSorted lower ys → IsSorted lower (insert lower x ys)
  unfolding insert
  insert-IsSorted x [] h = (tt, tt)
  insert-IsSorted x (y ∷ ys) (p, h) = elim (Bool-cases (ltb (rank y) (rank x))) [
    | inl before ↦ rw before (All-insert (rank y) x ys (ground (arith)) p, insert-IsSorted x ys h)
    | inr after ↦ rw after ((after, raise (rank x) (rank y) ys (ground (arith)) p), (p, h))
  ]

  pub sort-IsSorted : (xs : List A) → IsSorted lower (sort lower xs)
  unfolding sort
  sort-IsSorted [] = tt
  sort-IsSorted (x ∷ xs) = insert-IsSorted x (sort lower xs) (sort-IsSorted xs)
