-- ===== src/Base/Dict.antt =====
-- A JavaScript Map: entries in the order of their insertion, a key at most once.
use Prim.Native.Nat.{ℕ, ◌+◌}
use mathlib.Core.Path.{◌≡◌, refl, sym, subst}
use mathlib.Core.Logic.{◌↔◌, inl, inr}
use mathlib.Core.Bool.{Bool, true}
use mathlib.Core.Option
use mathlib.Core.Option.{Option, none, some}
use mathlib.Core.List.{List, [], ◌∷◌}
use native.Mathlib.Omega.{arith}
use netkitty.Base.Tests.{if◌then◌else◌, Bool-cases, ◌==◌, ==_iff}
use netkitty.Base.Lists.{All}
use netkitty.Base.Text.{Text, text_eq, text_eq_iff}

pub record Eq {ℓ} (A : Type ℓ) : Type ℓ where
  pub beq : A → A → Bool
  pub beq_iff : (a b : A) → (beq a b ≡ true) ↔ (a ≡ b)

instance abbrev pub text_key : Eq Text
text_key = record { beq = text_eq; beq_iff = text_eq_iff }

instance abbrev pub number_key : Eq ℕ
number_key = record { beq = λ a b. a == b; beq_iff = ==_iff }

-- The number of a value, and 0 without one.
unfoldable pub weight_of : {V : Type 0} → (V → ℕ) → Option V → ℕ
weight_of total none = 0
weight_of total (some v) = total v

module _ {K V : Type 0} ⦃e : Eq K⦄ where
  -- `map.get(k)`
  unfoldable pub get : K → List (K × V) → Option V
  get k [] = none
  get k ((j, v) ∷ m) = if e.beq j k then some v else get k m

  -- The object of a key, made by `map.set(k, fresh)` where it is missing, is then changed by `f`.
  unfoldable pub alter : K → V → (V → V) → List (K × V) → List (K × V)
  alter k fresh f [] = (k, f fresh) ∷ []
  alter k fresh f ((j, v) ∷ m) = if e.beq j k then (j, f v) ∷ m else (j, v) ∷ alter k fresh f m

  -- `map.set(k, v)`
  unfoldable pub put : K → V → List (K × V) → List (K × V)
  unfolding alter
  put k v m = alter k v (λ old. v) m

  module _ (total : V → ℕ) where
    -- The sum of a number over the values.
    unfoldable pub sum : List (K × V) → ℕ
    sum [] = 0
    sum ((j, v) ∷ m) = total v + sum m

    -- A change that adds `n` to an object, made from nothing, adds `n` to the sum.
    pub sum-alter :
        (k : K) (fresh : V) (f : V → V) (n : ℕ) (m : List (K × V))
        → total fresh ≡ 0
        → ((v : V) → total (f v) ≡ total v + n)
        → sum (alter k fresh f m) ≡ sum m + n
    unfolding sum alter
    sum-alter k fresh f n [] h0 hf = omega (arith, hf fresh)
    sum-alter k fresh f n ((j, v) ∷ m) h0 hf = ground (arith, hf v, sum-alter k fresh f n m h0 hf)

  -- A change that establishes a predicate keeps it on all the values.
  pub All-alter :
      (P : K × V → Type 0) (k : K) (fresh : V) (f : V → V) (m : List (K × V))
      → P (k, f fresh)
      → ((v : V) → P (k, v) → P (k, f v))
      → All P m
      → All P (alter k fresh f m)
  unfolding alter
  All-alter P k fresh f [] h0 hf all = (h0, tt)
  All-alter P k fresh f ((j, v) ∷ m) h0 hf (h, all) = elim (Bool-cases (e.beq j k)) [
    | inl same ↦
        let key : j ≡ k = (e.beq_iff j k).0 same in
        rw same (subst (λ i. P (i, f v)) (sym key) (hf v (subst (λ i. P (i, v)) key h)), all)
    | inr other ↦ rw other (h, All-alter P k fresh f m h0 hf all)
  ]

  pub get-alter :
      (k k' : K) (fresh : V) (f : V → V) (m : List (K × V))
      → get k' (alter k fresh f m)
        ≡ (if e.beq k k' then some (f (Option.get_or (get k m) fresh)) else get k' m)
  unfolding get alter
  get-alter k k' fresh f [] = refl
  get-alter k k' fresh f ((j, v) ∷ m) =
      ground (arith, e.beq_iff j k, e.beq_iff j k', e.beq_iff k k', get-alter k k' fresh f m)

  pub get-put :
      (k k' : K) (v : V) (m : List (K × V))
      → get k' (put k v m) ≡ (if e.beq k k' then some v else get k' m)
  unfolding put
  get-put k k' v m = get-alter k k' v (λ old. v) m

  -- A value that is put in place of another changes the sum by what the two differ.
  pub sum-put :
      (total : V → ℕ) (k : K) (v : V) (m : List (K × V))
      → sum total (put k v m) + weight_of total (get k m) ≡ sum total m + total v
  unfolding sum put alter get weight_of
  sum-put total k v [] = omega arith
  sum-put total k v ((j, w) ∷ m) = ground (arith, sum-put total k v m)
