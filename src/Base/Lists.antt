-- ===== src/Base/Lists.antt =====
-- Lists measured and indexed by native numbers, under the library's names.
use Prim.Native.Nat.{ℕ, zero, suc, ◌+◌, ◌-◌, ◌≤◌, ◌<◌, min}
use mathlib.Core.Path.{◌≡◌, refl, sym, ap, ◌∙◌}
use mathlib.Core.List.{List, [], ◌∷◌, ◌++◌, append-nil, append_assoc}
use mathlib.Core.Option.{Option, none, some}
use native.Mathlib.Omega.{arith}

module _ {ℓ} {A : Type ℓ} where
  abbrev pub length : List A → ℕ
  length [] = 0
  length (x ∷ xs) = suc (length xs)

  abbrev pub get_elem? : List A → ℕ → Option A
  get_elem? [] i = none
  get_elem? (x ∷ xs) zero = some x
  get_elem? (x ∷ xs) (suc i) = get_elem? xs i

  abbrev pub get_or : List A → ℕ → A → A
  get_or [] i d = d
  get_or (x ∷ xs) zero d = x
  get_or (x ∷ xs) (suc i) d = get_or xs i d

  -- A write out of bounds changes nothing.
  abbrev pub set : List A → ℕ → A → List A
  set [] i v = []
  set (x ∷ xs) zero v = v ∷ xs
  set (x ∷ xs) (suc i) v = x ∷ set xs i v

  abbrev pub take : ℕ → List A → List A
  take zero xs = []
  take (suc n) [] = []
  take (suc n) (x ∷ xs) = x ∷ take n xs

  abbrev pub drop : ℕ → List A → List A
  drop zero xs = xs
  drop (suc n) [] = []
  drop (suc n) (x ∷ xs) = drop n xs

  abbrev pub replicate : ℕ → A → List A
  replicate zero a = []
  replicate (suc n) a = a ∷ replicate n a

  abbrev pub All {κ} : (A → Type κ) → List A → Type κ
  All P [] = Unit {κ}
  All P (x ∷ xs) = P x × All P xs

  -- f 0, f 1, …, f (n - 1)
  abbrev pub tabulate : ℕ → (ℕ → A) → List A
  tabulate zero f = []
  tabulate (suc n) f = f 0 ∷ tabulate n (λ i. f (suc i))

  abbrev pub flatten : List (List A) → List A
  flatten [] = []
  flatten (xs ∷ xss) = xs ++ flatten xss

suc_add : (n i : ℕ) → suc n + i ≡ suc (n + i)
suc_add n i = omega arith

module _ {ℓ} {A : Type ℓ} where
  pub length-append : (xs ys : List A) → length (xs ++ ys) ≡ length xs + length ys
  length-append [] ys = omega arith
  length-append (x ∷ xs) ys = omega (arith, length-append xs ys)

  pub length-drop : (n : ℕ) (xs : List A) → length (drop n xs) ≡ length xs - n
  length-drop zero xs = omega arith
  length-drop (suc n) [] = omega arith
  length-drop (suc n) (x ∷ xs) = omega (arith, length-drop n xs)

  pub length-take : (n : ℕ) (xs : List A) → length (take n xs) ≡ min n (length xs)
  length-take zero xs = omega arith
  length-take (suc n) [] = omega arith
  length-take (suc n) (x ∷ xs) = omega (arith, length-take n xs)

  pub length-replicate : (n : ℕ) (a : A) → length (replicate n a) ≡ n
  length-replicate zero a = refl
  length-replicate (suc n) a = ap suc (length-replicate n a)

  pub drop-append : (n : ℕ) (xs ys : List A) → n ≤ length xs → drop n (xs ++ ys) ≡ drop n xs ++ ys
  drop-append zero xs ys h = refl
  drop-append (suc n) [] ys h = absurd (omega arith)
  drop-append (suc n) (x ∷ xs) ys h = drop-append n xs ys (omega arith)

  pub take-append : (n : ℕ) (xs ys : List A) → n ≤ length xs → take n (xs ++ ys) ≡ take n xs
  take-append zero xs ys h = refl
  take-append (suc n) [] ys h = absurd (omega arith)
  take-append (suc n) (x ∷ xs) ys h = ap (λ t. x ∷ t) (take-append n xs ys (omega arith))

  -- The front of a list that is put together is the first part, and the rest the second.
  pub take_front : (xs ys : List A) → take (length xs) (xs ++ ys) ≡ xs
  take_front [] ys = refl
  take_front (x ∷ xs) ys = ap (λ t. x ∷ t) (take_front xs ys)

  pub drop_front : (xs ys : List A) → drop (length xs) (xs ++ ys) ≡ ys
  drop_front [] ys = refl
  drop_front (x ∷ xs) ys = drop_front xs ys

  -- A read that succeeds reads the same with more behind the list.
  pub get_elem?-append :
      (xs ys : List A) (i : ℕ) {v : A} → get_elem? xs i ≡ some v → get_elem? (xs ++ ys) i ≡ some v
  get_elem?-append [] ys i h = cc
  get_elem?-append (x ∷ xs) ys zero h = h
  get_elem?-append (x ∷ xs) ys (suc i) h = get_elem?-append xs ys i h

  pub get_elem?-drop : (n i : ℕ) (xs : List A) → get_elem? xs (n + i) ≡ get_elem? (drop n xs) i
  get_elem?-drop zero i xs = ap (get_elem? xs) (omega arith)
  get_elem?-drop (suc n) i [] = refl
  get_elem?-drop (suc n) i (x ∷ xs) = ap (get_elem? (x ∷ xs)) (suc_add n i) ∙ get_elem?-drop n i xs

  pub get_or-set_self :
      (xs : List A) (i : ℕ) (v d : A) → i < length xs → get_or (set xs i v) i d ≡ v
  get_or-set_self [] i v d h = absurd (omega arith)
  get_or-set_self (x ∷ xs) zero v d h = refl
  get_or-set_self (x ∷ xs) (suc i) v d h = get_or-set_self xs i v d (omega arith)

  pub get_or-set_lt :
      (xs : List A) (i j : ℕ) (v d : A) → i < j → get_or (set xs j v) i d ≡ get_or xs i d
  get_or-set_lt [] i j v d h = refl
  get_or-set_lt (x ∷ xs) i zero v d h = absurd (omega arith)
  get_or-set_lt (x ∷ xs) zero (suc j) v d h = refl
  get_or-set_lt (x ∷ xs) (suc i) (suc j) v d h = get_or-set_lt xs i j v d (omega arith)

  pub length-set : (xs : List A) (i : ℕ) (v : A) → length (set xs i v) ≡ length xs
  length-set [] i v = refl
  length-set (x ∷ xs) zero v = refl
  length-set (x ∷ xs) (suc i) v = ap suc (length-set xs i v)

  pub get_or-append :
      (xs ys : List A) (i : ℕ) (d : A) → i < length xs → get_or (xs ++ ys) i d ≡ get_or xs i d
  get_or-append [] ys i d h = absurd (omega arith)
  get_or-append (x ∷ xs) ys zero d h = refl
  get_or-append (x ∷ xs) ys (suc i) d h = get_or-append xs ys i d (omega arith)

  pub get_or-take : (n i : ℕ) (xs : List A) (d : A) → i < n → get_or (take n xs) i d ≡ get_or xs i d
  get_or-take zero i xs d h = absurd (omega arith)
  get_or-take (suc n) i [] d h = refl
  get_or-take (suc n) zero (x ∷ xs) d h = refl
  get_or-take (suc n) (suc i) (x ∷ xs) d h = get_or-take n i xs d (omega arith)

  pub get_or-drop : (n i : ℕ) (xs : List A) (d : A) → get_or (drop n xs) i d ≡ get_or xs (n + i) d
  get_or-drop zero i xs d = ap (λ k. get_or xs k d) (omega arith)
  get_or-drop (suc n) i [] d = refl
  get_or-drop (suc n) i (x ∷ xs) d =
      get_or-drop n i xs d ∙ ap (λ k. get_or (x ∷ xs) k d) (sym (suc_add n i))

  pub length-tabulate : (n : ℕ) (f : ℕ → A) → length (tabulate n f) ≡ n
  length-tabulate zero f = refl
  length-tabulate (suc n) f = ap suc (length-tabulate n (λ i. f (suc i)))

  pub tabulate_last : (n : ℕ) (f : ℕ → A) → tabulate (suc n) f ≡ tabulate n f ++ (f n ∷ [])
  tabulate_last zero f = refl
  tabulate_last (suc n) f = ap (λ t. f 0 ∷ t) (tabulate_last n (λ i. f (suc i)))

  pub tabulate_eq :
      (n : ℕ) (f g : ℕ → A) → ((i : ℕ) → i < n → f i ≡ g i) → tabulate n f ≡ tabulate n g
  tabulate_eq zero f g h = refl
  tabulate_eq (suc n) f g h = rw (
    h 0 (omega arith),
    tabulate_eq n (λ i. f (suc i)) (λ i. g (suc i)) (λ i k. h (suc i) (omega arith)),
  )

  pub drop-tabulate :
      (k n : ℕ) (f : ℕ → A) → k ≤ n → drop k (tabulate n f) ≡ tabulate (n - k) (λ i. f (k + i))
  drop-tabulate zero n f h =
      let same : n - 0 ≡ n = omega arith in
      rw same (tabulate_eq n f (λ i. f (0 + i)) (λ i k. ap f (omega arith)))
  drop-tabulate (suc k) zero f h = absurd (omega arith)
  drop-tabulate (suc k) (suc n) f h =
      let same : suc n - suc k ≡ n - k = omega arith in
      rw same (
        drop-tabulate k n (λ i. f (suc i)) (omega arith)
        ∙ tabulate_eq (n - k) (λ i. f (suc (k + i))) (λ i. f (suc k + i))
            (λ i h. ap f (sym (suc_add k i))))

  pub get_elem?-tabulate : (n i : ℕ) (f : ℕ → A) → i < n → get_elem? (tabulate n f) i ≡ some (f i)
  get_elem?-tabulate zero i f h = absurd (omega arith)
  get_elem?-tabulate (suc n) zero f h = refl
  get_elem?-tabulate (suc n) (suc i) f h = get_elem?-tabulate n i (λ j. f (suc j)) (omega arith)

  pub get_elem?-none : (xs : List A) (i : ℕ) → length xs ≤ i → get_elem? xs i ≡ none
  get_elem?-none [] i h = refl
  get_elem?-none (x ∷ xs) zero h = absurd (omega arith)
  get_elem?-none (x ∷ xs) (suc i) h = get_elem?-none xs i (omega arith)

  -- The same, where the length of the first part is known.
  pub take_of : (n : ℕ) (xs ys : List A) → length xs ≡ n → take n (xs ++ ys) ≡ xs
  take_of n xs ys h = ap (λ m. take m (xs ++ ys)) (sym h) ∙ take_front xs ys

  pub drop_of : (n : ℕ) (xs ys : List A) → length xs ≡ n → drop n (xs ++ ys) ≡ ys
  drop_of n xs ys h = ap (λ m. drop m (xs ++ ys)) (sym h) ∙ drop_front xs ys

  pub take_past : (n : ℕ) (xs : List A) → length xs ≤ n → take n xs ≡ xs
  take_past zero [] h = refl
  take_past zero (x ∷ xs) h = absurd (omega arith)
  take_past (suc n) [] h = refl
  take_past (suc n) (x ∷ xs) h = ap (λ t. x ∷ t) (take_past n xs (omega arith))

  pub take-drop : (n : ℕ) (xs : List A) → take n xs ++ drop n xs ≡ xs
  take-drop zero xs = refl
  take-drop (suc n) [] = refl
  take-drop (suc n) (x ∷ xs) = ap (λ t. x ∷ t) (take-drop n xs)

  drop_none : (n : ℕ) → drop {A = A} n [] ≡ []
  drop_none zero = refl
  drop_none (suc n) = refl

  pub drop-add : (m n : ℕ) (xs : List A) → drop (m + n) xs ≡ drop n (drop m xs)
  drop-add zero n xs = ap (λ k. drop k xs) (omega arith)
  drop-add (suc m) n [] = ap (λ k. drop k []) (suc_add m n) ∙ sym (drop_none n)
  drop-add (suc m) n (x ∷ xs) = ap (λ k. drop k (x ∷ xs)) (suc_add m n) ∙ drop-add m n xs

-- `for (const x of xs) t = step(x, t)`
unfoldable pub each {ℓ κ} : {X : Type ℓ} {T : Type κ} → (X → T → T) → List X → T → T
each step [] t = t
each step (x ∷ xs) t = each step xs (step x t)

-- The outputs of all elements, one behind another.
abbrev pub gather {ℓ κ} : {X : Type ℓ} {A : Type κ} → (X → List A) → List X → List A
gather out [] = []
gather out (x ∷ xs) = out x ++ gather out xs

-- A list that every step makes longer by its output has all outputs behind it in the end.
pub each-appends {ℓ κ} :
    {X : Type ℓ} {T : Type κ} {A : Type κ} (view : T → List A) (step : X → T → T) (out : X → List A)
    → ((x : X) (t : T) → view (step x t) ≡ view t ++ out x)
    → (xs : List X) (t : T) → view (each step xs t) ≡ view t ++ gather out xs
unfolding each
each-appends view step out h [] t = sym (append-nil (view t))
each-appends view step out h (x ∷ xs) t =
    each-appends view step out h xs (step x t)
    ∙ ap (λ v. v ++ gather out xs) (h x t)
    ∙ append_assoc (view t) (out x) (gather out xs)

pub each-keeps {ℓ κ μ} :
    {X : Type ℓ} {T : Type κ} {V : Type μ} (view : T → V) (step : X → T → T)
    → ((x : X) (t : T) → view (step x t) ≡ view t)
    → (xs : List X) (t : T) → view (each step xs t) ≡ view t
unfolding each
each-keeps view step h [] t = refl
each-keeps view step h (x ∷ xs) t = each-keeps view step h xs (step x t) ∙ h x t
