-- ===== src/Codec/Header/Padding.antt =====
-- The buffer of BaseHeader.ts as the bytes it holds with zeros behind them: a write into it against
-- a write into what it holds.
use netkitty.Base.{ℕ, ◌+◌, ◌-◌, ◌*◌, ◌≡◌, ◌≤◌, zero, suc, ltb, leb, if◌then◌else◌, min, max}
use netkitty.Base.{Bool-cases, inl, inr, Option, none, some, arith, sym, ap, refl, ◌∙◌}
use netkitty.Base.{List, [], ◌∷◌, ◌++◌, length, take, drop, replicate, append_assoc, append-nil}
use netkitty.Base.{length-append, length-take, length-drop, length-replicate, take_of}
use netkitty.Base.{take-append, take_past}
use netkitty.Codec.Header.{grown, fill, trimmed}

-- A write into a sequence: zeros in a gap before it, the bytes, and what was behind them.
abbrev pub write_over : ℕ → List ℕ → List ℕ → List ℕ
write_over o bytes v =
    take o (v ++ replicate (o - length v) 0) ++ (bytes ++ drop (o + length bytes) v)

-- The writes of a header that starts at `start`, into a sequence.
abbrev pub over : ℕ → List (ℕ × List ℕ) → List ℕ → List ℕ
over start [] v = v
over start ((o, bytes) ∷ ws) v = over start ws (write_over (start + o) bytes v)

-- How far writes reach behind the start of the header.
abbrev pub reach : List (ℕ × List ℕ) → ℕ → ℕ
reach [] n = n
reach ((o, bytes) ∷ ws) n = reach ws (max n (o + length bytes))

take_zeros : (o k m : ℕ) → o ≤ k → o ≤ m → take o (replicate k 0) ≡ take o (replicate {A = ℕ} m 0)
take_zeros zero k m h h' = refl
take_zeros (suc o) zero m h h' = absurd (omega arith)
take_zeros (suc o) (suc k) zero h h' = absurd (omega arith)
take_zeros (suc o) (suc k) (suc m) h h' =
    ap (λ t. 0 ∷ t) (take_zeros o k m (omega arith) (omega arith))

take_padded :
    (o k m : ℕ) (v : List ℕ)
    → o ≤ length v + k
    → o ≤ length v + m
    → take o (v ++ replicate k 0) ≡ take o (v ++ replicate m 0)
take_padded o k m [] h h' = take_zeros o k m (omega arith) (omega arith)
take_padded zero k m (x ∷ v) h h' = refl
take_padded (suc o) k m (x ∷ v) h h' =
    ap (λ t. x ∷ t) (take_padded o k m v (omega arith) (omega arith))

pub zeros_eq : (i j : ℕ) → i ≡ j → replicate {A = ℕ} i 0 ≡ replicate j 0
zeros_eq i j h = ap (λ n. replicate n 0) h

pub zeros_split : (m k : ℕ) → replicate {A = ℕ} (m + k) 0 ≡ replicate m 0 ++ replicate k 0
zeros_split zero k = zeros_eq (0 + k) k (omega arith)
zeros_split (suc m) k =
    zeros_eq (suc m + k) (suc (m + k)) (omega arith) ∙ ap (λ t. 0 ∷ t) (zeros_split m k)

drop_zeros : (n k : ℕ) → drop n (replicate {A = ℕ} k 0) ≡ replicate (k - n) 0
drop_zeros zero k = zeros_eq _ _ (omega arith)
drop_zeros (suc n) zero = zeros_eq 0 (0 - suc n) (omega arith)
drop_zeros (suc n) (suc k) = drop_zeros n k ∙ zeros_eq (k - n) (suc k - suc n) (omega arith)

drop_padded :
    (n k : ℕ) (v : List ℕ)
    → drop n (v ++ replicate k 0) ≡ drop n v ++ replicate (k - (n - length v)) 0
drop_padded zero k v = ap (λ t. v ++ t) (zeros_eq k (k - (0 - length v)) (omega arith))
drop_padded (suc n) k [] =
    drop_zeros (suc n) k ∙ zeros_eq (k - suc n) (k - (suc n - 0)) (omega arith)
drop_padded (suc n) k (x ∷ v) =
    drop_padded n k v
    ∙ ap (λ t. drop n v ++ t)
        (zeros_eq (k - (n - length v)) (k - (suc n - suc (length v))) (omega arith))

-- A write into the padded buffer is the padded write.
pub fill_padded :
    (o k : ℕ) (bytes v : List ℕ)
    → o + length bytes ≤ length v + k
    → fill o bytes (v ++ replicate k 0)
      ≡ write_over o bytes v ++ replicate (k - (o + length bytes - length v)) 0
unfolding fill
fill_padded o k bytes v h = rw (
  take_padded o k (o - length v) v (omega arith) (omega arith),
  drop_padded (o + length bytes) k v,
  append_assoc,
  append_assoc,
)

-- How much headroom an expansion to `end` leaves behind `n` bytes.
abbrev pub headroom : ℕ → ℕ → ℕ → ℕ
headroom end n k = if ltb (n + k) end then max end ((n + k) * 2) - n else k

pub length-write_over :
    (o : ℕ) (bytes v : List ℕ) → length (write_over o bytes v) ≡ max (o + length bytes) (length v)
length-write_over o bytes v = omega (
  arith,
  length-append {0} (take o (v ++ replicate (o - length v) 0)) (bytes ++ drop (o + length bytes) v),
  length-append {0} bytes (drop (o + length bytes) v),
  length-drop {0} (o + length bytes) v,
  length-take {0} o (v ++ replicate (o - length v) 0),
  length-append {0} v (replicate (o - length v) 0),
  length-replicate {0} {A = ℕ} (o - length v) 0,
)

pub length-padded : (v : List ℕ) (k : ℕ) → length (v ++ replicate k 0) ≡ length v + k
length-padded v k =
    omega (arith, length-append {0} v (replicate k 0), length-replicate {0} {A = ℕ} k 0)

pub length-fill :
    (o : ℕ) (bytes b : List ℕ) → o + length bytes ≤ length b → length (fill o bytes b) ≡ length b
unfolding fill
length-fill o bytes b h = omega (
  arith,
  length-append {0} (take o b) (bytes ++ drop (o + length bytes) b),
  length-append {0} bytes (drop (o + length bytes) b),
  length-drop {0} (o + length bytes) b,
  length-take {0} o b,
)

pub grown_padded :
    (end k : ℕ) (v : List ℕ)
    → grown end (length v) (v ++ replicate k 0) ≡ v ++ replicate (headroom end (length v) k) 0
unfolding grown
grown_padded end k v = rw (length-padded v k) (elim (Bool-cases (ltb (length v + k) end)) [
  | inl more ↦ rw (more, take_of (length v) v (replicate k 0) refl) refl
  | inr fits ↦ rw (fits) refl
])

nil_headroom : (k : ℕ) (v : List ℕ) → k ≡ 0 → v ++ replicate k 0 ≡ v
nil_headroom k v h = ap (λ t. v ++ t) (zeros_eq k 0 h) ∙ append-nil v

pub trimmed_padded :
    (k : ℕ) (v : List ℕ) (o : Option ℕ)
    → (o ≡ none → k ≡ 0)
    → ((n : ℕ) → o ≡ some n → n ≡ length v)
    → trimmed o (v ++ replicate k 0) ≡ v
unfolding trimmed
trimmed_padded k v none h g = nil_headroom k v (h refl)
trimmed_padded k v (some n) h g = elim (Bool-cases (ltb n (length (v ++ replicate k 0)))) [
  | inl more ↦ rw more (take_of n v (replicate k 0) (sym (g n refl)))
  | inr fits ↦ rw fits (nil_headroom k v (ground (arith, g n, length-padded v k)))
]

take_min : (n : ℕ) (xs : List ℕ) → take (min n (length xs)) xs ≡ take n xs
take_min n xs = elim (Bool-cases (leb n (length xs))) [
  | inl within ↦ ap (λ i. take i xs) (ground (arith))
  | inr past ↦
      take_past (min n (length xs)) xs (ground (arith)) ∙ sym (take_past n xs (ground (arith)))
]

pub take_seen :
    (s m n k : ℕ) (v : List ℕ)
    → m ≡ min n (length v - s)
    → take m (drop s (v ++ replicate k 0)) ≡ take n (drop s v)
take_seen s m n k v e =
    ap (take m) (drop_padded s k v)
    ∙ take-append m (drop s v) (replicate (k - (s - length v)) 0)
        (omega (arith, length-drop {0} s v))
    ∙ ap (λ i. take i (drop s v)) {x = m} {y = min n (length (drop s v))}
        (omega (arith, length-drop {0} s v))
    ∙ take_min n (drop s v)
