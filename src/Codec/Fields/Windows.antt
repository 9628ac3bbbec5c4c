-- ===== src/Codec/Fields/Windows.antt =====
-- What a part of the packet of BaseHeader.ts shows after writes to it and beside it.
use netkitty.Base.{ℕ, ◌+◌, ◌-◌, ◌≡◌, ◌≤◌, ◌⊎◌, zero, suc, inl, inr, arith, refl, sym, ap, ◌∙◌}
use netkitty.Base.{List, [], ◌∷◌, ◌++◌, length, take, drop, replicate, All, append_assoc}
use netkitty.Base.{length-append, length-take, length-drop, length-replicate}
use netkitty.Base.{take-append, drop-append, take_of, drop_of, drop-add}
use netkitty.Codec.Header.Padding.{write_over, over, length-write_over}

module _ {A : Type 0} where
  take-take : (n o : ℕ) (xs : List A) → n ≤ o → take n (take o xs) ≡ take n xs
  take-take zero o xs h = refl
  take-take (suc n) zero xs h = absurd (omega arith)
  take-take (suc n) (suc o) [] h = refl
  take-take (suc n) (suc o) (x ∷ xs) h = ap (λ t. x ∷ t) (take-take n o xs (omega arith))

  take-drop-take :
      (n s o : ℕ) (xs : List A) → s + n ≤ o → take n (drop s (take o xs)) ≡ take n (drop s xs)
  take-drop-take n zero o xs h = take-take n o xs (omega arith)
  take-drop-take n (suc s) zero xs h = absurd (omega arith)
  take-drop-take n (suc s) (suc o) [] h = refl
  take-drop-take n (suc s) (suc o) (x ∷ xs) h = take-drop-take n s o xs (omega arith)

-- The part before a write.
length_front : (o : ℕ) (v : List ℕ) → length (take o (v ++ replicate (o - length v) 0)) ≡ o
length_front o v = omega (
  arith,
  length-take {0} o (v ++ replicate (o - length v) 0),
  length-append {0} v (replicate (o - length v) 0),
  length-replicate {0} {A = ℕ} (o - length v) 0,
)

pub window-written :
    (o n : ℕ) (bytes v : List ℕ) → length bytes ≡ n → take n (drop o (write_over o bytes v)) ≡ bytes
window-written o n bytes v h =
    ap (take n) (drop_of o (take o (v ++ replicate (o - length v) 0)) _ (length_front o v))
    ∙ take_of n bytes (drop (o + length bytes) v) h

-- Whether a part and a write have no byte in common.
abbrev pub Apart : ℕ → ℕ → ℕ → ℕ → Type 0
Apart s n o l = (s + n ≤ o) ⊎ (o + l ≤ s)

pub window-beside :
    (s n o : ℕ) (bytes v : List ℕ)
    → s + n ≤ length v
    → Apart s n o (length bytes)
    → take n (drop s (write_over o bytes v)) ≡ take n (drop s v)
window-beside s n o bytes v h (inl before) =
    let p = v ++ replicate (o - length v) 0 in
    ap (take n) (
      drop-append s (take o p) (bytes ++ drop (o + length bytes) v)
        (omega (arith, length_front o v)))
    ∙ take-append n (drop s (take o p)) (bytes ++ drop (o + length bytes) v)
        (omega (arith, length_front o v, length-drop {0} s (take o p)))
    ∙ take-drop-take n s o p before
    ∙ ap (take n) (drop-append s v (replicate (o - length v) 0) (omega arith))
    ∙ take-append n (drop s v) (replicate (o - length v) 0) (omega (arith, length-drop {0} s v))
window-beside s n o bytes v h (inr behind) =
    let front = take o (v ++ replicate (o - length v) 0) in
    let end = o + length bytes in
    let there : end + (s - end) ≡ s = omega arith in
    ap (λ k. take n (drop k (write_over o bytes v))) (sym there)
    ∙ ap (take n) (
        drop-add end (s - end) (write_over o bytes v)
        ∙ ap (drop (s - end)) (
            ap (drop end) (sym (append_assoc front bytes (drop end v)))
            ∙ drop_of end (front ++ bytes) (drop end v)
                (omega (arith, length_front o v, length-append {0} front bytes)))
        ∙ sym (drop-add end (s - end) v))
    ∙ ap (λ k. take n (drop k v)) there

-- Writes that are all beside a part leave it.
pub window-over :
    (start s n : ℕ) (ws : List (ℕ × List ℕ)) (v : List ℕ)
    → s + n ≤ length v
    → All (λ w. Apart s n (start + w.0) (length w.1)) ws
    → take n (drop s (over start ws v)) ≡ take n (drop s v)
window-over start s n [] v h all = refl
window-over start s n ((o, bytes) ∷ ws) v h (apart, all) =
    window-over start s n ws (write_over (start + o) bytes v)
      (omega (arith, length-write_over (start + o) bytes v)) all
    ∙ window-beside s n (start + o) bytes v h apart
