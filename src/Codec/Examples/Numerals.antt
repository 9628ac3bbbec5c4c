-- ===== src/Codec/Examples/Numerals.antt =====
-- `Number` of a text that is a decimal numeral, and lower case, for concrete runs of the engine.
use netkitty.Base.{
  ℕ, ◌+◌, ◌-◌, ◌*◌, ◌/◌, ◌%◌, ◌<◌, ◌≡◌, zero, suc, leb, ltb, if◌then◌else◌, ◌&&◌, arith, ap, ◌∙◌,
  refl, Bool, Bool-cases, if_true, if_false, ltb→lt, sym, inl, inr, true, false, Option, none, some,
  [], ◌∷◌,
}
use netkitty.Base.Text.{Text, decimal, digits_loop}
use netkitty.Codec.Engine.{digits_from}
use netkitty.Codec.Engine.Graph.Consistent.{IsNumeral}

abbrev pub whole_of : (Bool × ℕ) × Text → Option ℕ
whole_of ((true, n), []) = some n
whole_of ((true, n), c ∷ s) = none
whole_of ((false, n), s) = none

unfoldable pub whole : Text → Option ℕ
unfolding digits_from
whole s = whole_of (digits_from false 0 s)

lower_code : ℕ → ℕ
lower_code c = if leb b'A' c && leb c b'Z' then c + 32 else c

unfoldable pub lower : Text → Text
unfolding lower_code
lower [] = []
lower (c ∷ s) = lower_code c ∷ lower s

digit-step :
    (any : Bool) (n k : ℕ) (acc : Text)
    → k < 10
    → digits_from any n ((48 + k) ∷ acc) ≡ digits_from true (n * 10 + k) acc
unfolding digits_from
digit-step any n k acc h =
    if_true {b = leb 48 (48 + k) && leb (48 + k) 57} _ _ (ground (arith))
    ∙ ap (λ m. digits_from true (n * 10 + m) acc) (omega arith)

digits_from-digits_loop :
    (fuel n : ℕ) (any : Bool) (acc : Text)
    → n < fuel
    → digits_from any 0 (digits_loop fuel n acc) ≡ digits_from true n acc
unfolding digits_loop
digits_from-digits_loop zero n any acc h = absurd (omega arith)
digits_from-digits_loop (suc fuel) n any acc h = elim (Bool-cases (ltb n 10)) [
  | inl last ↦
      rw last
        (digit-step any 0 n acc (ltb→lt n 10 last) ∙ ap (λ m. digits_from true m acc) (omega arith))
  | inr more ↦ rw more (
      digits_from-digits_loop fuel (n / 10) any ((48 + n % 10) ∷ acc) (ground (arith))
      ∙ digit-step true (n / 10) (n % 10) acc (omega arith)
      ∙ ap (λ m. digits_from true m acc) (omega arith))
]

whole_of_more : (any : Bool) (n c : ℕ) (s : Text) → whole_of ((any, n), c ∷ s) ≡ none
whole_of_more true n c s = refl
whole_of_more false n c s = refl

lower_code_digit : (c : ℕ) → leb 48 c && leb c 57 ≡ true → lower_code c ≡ c
unfolding lower_code
lower_code_digit c h = ground (arith)

lower_code_other :
    (c : ℕ) → leb 48 c && leb c 57 ≡ false → leb 48 (lower_code c) && leb (lower_code c) 57 ≡ false
unfolding lower_code
lower_code_other c h = ground (arith)

whole_of-lower :
    (any : Bool) (n : ℕ) (s : Text)
    → whole_of (digits_from any n (lower s)) ≡ whole_of (digits_from any n s)
unfolding lower digits_from
whole_of-lower true n [] = refl
whole_of-lower false n [] = refl
whole_of-lower any n (c ∷ s) = elim (Bool-cases (leb 48 c && leb c 57)) [
  | inl digit ↦
      ap
        (λ x. whole_of (
          if leb 48 x && leb x 57
          then digits_from true (n * 10 + (x - 48)) (lower s)
          else ((any, n), x ∷ lower s)))
        (lower_code_digit c digit)
      ∙ ap whole_of (if_true _ _ digit)
      ∙ whole_of-lower true (n * 10 + (c - 48)) s
      ∙ ap whole_of (sym (if_true _ _ digit))
  | inr other ↦
      ap whole_of (if_false _ _ (lower_code_other c other))
      ∙ whole_of_more any n _ _
      ∙ sym (whole_of_more any n c s)
      ∙ ap whole_of (sym (if_false _ _ other))
]

pub numeral : IsNumeral whole lower
unfolding whole decimal
numeral = record {
  decimals = λ n small. ap whole_of (digits_from-digits_loop (suc n) n false [] (omega arith));
  truth = refl;
  falsity = refl;
  lowered = λ s. whole_of-lower false 0 s;
}
