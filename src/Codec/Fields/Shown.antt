-- ===== src/Codec/Fields/Shown.antt =====
-- What an integer field of BaseHeader.ts reads from its octets, written again.
use netkitty.Base.{
  ℕ, ◌≡◌, ◌≤◌, ◌==◌, if◌then◌else◌, Bool-cases, inl, inr, if_true, if_false, true, false,
}
use netkitty.Base.{arith, refl, ap, ◌∙◌, some, List, [], ◌∷◌, length}
use netkitty.Base.Int.{ℤ, pos}
use netkitty.Base.Dict.{text_key}
use netkitty.Codec.Bits.{number_from, octets, wrap}
use netkitty.Codec.Bits.Octets.{IsBytes}
use netkitty.Codec.Fields.{
  FieldKind, u_int, int8, buffer_to_int8, buffer_to_uint, maximum, number_to_buffer, read, width,
}
use netkitty.Codec.Fields.Values.{clamped}

-- A value in range whose octets are `bs`.
pub record IsShown (kind : FieldKind) (bs : List ℕ) (z : ℤ) : Type 0 where
  pub kept : clamped kind (some z) ≡ z
  pub back : number_to_buffer (width kind) z ≡ bs

cons2 : {a b a' b' : ℕ} → a ≡ a' → b ≡ b' → a ∷ b ∷ [] ≡ a' ∷ b' ∷ []
cons2 p q = rw (p, q) refl

cons4 :
    {a b c d a' b' c' d' : ℕ}
    → a ≡ a'
    → b ≡ b'
    → c ≡ c'
    → d ≡ d'
    → a ∷ b ∷ c ∷ d ∷ [] ≡ a' ∷ b' ∷ c' ∷ d' ∷ []
cons4 p q r s = rw (p, q, r, s) refl

one_octet :
    (bs : List ℕ)
    → length bs ≡ 1
    → IsBytes bs
    → (buffer_to_uint 1 bs ≤ 255) × (number_to_buffer 1 (pos (buffer_to_uint 1 bs)) ≡ bs)
unfolding buffer_to_uint number_to_buffer number_from octets wrap
one_octet [] e h = absurd (omega arith)
one_octet (a ∷ b ∷ bs) e h = absurd (omega arith)
one_octet (a ∷ []) e (ha, h) = (omega arith, ap (λ t. t ∷ []) (omega arith))

two_octets :
    (bs : List ℕ)
    → length bs ≡ 2
    → IsBytes bs
    → (buffer_to_uint 2 bs ≤ 65535) × (number_to_buffer 2 (pos (buffer_to_uint 2 bs)) ≡ bs)
unfolding buffer_to_uint number_to_buffer number_from octets wrap
two_octets [] e h = absurd (omega arith)
two_octets (a ∷ []) e h = absurd (omega arith)
two_octets (a ∷ b ∷ c ∷ bs) e h = absurd (omega arith)
two_octets (a ∷ b ∷ []) e (ha, (hb, h)) = (omega arith, cons2 (omega arith) (omega arith))

four_octets :
    (bs : List ℕ)
    → length bs ≡ 4
    → IsBytes bs
    → (buffer_to_uint 4 bs ≤ 4294967295) × (number_to_buffer 4 (pos (buffer_to_uint 4 bs)) ≡ bs)
unfolding buffer_to_uint number_to_buffer number_from octets wrap
four_octets [] e h = absurd (omega arith)
four_octets (a ∷ []) e h = absurd (omega arith)
four_octets (a ∷ b ∷ []) e h = absurd (omega arith)
four_octets (a ∷ b ∷ c ∷ []) e h = absurd (omega arith)
four_octets (a ∷ b ∷ c ∷ d ∷ x ∷ bs) e h = absurd (omega arith)
four_octets (a ∷ b ∷ c ∷ d ∷ []) e (ha, (hb, (hc, (hd, h)))) =
    (omega arith, cons4 (omega arith) (omega arith) (omega arith) (omega arith))

IsShown-int8 : (bs : List ℕ) → length bs ≡ 1 → IsBytes bs → IsShown int8 bs (buffer_to_int8 bs)
unfolding buffer_to_int8 number_to_buffer octets wrap width maximum
IsShown-int8 [] e h = absurd (omega arith)
IsShown-int8 (a ∷ b ∷ bs) e h = absurd (omega arith)
IsShown-int8 (a ∷ []) e (ha, h) = record { kept = ground arith; back = ground arith }

IsShown-uint :
    (n w m : ℕ) (bs : List ℕ)
    → width (u_int n) ≡ w
    → maximum (u_int n) ≡ m
    → (buffer_to_uint w bs ≤ m) × (number_to_buffer w (pos (buffer_to_uint w bs)) ≡ bs)
    → IsShown (u_int n) bs (read (u_int n) bs)
unfolding read
IsShown-uint n w m bs hw hm (small, same) = record {
  kept = ap pos (omega (arith, ap (λ x. buffer_to_uint x bs) hw, hm, small));
  back = ap (λ x. number_to_buffer x (pos (buffer_to_uint x bs))) hw ∙ same;
}

pick_two :
    (n x y z : ℕ)
    → (n == 1) ≡ false
    → (n == 2) ≡ true
    → (if n == 1 then x else (if n == 2 then y else z)) ≡ y
pick_two n x y z more two = if_false _ _ more ∙ if_true _ _ two

pick_four :
    (n x y z : ℕ)
    → (n == 1) ≡ false
    → (n == 2) ≡ false
    → (if n == 1 then x else (if n == 2 then y else z)) ≡ z
pick_four n x y z more four = if_false _ _ more ∙ if_false _ _ four

-- What a field reads is in range, and is written as the octets that it was read from.
pub read-IsShown :
    (kind : FieldKind) (bs : List ℕ)
    → length bs ≡ width kind
    → IsBytes bs
    → IsShown kind bs (read kind bs)
unfolding read width maximum
read-IsShown int8 bs e h = IsShown-int8 bs e h
read-IsShown (u_int n) bs e h = elim (Bool-cases (n == 1)) [
  | inl one ↦
      IsShown-uint n 1 255 bs (if_true _ _ one) (if_true _ _ one)
        (one_octet bs (e ∙ if_true _ _ one) h)
  | inr more ↦ elim (Bool-cases (n == 2)) [
    | inl two ↦
        IsShown-uint n 2 65535 bs (pick_two n _ _ _ more two) (pick_two n _ _ _ more two)
          (two_octets bs (e ∙ pick_two n _ _ _ more two) h)
    | inr four ↦
        IsShown-uint n 4 4294967295 bs (pick_four n _ _ _ more four) (pick_four n _ _ _ more four)
          (four_octets bs (e ∙ pick_four n _ _ _ more four) h)
  ]
]
