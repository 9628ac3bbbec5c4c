-- ===== src/Codec/Fields/Values.antt =====
-- The numbers of the integer fields of BaseHeader.ts: what the writer leaves in the octets of a
-- field, and what the reader makes of it.
use native.Mathlib.Nat.{mod-eq_of_lt, add-mod_right}
use netkitty.Base.{ℕ, ◌^◌, ◌%◌, ◌≡◌, ◌≤◌, ◌<◌, ◌==◌, min}
use netkitty.Base.{arith, refl, sym, ap, ◌∙◌, Bool-cases, le→leb, inl, inr, Option, none, some}
use netkitty.Base.{[], length, take_past}
use netkitty.Base.Int.{ℤ, pos, negsuc}
use netkitty.Codec.Bits.{number_from, octets, wrap}
use netkitty.Codec.Bits.Arith.{length-octets, number_from-octets}
use netkitty.Codec.Fields.{
  FieldKind, u_int, int8, width, maximum, buffer_to_uint, buffer_to_int8, read, number_to_buffer,
}

-- The value that a field is given: 0 for a missing one, else the nearest that it can hold.
abbrev pub clamped : FieldKind → Option ℤ → ℤ
clamped kind none = pos 0
clamped kind (some (pos n)) = pos (min n (maximum kind))
clamped (u_int w) (some (negsuc n)) = pos 0
clamped int8 (some (negsuc n)) = negsuc (min n 127)

pub length-number_to_buffer : (n : ℕ) (z : ℤ) → length (number_to_buffer n z) ≡ n
unfolding number_to_buffer
length-number_to_buffer n z = length-octets n (wrap z (256 ^ n)) [] ∙ omega arith

max_lt : (n : ℕ) → maximum (u_int n) < 256 ^ width (u_int n)
unfolding maximum width
max_lt n = elim (Bool-cases (n == 1)) [
  | inl one ↦ rw one (omega arith)
  | inr more ↦ rw more (elim (Bool-cases (n == 2)) [
    | inl two ↦ rw two (omega arith)
    | inr four ↦ rw four (omega arith)
  ])
]

clamped_uint :
    (n : ℕ) (z : Option ℤ) → (x : ℕ) × (clamped (u_int n) z ≡ pos x) × (x ≤ maximum (u_int n))
clamped_uint n none = (0, refl, omega arith)
clamped_uint n (some (pos x)) = (min x (maximum (u_int n)), refl, omega arith)
clamped_uint n (some (negsuc x)) = (0, refl, omega arith)

read_uint : (n x : ℕ) → x < 256 ^ n → buffer_to_uint n (number_to_buffer n (pos x)) ≡ x
unfolding buffer_to_uint number_to_buffer wrap number_from
read_uint n x h =
    let out = octets n (wrap (pos x) (256 ^ n)) [] in
    let small : wrap (pos x) (256 ^ n) ≡ x =
      add-mod_right (x % 256 ^ n) (256 ^ n)
      ∙ ap (λ t. t % 256 ^ n) (mod-eq_of_lt h)
      ∙ mod-eq_of_lt h in
    rw (le→leb n (length out) (omega (arith, length-octets n (wrap (pos x) (256 ^ n)) []))) (
      ap (number_from 0)
        (take_past n out (omega (arith, length-octets n (wrap (pos x) (256 ^ n)) [])))
      ∙ number_from-octets n (wrap (pos x) (256 ^ n)) 0 [] (omega (arith, small))
      ∙ omega (arith, small))

read_int8 : (z : Option ℤ) → buffer_to_int8 (number_to_buffer 1 (clamped int8 z)) ≡ clamped int8 z
unfolding buffer_to_int8 number_to_buffer wrap octets maximum
read_int8 none = refl
read_int8 (some (pos x)) = ground arith
read_int8 (some (negsuc x)) = ground arith

-- A field reads the value that it has been given.
pub read-number_to_buffer :
    (kind : FieldKind) (z : Option ℤ)
    → read kind (number_to_buffer (width kind) (clamped kind z)) ≡ clamped kind z
unfolding read
read-number_to_buffer (u_int n) z =
    let (x, e, h) = clamped_uint n z in
    ap (λ c. pos (buffer_to_uint (width (u_int n)) (number_to_buffer (width (u_int n)) c))) e
    ∙ ap pos (read_uint (width (u_int n)) x (omega (arith, max_lt n)))
    ∙ sym e
read-number_to_buffer int8 z = read_int8 z
