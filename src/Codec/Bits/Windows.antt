-- ===== src/Codec/Bits/Windows.antt =====
-- What `writeBits` puts into a packet, `readBits` finds there: the field that was written, and
-- every field of the window beside it as it was.
use native.Mathlib.Nat.{
  div-div-eq-div-mul, div-lt_iff_lt-mul, div-add-mod', mod-lt, mul_assoc, mul_comm,
}
use mathlib.Core.Path.{subst}
use netkitty.Base.{ℕ, ◌+◌, ◌-◌, ◌*◌, ◌/◌, ◌%◌, ◌^◌, ◌≡◌, ◌<◌}
use netkitty.Base.{arith, ap, sym, ◌∙◌, refl, le→leb}
use netkitty.Base.Int.{ℤ, pos, negsuc}
use netkitty.Codec.Bits.{wrap, overlay}
use netkitty.Codec.Bits.Arith.{pow_pos, pow-add, part_field, part_above, part_bound, part_below}

pub wrap-lt : (z : ℤ) (m : ℕ) → 0 < m → wrap z m < m
unfolding wrap
wrap-lt (pos n) m h = mod-lt _ h
wrap-lt (negsuc n) m h = mod-lt _ h

pow_parts : (a n b : ℕ) → 2 ^ (a + n + b) ≡ 2 ^ a * (2 ^ n * 2 ^ b)
pow_parts a n b =
    pow-add 2 (a + n) b ∙ ap (λ t. t * 2 ^ b) (pow-add 2 a n) ∙ mul_assoc (2 ^ a) (2 ^ n) (2 ^ b)

block_pos : (n b : ℕ) → 0 < 2 ^ n * 2 ^ b
block_pos n b = subst (λ t. 0 < t) (pow-add 2 n b) (pow_pos (n + b))

regroup : (q m d f r : ℕ) → q * (m * d) + f * d + r ≡ (q * m + f) * d + r
regroup q m d f r = grind arith

-- A window of `bits` bits with `above` bits before a field of `n` bits and `below` bits behind it.
module _ (above n below : ℕ) (field current : ℕ) (hf : field < 2 ^ n)
    (hc : current < 2 ^ (above + n + below)) where
  overlay_parts :
      overlay (above + n + below) above n field current
      ≡ current / (2 ^ n * 2 ^ below) * (2 ^ n * 2 ^ below)
        + field * 2 ^ below
        + current % 2 ^ below
  unfolding overlay
  overlay_parts =
      let e : above + n + below - (above + n) ≡ below = omega arith in
      rw (le→leb (above + n) (above + n + below) (omega arith), e) refl

  pub overlay_field : overlay (above + n + below) above n field current / 2 ^ below % 2 ^ n ≡ field
  overlay_field =
      ap (λ t. t / 2 ^ below % 2 ^ n) overlay_parts
      ∙ part_field _ field _ (2 ^ n) (2 ^ below) hf (mod-lt current (pow_pos below))

  pub overlay_bound : overlay (above + n + below) above n field current < 2 ^ (above + n + below)
  overlay_bound =
      let inside : current / (2 ^ n * 2 ^ below) < 2 ^ above =
        (div-lt_iff_lt-mul (block_pos n below)).1
          (subst (λ t. current < t) (pow_parts above n below) hc) in
      subst (λ t. t < 2 ^ (above + n + below)) (sym overlay_parts)
        (subst
          (λ t.
            current / (2 ^ n * 2 ^ below) * (2 ^ n * 2 ^ below)
              + field * 2 ^ below
              + current % 2 ^ below
            < t)
          (sym (pow_parts above n below))
          (part_bound _ field _ (2 ^ n) (2 ^ below) hf (mod-lt current (pow_pos below)) (2 ^ above)
            inside))

  -- A field of `l` bits above the written one, `gap` bits away.
  pub overlay_above :
      (gap l : ℕ)
      → overlay (above + n + below) above n field current / 2 ^ (gap + n + below) % 2 ^ l
        ≡ current / 2 ^ (gap + n + below) % 2 ^ l
  overlay_above gap l =
      let split : (x : ℕ) → x / 2 ^ (gap + n + below) ≡ x / (2 ^ n * 2 ^ below) / 2 ^ gap = λ x.
        ap (λ t. x / t) (pow_parts gap n below ∙ mul_comm (2 ^ gap) (2 ^ n * 2 ^ below))
        ∙ sym (div-div-eq-div-mul x (2 ^ n * 2 ^ below) (2 ^ gap)) in
      ap (λ t. t % 2 ^ l)
        (split _
          ∙ ap (λ t. t / 2 ^ gap)
              (ap (λ t. t / (2 ^ n * 2 ^ below)) overlay_parts
                ∙ part_above _ field _ (2 ^ n) (2 ^ below) hf (mod-lt current (pow_pos below)))
          ∙ sym (split current))

  -- A field of `l` bits below the written one.
  pub overlay_below :
      (gap l s : ℕ)
      → below ≡ gap + (l + s)
      → overlay (above + n + below) above n field current / 2 ^ s % 2 ^ l ≡ current / 2 ^ s % 2 ^ l
  overlay_below gap l s e =
      let low : (x : ℕ)
          → (x * 2 ^ below + current % 2 ^ below) / 2 ^ s % 2 ^ l
            ≡ current % 2 ^ below / 2 ^ s % 2 ^ l =
        λ x.
          ap (λ t. (x * t + current % 2 ^ below) / 2 ^ s % 2 ^ l)
            (ap (λ k. 2 ^ k) e ∙ pow-add 2 gap (l + s) ∙ ap (λ t. 2 ^ gap * t) (pow-add 2 l s))
          ∙ part_below x (current % 2 ^ below) (2 ^ gap) (2 ^ l) (2 ^ s) (pow_pos s) in
      ap (λ t. t / 2 ^ s % 2 ^ l)
        (overlay_parts ∙ regroup (current / (2 ^ n * 2 ^ below)) (2 ^ n) (2 ^ below) field _)
      ∙ low _
      ∙ sym (low (current / 2 ^ below))
      ∙ ap (λ t. t / 2 ^ s % 2 ^ l) (div-add-mod' current (2 ^ below))
