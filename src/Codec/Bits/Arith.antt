-- ===== src/Codec/Bits/Arith.antt =====
-- The arithmetic of bit fields: a number cut into the part above a field, the field, and the part
-- below it.
use native.Mathlib.Nat.{
  mul-le-mul_right, mul-add-div_right, mul-add-mod_self_right, mod-eq_of_lt, div-eq_of_lt, pow-zero,
  pow-suc, one-le-pow, mul_assoc,
}
use netkitty.Base.{ℕ, ◌+◌, ◌*◌, ◌/◌, ◌%◌, ◌^◌, ◌≡◌, ◌≤◌, ◌<◌, zero, suc, arith, ap, sym, ◌∙◌}
use netkitty.Base.{List, [], ◌∷◌, length, All}
use netkitty.Codec.Bits.{number_from, octets}

pub pow_pos : (n : ℕ) → 0 < 2 ^ n
pow_pos n = one-le-pow n 2 (omega arith)

pub pow-add : (b m n : ℕ) → b ^ (m + n) ≡ b ^ m * b ^ n
pow-add b m zero = grind (arith, pow-zero b, ap (λ k. b ^ k) {x = m + 0} {y = m} (omega arith))
pow-add b m (suc n) =
    ap (λ k. b ^ k) {x = m + suc n} {y = suc (m + n)} (omega arith)
    ∙ pow-suc b (m + n)
    ∙ ap (λ t. t * b) (pow-add b m n)
    ∙ mul_assoc (b ^ m) (b ^ n) b
    ∙ ap (λ t. b ^ m * t) (sym (pow-suc b n))

suc_mul : (f d : ℕ) → (f + 1) * d ≡ f * d + d
suc_mul f d = grind arith

-- Quotient and remainder of a number put together from a part above, a field and a part below.
module _ (q f r m d : ℕ) (hf : f < m) (hr : r < d) where
  part_inside : f * d + r < m * d
  part_inside =
      let scaled : (f + 1) * d ≤ m * d = mul-le-mul_right d (omega arith) in
      omega (arith, suc_mul f d)

  pub part_field : (q * (m * d) + f * d + r) / d % m ≡ f
  part_field =
      ap (λ t. t / d % m) {y = (q * m + f) * d + r} (grind arith)
      ∙ ap (λ t. t % m) (mul-add-div_right {m = d} (omega arith) (q * m + f) r)
      ∙ ap (λ t. (q * m + f + t) % m) (div-eq_of_lt hr)
      ∙ ap (λ t. t % m) {y = q * m + f} (omega arith)
      ∙ mul-add-mod_self_right q m f
      ∙ mod-eq_of_lt hf

  pub part_above : (q * (m * d) + f * d + r) / (m * d) ≡ q
  part_above =
      ap (λ t. t / (m * d)) {y = q * (m * d) + (f * d + r)} (omega arith)
      ∙ mul-add-div_right {m = m * d} (omega (arith, part_inside)) q (f * d + r)
      ∙ ap (λ t. q + t) (div-eq_of_lt part_inside)
      ∙ omega arith

  pub part_bound : (a : ℕ) → q < a → q * (m * d) + f * d + r < a * (m * d)
  part_bound a h =
      let scaled : (q + 1) * (m * d) ≤ a * (m * d) = mul-le-mul_right (m * d) (omega arith) in
      omega (arith, part_inside, suc_mul q (m * d))

-- A field below a multiple of its block does not see what is above.
pub part_below : (x r e l s : ℕ) → 0 < s → (x * (e * (l * s)) + r) / s % l ≡ r / s % l
part_below x r e l s hs =
    ap (λ t. t / s % l) {y = x * e * l * s + r} (grind arith)
    ∙ ap (λ t. t % l) (mul-add-div_right hs (x * e * l) r)
    ∙ mul-add-mod_self_right (x * e) l (r / s)

pub length-octets : (n w : ℕ) (out : List ℕ) → length (octets n w out) ≡ n + length out
unfolding octets
length-octets zero w out = omega arith
length-octets (suc n) w out = omega (arith, length-octets n (w / 256) ((w % 256) ∷ out))

pub number_from-octets :
    (n w acc : ℕ) (out : List ℕ)
    → w < 256 ^ n
    → number_from acc (octets n w out) ≡ number_from (acc * 256 ^ n + w) out
unfolding number_from octets
number_from-octets zero w acc out h = ap (λ a. number_from a out) {x = acc} (grind arith)
number_from-octets (suc n) w acc out h =
    number_from-octets n (w / 256) acc ((w % 256) ∷ out) (omega (arith, h, pow-suc 256 n))
    ∙ ap (λ a. number_from a out) (omega (arith, ap (λ t. acc * t) (pow-suc 256 n)))

pub number_from_bound :
    (acc : ℕ) (bs : List ℕ)
    → All (λ b. b < 256) bs
    → number_from acc bs < (acc + 1) * 256 ^ length bs
unfolding number_from
number_from_bound acc [] h = omega arith
number_from_bound acc (b ∷ bs) h =
    let scaled : (acc * 256 + b + 1) * 256 ^ length bs ≤ (acc + 1) * 256 * 256 ^ length bs =
      mul-le-mul_right (256 ^ length bs) (omega (arith, h.0)) in
    omega (
      arith,
      number_from_bound (acc * 256 + b) bs h.1,
      pow-suc 256 (length bs),
      ap (λ t. (acc + 1) * t) (pow-suc 256 (length bs)),
    )
