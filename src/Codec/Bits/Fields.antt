-- ===== src/Codec/Bits/Fields.antt =====
-- Bit fields of a header in the packet: `writeBits` followed by `readBits`, of the same field and
-- of the fields beside it in the window.
use mathlib.Core.Path.{subst}
use netkitty.Base.{ℕ, ◌+◌, ◌-◌, ◌*◌, ◌/◌, ◌%◌, ◌^◌, ◌≡◌, ◌≤◌, ◌<◌, ltb, if◌then◌else◌}
use netkitty.Base.{arith, ap, sym, ◌∙◌, true, false, inl, inr, ◌⊎◌, le→ltb-false, lt→ltb, if_false}
use netkitty.Base.{List, [], length, take, drop}
use netkitty.Base.Int.{ℤ}
use native.Mathlib.Nat.{pow-le-pow_right}
use netkitty.Base.{Bool-cases, leb, refl}
use netkitty.Codec.Header.{CodecData, Header, read_raw, read_bytes, write_bytes}
use netkitty.Codec.Header.Writes.{
  Holds, write_bytes-Holds, read_bytes-Holds, write_bytes-start_pos, read_raw-Holds,
  read_raw-start_pos,
}
use netkitty.Codec.Header.Padding.{write_over}
use netkitty.Codec.Bits.{
  number_from, octets, wrap, overlay, as_number, to_double, field_at, with_field, read_bits,
  write_bits,
}
use netkitty.Codec.Bits.Arith.{length-octets, number_from-octets, pow_pos}
use netkitty.Codec.Bits.Windows.{
  wrap-lt, overlay_field, overlay_bound, overlay_above, overlay_below,
}
use netkitty.Codec.Bits.Octets.{
  IsBytes, pow_octets, window_back, padded, unpadded, window, length-window, window_bound,
  number_from_nil,
}

-- A field of at most 53 bits is not rounded.
as_number_small : (size n x : ℕ) → n ≤ 53 → x < 2 ^ n → as_number size n x ≡ x
unfolding as_number to_double
as_number_small size n x h lt =
    let wide : x < 2 ^ 53 =
      omega (arith, lt, pow-le-pow_right {n = 2} (omega arith) {i = n} {j = 53} h) in
    rw (lt→ltb x (2 ^ 53) wide)
      (elim (Bool-cases (leb size 4)) [ inl narrow ↦ rw narrow refl | inr more ↦ rw more refl ])

-- A field in a window of `size` octets, whose bytes are `w`.
module _ (size above n : ℕ) (value : ℤ) (w : List ℕ) (measured : length w ≡ size)
    (inside : above + n ≤ size * 8) (bound : number_from 0 w < 2 ^ (size * 8)) where
  field_lt : wrap value (2 ^ n) < 2 ^ n
  field_lt = wrap-lt value (2 ^ n) (pow_pos n)

  parts : size * 8 ≡ above + n + (size * 8 - (above + n))
  parts = omega arith

  bound' : number_from 0 w < 2 ^ (above + n + (size * 8 - (above + n)))
  bound' = subst (λ b. number_from 0 w < 2 ^ b) parts bound

  new : ℕ
  new = overlay (size * 8) above n (wrap value (2 ^ n)) (number_from 0 w)

  new_bound : new < 256 ^ size
  unfolding new
  new_bound =
      subst (λ t. new < t) (sym (pow_octets size))
        (subst (λ b. overlay b above n (wrap value (2 ^ n)) (number_from 0 w) < 2 ^ b) (sym parts)
          (overlay_bound above n (size * 8 - (above + n)) _ _ field_lt bound'))

  number_from-with_field : number_from 0 (with_field above n value w) ≡ new
  unfolding with_field new
  number_from-with_field =
      ap
        (λ l.
          number_from 0
            (octets l (overlay (l * 8) above n (wrap value (2 ^ n)) (number_from 0 w)) []))
        measured
      ∙ number_from-octets size new 0 [] new_bound
      ∙ number_from_nil size new

  field_written : new / 2 ^ (size * 8 - (above + n)) % 2 ^ n ≡ wrap value (2 ^ n)
  unfolding new
  field_written =
      ap
        (λ b.
          overlay b above n (wrap value (2 ^ n)) (number_from 0 w)
          / 2 ^ (size * 8 - (above + n))
          % 2 ^ n)
        parts
      ∙ overlay_field above n (size * 8 - (above + n)) _ _ field_lt bound'

  with_field_self : n ≤ 53 → field_at size above n (with_field above n value w) ≡ wrap value (2 ^ n)
  unfolding field_at new
  with_field_self small =
      ap
        (λ x.
          if ltb (size * 8) (above + n)
          then 0
          else as_number size n (x / 2 ^ (size * 8 - (above + n)) % 2 ^ n))
        number_from-with_field
      ∙ if_false _ _ (le→ltb-false (size * 8) (above + n) inside)
      ∙ ap (as_number size n) field_written
      ∙ as_number_small size n (wrap value (2 ^ n)) small field_lt

  beside :
      (above' n' : ℕ)
      → above' + n' ≤ size * 8
      → (above' + n' ≤ above) ⊎ (above + n ≤ above')
      → new / 2 ^ (size * 8 - (above' + n')) % 2 ^ n'
        ≡ number_from 0 w / 2 ^ (size * 8 - (above' + n')) % 2 ^ n'
  unfolding new
  beside above' n' inside' (inl before) =
      let below = size * 8 - (above + n) in
      let gap = above - (above' + n') in
      let shift : size * 8 - (above' + n') ≡ gap + n + below = omega arith in
      let field = wrap value (2 ^ n) in
      let c = number_from 0 w in
      ap (λ b. overlay b above n field c / 2 ^ (size * 8 - (above' + n')) % 2 ^ n') parts
      ∙ ap (λ k. overlay (above + n + below) above n field c / 2 ^ k % 2 ^ n') shift
      ∙ overlay_above above n below field c field_lt bound' gap n'
      ∙ ap (λ k. c / 2 ^ k % 2 ^ n') (sym shift)
  beside above' n' inside' (inr behind) =
      let below = size * 8 - (above + n) in
      let field = wrap value (2 ^ n) in
      let c = number_from 0 w in
      ap (λ b. overlay b above n field c / 2 ^ (size * 8 - (above' + n')) % 2 ^ n') parts
      ∙ overlay_below above n below field c field_lt bound' (above' - (above + n)) n'
          (size * 8 - (above' + n')) (omega arith)

  with_field_beside :
      (above' n' : ℕ)
      → above' + n' ≤ size * 8
      → (above' + n' ≤ above) ⊎ (above + n ≤ above')
      → field_at size above' n' (with_field above n value w) ≡ field_at size above' n' w
  unfolding field_at new
  with_field_beside above' n' inside' apart =
      ap
        (λ x.
          if ltb (size * 8) (above' + n')
          then 0
          else as_number size n' (x / 2 ^ (size * 8 - (above' + n')) % 2 ^ n'))
        number_from-with_field
      ∙ ap (λ x. if ltb (size * 8) (above' + n') then 0 else as_number size n' x)
          (beside above' n' inside' apart)

length-with_field :
    (above n : ℕ) (value : ℤ) (w : List ℕ) → length (with_field above n value w) ≡ length w
unfolding with_field
length-with_field above n value w = length-octets (length w) _ [] ∙ omega arith

module _ {H : Type 0} where
  -- The packet after `writeBits` is that with the new octets of the window written over it.
  write_bits-Holds :
      (o size above n k : ℕ) (value : ℤ) (v : List ℕ) (d : CodecData H) (h : Header)
      → Holds d v k
      → let s = h.start_pos + o in
        (j : ℕ) × Holds
          (write_bits o size above n value d h).0
          (write_over s (with_field above n value (window s size v)) (padded s size v))
          j
        × ((write_bits o size above n value d h).1.start_pos ≡ h.start_pos)
  unfolding write_bits
  write_bits-Holds o size above n k value v d h hd =
      let s = h.start_pos + o in
      let r = read_raw o size true true d h in
      let (j, held, seen) = read_raw-Holds o size k v d h hd in
      let out = with_field above n value in
      let (i, wrote) = write_bytes-Holds o j (out r.1) (padded s size v) r.0.0 r.0.1 held in
      let there : r.0.1.start_pos ≡ h.start_pos = read_raw-start_pos o size true true d h in
      (
        i,
        subst
            (λ w.
              Holds (write_bytes o (out r.1) r.0.0 r.0.1).0 (write_over s (out w) (padded s size v))
                i)
            seen
            (subst
              (λ p.
                Holds (write_bytes o (out r.1) r.0.0 r.0.1).0
                  (write_over (p + o) (out r.1) (padded s size v)) i)
              there wrote),
        write_bytes-start_pos o (out r.1) r.0.0 r.0.1 ∙ there,
      )

  -- The window after `writeBits`.
  window-write_bits :
      (o size above n k : ℕ) (value : ℤ) (v : List ℕ) (d : CodecData H) (h : Header)
      → Holds d v k
      → (let s = write_bits o size above n value d h in read_bytes o size false s.0 s.1).1
        ≡ with_field above n value (window (h.start_pos + o) size v)
  window-write_bits o size above n k value v d h hd =
      let s = h.start_pos + o in
      let (j, held, there) = write_bits-Holds o size above n k value v d h hd in
      let w = write_bits o size above n value d h in
      let out = with_field above n value (window s size v) in
      let wide : length out ≡ size =
        length-with_field above n value (window s size v) ∙ length-window s size v in
      read_bytes-Holds o size j false (write_over s out (padded s size v)) w.0 w.1 held
      ∙ ap (λ p. take size (drop (p + o) (write_over s out (padded s size v)))) there
      ∙ ap (λ n'. take n' (drop s (write_over s out (padded s size v)))) (sym wide)
      ∙ window_back s out (padded s size v)

  -- In a packet of octets, what is written into a field of at most 53 bits that lies in its window
  -- is read back, cut to the width of the field.
  pub read_bits-write_bits :
      (o size above n k : ℕ) (value : ℤ) (v : List ℕ) (d : CodecData H) (h : Header)
      → Holds d v k
      → IsBytes v
      → above + n ≤ size * 8
      → n ≤ 53
      → (let s = write_bits o size above n value d h in read_bits o size above n s.0 s.1).1
        ≡ wrap value (2 ^ n)
  unfolding read_bits read_bytes
  read_bits-write_bits o size above n k value v d h hd bytes inside small =
      let s = h.start_pos + o in
      let w = window s size v in
      ap (field_at size above n) (window-write_bits o size above n k value v d h hd)
      ∙ with_field_self size above n value w (length-window s size v) inside
          (window_bound s size v bytes) small

  -- A write into a field of bits leaves every other field of the window as it was, when the packet
  -- has the whole window.
  pub read_bits-write_bits_beside :
      (o size above n above' n' k : ℕ) (value : ℤ) (v : List ℕ) (d : CodecData H) (h : Header)
      → Holds d v k
      → IsBytes v
      → h.start_pos + o + size ≤ length v
      → above + n ≤ size * 8
      → above' + n' ≤ size * 8
      → (above' + n' ≤ above) ⊎ (above + n ≤ above')
      → (let s = write_bits o size above n value d h in read_bits o size above' n' s.0 s.1).1
        ≡ (read_bits o size above' n' d h).1
  unfolding read_bits read_bytes
  read_bits-write_bits_beside o size above n above' n' k value v d h hd bytes whole inside inside'
        apart =
      let s = h.start_pos + o in
      let w = window s size v in
      ap (field_at size above' n') (window-write_bits o size above n k value v d h hd)
      ∙ with_field_beside size above n value w (length-window s size v) inside
          (window_bound s size v bytes) above' n' inside' apart
      ∙ ap (λ p. field_at size above' n' (take size (drop s p))) (unpadded s size v whole)
      ∙ ap (field_at size above' n') (sym (read_bytes-Holds o size k false v d h hd))
