-- ===== src/Codec/Bits.antt =====
-- `readBits` and `writeBits` of packages/codec/src/abstracts/BaseHeader.ts: a window of octets as
-- a big-endian number, and a field of bits in it. The source has a path for windows of up to four
-- octets, which divides and multiplies, and one for wider windows, which shifts and masks BigInts;
-- both are the same division here, since a mask keeps a remainder and a shift divides. But a field of
-- a wider window is read as `Number` of a BigInt, which rounds.
pub mod Arith
pub mod Windows
pub mod Octets
pub mod Fields
use netkitty.Base.{
  ℕ, ◌+◌, ◌-◌, ◌*◌, ◌/◌, ◌%◌, ◌^◌, zero, suc, ltb, leb, if◌then◌else◌, ◌||◌, ◌&&◌, ◌==◌, true,
  false,
}
use netkitty.Base.{List, [], ◌∷◌, length}
use netkitty.Base.Int.{ℤ, pos, negsuc}
use netkitty.Codec.Header.{CodecData, Header, read_raw, write_bytes}

-- `for (const byte of buffer) narrow = narrow * 256 + byte`
unfoldable pub number_from : ℕ → List ℕ → ℕ
number_from acc [] = acc
number_from acc (b ∷ bs) = number_from (acc * 256 + b) bs

-- `for (let i = n - 1; i >= 0; i--) { out[i] = written % 256; written = Math.floor(written / 256) }`
unfoldable pub octets : ℕ → ℕ → List ℕ → List ℕ
octets zero written out = out
octets (suc n) written out = octets n (written / 256) ((written % 256) ∷ out)

-- The low bits of a value that may be negative: `((value % modulo) + modulo) % modulo`, where the
-- remainder of JavaScript has the sign of the value.
unfoldable pub wrap : ℤ → ℕ → ℕ
wrap (pos n) modulo = (n % modulo + modulo) % modulo
wrap (negsuc n) modulo = (modulo - suc n % modulo) % modulo

-- A field of `bit_length` bits at `bit_offset` of a window of `bits` bits. Where the field leaves
-- the window, only its bits inside are written.
unfoldable pub overlay : ℕ → ℕ → ℕ → ℕ → ℕ → ℕ
overlay bits bit_offset bit_length field current =
    if leb (bit_offset + bit_length) bits
    then (let divisor = 2 ^ (bits - (bit_offset + bit_length)) in
        let block = 2 ^ bit_length * divisor in
        current / block * block + field * divisor + current % divisor)
    else (let outside = bit_offset + bit_length - bits in
        let block = 2 ^ (bit_length - outside) in current / block * block + field / 2 ^ outside)

-- `n` rounded to a multiple of `scale`, a half to the even multiple.
unfoldable pub rounded : ℕ → ℕ → ℕ
rounded scale n =
    let q = n / scale in
    let twice = n % scale * 2 in
    (if ltb scale twice || (twice == scale && q % 2 == 1) then q + 1 else q) * scale

-- `Number` of a BigInt of that many bits, up to 1023: 53 significant bits remain.
unfoldable pub double_loop : ℕ → ℕ → ℕ → ℕ
unfolding rounded
double_loop zero scale n = n
double_loop (suc bits) scale n =
    let rest = double_loop bits (scale * 2) n in
    if ltb (n / scale) (2 ^ 53) then rounded scale n else rest

unfoldable pub to_double : ℕ → ℕ → ℕ
unfolding double_loop
to_double bits n = if ltb n (2 ^ 53) then n else double_loop bits 2 n

-- What a field's bits are as a number, by the octets of the window.
unfoldable pub as_number : ℕ → ℕ → ℕ → ℕ
unfolding to_double
as_number size bit_length n = if leb size 4 then n else to_double bit_length n

-- The bits of a field in the octets that a read has answered; where the packet ends inside the
-- window, they are the low end of it.
unfoldable pub field_at : ℕ → ℕ → ℕ → List ℕ → ℕ
unfolding number_from as_number
field_at size bit_offset bit_length octets =
    if ltb (size * 8) (bit_offset + bit_length)
    then 0
    else as_number size bit_length
        (number_from 0 octets / 2 ^ (size * 8 - (bit_offset + bit_length)) % 2 ^ bit_length)

-- The octets of a window with the low bits of a value in one field.
unfoldable pub with_field : ℕ → ℕ → ℤ → List ℕ → List ℕ
unfolding number_from octets wrap overlay
with_field bit_offset bit_length value buffer =
    let n = length buffer in
    let field = wrap value (2 ^ bit_length) in
    octets n (overlay (n * 8) bit_offset bit_length field (number_from 0 buffer)) []

module _ {H : Type 0} where
  unfoldable pub read_bits : ℕ → ℕ → ℕ → ℕ → CodecData H → Header → Header × ℕ
  unfolding field_at
  read_bits offset size bit_offset bit_length d h =
      let r = read_raw offset size false true d h in
      (r.0.1, field_at size bit_offset bit_length r.1)

  unfoldable pub write_bits : ℕ → ℕ → ℕ → ℕ → ℤ → CodecData H → Header → CodecData H × Header
  unfolding with_field
  write_bits offset size bit_offset bit_length value d h =
      let r = read_raw offset size true true d h in
      write_bytes offset (with_field bit_offset bit_length value r.1) r.0.0 r.0.1
