-- ===== src/PcapCore/Lz4.antt =====
-- packages/pcap-core/src/Lz4FrameDecompress.ts. `none` is the error that a bad header throws.
pub mod Copy
pub mod Rounds
pub mod Stored
use netkitty.Base.{ℕ, zero, suc, ◌+◌, ◌-◌, ◌*◌, ◌/◌, ◌%◌, ◌^◌, min, Bool, true, false, not, ◌||◌}
use netkitty.Base.{
  Option, none, some, List, [], ◌∷◌, ◌++◌, length, get_or, take, drop, tabulate, ltb,
}
use netkitty.Base.{leb, ◌==◌, if◌then◌else◌}
use netkitty.PcapCore.Bytes.{read_u32_le}

-- The bytes of a length's continuation, up to the first below 255: their sum, and their number. A
-- read behind the input makes the length NaN, for which no loop runs: `none`.
unfoldable pub continuation : List ℕ → Option ℕ × ℕ
continuation [] = (none, 1)
continuation (extra ∷ rest) =
    let (sum, read) = continuation rest in
    if extra == 255
    then (elim sum [ none ↦ none | some n ↦ some (255 + n) ], read + 1)
    else (some extra, 1)

-- A length whose nibble is 15 goes on: the length, and the position behind it.
unfoldable pub length_at : List ℕ → ℕ → ℕ → Option ℕ × ℕ
unfolding continuation
length_at input nibble s =
    let (sum, read) = continuation (drop s input) in
    if nibble == 15
    then (elim sum [ none ↦ none | some n ↦ some (15 + n) ], s + read)
    else (some nibble, s)

-- `input[i]`, which a store takes as 0 behind the input.
abbrev pub byte_at : List ℕ → ℕ → ℕ
byte_at input i = get_or input i 0

abbrev pub literals : List ℕ → ℕ → ℕ → List ℕ
literals input s n = tabulate n (λ i. byte_at input (s + i))

-- `out[m]`, where `m` lies `offset` before the end of what is written.
unfoldable pub back_byte : ℕ → List ℕ → ℕ
back_byte offset out = if leb offset (length out) then get_or out (length out - offset) 0 else 0

-- The loop `out[d++] = out[m++]`.
unfoldable pub copy_match : ℕ → ℕ → List ℕ → List ℕ
copy_match zero offset out = out
copy_match (suc n) offset out = copy_match n offset (out ++ (back_byte offset out ∷ []))

-- No loop runs for a length that is NaN.
unfoldable pub or_zero : Option ℕ → ℕ
or_zero none = 0
or_zero (some n) = n

unfoldable pub copied_match : Option ℕ → ℕ → List ℕ → List ℕ
copied_match none offset out = out
copied_match (some n) offset out = copy_match (n + 4) offset out

-- What is written so far, and the position behind the sequence, where the block goes on.
pub data Sequence : Type 0 where
  last : List ℕ → Sequence
  next : List ℕ → ℕ → Sequence

-- One round of `while (s < end)`. A position behind the input gives a literal length of 0 and ends.
unfoldable pub sequence : List ℕ → ℕ → ℕ → List ℕ → Sequence
unfolding length_at or_zero copied_match
sequence input end s out =
    let token = byte_at input s in
    let (literal_length, s1) = length_at input (token / 16) (s + 1) in
    let s2 = s1 + or_zero literal_length in
    let written = out ++ literals input s1 (or_zero literal_length) in
    let offset = byte_at input s2 + byte_at input (s2 + 1) * 256 in
    let (match_length, s3) = length_at input (token % 16) (s2 + 2) in
    if leb end s2 || offset == 0
    then last written
    else next (copied_match match_length offset written) s3

unfoldable pub after_sequence : (List ℕ → ℕ → List ℕ) → Sequence → List ℕ
after_sequence go_on (last written) = written
after_sequence go_on (next written s) = go_on written s

-- `while (s < end)`, where `fuel` bounds the rounds.
unfoldable pub block_loop : ℕ → List ℕ → ℕ → ℕ → List ℕ → List ℕ
unfolding after_sequence
block_loop zero input end s out = out
block_loop (suc fuel) input end s out =
    if ltb s end
    then after_sequence (λ written s'. block_loop fuel input end s' written)
        (sequence input end s out)
    else out

-- Writes behind the end of the output buffer are ignored, and so all that it holds is the front of
-- what is written; a match never reads what is not written. A round moves `s`, so that `end`
-- rounds are enough.
unfoldable pub decode_block : List ℕ → ℕ → ℕ → ℕ → List ℕ
decode_block input start end block_max_size =
    take block_max_size (block_loop end input end start [])

-- `BLOCK_MAX_SIZE[code] ?? 4194304`
unfoldable pub block_max_size_of : ℕ → ℕ
block_max_size_of code =
    if code == 4
    then 65536
    else if code == 5
    then 262144
    else if code == 6
    then 1048576
    else 4194304

abbrev pub stored_bit : ℕ
stored_bit = 2 ^ 31

-- `subarray(from, to)`
abbrev pub slice : List ℕ → ℕ → ℕ → List ℕ
slice input from to = take (to - from) (drop from input)

-- The block behind its size: stored as it is, or compressed.
unfoldable pub block_at : List ℕ → ℕ → ℕ → ℕ → ℕ → List ℕ
block_at input block_max_size field pos end =
    if leb stored_bit field then slice input pos end else decode_block input pos end block_max_size

-- `while (pos + 4 <= input.length)`. A round moves `pos` by 4 at least. Where the loop runs, the
-- size can be read.
unfoldable pub frame_loop : ℕ → List ℕ → Bool → ℕ → ℕ → List ℕ
unfolding or_zero
frame_loop zero input checksum block_max_size pos = []
frame_loop (suc fuel) input checksum block_max_size pos =
    let field = or_zero (read_u32_le pos input) in
    let end = min (pos + 4 + field % stored_bit) (length input) in
    let rest = frame_loop fuel input checksum block_max_size (if checksum then end + 4 else end) in
    if ltb (length input) (pos + 4) || field == 0
    then []
    else block_at input block_max_size field (pos + 4) end ++ rest

unfoldable pub bit : ℕ → ℕ → Bool
bit n i = n / 2 ^ i % 2 == 1

-- The position of the first block.
unfoldable pub body_start : ℕ → ℕ
unfolding bit
body_start flags = 6 + (if bit flags 3 then 8 else 0) + (if bit flags 0 then 4 else 0) + 1

unfoldable pub frame_body : List ℕ → ℕ → ℕ → Option (List ℕ)
unfolding block_max_size_of bit body_start
frame_body input flags descriptor =
    if not (flags / 2 ^ 6 == 1)
    then none
    else some (
        frame_loop (length input) input (bit flags 4) (block_max_size_of (descriptor / 2 ^ 4 % 8))
          (body_start flags))

unfoldable pub is_lz4 : Option ℕ → Bool
is_lz4 none = false
is_lz4 (some magic) = magic == 0x184d2204

unfoldable pub lz4_frame_decompress : List ℕ → Option (List ℕ)
unfolding frame_body is_lz4
lz4_frame_decompress input =
    if ltb (length input) 7 || not (is_lz4 (read_u32_le 0 input))
    then none
    else frame_body input (byte_at input 4) (byte_at input 5)
