-- ===== src/PcapCore/Lz4/Stored.antt =====
-- Lz4FrameDecompress.ts: frames of stored blocks, and the rounds of the loops.
use netkitty.Base.{
  ℕ, zero, suc, ◌+◌, ◌-◌, ◌/◌, ◌%◌, ◌^◌, ◌≤◌, ◌<◌, ◌≡◌, refl, sym, ap, ◌∙◌, arith, min,
}
use netkitty.Base.{
  List, [], ◌∷◌, ◌++◌, length, drop, map, All, flatten, append_assoc, Bool, if◌then◌else◌,
}
use netkitty.Base.{
  take_front, drop_front, length-append, some, leb, ltb, le→ltb-false, ◌==◌, true, false,
}
use netkitty.PcapCore.Bytes.{read_u32_le, u32_le_bytes}
use netkitty.PcapCore.Bytes.RoundTrip.{read_u32_le-at}
use netkitty.PcapCore.Lz4.{
  frame_loop, block_at, lz4_frame_decompress, stored_bit, frame_body, body_start, is_lz4, bit,
  block_max_size_of,
}

-- A stored block without its checksum: its size with the highest bit set, and its bytes.
abbrev pub sized : List ℕ → List ℕ
sized bytes = u32_le_bytes (stored_bit + length bytes) ++ bytes

-- The blocks of a frame, each with its checksum, the end mark, and what is behind it.
unfoldable pub stored_blocks : List ℕ → List (List ℕ × List ℕ) → List ℕ
stored_blocks tail [] = u32_le_bytes 0 ++ tail
stored_blocks tail ((b, c) ∷ bs) = sized b ++ (c ++ stored_blocks tail bs)

-- The flags of a frame of version 1.
pub record FrameFlags : Type 0 where
  pub independent : Bool
  pub block_checksum : Bool
  pub content_size : Bool
  pub content_checksum : Bool
  pub dictionary : Bool

abbrev pub flag : Bool → ℕ → ℕ
flag b n = if b then n else 0

unfoldable pub flag_byte : FrameFlags → ℕ
flag_byte o =
    64
    + flag o.independent 32
    + flag o.block_checksum 16
    + flag o.content_size 8
    + flag o.content_checksum 4
    + flag o.dictionary 1

-- A block that the flags allow: shorter than 2 ^ 31 bytes, with a checksum of four bytes or none.
abbrev pub IsBlock : Bool → List ℕ × List ℕ → Type 0
IsBlock checksum x = (length x.0 < 2 ^ 31) × (length x.1 ≡ flag checksum 4)

-- A frame: the magic number, the flags, the block descriptor, the content size and the dictionary
-- that the flags announce, the checksum of the header, the blocks, and what is behind the end mark.
pub record StoredFrame : Type 0 where
  pub flags : FrameFlags
  pub descriptor : ℕ
  pub announced : List ℕ
  pub header_checksum : ℕ
  pub blocks : List (List ℕ × List ℕ)
  pub tail : List ℕ

unfoldable pub stored_frame : StoredFrame → List ℕ
stored_frame s =
    u32_le_bytes 0x184d2204
    ++ (flag_byte s.flags
        ∷ s.descriptor
        ∷ (s.announced ++ (s.header_checksum ∷ stored_blocks s.tail s.blocks)))

module _ (pre b rest : List ℕ) where
  abbrev input : List ℕ
  input = pre ++ (sized b ++ rest)

  size_here : drop (length pre) input ≡ u32_le_bytes (stored_bit + length b) ++ (b ++ rest)
  size_here = drop_front pre (sized b ++ rest)

  read_size : read_u32_le (length pre) input ≡ some (stored_bit + length b)
  read_size = read_u32_le-at (length pre) (stored_bit + length b) input (b ++ rest) size_here

  body_here : drop (length pre + 4) input ≡ b ++ rest
  body_here =
      let size = u32_le_bytes (stored_bit + length b) in
      let place : length (pre ++ size) ≡ length pre + 4 = omega (arith, length-append pre size) in
      ap (λ n. drop n input) (sym place)
      ∙ ap (drop (length (pre ++ size))) (sym (append_assoc pre size (b ++ rest)))
      ∙ drop_front (pre ++ size) (b ++ rest)

  length-input : length input ≡ length pre + (4 + length b) + length rest
  length-input = omega (arith, length-append pre (sized b ++ rest), length-append b rest)

  -- Where the loop goes on behind the block.
  after_block :
      length b < 2 ^ 31
      → min (length pre + 4 + (stored_bit + length b) % stored_bit) (length input)
        ≡ length (pre ++ sized b)
  after_block h = omega (arith, length-input, length-append pre (sized b))

  block_lem :
      (block_max_size : ℕ)
      → block_at input block_max_size
          (stored_bit + length b)
          (length pre + 4)
          (length (pre ++ sized b))
        ≡ b
  unfolding block_at
  block_lem block_max_size =
      let size : length (pre ++ sized b) - (length pre + 4) ≡ length b =
        omega (arith, length-append pre (sized b)) in
      let is_stored : leb stored_bit (stored_bit + length b) ≡ true = ground arith in
      rw (is_stored, size, body_here) (take_front b rest)

  fits : ltb (length input) (length pre + 4) ≡ false
  fits = le→ltb-false (length input) (length pre + 4) (omega (arith, length-input))

  nonzero : (stored_bit + length b == 0) ≡ false
  nonzero = ground arith

next_block :
    (checksum : Bool) (pre b c : List ℕ)
    → length c ≡ flag checksum 4
    → (if checksum then length (pre ++ sized b) + 4 else length (pre ++ sized b))
      ≡ length (pre ++ (sized b ++ c))
next_block true pre b c h = omega (
  arith,
  length-append pre (sized b),
  length-append pre (sized b ++ c),
  length-append (sized b) c,
)
next_block false pre b c h = omega (
  arith,
  length-append pre (sized b),
  length-append pre (sized b ++ c),
  length-append (sized b) c,
)

stored_blocks_lem :
    (tail : List ℕ) (bs : List (List ℕ × List ℕ)) (fuel : ℕ) (checksum : Bool) (block_max_size : ℕ)
    (pre : List ℕ)
    → All (IsBlock checksum) bs
    → length bs < fuel
    → frame_loop fuel (pre ++ stored_blocks tail bs) checksum block_max_size (length pre)
      ≡ flatten (map (λ x. x.0) bs)
unfolding frame_loop stored_blocks
stored_blocks_lem tail bs zero checksum block_max_size pre small h = absurd (omega arith)
stored_blocks_lem tail [] (suc fuel) checksum block_max_size pre small h =
    let here = drop_front pre (u32_le_bytes 0 ++ tail) in
    rw (read_u32_le-at (length pre) 0 (pre ++ (u32_le_bytes 0 ++ tail)) tail here) (ground arith)
stored_blocks_lem tail ((b, c) ∷ bs) (suc fuel) checksum block_max_size pre ((short, four), small)
      h =
    let more = stored_blocks tail bs in
    let rest = c ++ more in
    let behind = pre ++ (sized b ++ c) in
    let go_on = stored_blocks_lem tail bs fuel checksum block_max_size behind small (omega arith) in
    let regroup : pre ++ (sized b ++ rest) ≡ behind ++ more =
      ap (λ t. pre ++ t) (sym (append_assoc (sized b) c more))
      ∙ sym (append_assoc pre (sized b ++ c) more) in
    rw
      (
        read_size pre b rest,
        after_block pre b rest short,
        fits pre b rest,
        nonzero pre b rest,
        block_lem pre b rest block_max_size,
        next_block checksum pre b c four,
      )
      (ap (λ (whole : List ℕ). b ++ frame_loop fuel whole checksum block_max_size (length behind))
          regroup
        ∙ ap (λ t. b ++ t) go_on)

length-stored_blocks :
    (tail : List ℕ) (bs : List (List ℕ × List ℕ)) → length bs ≤ length (stored_blocks tail bs)
unfolding stored_blocks
length-stored_blocks tail [] = omega arith
length-stored_blocks tail ((b, c) ∷ bs) = omega (
  arith,
  length-stored_blocks tail bs,
  length-append (sized b) (c ++ stored_blocks tail bs),
  length-append c (stored_blocks tail bs),
)

-- What the decoder reads off the flags.
flag_byte_lem :
    (o : FrameFlags)
    → (flag_byte o / 2 ^ 6 ≡ 1)
      × (bit (flag_byte o) 4 ≡ o.block_checksum)
      × (body_start (flag_byte o) ≡ 7 + flag o.content_size 8 + flag o.dictionary 4)
unfolding flag_byte bit body_start
flag_byte_lem o = ground arith

module _ (s : StoredFrame) where
  abbrev prefix : List ℕ
  prefix =
      u32_le_bytes 0x184d2204
      ++ (flag_byte s.flags ∷ s.descriptor ∷ (s.announced ++ (s.header_checksum ∷ [])))

  abbrev frame : List ℕ
  frame = prefix ++ stored_blocks s.tail s.blocks

  frame_lem : stored_frame s ≡ frame
  unfolding stored_frame
  frame_lem =
      ap (λ t. u32_le_bytes 0x184d2204 ++ (flag_byte s.flags ∷ s.descriptor ∷ t))
        (sym (append_assoc s.announced (s.header_checksum ∷ []) (stored_blocks s.tail s.blocks)))

  magic_lem : read_u32_le 0 frame ≡ some 0x184d2204
  magic_lem = read_u32_le-at 0 0x184d2204 frame _ refl

  length-prefix : length prefix ≡ 7 + length s.announced
  length-prefix = omega (arith, length-append s.announced (s.header_checksum ∷ []))

  long_lem : ltb (length frame) 7 ≡ false
  long_lem =
      le→ltb-false (length frame) 7
        (omega (arith, length-prefix, length-append prefix (stored_blocks s.tail s.blocks)))

  body_lem :
      length s.announced ≡ flag s.flags.content_size 8 + flag s.flags.dictionary 4
      → All (IsBlock s.flags.block_checksum) s.blocks
      → frame_body frame (flag_byte s.flags) s.descriptor ≡ some (flatten (map (λ x. x.0) s.blocks))
  unfolding frame_body
  body_lem announced all =
      let (version, checksum, start) = flag_byte_lem s.flags in
      let place : body_start (flag_byte s.flags) ≡ length prefix = omega (arith, length-prefix) in
      rw (version, checksum, place)
        (ap some (
          stored_blocks_lem s.tail s.blocks (length frame) s.flags.block_checksum
            (block_max_size_of (s.descriptor / 2 ^ 4 % 8)) prefix all
            (omega (
              arith,
              length-stored_blocks s.tail s.blocks,
              length-append prefix (stored_blocks s.tail s.blocks),
              length-prefix,
            ))))

-- A frame of stored blocks, each shorter than 2 ^ 31 bytes, decompresses to their concatenation,
-- whatever its flags: the blocks have the checksums that the flags announce, the header has the
-- content size of eight bytes and the dictionary of four that the flags announce, and anything
-- follows the end mark.
pub lz4_frame_decompress-stored_frame :
    (s : StoredFrame)
    → length s.announced ≡ flag s.flags.content_size 8 + flag s.flags.dictionary 4
    → All (IsBlock s.flags.block_checksum) s.blocks
    → lz4_frame_decompress (stored_frame s) ≡ some (flatten (map (λ x. x.0) s.blocks))
unfolding lz4_frame_decompress is_lz4
lz4_frame_decompress-stored_frame s announced all =
    rw (frame_lem s, long_lem s, magic_lem s) (body_lem s announced all)
