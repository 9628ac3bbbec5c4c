-- ===== src/Pcap/Patch.antt =====
-- packages/pcap/src/PcapEdit.ts: patchInPlace, over a file that is the list of its bytes.
use netkitty.Base.{ℕ, ◌+◌, ◌≤◌, ◌==◌, ◌&&◌, ◌||◌, not, ◌++◌, ◌≡◌, ap, sym}
use netkitty.Base.{◌∙◌, Bool, false, Option, none, some, List, length, take, drop}
use netkitty.Base.{append_assoc, length-take, length-drop, length-append, take_of, drop_of}
use netkitty.Base.{◌-◌, take-append, get_or, replicate, leb, if◌then◌else◌, arith}
use netkitty.PcapCore.Bytes.{read_u32_be}
use netkitty.PcapCore.Format.{PacketInfo}
use netkitty.Pcap.Edit.{EditError, compressed_capture, patch_length}

-- The first `n` bytes of the file in a buffer of `n` zeros.
unfoldable pub read_magic : ℕ → List ℕ → List ℕ
read_magic n file = take n file ++ replicate (n - length file) 0

is_word : Option ℕ → ℕ → Bool
is_word none m = false
is_word (some w) m = w == m

-- The magic numbers of gzip and of LZ4 frames.
unfoldable pub is_compressed : List ℕ → Bool
unfolding read_magic is_word
is_compressed file =
    let magic = read_magic 4 file in
    (leb 2 (length file) && (get_or magic 0 0 == 0x1f && get_or magic 1 0 == 0x8b))
    || (leb 4 (length file) && is_word (read_u32_be 0 magic) 0x04224d18)

-- A write at a position; a gap behind the end of the file is filled with zeros.
unfoldable pub write_at : ℕ → List ℕ → List ℕ → List ℕ
write_at at bytes file =
    take at (file ++ replicate (at - length file) 0) ++ (bytes ++ drop (at + length bytes) file)

-- The file after the call, and the error it threw.
unfoldable pub patch_in_place : List ℕ → PacketInfo → List ℕ → List ℕ × Option EditError
unfolding is_compressed write_at
patch_in_place file info frame =
    if not (length frame == info.packet_length)
    then (file, some (patch_length info.packet_length (length frame)))
    else if is_compressed file
    then (file, some compressed_capture)
    else (write_at info.packet_offset frame file, none)

write_at-inside :
    (at : ℕ) (bytes file : List ℕ)
    → at + length bytes ≤ length file
    → write_at at bytes file ≡ take at file ++ (bytes ++ drop (at + length bytes) file)
unfolding write_at
write_at-inside at bytes file h =
    ap (λ t. t ++ (bytes ++ drop (at + length bytes) file))
      (take-append at file (replicate (at - length file) 0) (omega arith))

succeeded :
    (file : List ℕ) (info : PacketInfo) (frame : List ℕ)
    → (patch_in_place file info frame).1 ≡ none
    → (length frame ≡ info.packet_length)
      × ((patch_in_place file info frame).0 ≡ write_at info.packet_offset frame file)
unfolding patch_in_place
succeeded file info frame e = ground arith

-- What a patch that does not throw leaves: the length of the file, the bytes before the packet, the
-- frame in its place and the bytes behind it.
written :
    (at n : ℕ) (bytes file : List ℕ)
    → length bytes ≡ n
    → at + n ≤ length file
    → (length (write_at at bytes file) ≡ length file)
      × (take at (write_at at bytes file) ≡ take at file)
      × (take n (drop at (write_at at bytes file)) ≡ bytes)
      × (drop (at + n) (write_at at bytes file) ≡ drop (at + n) file)
written at n bytes file hn h =
    let front : length (take at file) ≡ at = omega (arith, length-take at file) in
    let behind = drop (at + length bytes) file in
    rw (write_at-inside at bytes file (omega arith)) (
      omega (
        arith,
        length-append (take at file) (bytes ++ behind),
        length-append bytes behind,
        length-drop (at + length bytes) file,
      ),
      take_of at (take at file) (bytes ++ behind) front,
      ap (take n) (drop_of at (take at file) (bytes ++ behind) front) ∙ take_of n bytes behind hn,
      ap (λ t. drop (at + n) t) (sym (append_assoc (take at file) bytes behind))
          ∙ drop_of (at + n) (take at file ++ bytes) behind
              (omega (arith, length-append (take at file) bytes))
          ∙ ap (λ m. drop (at + m) file) hn,
    )

-- A patch of a packet inside the file that does not throw keeps the file's length and all bytes
-- before and behind the packet, and puts the frame between them.
pub patch_in_place-writes :
    (file : List ℕ) (info : PacketInfo) (frame : List ℕ)
    → info.packet_offset + info.packet_length ≤ length file
    → (patch_in_place file info frame).1 ≡ none
    → (length (patch_in_place file info frame).0 ≡ length file)
      × (take info.packet_offset (patch_in_place file info frame).0 ≡ take info.packet_offset file)
      × (take info.packet_length (drop info.packet_offset (patch_in_place file info frame).0)
          ≡ frame)
      × (drop (info.packet_offset + info.packet_length) (patch_in_place file info frame).0
          ≡ drop (info.packet_offset + info.packet_length) file)
patch_in_place-writes file info frame h e =
    let ran = succeeded file info frame e in
    rw ran.1 (written info.packet_offset info.packet_length frame file ran.0 h)
