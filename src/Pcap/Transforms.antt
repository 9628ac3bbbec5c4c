-- ===== src/Pcap/Transforms.antt =====
-- packages/pcap/src/PcapEdit.ts: the transform factories and chain. A transform is the closure that
-- a factory returns, with its variables as arguments; the next call's closure comes with the result.
pub mod Retiming
pub mod Mac
use netkitty.Base.{ℕ, ◌+◌, ◌*◌, ◌==◌, ◌||◌, ◌++◌, Bool, true, false, Option, none, some, List, []}
use mathlib.Core.Option
use netkitty.Base.{◌∷◌, map, length, take, drop, leb, ltb, if◌then◌else◌}
use netkitty.Base.Int.{ℤ, pos, sub_ℕ, ◌+ℤ◌, ◌*ℤ◌}
use netkitty.Base.Text.{Text}
use netkitty.PcapCore.Format.{PacketInfo}
use netkitty.Pcap.Edit.{
  Context, EditError, Fraction, Result, and_then, context_of, err, floor_micros, invalid_mac,
  micros_per_second, ok, set_micros, to_micros,
}
use netkitty.Pcap.Retime.{or_set, scaled, start_micros}

pub data Transform : Type 0 where
  shift_time : ℤ → ℤ → Transform
  set_start_time : ℤ → Option ℕ → Transform
  scale_time : Fraction → Option ℕ → Transform
  constant_interval : ℕ → ℕ → ℕ → Transform
  set_destination_mac set_source_mac : List ℕ → Transform
  swap_mac : Transform
  truncate : ℕ → Transform
  custom : (Context → PacketInfo → Option Context) → Transform

-- `setStartTime(seconds, microseconds)` and `constantInterval(interval, unit)`.
unfoldable pub make_set_start_time : ℤ → ℤ → Transform
unfolding start_micros
make_set_start_time seconds microseconds =
    set_start_time (start_micros seconds (some microseconds)) none

unfoldable pub make_constant_interval : Fraction → Option Text → Result Transform
unfolding floor_micros and_then
make_constant_interval interval unit =
    and_then (floor_micros interval unit) (λ n. ok (constant_interval n 0 0))

prepend : ℕ → List Text → List Text
prepend c [] = (c ∷ []) ∷ []
prepend c (part ∷ parts) = (c ∷ part) ∷ parts

-- `mac.split(/[:-]/)`
unfoldable pub split_mac : Text → List Text
unfolding prepend
split_mac [] = [] ∷ []
split_mac (c ∷ cs) =
    let rest = split_mac cs in if c == b':' || c == b'-' then [] ∷ rest else prepend c rest

-- The octets, unless one is no number or too large.
unfoldable pub octets : List (Option ℕ) → Option (List ℕ)
octets [] = some []
octets (none ∷ parts) = none
octets (some n ∷ parts) =
    let rest = octets parts in if ltb n 256 then Option.map (λ bytes. n ∷ bytes) rest else none

check_octets : Option (List ℕ) → Result (List ℕ)
check_octets none = err invalid_mac
check_octets (some bytes) = if length bytes == 6 then ok bytes else err invalid_mac

-- `parseInt(hex, 16)` is JavaScript's, a parameter: `none` is NaN. A part has no minus sign.
unfoldable pub parse_mac : (Text → Option ℕ) → Text → Result (List ℕ)
unfolding check_octets octets split_mac
parse_mac parse_int mac = check_octets (octets (map parse_int (split_mac mac)))

-- `bytes.copy(frame, at)`, where the bytes fit into the frame.
unfoldable pub copy_to : List ℕ → ℕ → List ℕ → List ℕ
copy_to bytes at frame = take at frame ++ (bytes ++ drop (at + length bytes) frame)

unfoldable pub set_mac : ℕ → List ℕ → List ℕ → List ℕ
unfolding copy_to
set_mac at bytes frame = if leb (at + 6) (length frame) then copy_to bytes at frame else frame

-- The source is copied to the front, and the destination that was kept behind it.
unfoldable pub swap_macs : List ℕ → List ℕ
unfolding copy_to
swap_macs frame =
    if ltb (length frame) 12
    then frame
    else copy_to (take 6 frame) 6 (copy_to (take 6 (drop 6 frame)) 0 frame)

unfoldable pub truncate_to : ℕ → List ℕ → List ℕ
truncate_to n frame = if ltb n (length frame) then take n frame else frame

or_same : Context → Option Context → Context
or_same c none = c
or_same c (some d) = d

-- The context and the closure that a call leaves.
unfoldable pub transform : Transform → Context → PacketInfo → Context × Transform
unfolding set_micros to_micros or_set scaled set_mac swap_macs truncate_to or_same
transform (shift_time seconds microseconds) c info = (
  set_micros c ((pos (to_micros c) +ℤ seconds *ℤ pos micros_per_second) +ℤ microseconds),
  shift_time seconds microseconds,
)
transform (set_start_time start base) c info = (
  set_micros c (start +ℤ sub_ℕ (to_micros c) (or_set base (to_micros c))),
  set_start_time start (some (or_set base (to_micros c))),
)
transform (scale_time x base) c info = (
  set_micros c (scaled x.top x.below (or_set base (to_micros c)) (to_micros c)),
  scale_time x (some (or_set base (to_micros c))),
)
transform (constant_interval n index start) c info =
    let first = if index == 0 then to_micros c else start in
    (set_micros c (pos (first + index * n)), constant_interval n (index + 1) first)
transform (set_destination_mac bytes) c info =
    (record c { frame = set_mac 0 bytes c.frame }, set_destination_mac bytes)
transform (set_source_mac bytes) c info =
    (record c { frame = set_mac 6 bytes c.frame }, set_source_mac bytes)
transform swap_mac c info = (record c { frame = swap_macs c.frame }, swap_mac)
transform (truncate n) c info = (record c { frame = truncate_to n c.frame }, truncate n)
transform (custom f) c info = (or_same c (f c info), custom f)

-- The loop of `chain` over its transforms.
unfoldable pub chain_loop : List Transform → Context → PacketInfo → Context × List Transform
unfolding transform
chain_loop [] c info = (c, [])
chain_loop (t ∷ ts) c info =
    let done = transform t c info in
    let rest = chain_loop ts done.0 info in (rest.0, done.1 ∷ rest.1)

unfoldable pub chain : List Transform → List ℕ → PacketInfo → Context × List Transform
unfolding chain_loop context_of
chain ts frame info = chain_loop ts (context_of frame info) info

-- The frames of a capture in order, through one chain.
unfoldable pub chain_all : List Transform → List (List ℕ × PacketInfo) → List Context
unfolding chain
chain_all ts [] = []
chain_all ts ((frame, info) ∷ rest) =
    let done = chain ts frame info in done.0 ∷ chain_all done.1 rest
