-- ===== src/PcapCore/Parser/Ng.antt =====
-- packages/pcap-core/src/PcapParserCore.ts: the pcapng methods.
pub mod Steady
pub mod Moves
pub mod Waits
use Prim.Native.Nat.{bit_and}
use netkitty.Base.{ℕ, zero, suc, ◌+◌, ◌-◌, ◌*◌, ◌/◌, ◌%◌, ◌^◌, min, Bool, true, false, not}
use netkitty.Base.{◌&&◌, ◌||◌, Option, none, some, List, [], ◌∷◌, ◌++◌}
use netkitty.Base.{ltb, leb, ◌==◌, if◌then◌else◌, length, take, drop, get_elem?}
use netkitty.Base.Int.{pos, sub_ℕ}
use Prim.Native.String.{String}
use netkitty.PcapCore.Bytes.{Read, ◌>>=◌, pure, Endianness, be, le, read_u8, read_u32_be}
use netkitty.PcapCore.Parser.Classic.{read_u32, read_u16}
use netkitty.PcapCore.Format.{
  pcapng_epb_header_length, pcapng_spb_header_length, max_captured_length, max_block_length,
  block_section_header, block_interface_description, block_obsolete_packet, block_simple_packet,
  block_enhanced_packet, base_10, base_2, NgInterface, SectionHeader, RecordHeader, PacketInfo,
  unknown_byte_order_magic, block_before_section_header, invalid_block_total_length,
  block_length_exceeds, captured_length_does_not_fit, simple_packet_length_invalid, Event,
  on_section_header, on_packet_header, on_packet_data, on_packet, Control, Step, more, wait, fail,
  on_read,
}

-- Rounding to a multiple of `ulp`, ties to the even multiple.
round_to : ℕ → ℕ → ℕ
round_to ulp n =
    let q = n / ulp in
    let r = n % ulp in
    if ltb (2 * r) ulp
    then q * ulp
    else if ltb ulp (2 * r)
    then (q + 1) * ulp
    else if q % 2 == 0
    then q * ulp
    else (q + 1) * ulp

number_loop : ℕ → ℕ → ℕ → ℕ
number_loop zero ulp n = n
number_loop (suc fuel) ulp n =
    let wider = number_loop fuel (ulp * 2) n in
    if ltb n (2 ^ 53 * ulp) then round_to ulp n else wider

-- `Number(bigint)` below 2 ^ 64: the nearest double. Twelve widths reach 2 ^ 64.
unfoldable pub number_of : ℕ → ℕ
unfolding number_loop round_to
number_of n = number_loop 12 1 n

pub record Timestamp : Type 0 where
  pub seconds : ℕ
  pub microseconds : ℕ
  pub nanoseconds : ℕ

divisor_of : NgInterface → ℕ
divisor_of i = elim i.timestamp_base [
  | base_2 ↦ 2 ^ i.timestamp_exponent
  | base_10 ↦ 10 ^ i.timestamp_exponent
]

-- The low word is below 2 ^ 32, so `|` is `+`.
unfoldable pub ng_timestamp : NgInterface → ℕ → ℕ → Timestamp
unfolding divisor_of
ng_timestamp i high low =
    let ticks = high * 2 ^ 32 + low in
    let divisor = divisor_of i in
    let fraction = ticks % divisor in
    record {
      seconds = number_of (ticks / divisor);
      microseconds = number_of (fraction * 1000000 / divisor);
      nanoseconds = number_of (fraction * 1000000000 / divisor);
    }

abbrev pub default_interface : NgInterface
default_interface = record {
  link_layer_type = 1;
  snapshot_length = max_captured_length;
  timestamp_base = base_10;
  timestamp_exponent = 6;
}

unfoldable pub ng_interface : Control → ℕ → NgInterface
ng_interface c id = elim (get_elem? c.ng_interfaces id) [ none ↦ default_interface | some i ↦ i ]

-- if_tsresol: the top bit chooses the base.
pub set_resolution : NgInterface → ℕ → NgInterface
set_resolution i raw =
    if not (bit_and raw 0x80 == 0)
    then record i { timestamp_base = base_2; timestamp_exponent = bit_and raw 0x7f }
    else record i { timestamp_base = base_10; timestamp_exponent = raw }

pub parse_resolution : ℕ → ℕ → ℕ → ℕ → NgInterface → Read NgInterface
parse_resolution code size position end i =
    if code == 9 && leb 1 size && ltb (position + 4) end
    then (read_u8 (position + 4) >>= λ raw. pure (set_resolution i raw))
    else pure i

-- The loop of `ngParseInterfaceOptions`, on fuel: a round moves `position` by 4 at least.
pub options_loop : Option Endianness → ℕ → ℕ → ℕ → NgInterface → Read NgInterface
options_loop e zero position end i = pure i
options_loop e (suc fuel) position end i =
    let round = (do
      code ← read_u16 e position
      size ← read_u16 e (position + 2)
      let rest = (do
        i' ← parse_resolution code size position end i
        options_loop e fuel (position + (4 + (size + 3) / 4 * 4)) end i')
      if code == 0 then pure i else rest) in
    if leb (position + 4) end then round else pure i

pub parse_interface_options : Option Endianness → ℕ → ℕ → NgInterface → Read NgInterface
parse_interface_options e start end i = options_loop e end start end i

-- The end of `parseNgBlock`: the block is dropped and the offset moves.
abbrev pub finish : Control → ℕ → List Event → Step
finish c total events = more (record c { offset = c.offset + total }) total events

pub read_section_header : Option Endianness → Read SectionHeader
read_section_header e = do
  major ← read_u16 e 12
  minor ← read_u16 e 14
  pure (record { major_version = major; minor_version = minor })

-- The interfaces are reset before the versions are read.
pub ng_section_header : Control → ℕ → List ℕ → Step
ng_section_header c total b =
    let c' = record c { ng_interfaces = [] } in
    on_read c' (read_section_header c.endianness b)
      (λ h. finish c' total (on_section_header h ∷ []))

pub read_interface : Option Endianness → ℕ → Read NgInterface
read_interface e total = do
  link ← read_u16 e 8
  snapshot ← read_u32 e 12
  parse_interface_options e 16 (total - 4) (record {
    link_layer_type = link;
    snapshot_length = snapshot;
    timestamp_base = base_10;
    timestamp_exponent = 6;
  })

pub ng_interface_description : Control → ℕ → List ℕ → Step
ng_interface_description c total b =
    on_read c (read_interface c.endianness total b)
      (λ i. finish (record c { ng_interfaces = c.ng_interfaces ++ (i ∷ []) }) total [])

-- What the case of an enhanced or obsolete packet block reads.
pub record PacketBlock : Type 0 where
  pub interface_id : ℕ
  pub timestamp_high : ℕ
  pub timestamp_low : ℕ
  pub captured_length : ℕ
  pub original_length : ℕ

pub read_packet_block : Option Endianness → Bool → Read PacketBlock
read_packet_block e enhanced = do
  id ← if enhanced then read_u32 e 8 else read_u16 e 8
  high ← read_u32 e 12
  low ← read_u32 e 16
  captured ← read_u32 e 20
  original ← read_u32 e 24
  pure (record {
    interface_id = id;
    timestamp_high = high;
    timestamp_low = low;
    captured_length = captured;
    original_length = original;
  })

pub simple_captured_length : Control → ℕ → ℕ → ℕ
simple_captured_length c total original =
    let snapshot = (ng_interface c 0).snapshot_length in
    min (min original (total - pcapng_spb_header_length - 4))
      (if ltb 0 snapshot then snapshot else max_captured_length)

module _ (base64 : List ℕ → String) where
  pub ng_packet_info : Control → ℕ → ℕ → List ℕ → Timestamp → PacketInfo
  ng_packet_info c total header_length body t = record {
    index = c.index + 1;
    offset = c.offset;
    length = total;
    record_header_offset = c.offset;
    record_header_length = header_length;
    packet_offset = c.offset + header_length;
    packet_length = length body;
    seconds = t.seconds;
    microseconds = t.microseconds;
    nanoseconds = t.nanoseconds;
    packet = base64 body;
  }

  -- `ngEmitPacket`, then the end of `parseNgBlock`.
  pub ng_emit_packet : Control → ℕ → ℕ → List ℕ → Timestamp → ℕ → Step
  ng_emit_packet c total header_length body t original =
      let h : RecordHeader = record {
        timestamp_seconds = t.seconds;
        timestamp_microseconds = t.microseconds;
        timestamp_nanoseconds = t.nanoseconds;
        captured_length = length body;
        original_length = original;
      } in
      finish (record c { index = c.index + 1; current_packet_header = some h }) total
        (on_packet_header h
          ∷ on_packet_data body
          ∷ on_packet (ng_packet_info c total header_length body t)
          ∷ [])

  pub accept_packet_block : Control → ℕ → PacketBlock → List ℕ → Step
  accept_packet_block c total p b =
      if ltb max_captured_length p.captured_length
        || ltb (total - 4) (pcapng_epb_header_length + p.captured_length)
      then fail c (captured_length_does_not_fit p.captured_length total)
      else ng_emit_packet c total pcapng_epb_header_length
          (take p.captured_length (drop pcapng_epb_header_length b))
          (ng_timestamp (ng_interface c p.interface_id) p.timestamp_high p.timestamp_low)
          p.original_length

  pub ng_packet : Control → ℕ → Bool → List ℕ → Step
  ng_packet c total enhanced b =
      on_read c (read_packet_block c.endianness enhanced b) (λ p. accept_packet_block c total p b)

  -- A data area of negative length, which only a block shorter than 16 has, is the minimum.
  pub accept_simple_packet : Control → ℕ → ℕ → List ℕ → Step
  accept_simple_packet c total original b =
      let captured = simple_captured_length c total original in
      if ltb total (pcapng_spb_header_length + 4)
      then fail c (simple_packet_length_invalid (sub_ℕ total (pcapng_spb_header_length + 4)))
      else if ltb max_captured_length captured
      then fail c (simple_packet_length_invalid (pos captured))
      else ng_emit_packet c total pcapng_spb_header_length
          (take captured (drop pcapng_spb_header_length b))
          (record { seconds = 0; microseconds = 0; nanoseconds = 0 }) original

  pub ng_simple_packet : Control → ℕ → List ℕ → Step
  ng_simple_packet c total b =
      on_read c (read_u32 c.endianness 8 b) (λ original. accept_simple_packet c total original b)

  -- The switch on the block type; other blocks are skipped.
  pub ng_content : Control → ℕ → ℕ → List ℕ → Step
  ng_content c total kind b =
      if kind == block_section_header
      then ng_section_header c total b
      else if kind == block_interface_description
      then ng_interface_description c total b
      else if kind == block_enhanced_packet
      then ng_packet c total true b
      else if kind == block_obsolete_packet
      then ng_packet c total false b
      else if kind == block_simple_packet
      then ng_simple_packet c total b
      else finish c total []

  pub ng_typed : Control → ℕ → List ℕ → Step
  ng_typed c total b = on_read c (read_u32 c.endianness 0 b) (λ kind. ng_content c total kind b)

  -- The checks on the total length of the block.
  pub ng_total : Control → ℕ → List ℕ → Step
  ng_total c total b =
      if ltb total 12 || not (total % 4 == 0)
      then fail c (invalid_block_total_length total)
      else if ltb max_block_length total
      then fail c (block_length_exceeds total)
      else if ltb (length b) total
      then wait c
      else ng_typed c total b

  pub ng_length : Control → List ℕ → Step
  ng_length c b = on_read c (read_u32 c.endianness 4 b) (λ total. ng_total c total b)

  -- `if (!this.endianness)`
  pub ng_ordered : Control → List ℕ → Step
  ng_ordered c b = elim c.endianness [
    | none ↦ fail c block_before_section_header
    | some _ ↦ ng_length c b
  ]

  -- The byte-order magic of a section header, as the big-endian number of its bytes.
  pub ng_byte_order : Control → ℕ → List ℕ → Step
  ng_byte_order c magic b =
      if magic == 0x1a2b3c4d
      then ng_ordered (record c { endianness = some be }) b
      else if magic == 0x4d3c2b1a
      then ng_ordered (record c { endianness = some le }) b
      else fail c (unknown_byte_order_magic magic)

  pub ng_section_order : Control → ℕ → List ℕ → Step
  ng_section_order c kind b =
      if kind == block_section_header
      then on_read c (read_u32_be 8 b) (λ magic. ng_byte_order c magic b)
      else ng_ordered c b

  pub parse_ng_block : Control → List ℕ → Step
  parse_ng_block c b =
      if ltb (length b) 12
      then wait c
      else on_read c (read_u32_be 0 b) (λ kind. ng_section_order c kind b)
