-- ===== src/PcapCore/Parser/Classic.antt =====
-- packages/pcap-core/src/PcapParserCore.ts: format detection and the classic pcap methods.
pub mod Steady
pub mod Moves
use netkitty.Base.{ℕ, ◌+◌, ◌*◌, ◌/◌, Bool, true, false, Option, none, some, List, [], ◌∷◌}
use netkitty.Base.{ltb, leb, ◌==◌, if◌then◌else◌, length, take, not}
use Prim.Native.String.{String}
use netkitty.PcapCore.Bytes.{Read, ◌>>=◌, pure, Endianness, be, le, signed32}
use netkitty.PcapCore.Bytes.{read_u16_be, read_u16_le, read_u32_be, read_u32_le}
use netkitty.PcapCore.Format.{
  pcap_global_header_length, pcap_packet_header_length, max_captured_length, pcap, pcapng,
  GlobalHeader, RecordHeader, PacketInfo, unknown_magic_number, unsupported_version,
  captured_length_exceeds, on_global_header, on_packet_header, on_packet_data, on_packet,
  global_header, packet_header, packet_body, ng_block, Control, Step, more, wait, fail, on_read,
}

-- `this.endianness === 'BE'` decides; `null` reads as little-endian.
unfoldable pub read_u32 : Option Endianness → ℕ → Read ℕ
read_u32 (some be) o = read_u32_be o
read_u32 (some le) o = read_u32_le o
read_u32 none o = read_u32_le o

unfoldable pub read_u16 : Option Endianness → ℕ → Read ℕ
read_u16 (some be) o = read_u16_be o
read_u16 (some le) o = read_u16_le o
read_u16 none o = read_u16_le o

-- The cases of the switch that go on to `parseGlobalHeader`.
unfoldable pub classic_variant : Control → Endianness → Bool → Step
classic_variant c e nanosecond =
    more
      (record c {
        file_format = some pcap;
        endianness = some e;
        timestamp_nanosecond = nanosecond;
        phase = global_header;
      })
      0 []

-- The switch on the magic number. Its hexadecimal text has the digits of the big-endian number.
unfoldable pub detect_magic : Control → ℕ → Step
unfolding classic_variant
detect_magic c magic =
    if magic == 0xa1b2c3d4
    then classic_variant c be false
    else if magic == 0xd4c3b2a1
    then classic_variant c le false
    else if magic == 0xa1b23c4d
    then classic_variant c be true
    else if magic == 0x4d3cb2a1
    then classic_variant c le true
    else if magic == 0x0a0d0d0a
    then more (record c { file_format = some pcapng; phase = ng_block }) 0 []
    else fail c (unknown_magic_number magic)

unfoldable pub detect_format : Control → List ℕ → Step
detect_format c b =
    if ltb (length b) 4 then wait c else on_read c (read_u32_be 0 b) (detect_magic c)

unfoldable pub read_global_header : Option Endianness → Read GlobalHeader
read_global_header e = do
  magic ← read_u32 e 0
  major ← read_u16 e 4
  minor ← read_u16 e 6
  gmt ← read_u32 e 8
  accuracy ← read_u32 e 12
  snapshot ← read_u32 e 16
  link ← read_u32 e 20
  pure (record {
    magic_number = magic;
    major_version = major;
    minor_version = minor;
    gmt_offset = signed32 gmt;
    timestamp_accuracy = accuracy;
    snapshot_length = snapshot;
    link_layer_type = link;
  })

unfoldable pub accept_global_header : Control → GlobalHeader → Step
accept_global_header c h =
    if not (h.major_version == 2)
    then fail c (unsupported_version h.major_version h.minor_version)
    else more (record c { phase = packet_header; offset = pcap_global_header_length })
        pcap_global_header_length (on_global_header h ∷ [])

unfoldable pub parse_global_header : Control → List ℕ → Step
parse_global_header c b =
    if leb pcap_global_header_length (length b)
    then on_read c (read_global_header c.endianness b) (accept_global_header c)
    else wait c

unfoldable pub read_packet_header : Option Endianness → Bool → Read RecordHeader
read_packet_header e nanosecond = do
  fraction ← read_u32 e 4
  seconds ← read_u32 e 0
  captured ← read_u32 e 8
  original ← read_u32 e 12
  pure (record {
    timestamp_seconds = seconds;
    timestamp_microseconds = if nanosecond then fraction / 1000 else fraction;
    timestamp_nanoseconds = if nanosecond then fraction else fraction * 1000;
    captured_length = captured;
    original_length = original;
  })

unfoldable pub accept_packet_header : Control → RecordHeader → Step
accept_packet_header c h =
    if ltb max_captured_length h.captured_length
    then fail c (captured_length_exceeds h.captured_length)
    else more
        (record c { current_packet_header = some h; phase = packet_body; index = c.index + 1 })
        pcap_packet_header_length (on_packet_header h ∷ [])

unfoldable pub parse_packet_header : Control → List ℕ → Step
parse_packet_header c b =
    if leb pcap_packet_header_length (length b)
    then on_read c (read_packet_header c.endianness c.timestamp_nanosecond b)
        (accept_packet_header c)
    else wait c

-- `toString('base64')` is the Buffer's own encoder: a parameter.
module _ (base64 : List ℕ → String) where
  unfoldable pub packet_info : Control → RecordHeader → List ℕ → PacketInfo
  packet_info c h body = record {
    index = c.index;
    offset = c.offset;
    length = pcap_packet_header_length + length body;
    record_header_offset = c.offset;
    record_header_length = pcap_packet_header_length;
    packet_offset = c.offset + pcap_packet_header_length;
    packet_length = length body;
    seconds = h.timestamp_seconds;
    microseconds = h.timestamp_microseconds;
    nanoseconds = h.timestamp_nanoseconds;
    packet = base64 body;
  }

  unfoldable pub emit_packet_body : Control → RecordHeader → List ℕ → Step
  emit_packet_body c h body =
      more
        (record c {
          phase = packet_header;
          offset = c.offset + (pcap_packet_header_length + length body);
        })
        h.captured_length (on_packet_data body ∷ on_packet (packet_info c h body) ∷ [])

  -- Without a packet header the read of `capturedLength` throws a TypeError.
  unfoldable pub parse_packet_body : Control → List ℕ → Step
  parse_packet_body c b = on_read c c.current_packet_header λ h.
      if leb h.captured_length (length b)
      then emit_packet_body c h (take h.captured_length b)
      else wait c
