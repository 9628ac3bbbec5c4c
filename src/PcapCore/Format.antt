-- ===== src/PcapCore/Format.antt =====
-- packages/pcap-core/src/PcapParserCore.ts, its constants and types, and
-- packages/pcap-core/src/interfaces/IPcapPacketInfo.ts. A callback of PcapParserCoreHandlers is an
-- event, and an Error is a constructor with the values that its message prints.
use netkitty.Base.{ℕ, ◌+◌, Bool, Option, none, some, List, []}
use netkitty.Base.Int.{ℤ}
use Prim.Native.String.{String}
use netkitty.PcapCore.Bytes.{Endianness}

abbrev pub pcap_global_header_length : ℕ
pcap_global_header_length = 24

abbrev pub pcap_packet_header_length : ℕ
pcap_packet_header_length = 16

abbrev pub pcapng_epb_header_length : ℕ
pcapng_epb_header_length = 28

abbrev pub pcapng_spb_header_length : ℕ
pcapng_spb_header_length = 12

abbrev pub max_captured_length : ℕ
max_captured_length = 262144

abbrev pub max_block_length : ℕ
max_block_length = max_captured_length + 4096

abbrev pub block_section_header : ℕ
block_section_header = 0x0a0d0d0a

abbrev pub block_interface_description : ℕ
block_interface_description = 1

abbrev pub block_obsolete_packet : ℕ
block_obsolete_packet = 2

abbrev pub block_simple_packet : ℕ
block_simple_packet = 3

abbrev pub block_enhanced_packet : ℕ
block_enhanced_packet = 6

pub data TimestampBase : Type 0 where
  base_10 base_2 : TimestampBase

pub record NgInterface : Type 0 where
  pub link_layer_type : ℕ
  pub snapshot_length : ℕ
  pub timestamp_base : TimestampBase
  pub timestamp_exponent : ℕ

pub data FileFormat : Type 0 where
  pcap pcapng : FileFormat

pub record GlobalHeader : Type 0 where
  pub magic_number : ℕ
  pub major_version : ℕ
  pub minor_version : ℕ
  pub gmt_offset : ℤ
  pub timestamp_accuracy : ℕ
  pub snapshot_length : ℕ
  pub link_layer_type : ℕ

pub record SectionHeader : Type 0 where
  pub major_version : ℕ
  pub minor_version : ℕ

pub record RecordHeader : Type 0 where
  pub timestamp_seconds : ℕ
  pub timestamp_microseconds : ℕ
  pub timestamp_nanoseconds : ℕ
  pub captured_length : ℕ
  pub original_length : ℕ

pub record PacketInfo : Type 0 where
  pub index : ℕ
  pub offset : ℕ
  pub length : ℕ
  pub record_header_offset : ℕ
  pub record_header_length : ℕ
  pub packet_offset : ℕ
  pub packet_length : ℕ
  pub seconds : ℕ
  pub microseconds : ℕ
  pub nanoseconds : ℕ
  pub packet : String

pub data ParseError : Type 0 where
  unknown_magic_number : ℕ → ParseError
  unsupported_version : ℕ → ℕ → ParseError
  captured_length_exceeds : ℕ → ParseError
  unknown_byte_order_magic : ℕ → ParseError
  block_before_section_header : ParseError
  invalid_block_total_length : ℕ → ParseError
  block_length_exceeds : ℕ → ParseError
  captured_length_does_not_fit : ℕ → ℕ → ParseError
  simple_packet_length_invalid : ℤ → ParseError

pub data Event : Type 0 where
  on_global_header : GlobalHeader → Event
  on_section_header : SectionHeader → Event
  on_packet_header : RecordHeader → Event
  on_packet_data : List ℕ → Event
  on_packet : PacketInfo → Event
  on_end : Event
  on_error : ParseError → Event

-- `this.state`, which holds the method that runs next.
pub data Phase : Type 0 where
  detecting_format global_header packet_header packet_body ng_block : Phase

-- The fields of PcapParserCore other than `buffer` and `handlers`.
pub record Control : Type 0 where
  pub errored : Bool
  pub endianness : Option Endianness
  pub index : ℕ
  pub phase : Phase
  pub offset : ℕ
  pub file_format : Option FileFormat
  pub timestamp_nanosecond : Bool
  pub ng_interfaces : List NgInterface
  pub current_packet_header : Option RecordHeader

-- What one call of `state()` does. It reads `this.buffer`, and writes it only by `subarray(n)`:
-- `more c n es` returns true after it drops `n` bytes; `wait c` returns false; `fail c e` is the
-- call of `fail`, on the fields `c`; `fault c es` is an exception after the events `es`.
pub data Step : Type 0 where
  more : Control → ℕ → List Event → Step
  wait : Control → Step
  fail : Control → ParseError → Step
  fault : Control → List Event → Step

-- Going on with a value that was read; a read out of range is an exception that leaves the fields
-- as they are.
abbrev pub on_read : {A : Type 0} → Control → Option A → (A → Step) → Step
on_read c none k = fault c []
on_read c (some a) k = k a
