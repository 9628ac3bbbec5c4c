-- ===== src/Pcap/Writer.antt =====
-- packages/pcap/src/PcapWriter.ts: the writer over its file, which is the list of its bytes.
pub mod Located
pub mod Generated
use netkitty.Base.{ℕ, ◌+◌, ◌*◌, ◌++◌, Bool, true, false, Option, none, some, List, [], ◌∷◌, length}
use netkitty.Base.{if◌then◌else◌}
use Prim.Native.String.{String}
use mathlib.Core.Option
use netkitty.PcapCore.Format.{FileFormat, PacketInfo, pcap, pcapng}
use netkitty.PcapCore.Generator.Stamp.{Number, Packet, Seconds, concat_bytes, whole_number}
use netkitty.PcapCore.Generator.Pcap.{generate_pcap_data, pcap_header}
use netkitty.PcapCore.Generator.Pcapng.{enhanced_packet, interface_description, section_header}

pub record Writer : Type 0 where
  pub file : List ℕ
  pub closed : Bool
  pub index : ℕ
  pub offset : ℕ
  pub include_packet_data : Bool
  pub format : FileFormat

-- A missing format is pcap.
unfoldable pub format_of : Option FileFormat → FileFormat
format_of none = pcap
format_of (some f) = f

-- `options.includePacketData !== false`
unfoldable pub includes : Option Bool → Bool
includes none = true
includes (some b) = b

unfoldable pub file_header : FileFormat → Option (List ℕ)
file_header pcap = some pcap_header
file_header pcapng =
    concat_bytes (some section_header)
      (interface_description (record { link_layer_type = none; snapshot_length = none }))

-- The constructor, on the file of that name where it exists: a new file gets the header, which
-- sets the offset, and an old one is appended to.
unfoldable pub open_writer : Option (List ℕ) → Option FileFormat → Option Bool → Option Writer
unfolding format_of includes file_header
open_writer none format include =
    Option.map
      (λ header. record {
        file = header;
        closed = false;
        index = 0;
        offset = 0 + length header;
        include_packet_data = includes include;
        format = format_of format;
      })
      (file_header (format_of format))
open_writer (some old) format include = some (record {
  file = old;
  closed = false;
  index = 0;
  offset = 0 + length old;
  include_packet_data = includes include;
  format = format_of format;
})

-- `wroteCount`
unfoldable pub wrote_count : Writer → ℕ
wrote_count w = w.index

abbrev pub header_length : FileFormat → ℕ
header_length pcap = 16
header_length pcapng = 28

-- What a call of `write` does: nothing after `close`, an exception of the generator, or a packet
-- event with its information.
pub data Written : Type 0 where
  ignored threw : Written
  wrote : PacketInfo → Written

-- `Date.now()`, the timestamp conversion of the generators and Buffer's base64 are parameters.
module _ (convert : Number → Seconds) (now : Number) (to_base64 : List ℕ → String) where
  -- The argument of the generator.
  unfoldable pub packet_of : FileFormat → List ℕ → ℕ → ℕ → Packet
  packet_of f frame seconds microseconds = record {
    buffer = frame;
    timestamp = elim f [ pcap ↦ some now | pcapng ↦ none ];
    microsecond =
        some (record { seconds = whole_number seconds; microseconds = whole_number microseconds });
    interface_id = none;
  }

  unfoldable pub record_of : FileFormat → Packet → Option (List ℕ)
  record_of pcap p = generate_pcap_data convert p
  record_of pcapng p = enhanced_packet convert p

  unfoldable pub wrote_info : Writer → List ℕ → List ℕ → ℕ → ℕ → PacketInfo
  wrote_info w frame record_data seconds microseconds = record {
    index = w.index;
    offset = w.offset;
    length = length record_data;
    record_header_offset = w.offset;
    record_header_length = header_length w.format;
    packet_offset = w.offset + header_length w.format;
    packet_length = length frame;
    seconds = seconds;
    microseconds = microseconds;
    nanoseconds = microseconds * 1000;
    packet = if w.include_packet_data then to_base64 frame else "";
  }

  append_record : Writer → List ℕ → ℕ → ℕ → Option (List ℕ) → Writer × Written
  unfolding wrote_info
  append_record w frame seconds microseconds none = (w, threw)
  append_record w frame seconds microseconds (some record_data) = (
    record w { file = w.file ++ record_data; offset = w.offset + length record_data },
    wrote (wrote_info w frame record_data seconds microseconds),
  )

  unfoldable pub write_packet : Writer → List ℕ → ℕ → ℕ → Writer × Written
  unfolding append_record packet_of record_of
  write_packet w frame seconds microseconds =
      if w.closed
      then (w, ignored)
      else append_record (record w { index = w.index + 1 }) frame seconds microseconds
          (record_of w.format (packet_of w.format frame seconds microseconds))

  -- One packet after the other, with what each call did.
  unfoldable pub write_packets : Writer → List (List ℕ × (ℕ × ℕ)) → Writer × List Written
  unfolding write_packet
  write_packets w [] = (w, [])
  write_packets w ((frame, stamp) ∷ rest) =
      let one = write_packet w frame stamp.0 stamp.1 in
      let more = write_packets one.0 rest in (more.0, one.1 ∷ more.1)

unfoldable pub close : Writer → Writer
close w = record w { closed = true }
