-- ===== src/PcapCore/Examples.antt =====
-- Runs of packages/pcap-core/src on small files.
use netkitty.Base.{true}
use netkitty.Base.{ℕ, ◌+◌, ◌≤◌, ◌≡◌, ◌≢◌, refl, arith, false, none, some}
use netkitty.Base.{List, [], ◌∷◌, length, take, flatten, All}
use Prim.Native.String.{String}
use netkitty.PcapCore.Bytes.{be, read_u16_be, read_u32_be}
use netkitty.PcapCore.Format.{on_global_header, packet_header, pcap}
use netkitty.PcapCore.Parser.Machine.{
  Parser, new_parser, new_control, write, write_all, returns, spins, run, step, step_in,
  emit_before,
}
use netkitty.PcapCore.Parser.Machine.Seen.{seen}
use netkitty.PcapCore.Parser.Machine.Chunks.{write_all-flatten}
use netkitty.PcapCore.Parser.Machine.Progress.{write-ne-spins}
use netkitty.PcapCore.Parser.Classic.{
  detect_format, detect_magic, classic_variant, parse_global_header, read_global_header, read_u32,
  read_u16, accept_global_header, parse_packet_header,
}
use netkitty.PcapCore.Generator.Stamp.{Number, Seconds, Packet, whole_number}
use netkitty.PcapCore.Generator.Pcap.{generate}
use netkitty.PcapCore.RoundTrip.Pcap.{IsCapturable, standard_header, reports, write-generate}
use netkitty.PcapCore.Lz4.{lz4_frame_decompress, decode_block, block_loop}
use netkitty.PcapCore.Lz4.Stored.{StoredFrame, stored_frame, lz4_frame_decompress-stored_frame}
use netkitty.PcapCore.Lz4.Rounds.{decode_block-bounded}

abbrev no_convert : Number → Seconds
no_convert t = record { seconds = t; microseconds = whole_number 0 }

abbrev encoded : List ℕ → String
encoded bytes = "frame"

abbrev first_half : List ℕ
first_half = 0xa1 ∷ 0xb2 ∷ 0xc3 ∷ 0xd4 ∷ 0 ∷ 2 ∷ 0 ∷ 4 ∷ 0 ∷ 0 ∷ []

abbrev second_half : List ℕ
second_half = 0 ∷ 0 ∷ 0 ∷ 0 ∷ 0 ∷ 0 ∷ 0 ∷ 0 ∷ 0xff ∷ 0xff ∷ 0 ∷ 0 ∷ 0 ∷ 1 ∷ 7 ∷ []

abbrev header_read : Parser
header_read = record {
  control = record new_control {
    endianness = some be;
    phase = packet_header;
    offset = 24;
    file_format = some pcap;
  };
  buffer = 7 ∷ [];
}

two_chunks :
    write_all encoded new_parser (first_half ∷ second_half ∷ [])
    ≡ returns header_read (on_global_header (standard_header encoded no_convert) ∷ [])
unfolding write_all write run step step_in emit_before detect_format detect_magic classic_variant
    parse_global_header read_global_header read_u32 read_u16 accept_global_header
    parse_packet_header read_u16_be read_u32_be
two_chunks = refl

-- The file's header in two chunks, and in one.
write_all-flatten_example :
    seen (write encoded new_parser (flatten (first_half ∷ second_half ∷ [])))
    ≡ seen (returns header_read (on_global_header (standard_header encoded no_convert) ∷ []))
write_all-flatten_example =
    write_all-flatten encoded new_parser first_half (second_half ∷ []) two_chunks

write-ne-spins_example : write encoded new_parser first_half ≢ spins
write-ne-spins_example = write-ne-spins encoded new_parser first_half

abbrev packet : Packet
packet = record {
  buffer = 1 ∷ 2 ∷ 3 ∷ [];
  timestamp = none;
  microsecond = some (record { seconds = whole_number 5; microseconds = whole_number 2000001 });
  interface_id = none;
}

packets-IsCapturable : All (IsCapturable encoded no_convert) (packet ∷ [])
packets-IsCapturable = (omega arith, tt)

-- The file of a packet, generated and parsed.
write-generate_example :
    (bytes : List ℕ) × (q : Parser) × (generate no_convert (packet ∷ []) ≡ some bytes)
    × (write encoded new_parser bytes
        ≡ returns q (
            on_global_header (standard_header encoded no_convert)
            ∷ reports encoded no_convert 0 24 (packet ∷ [])))
    × (q.buffer ≡ [])
    × (q.control.errored ≡ false)
write-generate_example = write-generate encoded no_convert (packet ∷ []) packets-IsCapturable

-- A frame with a content size, checksums of its blocks, and a checksum behind the end mark.
abbrev checked_frame : StoredFrame
checked_frame = record {
  flags = record {
    independent = true;
    block_checksum = true;
    content_size = true;
    content_checksum = true;
    dictionary = false;
  };
  descriptor = 0x40;
  announced = 3 ∷ 0 ∷ 0 ∷ 0 ∷ 0 ∷ 0 ∷ 0 ∷ 0 ∷ [];
  header_checksum = 0xc0;
  blocks = (1 ∷ 2 ∷ [], 9 ∷ 9 ∷ 9 ∷ 9 ∷ []) ∷ (3 ∷ [], 8 ∷ 8 ∷ 8 ∷ 8 ∷ []) ∷ [];
  tail = 7 ∷ 7 ∷ 7 ∷ 7 ∷ [];
}

lz4_frame_decompress-stored_frame_example :
    lz4_frame_decompress (stored_frame checked_frame) ≡ some (1 ∷ 2 ∷ 3 ∷ [])
lz4_frame_decompress-stored_frame_example =
    lz4_frame_decompress-stored_frame checked_frame refl
      ((omega arith, refl), ((omega arith, refl), tt))

abbrev literal_block : List ℕ
literal_block = 0x20 ∷ 5 ∷ 6 ∷ []

decode_block-bounded_example :
    (length (decode_block literal_block 0 3 64) ≤ 64)
    × (decode_block literal_block 0 3 64 ≡ take 64 (block_loop (2 + 3) literal_block 3 0 []))
decode_block-bounded_example = decode_block-bounded literal_block 0 3 64 2
