-- ===== src/Codec/Examples.antt =====
-- Concrete headers, bit fields and handlers for the theorems of the codec.
pub mod Fields
pub mod Numerals
pub mod Packets
use netkitty.Base.{
  ℕ, ◌+◌, ◌*◌, ◌%◌, ◌^◌, ◌≡◌, ◌≤◌, arith, refl, inl, inr, true, false, Option, none, some,
}
use netkitty.Base.{List, [], ◌∷◌, ◌++◌, ltb, if◌then◌else◌, replicate}
use netkitty.Base.Int.{ℤ, pos, negsuc}
use netkitty.Base.Sort.{sort, insert}
use netkitty.Codec.Header.{
  CodecData, Header, PostHandlerItem, expand, fill, grown, logical_length, read_end, read_raw,
  track, changed_length, trim, trimmed, write_bytes,
}
use netkitty.Codec.Header.Writes.{Holds, trim-write_all, write_all}
use netkitty.Codec.Header.Padding.{over, reach}
use netkitty.Codec.Bits.{
  as_number, double_loop, field_at, number_from, read_bits, rounded, to_double, wrap, write_bits,
  octets, overlay, with_field,
}
use netkitty.Codec.Bits.Fields.{read_bits-write_bits, read_bits-write_bits_beside}
use netkitty.Codec.Handlers.{
  process_packet_decode_post_handlers, process_packet_encode_post_handlers, sort_post_handlers,
}
use netkitty.Codec.Handlers.Order.{
  AllRanked, closures, inward, outward, process_packet_post_handlers_order,
}

-- A packet of four bytes behind which a header starts at its third.
abbrev packet_data : CodecData ℕ
packet_data = record {
  packet = 1 ∷ 2 ∷ 0x45 ∷ 4 ∷ [];
  packet_length = none;
  start_pos = 2;
  post_handlers = [];
}

abbrev header : Header
header = record { start_pos = 2; header_length = 0; byte_ranges = none; current_field_path = [] }

packet_data-Holds : Holds packet_data (1 ∷ 2 ∷ 0x45 ∷ 4 ∷ []) 0
unfolding logical_length
packet_data-Holds = record { padded = refl; measured = refl }

abbrev two_writes : List (ℕ × List ℕ)
two_writes = (4, 9 ∷ 8 ∷ []) ∷ (0, 7 ∷ []) ∷ []

trim-write_all_example :
    ((trim (write_all two_writes packet_data header).0).packet ≡ 1 ∷ 2 ∷ 7 ∷ 4 ∷ 0 ∷ 0 ∷ 9 ∷ 8 ∷ [])
    × ((write_all two_writes packet_data header).1.header_length ≡ 6)
trim-write_all_example =
    trim-write_all two_writes 0 (1 ∷ 2 ∷ 0x45 ∷ 4 ∷ []) packet_data header packet_data-Holds

-- The lower half of an octet is set to -2, in four bits.
read_bits-write_bits_example :
    (let s = write_bits 0 1 4 4 (negsuc 1) packet_data header in read_bits 0 1 4 4 s.0 s.1).1 ≡ 14
unfolding wrap
read_bits-write_bits_example =
    read_bits-write_bits 0 1 4 4 0 (negsuc 1) (1 ∷ 2 ∷ 0x45 ∷ 4 ∷ []) packet_data header
      packet_data-Holds (omega arith) (omega arith) (omega arith)

-- The upper half of the octet stays 4.
read_bits-write_bits_beside_example :
    (let s = write_bits 0 1 4 4 (negsuc 1) packet_data header in read_bits 0 1 0 4 s.0 s.1).1 ≡ 4
unfolding read_bits field_at read_raw read_end logical_length number_from
read_bits-write_bits_beside_example =
    read_bits-write_bits_beside 0 1 4 4 0 4 0 (negsuc 1) (1 ∷ 2 ∷ 0x45 ∷ 4 ∷ []) packet_data header
      packet_data-Holds (omega arith) (omega arith) (omega arith) (omega arith) (inl (omega arith))

abbrev item : ℕ → ℕ → PostHandlerItem ℕ
item priority handler = record { priority = priority; handler = handler }

-- Two headers with handlers, and one without between them.
abbrev handlers : List (Option (List (PostHandlerItem ℕ)))
handlers = some (item 2 20 ∷ item 1 10 ∷ item 1 11 ∷ []) ∷ none ∷ some (item 0 30 ∷ []) ∷ []

process_packet_post_handlers_order_example :
    (rs : List (List (PostHandlerItem ℕ))) × AllRanked handlers rs
    × (closures (process_packet_decode_post_handlers handlers) ≡ outward rs)
    × (closures (process_packet_encode_post_handlers handlers) ≡ inward rs)
process_packet_post_handlers_order_example = process_packet_post_handlers_order handlers

-- A field of 64 bits is read as a double.
wide_field_test : field_at 8 0 64 (replicate 8 255) ≡ 2 ^ 64
unfolding field_at number_from as_number to_double double_loop rounded
wide_field_test = refl
