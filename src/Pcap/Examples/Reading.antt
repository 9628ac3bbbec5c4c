-- ===== src/Pcap/Examples/Reading.antt =====
-- A concrete capture for the reader.
use netkitty.Base.{ℕ, ◌≡◌, refl, some, List, [], ◌∷◌, flatten}
use Prim.Native.String.{String}
use netkitty.PcapCore.Bytes.{read_u16_be, read_u32_be}
use netkitty.PcapCore.Format.{Event}
use netkitty.PcapCore.Parser.Machine.{
  Parser, Written, emit_before, new_parser, returns, run, spins, step, step_in, throws, write,
  write_all,
}
use netkitty.PcapCore.Parser.Machine.Seen.{seen}
use netkitty.PcapCore.Parser.Classic.{
  accept_global_header, accept_packet_header, classic_variant, detect_format, detect_magic,
  emit_packet_body, packet_info, parse_global_header, parse_packet_body, parse_packet_header,
  read_global_header, read_packet_header, read_u16, read_u32,
}
use netkitty.Pcap.Reader.{chunks_of, parse_source}
use netkitty.Pcap.Reader.Whole.{parse_source-write}

abbrev encoded : List ℕ → String
encoded bytes = ""

-- A capture of one frame of one byte.
abbrev capture : List ℕ
capture =
    0xa1 ∷ 0xb2 ∷ 0xc3 ∷ 0xd4 ∷ 0 ∷ 2 ∷ 0 ∷ 4 ∷ 0 ∷ 0 ∷ 0 ∷ 0 ∷ 0 ∷ 0 ∷ 0 ∷ 0 ∷ 0 ∷ 0 ∷ 0xff ∷ 0xff
    ∷ 0 ∷ 0 ∷ 0 ∷ 1 ∷ 0 ∷ 0 ∷ 0 ∷ 5 ∷ 0 ∷ 0 ∷ 0 ∷ 6 ∷ 0 ∷ 0 ∷ 0 ∷ 1 ∷ 0 ∷ 0 ∷ 0 ∷ 1 ∷ 7 ∷ []

abbrev parser_of : Written → Parser
parser_of (returns p es) = p
parser_of (throws p es) = p
parser_of spins = new_parser

abbrev events_of : Written → List Event
events_of (returns p es) = es
events_of (throws p es) = es
events_of spins = []

abbrev outcome : Written
outcome = parse_source encoded (some 10) capture

parses : outcome ≡ returns (parser_of outcome) (events_of outcome)
unfolding parse_source write_all write run step step_in emit_before detect_format detect_magic
    classic_variant parse_global_header read_global_header read_u32 read_u16 accept_global_header
    parse_packet_header read_packet_header accept_packet_header parse_packet_body emit_packet_body
    packet_info read_u16_be read_u32_be
parses = refl

parse_source-write_example :
    (flatten (chunks_of (some 10) capture) ≡ capture)
    × (seen (write encoded new_parser capture)
        ≡ seen (returns (parser_of outcome) (events_of outcome)))
parse_source-write_example =
    parse_source-write encoded (some 10) capture (parser_of outcome) (events_of outcome) parses
