-- ===== src/PcapCore/Parser/Classic/Moves.antt =====
-- What the classic methods drop when they go on, and the phase that they leave.
use netkitty.Base.{ℕ, ◌≤◌, ◌≡◌, ◌⊎◌, arith, List, length}
use Prim.Native.String.{String}
use netkitty.PcapCore.Format.{
  Control, Event, more, global_header, packet_header, packet_body, ng_block,
}
use netkitty.PcapCore.Parser.Classic.{
  detect_magic, detect_format, accept_global_header, parse_global_header, accept_packet_header,
  parse_packet_header, emit_packet_body, parse_packet_body,
}

module _ (c : Control) (b : List ℕ) {c' : Control} {n : ℕ} {es : List Event} where
  pub detect_format_moves :
      detect_format c b ≡ more c' n es
      → (n ≡ 0) × (c'.errored ≡ c.errored) × ((c'.phase ≡ global_header) ⊎ (c'.phase ≡ ng_block))
  unfolding detect_format detect_magic
  detect_format_moves h = ground arith

  pub parse_global_header_moves :
      parse_global_header c b ≡ more c' n es
      → (n ≡ 24) × (n ≤ length b) × (c'.errored ≡ c.errored) × (c'.phase ≡ packet_header)
  unfolding parse_global_header accept_global_header
  parse_global_header_moves h = ground arith

  pub parse_packet_header_moves :
      parse_packet_header c b ≡ more c' n es
      → (n ≡ 16) × (n ≤ length b) × (c'.errored ≡ c.errored) × (c'.phase ≡ packet_body)
  unfolding parse_packet_header accept_packet_header
  parse_packet_header_moves h = ground arith

  pub parse_packet_body_moves :
      (base64 : List ℕ → String)
      → parse_packet_body base64 c b ≡ more c' n es
      → (n ≤ length b) × (c'.errored ≡ c.errored) × (c'.phase ≡ packet_header)
  unfolding parse_packet_body emit_packet_body
  parse_packet_body_moves base64 h = ground arith
