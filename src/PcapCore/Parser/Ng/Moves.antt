-- ===== src/PcapCore/Parser/Ng/Moves.antt =====
-- A block that `parseNgBlock` accepts is whole, is dropped, and moves the offset by its length.
use netkitty.Base.{ℕ, ◌+◌, ◌≤◌, ◌≡◌, arith, some, List, length}
use netkitty.Base.{Option-cases, inl, inr}
use Prim.Native.String.{String}
use netkitty.PcapCore.Bytes.{be, le, read_u32_be}
use netkitty.PcapCore.Parser.Classic.{read_u32}
use netkitty.PcapCore.Format.{Control, Event, more}
use netkitty.PcapCore.Parser.Ng.{
  ng_section_header, ng_interface_description, accept_packet_block, ng_packet, accept_simple_packet,
  ng_simple_packet, ng_content, ng_typed, ng_total, ng_length, ng_ordered, ng_byte_order,
  ng_section_order, parse_ng_block, ng_emit_packet,
}

-- How a call that goes on changes the fields: the phase and the error mark
-- stay, and the offset counts the block.
pub record Moves (c c' : Control) (n : ℕ) : Type 0 where
  pub phase : c'.phase ≡ c.phase
  pub offset : c'.offset ≡ c.offset + n
  pub errored : c'.errored ≡ c.errored

module _ (base64 : List ℕ → String) {c' : Control} {n : ℕ} {es : List Event} where
  ng_content-Moves :
      (c : Control) (total kind : ℕ) (b : List ℕ)
      → ng_content base64 c total kind b ≡ more c' n es
      → (n ≡ total) × Moves c c' n
  unfolding ng_content ng_section_header ng_interface_description ng_packet accept_packet_block
      ng_simple_packet accept_simple_packet ng_emit_packet
  ng_content-Moves c total kind b h = ground arith

  ng_total-Moves :
      (c : Control) (total : ℕ) (b : List ℕ)
      → ng_total base64 c total b ≡ more c' n es
      → (12 ≤ n) × (n ≤ length b) × Moves c c' n
  unfolding ng_total ng_typed
  ng_total-Moves c total b h = elim (Option-cases (read_u32 c.endianness 0 b)) [
    | inl e ↦ ground (arith, e)
    | inr (kind, e) ↦ ground (arith, e, ng_content-Moves c total kind b)
  ]

  ng_ordered-Moves :
      (c : Control) (b : List ℕ)
      → ng_ordered base64 c b ≡ more c' n es
      → (12 ≤ n) × (n ≤ length b) × Moves c c' n
  unfolding ng_ordered ng_length
  ng_ordered-Moves c b h = elim (Option-cases (read_u32 c.endianness 4 b)) [
    | inl e ↦ ground (arith, e)
    | inr (total, e) ↦ ground (arith, e, ng_total-Moves c total b)
  ]

  ng_section_order-Moves :
      (c : Control) (kind : ℕ) (b : List ℕ)
      → ng_section_order base64 c kind b ≡ more c' n es
      → (12 ≤ n) × (n ≤ length b) × Moves c c' n
  unfolding ng_section_order ng_byte_order
  ng_section_order-Moves c kind b h = elim (Option-cases (read_u32_be 8 b)) [
    | inl e ↦ ground (arith, e, ng_ordered-Moves c b)
    | inr (magic, e) ↦ ground (
      arith,
      e,
      ng_ordered-Moves c b,
      ng_ordered-Moves (record c { endianness = some be }) b,
      ng_ordered-Moves (record c { endianness = some le }) b,
    )
  ]

  pub parse_ng_block-Moves :
      (c : Control) (b : List ℕ)
      → parse_ng_block base64 c b ≡ more c' n es
      → (12 ≤ n) × (n ≤ length b) × Moves c c' n
  unfolding parse_ng_block
  parse_ng_block-Moves c b h = elim (Option-cases (read_u32_be 0 b)) [
    | inl e ↦ ground (arith, e)
    | inr (kind, e) ↦ ground (arith, e, ng_section_order-Moves c kind b)
  ]
