-- ===== src/PcapCore/Parser/Ng/Waits.antt =====
-- A `parseNgBlock` that waits can be called again with more bytes: what it has set, the byte order
-- of a section header that is not whole yet, is set again.
use netkitty.Base.{ℕ, ◌≡◌, arith, ◌≢◌, some, List, ◌++◌, length-append}
use netkitty.Base.{Option-cases, inl, inr}
use Prim.Native.String.{String}
use netkitty.PcapCore.Bytes.{be, le, read_u32_be, read_u32_be-IsStable}
use netkitty.PcapCore.Format.{Control, wait}
use netkitty.PcapCore.Parser.Classic.{read_u32}
use netkitty.PcapCore.Parser.Ng.{
  ng_section_header, ng_interface_description, accept_packet_block, ng_packet, accept_simple_packet,
  ng_simple_packet, ng_content, ng_typed, ng_total, ng_length, ng_ordered, ng_byte_order,
  ng_section_order, parse_ng_block, ng_emit_packet,
}

module _ (base64 : List ℕ → String) (c' : Control) where
  ng_content-ne-wait :
      (c : Control) (total kind : ℕ) (b : List ℕ) → ng_content base64 c total kind b ≢ wait c'
  unfolding ng_content ng_section_header ng_interface_description ng_packet accept_packet_block
      ng_simple_packet accept_simple_packet ng_emit_packet
  ng_content-ne-wait c total kind b h = ground arith

  ng_total_waits :
      (c : Control) (total : ℕ) (b : List ℕ) → ng_total base64 c total b ≡ wait c' → c' ≡ c
  unfolding ng_total ng_typed
  ng_total_waits c total b h = elim (Option-cases (read_u32 c.endianness 0 b)) [
    | inl e ↦ ground (arith, e)
    | inr (kind, e) ↦ ground (arith, e, ng_content-ne-wait c total kind b)
  ]

  ng_ordered_waits : (c : Control) (b : List ℕ) → ng_ordered base64 c b ≡ wait c' → c' ≡ c
  unfolding ng_ordered ng_length
  ng_ordered_waits c b h = elim (Option-cases (read_u32 c.endianness 4 b)) [
    | inl e ↦ ground (arith, e)
    | inr (total, e) ↦ ground (arith, e, ng_total_waits c total b)
  ]

  ng_section_order_resumes :
      (c : Control) (kind : ℕ) (b x : List ℕ)
      → ng_section_order base64 c kind b ≡ wait c'
      → ng_section_order base64 c' kind (b ++ x) ≡ ng_section_order base64 c kind (b ++ x)
  unfolding ng_section_order ng_byte_order
  ng_section_order_resumes c kind b x h = elim (Option-cases (read_u32_be 8 b)) [
    | inl e ↦ ground (arith, e, ng_ordered_waits c b)
    | inr (magic, e) ↦ ground (
      arith,
      e,
      read_u32_be-IsStable 8 b x magic e,
      ng_ordered_waits c b,
      ng_ordered_waits (record c { endianness = some be }) b,
      ng_ordered_waits (record c { endianness = some le }) b,
    )
  ]

  pub parse_ng_block_waits :
      (c : Control) (b : List ℕ)
      → parse_ng_block base64 c b ≡ wait c'
      → (c'.errored ≡ c.errored) × (c'.phase ≡ c.phase)
  unfolding parse_ng_block ng_section_order ng_byte_order
  parse_ng_block_waits c b h = elim (Option-cases (read_u32_be 0 b)) [
    | inl e ↦ ground (arith, e)
    | inr (kind, e) ↦ elim (Option-cases (read_u32_be 8 b)) [
      | inl e' ↦ ground (arith, e, e', ng_ordered_waits c b)
      | inr (magic, e') ↦ ground (
        arith,
        e,
        e',
        ng_ordered_waits c b,
        ng_ordered_waits (record c { endianness = some be }) b,
        ng_ordered_waits (record c { endianness = some le }) b,
      )
    ]
  ]

  pub parse_ng_block_resumes :
      (c : Control) (b x : List ℕ)
      → parse_ng_block base64 c b ≡ wait c'
      → parse_ng_block base64 c' (b ++ x) ≡ parse_ng_block base64 c (b ++ x)
  unfolding parse_ng_block
  parse_ng_block_resumes c b x h = elim (Option-cases (read_u32_be 0 b)) [
    | inl e ↦ ground (arith, e)
    | inr (kind, e) ↦ ground (
      arith,
      e,
      read_u32_be-IsStable 0 b x kind e,
      length-append b x,
      ng_section_order_resumes c kind b x,
    )
  ]
