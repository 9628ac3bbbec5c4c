-- ===== src/PcapCore/Parser/Ng/Steady.antt =====
-- `parseNgBlock` decides the same on more bytes, and can be called again after it has waited.
use netkitty.Base.{ℕ, zero, suc, ◌+◌, ◌-◌, ◌%◌, ◌≤◌, ◌≡◌, refl, arith, Bool, true, false, ◌||◌}
use netkitty.Base.{Option, none, some, List, [], ◌++◌, take-append, drop-append, length-drop}
use netkitty.Base.{ltb, ◌==◌, length, take, drop, if◌then◌else◌, not}
use Prim.Native.String.{String}
use netkitty.PcapCore.Bytes.{
  Read, Endianness, IsStable, pure-IsStable, bind-IsStable, read_u8-IsStable, read_u32_be-IsStable,
}
use netkitty.PcapCore.Format.{
  Control, NgInterface, Step, max_captured_length, max_block_length, block_section_header,
  block_interface_description, block_enhanced_packet, block_obsolete_packet, block_simple_packet,
}
use netkitty.PcapCore.Parser.Steady.{Agrees, same, Agrees-on_read, Agrees-short}
use netkitty.PcapCore.Parser.Classic.Steady.{read_u32-IsStable, read_u16-IsStable}
use netkitty.PcapCore.Parser.Ng.{
  parse_resolution, options_loop, parse_interface_options, read_section_header, ng_section_header,
  read_interface, ng_interface_description, PacketBlock, read_packet_block, accept_packet_block,
  ng_packet, simple_captured_length, accept_simple_packet, ng_simple_packet, ng_content, ng_typed,
  ng_total, ng_length, ng_ordered, ng_byte_order, ng_section_order, parse_ng_block, finish,
}

if-IsStable :
    {A : Type 0} (t : Bool) (r r' : Read A)
    → IsStable r
    → IsStable r'
    → IsStable (if t then r else r')
if-IsStable true r r' h h' = h
if-IsStable false r r' h h' = h'

parse_resolution-IsStable :
    (code size position end : ℕ) (i : NgInterface)
    → IsStable (parse_resolution code size position end i)
unfolding parse_resolution
parse_resolution-IsStable code size position end i =
    if-IsStable _ _ _ (bind-IsStable _ _ (read_u8-IsStable (position + 4)) (λ raw. pure-IsStable _))
      (pure-IsStable i)

options_loop-IsStable :
    (e : Option Endianness) (fuel position end : ℕ) (i : NgInterface)
    → IsStable (options_loop e fuel position end i)
unfolding options_loop
options_loop-IsStable e zero position end i = pure-IsStable i
options_loop-IsStable e (suc fuel) position end i =
    if-IsStable _ _ _
      (bind-IsStable _ _ (read_u16-IsStable e position) λ code.
        bind-IsStable _ _ (read_u16-IsStable e (position + 2)) λ size.
          if-IsStable _ _ _ (pure-IsStable i) (
            bind-IsStable _ _ (parse_resolution-IsStable code size position end i)
              λ i'. options_loop-IsStable e fuel _ end i'))
      (pure-IsStable i)

read_section_header-IsStable : (e : Option Endianness) → IsStable (read_section_header e)
unfolding read_section_header
read_section_header-IsStable e =
    bind-IsStable _ _ (read_u16-IsStable e 12)
      λ major. bind-IsStable _ _ (read_u16-IsStable e 14) λ minor. pure-IsStable _

read_interface-IsStable : (e : Option Endianness) (total : ℕ) → IsStable (read_interface e total)
unfolding read_interface parse_interface_options
read_interface-IsStable e total =
    bind-IsStable _ _ (read_u16-IsStable e 8) λ link.
      bind-IsStable _ _ (read_u32-IsStable e 12) λ snapshot. options_loop-IsStable e _ 16 _ _

read_packet_block-IsStable :
    (e : Option Endianness) (enhanced : Bool) → IsStable (read_packet_block e enhanced)
unfolding read_packet_block
read_packet_block-IsStable e enhanced =
    bind-IsStable _ _ (if-IsStable enhanced _ _ (read_u32-IsStable e 8) (read_u16-IsStable e 8))
      λ id. bind-IsStable _ _ (read_u32-IsStable e 12) λ high.
        bind-IsStable _ _ (read_u32-IsStable e 16) λ low.
          bind-IsStable _ _ (read_u32-IsStable e 20)
            λ captured. bind-IsStable _ _ (read_u32-IsStable e 24) λ original. pure-IsStable _

-- Data that lies inside the block is the same with more bytes behind it.
take_inside :
    (n k : ℕ) (b x : List ℕ) → k + n ≤ length b → take n (drop k (b ++ x)) ≡ take n (drop k b)
take_inside n k b x h =
    rw (drop-append k b x (omega arith))
      (take-append n (drop k b) x (omega (arith, length-drop k b)))

if-Agrees :
    (t : Bool) (r r' s s' : Step)
    → Agrees r s
    → Agrees r' s'
    → Agrees (if t then r else r') (if t then s else s')
if-Agrees true r r' s s' h h' = h
if-Agrees false r r' s s' h h' = h'

-- The second branch may use that the test failed.
else-Agrees :
    (t : Bool) (r s s' : Step)
    → (t ≡ false → Agrees s s')
    → Agrees (if t then r else s) (if t then r else s')
else-Agrees true r s s' h = same r
else-Agrees false r s s' h = h refl

simple_captured_length-le :
    (c : Control) (total original : ℕ) → simple_captured_length c total original ≤ total - 12 - 4
unfolding simple_captured_length
simple_captured_length-le c total original = omega arith

module _ (base64 : List ℕ → String) (c : Control) (b x : List ℕ) where
  ng_section_header-Agrees :
      (total : ℕ) → Agrees (ng_section_header c total b) (ng_section_header c total (b ++ x))
  unfolding ng_section_header
  ng_section_header-Agrees total =
      Agrees-on_read b x _ _ _ _ (read_section_header-IsStable c.endianness) (λ h. same _)

  ng_interface_description-Agrees :
      (total : ℕ)
      → Agrees (ng_interface_description c total b) (ng_interface_description c total (b ++ x))
  unfolding ng_interface_description
  ng_interface_description-Agrees total =
      Agrees-on_read b x c _ _ _ (read_interface-IsStable c.endianness total) (λ i. same _)

  accept_packet_block-Agrees :
      (total : ℕ) (p : PacketBlock)
      → total ≤ length b
      → 12 ≤ total
      → Agrees
          (accept_packet_block base64 c total p b)
          (accept_packet_block base64 c total p (b ++ x))
  unfolding accept_packet_block
  accept_packet_block-Agrees total p whole h =
      else-Agrees
        (ltb max_captured_length p.captured_length || ltb (total - 4) (28 + p.captured_length)) _ _
        _ λ fits. rw (take_inside p.captured_length 28 b x (ground arith)) (same _)

  ng_packet-Agrees :
      (total : ℕ) (enhanced : Bool)
      → total ≤ length b
      → 12 ≤ total
      → Agrees (ng_packet base64 c total enhanced b) (ng_packet base64 c total enhanced (b ++ x))
  unfolding ng_packet
  ng_packet-Agrees total enhanced whole h =
      Agrees-on_read b x c _ _ _ (read_packet_block-IsStable c.endianness enhanced)
        (λ p. accept_packet_block-Agrees total p whole h)

  accept_simple_packet-Agrees :
      (total original : ℕ)
      → total ≤ length b
      → Agrees
          (accept_simple_packet base64 c total original b)
          (accept_simple_packet base64 c total original (b ++ x))
  unfolding accept_simple_packet
  accept_simple_packet-Agrees total original whole = else-Agrees (ltb total 16) _ _ _ λ long.
      else-Agrees (ltb max_captured_length (simple_captured_length c total original)) _ _ _ λ small.
        rw (take_inside (simple_captured_length c total original) 12 b x (fits long)) (same _)
    where
      fits : ltb total 16 ≡ false → 12 + simple_captured_length c total original ≤ length b
      fits long = ground (arith, simple_captured_length-le c total original)

  ng_simple_packet-Agrees :
      (total : ℕ)
      → total ≤ length b
      → Agrees (ng_simple_packet base64 c total b) (ng_simple_packet base64 c total (b ++ x))
  unfolding ng_simple_packet
  ng_simple_packet-Agrees total whole =
      Agrees-on_read b x c _ _ _ (read_u32-IsStable c.endianness 8)
        (λ original. accept_simple_packet-Agrees total original whole)

  ng_content-Agrees :
      (total kind : ℕ)
      → total ≤ length b
      → 12 ≤ total
      → Agrees (ng_content base64 c total kind b) (ng_content base64 c total kind (b ++ x))
  unfolding ng_content
  ng_content-Agrees total kind whole h =
      if-Agrees (kind == block_section_header) _ _ _ _ (ng_section_header-Agrees total) (
        if-Agrees (kind == block_interface_description) _ _ _ _
          (ng_interface_description-Agrees total)
          (if-Agrees (kind == block_enhanced_packet) _ _ _ _ (ng_packet-Agrees total true whole h) (
            if-Agrees (kind == block_obsolete_packet) _ _ _ _ (ng_packet-Agrees total false whole h)
              (if-Agrees (kind == block_simple_packet) _ _ _ _ (ng_simple_packet-Agrees total whole)
                (same (finish c total []))))))

  ng_total-Agrees :
      (total : ℕ) → Agrees (ng_total base64 c total b) (ng_total base64 c total (b ++ x))
  unfolding ng_total ng_typed
  ng_total-Agrees total = else-Agrees (ltb total 12 || not (total % 4 == 0)) _ _ _ λ legal.
      else-Agrees (ltb max_block_length total) _ _ _ λ sane. Agrees-short b x c total _ _ λ whole.
        Agrees-on_read b x c _ _ _ (read_u32-IsStable c.endianness 0)
          (λ kind. ng_content-Agrees total kind whole (ground arith))

some-Agrees :
    {A : Type 0} (o : Option A) (r s s' : Step)
    → Agrees s s'
    → Agrees (elim o [ none ↦ r | some _ ↦ s ]) (elim o [ none ↦ r | some _ ↦ s' ])
some-Agrees none r s s' h = same r
some-Agrees (some a) r s s' h = h

module _ (base64 : List ℕ → String) (b x : List ℕ) where
  ng_ordered-Agrees : (c : Control) → Agrees (ng_ordered base64 c b) (ng_ordered base64 c (b ++ x))
  unfolding ng_ordered ng_length
  ng_ordered-Agrees c =
      some-Agrees c.endianness _ _ _ (
        Agrees-on_read b x c _ _ _ (read_u32-IsStable c.endianness 4)
          (ng_total-Agrees base64 c b x))

  ng_byte_order-Agrees :
      (c : Control) (magic : ℕ)
      → Agrees (ng_byte_order base64 c magic b) (ng_byte_order base64 c magic (b ++ x))
  unfolding ng_byte_order
  ng_byte_order-Agrees c magic =
      if-Agrees (magic == 0x1a2b3c4d) _ _ _ _ (ng_ordered-Agrees _)
        (if-Agrees (magic == 0x4d3c2b1a) _ _ _ _ (ng_ordered-Agrees _) (same _))

  ng_section_order-Agrees :
      (c : Control) (kind : ℕ)
      → Agrees (ng_section_order base64 c kind b) (ng_section_order base64 c kind (b ++ x))
  unfolding ng_section_order
  ng_section_order-Agrees c kind =
      if-Agrees (kind == block_section_header) _ _ _ _
        (Agrees-on_read b x c _ _ _ (read_u32_be-IsStable 8) (ng_byte_order-Agrees c))
        (ng_ordered-Agrees c)

  pub parse_ng_block-Agrees :
      (c : Control) → Agrees (parse_ng_block base64 c b) (parse_ng_block base64 c (b ++ x))
  unfolding parse_ng_block
  parse_ng_block-Agrees c =
      Agrees-short b x c 12 _ _
        λ enough. Agrees-on_read b x c _ _ _ (read_u32_be-IsStable 0) (ng_section_order-Agrees c)
