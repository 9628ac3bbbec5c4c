-- ===== src/PcapCore/Parser/Classic/Steady.antt =====
-- Detection and the classic methods decide the same on more bytes, and wait with unchanged fields.
use netkitty.Base.{ℕ, ◌≡◌, arith, Bool, Option, none, some, List, ◌++◌, take-append}
use Prim.Native.String.{String}
use netkitty.PcapCore.Bytes.{
  Endianness, be, le, IsStable, pure-IsStable, bind-IsStable, read_u16_be-IsStable,
  read_u16_le-IsStable, read_u32_be-IsStable, read_u32_le-IsStable,
}
use netkitty.PcapCore.Format.{Control, wait}
use netkitty.PcapCore.Parser.Steady.{Agrees, same, Agrees-on_read, Agrees-enough, Agrees-short}
use netkitty.PcapCore.Parser.Classic.{
  read_u32, read_u16, detect_magic, detect_format, read_global_header, accept_global_header,
  parse_global_header, read_packet_header, accept_packet_header, parse_packet_header,
  emit_packet_body, parse_packet_body,
}

pub read_u32-IsStable : (e : Option Endianness) (o : ℕ) → IsStable (read_u32 e o)
unfolding read_u32
read_u32-IsStable (some be) o = read_u32_be-IsStable o
read_u32-IsStable (some le) o = read_u32_le-IsStable o
read_u32-IsStable none o = read_u32_le-IsStable o

pub read_u16-IsStable : (e : Option Endianness) (o : ℕ) → IsStable (read_u16 e o)
unfolding read_u16
read_u16-IsStable (some be) o = read_u16_be-IsStable o
read_u16-IsStable (some le) o = read_u16_le-IsStable o
read_u16-IsStable none o = read_u16_le-IsStable o

read_global_header-IsStable : (e : Option Endianness) → IsStable (read_global_header e)
unfolding read_global_header
read_global_header-IsStable e = bind-IsStable _ _ (read_u32-IsStable e 0) λ magic.
    bind-IsStable _ _ (read_u16-IsStable e 4) λ major.
      bind-IsStable _ _ (read_u16-IsStable e 6) λ minor.
        bind-IsStable _ _ (read_u32-IsStable e 8) λ gmt.
          bind-IsStable _ _ (read_u32-IsStable e 12) λ accuracy.
            bind-IsStable _ _ (read_u32-IsStable e 16)
              λ snapshot. bind-IsStable _ _ (read_u32-IsStable e 20) λ link. pure-IsStable _

read_packet_header-IsStable :
    (e : Option Endianness) (nanosecond : Bool) → IsStable (read_packet_header e nanosecond)
unfolding read_packet_header
read_packet_header-IsStable e nanosecond = bind-IsStable _ _ (read_u32-IsStable e 4) λ fraction.
    bind-IsStable _ _ (read_u32-IsStable e 0) λ seconds.
      bind-IsStable _ _ (read_u32-IsStable e 8)
        λ captured. bind-IsStable _ _ (read_u32-IsStable e 12) λ original. pure-IsStable _

module _ (c : Control) (b x : List ℕ) where
  pub detect_format-Agrees : Agrees (detect_format c b) (detect_format c (b ++ x))
  unfolding detect_format
  detect_format-Agrees =
      Agrees-short b x c 4 _ _
        λ enough. Agrees-on_read b x c _ _ _ (read_u32_be-IsStable 0) (λ magic. same _)

  pub parse_global_header-Agrees : Agrees (parse_global_header c b) (parse_global_header c (b ++ x))
  unfolding parse_global_header
  parse_global_header-Agrees =
      Agrees-enough b x c 24 _ _ λ enough.
        Agrees-on_read b x c _ _ _ (read_global_header-IsStable c.endianness) (λ h. same _)

  pub parse_packet_header-Agrees : Agrees (parse_packet_header c b) (parse_packet_header c (b ++ x))
  unfolding parse_packet_header
  parse_packet_header-Agrees = Agrees-enough b x c 16 _ _ λ enough.
      Agrees-on_read b x c _ _ _ (read_packet_header-IsStable c.endianness c.timestamp_nanosecond)
        (λ h. same _)

  pub parse_packet_body-Agrees :
      (base64 : List ℕ → String)
      → Agrees (parse_packet_body base64 c b) (parse_packet_body base64 c (b ++ x))
  unfolding parse_packet_body
  parse_packet_body-Agrees base64 =
      Agrees-on_read b x c (λ bytes. c.current_packet_header) _ _ (λ bytes more h found. found)
        λ h.
          Agrees-enough b x c h.captured_length _ _
            λ enough. rw (take-append h.captured_length b x enough) (same _)

-- A method that waits leaves the fields as they are.
module _ (c c' : Control) (b : List ℕ) where
  pub detect_format_waits : detect_format c b ≡ wait c' → c' ≡ c
  unfolding detect_format detect_magic
  detect_format_waits h = ground arith

  pub parse_global_header_waits : parse_global_header c b ≡ wait c' → c' ≡ c
  unfolding parse_global_header accept_global_header
  parse_global_header_waits h = ground arith

  pub parse_packet_header_waits : parse_packet_header c b ≡ wait c' → c' ≡ c
  unfolding parse_packet_header accept_packet_header
  parse_packet_header_waits h = ground arith

  pub parse_packet_body_waits :
      (base64 : List ℕ → String) → parse_packet_body base64 c b ≡ wait c' → c' ≡ c
  unfolding parse_packet_body emit_packet_body
  parse_packet_body_waits base64 h = ground arith
