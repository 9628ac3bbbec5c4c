-- ===== src/PcapCore/Generator/Pcap.antt =====
-- packages/pcap-core/src/PcapGenerator.ts. A write of a value that does not fit its field throws a
-- RangeError, which is `none`.
use netkitty.Base.{ℕ, ◌+◌, ◌/◌, ◌%◌, ◌^◌, Option, none, some, List, [], ◌∷◌, ◌++◌}
use netkitty.Base.{length, ltb}
use netkitty.Base.{map, if◌then◌else◌}
use Prim.Native.String.{String}
use netkitty.PcapCore.Bytes.{u16_be_bytes, u32_be_bytes}
use netkitty.PcapCore.Generator.Stamp.{
  Number, Seconds, Packet, InputPacket, clamp, stamp, concat_bytes,
}

-- `headerOptions`, the big-endian magic number first.
unfoldable pub pcap_header : List ℕ
pcap_header =
    u32_be_bytes 0xa1b2c3d4
    ++ (u16_be_bytes 2
        ++ (u16_be_bytes 4
            ++ (u32_be_bytes 0 ++ (u32_be_bytes 0 ++ (u32_be_bytes 65535 ++ u32_be_bytes 1)))))

module _ (convert : Number → Seconds) where
  -- The fields of a record's header: the microseconds carry into the seconds, which wrap.
  unfoldable pub seconds_field : Packet → ℕ
  seconds_field p =
      (clamp (stamp convert p).seconds + clamp (stamp convert p).microseconds / 1000000) % 2 ^ 32

  unfoldable pub microseconds_field : Packet → ℕ
  microseconds_field p = clamp (stamp convert p).microseconds % 1000000

  unfoldable pub record_bytes : Packet → List ℕ
  record_bytes p =
      u32_be_bytes (seconds_field p)
      ++ (u32_be_bytes (microseconds_field p)
          ++ (u32_be_bytes (length p.buffer) ++ (u32_be_bytes (length p.buffer) ++ p.buffer)))

  unfoldable pub generate_pcap_data : Packet → Option (List ℕ)
  generate_pcap_data p = if ltb (length p.buffer) (2 ^ 32) then some (record_bytes p) else none

  unfoldable pub generate_records : List Packet → Option (List ℕ)
  generate_records [] = some []
  generate_records (p ∷ ps) = concat_bytes (generate_pcap_data p) (generate_records ps)

  -- `generate`
  unfoldable pub generate : List Packet → Option (List ℕ)
  generate ps = concat_bytes (some pcap_header) (generate_records ps)

  -- `GeneratePCAP`: `Buffer.from(text, 'base64')` is Node's, a parameter.
  module _ (from_base64 : String → List ℕ) where
    input_packet : InputPacket → Packet
    input_packet q = record {
      buffer = from_base64 q.frame_base64_data;
      timestamp = q.timestamp;
      microsecond = q.microsecond;
      interface_id = none;
    }

    unfoldable pub generate_pcap : List InputPacket → Option (List ℕ)
    unfolding input_packet
    generate_pcap qs = generate (map input_packet qs)
