-- ===== src/PcapCore/Generator/Pcapng.antt =====
-- packages/pcap-core/src/PcapngGenerator.ts. A write of a value that does not fit its field throws a
-- RangeError, which is `none`.
use netkitty.Base.{ℕ, ◌+◌, ◌-◌, ◌*◌, ◌/◌, ◌%◌, ◌^◌, ◌&&◌, ◌==◌, Option, none, some, List, []}
use netkitty.Base.{◌∷◌, ◌++◌, length, ltb, replicate, if◌then◌else◌, map}
use Prim.Native.String.{String}
use netkitty.PcapCore.Bytes.{u16_le_bytes, u32_le_bytes}
use netkitty.PcapCore.Generator.Stamp.{
  Number, Seconds, Packet, InputPacket, clamp, stamp, concat_bytes,
}

pub record PcapngOptions : Type 0 where
  pub link_layer_type : Option ℕ
  pub snapshot_length : Option ℕ

-- `??`
or_default : Option ℕ → ℕ → ℕ
or_default none d = d
or_default (some n) d = n

unfoldable pub pad_to_4 : List ℕ → List ℕ
pad_to_4 b = if length b % 4 == 0 then b else b ++ replicate (4 - length b % 4) 0

pub section_header : List ℕ
section_header =
    u32_le_bytes 0x0a0d0d0a
    ++ (u32_le_bytes 28
        ++ (u32_le_bytes 0x1a2b3c4d
            ++ (u16_le_bytes 1
                ++ (u16_le_bytes 0
                    ++ (u32_le_bytes 0xffffffff ++ (u32_le_bytes 0xffffffff ++ u32_le_bytes 28))))))

pub interface_bytes : ℕ → ℕ → List ℕ
interface_bytes link snapshot =
    u32_le_bytes 1
    ++ (u32_le_bytes 20
        ++ (u16_le_bytes link ++ (u16_le_bytes 0 ++ (u32_le_bytes snapshot ++ u32_le_bytes 20))))

pub interface_description : PcapngOptions → Option (List ℕ)
unfolding or_default
interface_description o =
    let link = or_default o.link_layer_type 1 in
    let snapshot = or_default o.snapshot_length 262144 in
    if ltb link (2 ^ 16) && ltb snapshot (2 ^ 32)
    then some (interface_bytes link snapshot)
    else none

module _ (convert : Number → Seconds) where
  -- Microseconds since the epoch, in a counter of 64 bits that is written as two words.
  pub ticks : Packet → ℕ
  ticks p = clamp (stamp convert p).seconds * 1000000 + clamp (stamp convert p).microseconds

  pub block_length : Packet → ℕ
  block_length p = 28 + length (pad_to_4 p.buffer) + 4

  pub packet_interface : Packet → ℕ
  unfolding or_default
  packet_interface p = or_default p.interface_id 0

  unfoldable pub block_bytes : Packet → List ℕ
  block_bytes p =
      u32_le_bytes 6
      ++ (u32_le_bytes (block_length p)
          ++ (u32_le_bytes (packet_interface p)
              ++ (u32_le_bytes (ticks p / 2 ^ 32 % 2 ^ 32)
                  ++ (u32_le_bytes (ticks p % 2 ^ 32)
                      ++ (u32_le_bytes (length p.buffer)
                          ++ (u32_le_bytes (length p.buffer)
                              ++ (pad_to_4 p.buffer ++ u32_le_bytes (block_length p))))))))

  unfoldable pub enhanced_packet : Packet → Option (List ℕ)
  enhanced_packet p =
      if ltb (block_length p) (2 ^ 32) && ltb (packet_interface p) (2 ^ 32)
      then some (block_bytes p)
      else none

  pub enhanced_packets : List Packet → Option (List ℕ)
  enhanced_packets [] = some []
  enhanced_packets (p ∷ ps) = concat_bytes (enhanced_packet p) (enhanced_packets ps)

  -- `GeneratePcapng`: `Buffer.from(text, 'base64')` is Node's, a parameter.
  module _ (from_base64 : String → List ℕ) where
    input_packet : InputPacket → Packet
    input_packet q = record {
      buffer = from_base64 q.frame_base64_data;
      timestamp = q.timestamp;
      microsecond = q.microsecond;
      interface_id = q.interface_id;
    }

    pub generate_pcapng : List InputPacket → PcapngOptions → Option (List ℕ)
    unfolding input_packet
    generate_pcapng qs o =
        concat_bytes (some section_header)
          (concat_bytes (interface_description o) (enhanced_packets (map input_packet qs)))
