-- ===== src/Pcap/Reader.antt =====
-- packages/pcap/src/PcapReader.ts over the parser of packages/pcap/src/PcapParser.ts, which passes the
-- chunks of its stream on to the core. node:zlib is a parameter, `none` where it throws.
pub mod Whole
use netkitty.Base.{
  ℕ, zero, suc, ◌+◌, ◌-◌, min, ◌==◌, ◌&&◌, Bool, true, false, Option, none, some, List,
}
use netkitty.Base.{[], ◌∷◌, length, take, drop, get_or, leb, if◌then◌else◌}
use Prim.Native.String.{String}
use netkitty.PcapCore.Bytes.{read_u32_be}
use netkitty.PcapCore.Format.{Event, PacketInfo, on_packet}
use netkitty.PcapCore.Lz4.{lz4_frame_decompress}
use netkitty.PcapCore.Parser.Machine.{Written, new_parser, write_all}

-- `chunkSize`, which is 15180 where the option is missing or 0.
unfoldable pub chunk_size_of : Option ℕ → ℕ
chunk_size_of none = 15180
chunk_size_of (some zero) = 15180
chunk_size_of (some (suc n)) = suc n

-- The bytes that the reader walks: those of the file, or what was made of them. A compressed file
-- that is corrupt has an error in their place.
pub data Source : Type 0 where
  plain decompressed : List ℕ → Source
  corrupt : Source

source_of : Option (List ℕ) → Source
source_of none = corrupt
source_of (some bytes) = decompressed bytes

is_word : Option ℕ → ℕ → Bool
is_word none m = false
is_word (some w) m = w == m

unfoldable pub load_source : (List ℕ → Option (List ℕ)) → List ℕ → Source
unfolding source_of is_word
load_source gunzip file =
    let magic = take 4 file in
    if leb 2 (length magic) && (get_or magic 0 0 == 0x1f && get_or magic 1 0 == 0x8b)
    then source_of (gunzip file)
    else if leb 4 (length magic) && is_word (read_u32_be 0 magic) 0x04224d18
    then source_of (lz4_frame_decompress file)
    else plain file

unfoldable pub bytes_of : Source → List ℕ
bytes_of (plain bytes) = bytes
bytes_of (decompressed bytes) = bytes
bytes_of corrupt = []

-- `totalBytes` of the file `file`: a source without a decompressed stream has the file's size.
unfoldable pub total_bytes : List ℕ → Source → ℕ
total_bytes file (plain bytes) = length file
total_bytes file (decompressed bytes) = length bytes
total_bytes file corrupt = length file

-- `readBuffer`: the chunk at an offset, and none at the end.
unfoldable pub read_buffer : ℕ → List ℕ → ℕ → Option (List ℕ)
read_buffer size bytes offset =
    if leb (length bytes) offset then none else some (take size (drop offset bytes))

-- The loop of `straightRead`; a chunk is not empty, so as many rounds as there are bytes are enough.
unfoldable pub straight_read : ℕ → ℕ → List ℕ → ℕ → List (List ℕ)
unfolding read_buffer
straight_read zero size bytes offset = []
straight_read (suc fuel) size bytes offset = elim (read_buffer size bytes offset) [
  | none ↦ []
  | some chunk ↦ chunk ∷ straight_read fuel size bytes (offset + length chunk)
]

unfoldable pub chunks_of : Option ℕ → List ℕ → List (List ℕ)
unfolding straight_read chunk_size_of
chunks_of size bytes = straight_read (length bytes) (chunk_size_of size) bytes 0

-- What the parser does with the stream.
unfoldable pub parse_source : (List ℕ → String) → Option ℕ → List ℕ → Written
unfolding chunks_of
parse_source base64 size bytes = write_all base64 new_parser (chunks_of size bytes)

-- `readPacketData`
unfoldable pub read_packet_data : List ℕ → PacketInfo → List ℕ
read_packet_data bytes info =
    if info.packet_length == 0 then [] else take info.packet_length (drop info.packet_offset bytes)

-- The packets of the parser's events.
unfoldable pub packets_of : List Event → List PacketInfo
packets_of [] = []
packets_of (on_packet info ∷ es) = info ∷ packets_of es
packets_of (_ ∷ es) = packets_of es

-- `onPacketChain`: the handler takes the packets in order, and none after it has thrown, which
-- `onPacketErrored` records.
unfoldable pub packet_chain :
    {S : Type 0} → (S → PacketInfo → S × Bool) → List PacketInfo → S → Bool → S × Bool
packet_chain handler [] s errored = (s, errored)
packet_chain handler (info ∷ rest) s true = packet_chain handler rest s true
packet_chain handler (info ∷ rest) s false =
    let done = handler s info in packet_chain handler rest done.0 done.1
