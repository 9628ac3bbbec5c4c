-- ===== src/Pcap/Examples/Files.antt =====
-- Concrete files for the patch, the run and the writer.
use netkitty.Base.{ℕ, ◌+◌, ◌*◌, ◌≤◌, ◌≡◌, refl, true, false, none, some}
use netkitty.Base.{List, [], ◌∷◌, All, length, take, drop, replicate, arith, ◌++◌}
use Prim.Native.String.{String}
use netkitty.PcapCore.Format.{PacketInfo, pcap, on_global_header}
use netkitty.PcapCore.Generator.Stamp.{Number, Seconds, whole_number}
use netkitty.PcapCore.Generator.Pcap.{pcap_header}
use netkitty.PcapCore.Bytes.{u16_be_bytes, u32_be_bytes, read_u32_be}
use netkitty.PcapCore.Parser.Machine.{Parser, new_parser, returns, write}
use netkitty.PcapCore.RoundTrip.Pcap.{standard_header}
use netkitty.Pcap.Edit.{Context, Result, context_of, ok}
use netkitty.Pcap.Patch.{patch_in_place, patch_in_place-writes}
use netkitty.Pcap.Run.{run_over}
use netkitty.Pcap.Run.Counts.{run_over-reports}
use netkitty.Pcap.Writer.{Writer, open_writer, write_packets}
use netkitty.Pcap.Writer.Located.{AllLocate, write_packets-AllLocate}
use netkitty.Pcap.Writer.Generated.{IsWritable, timed_reports, write_packets-write}
use netkitty.Pcap.Examples.{info_at, three_frames}

abbrev plain_file : List ℕ
plain_file = replicate 30 9

patches : (patch_in_place plain_file (info_at 1 10) (replicate 4 1)).1 ≡ none
unfolding patch_in_place read_u32_be
patches = refl

patch_in_place-writes_example :
    (length (patch_in_place plain_file (info_at 1 10) (replicate 4 1)).0 ≡ 30)
    × (take 16 (patch_in_place plain_file (info_at 1 10) (replicate 4 1)).0 ≡ take 16 plain_file)
    × (take 4 (drop 16 (patch_in_place plain_file (info_at 1 10) (replicate 4 1)).0)
        ≡ replicate 4 1)
    × (drop (16 + 4) (patch_in_place plain_file (info_at 1 10) (replicate 4 1)).0
        ≡ drop (16 + 4) plain_file)
patch_in_place-writes_example =
    patch_in_place-writes plain_file (info_at 1 10) (replicate 4 1) (omega arith) patches

-- Each frame is kept.
abbrev keeping : Unit {0} → List ℕ → PacketInfo → Result (List Context) × Unit {0}
keeping s frame info = (ok (context_of frame info ∷ []), s)

kept : (run_over keeping true 1 60 tt three_frames).result ≡ ok (record { read = 3; written = 3 })
unfolding run_over
kept = refl

run_over-reports_example : length (run_over keeping true 1 60 tt three_frames).reports * 1 ≤ 101 + 1
run_over-reports_example = run_over-reports 1 keeping true 60 tt three_frames

abbrev encoded : List ℕ → String
encoded b = ""

abbrev no_convert : Number → Seconds
no_convert n = record { seconds = n; microseconds = n }

abbrev at_once : Number
at_once = whole_number 0

abbrev written_frames : List (List ℕ × (ℕ × ℕ))
written_frames = (1 ∷ 2 ∷ 3 ∷ [], (5, 7)) ∷ (4 ∷ [], (6, 0)) ∷ []

abbrev fresh_writer : Writer
fresh_writer = record {
  file = pcap_header;
  closed = false;
  index = 0;
  offset = 24;
  include_packet_data = true;
  format = pcap;
}

header_long : 24 ≡ length pcap_header
unfolding pcap_header u32_be_bytes u16_be_bytes
header_long = refl

opened : open_writer none none none ≡ some fresh_writer
unfolding open_writer pcap_header u32_be_bytes u16_be_bytes
opened = refl

write_packets-AllLocate_example :
    let done = write_packets no_convert at_once encoded fresh_writer written_frames in
    (done.0.offset ≡ length done.0.file)
    × ((more : List ℕ) × (done.0.file ≡ pcap_header ++ more))
    × AllLocate done.0.file written_frames done.1
write_packets-AllLocate_example =
    write_packets-AllLocate no_convert at_once encoded fresh_writer written_frames header_long

frames_fit : All IsWritable written_frames
frames_fit =
    ((omega arith, omega arith, omega arith), ((omega arith, omega arith, omega arith), tt))

write_packets-write_example :
    (q : Parser) × (write encoded new_parser
        (write_packets no_convert at_once encoded fresh_writer written_frames).0.file
      ≡ returns q (
          on_global_header (standard_header encoded no_convert)
          ∷ timed_reports encoded 0 24 written_frames))
    × (q.buffer ≡ [])
    × (q.control.errored ≡ false)
write_packets-write_example =
    write_packets-write no_convert at_once encoded written_frames fresh_writer none opened
      frames_fit
