-- ===== src/Pcap/Writer/Generated.antt =====
-- PcapWriter.ts: the file against PcapGenerator.ts, and the parser on it.
use netkitty.Base.{
  ℕ, ◌+◌, ◌*◌, ◌^◌, ◌≤◌, ◌<◌, arith, length, ◌++◌, ◌≡◌, refl, ap, sym, ◌∙◌, false, none, some, List,
  [], ◌∷◌, map, append_assoc,
}
use netkitty.Base.{Option, All, append-nil, Bool}
use Prim.Native.String.{String}
use netkitty.Base.Int.{clamp_zero}
use netkitty.PcapCore.Format.{
  Event, on_packet_header, on_packet_data, on_packet, max_captured_length, pcap, on_global_header,
}
use netkitty.PcapCore.Generator.Stamp.{Number, Packet, Seconds, clamp, concat_bytes, stamp}
use netkitty.PcapCore.Generator.Pcap.{
  generate, generate_pcap_data, generate_records, microseconds_field, pcap_header, seconds_field,
}
use netkitty.PcapCore.Parser.Machine.{Parser, new_parser, returns, write}
use netkitty.PcapCore.RoundTrip.Pcap.{IsCapturable, reports, standard_header, write-generate}
use netkitty.Pcap.Writer.{
  Writer, append_record, file_header, open_writer, packet_of, record_of, write_packet,
  write_packets,
}

concat_bytes-some :
    (a b : Option (List ℕ)) (c : List ℕ)
    → concat_bytes a b ≡ some c
    → (x : List ℕ) × (y : List ℕ) × (a ≡ some x) × (b ≡ some y) × (c ≡ x ++ y)
concat_bytes-some none b c e = cc
concat_bytes-some (some x) none c e = cc
concat_bytes-some (some x) (some y) c e = (x, y, refl, refl, cc)

-- A frame that a capture can hold, with a time that its record can hold.
abbrev pub IsWritable : List ℕ × (ℕ × ℕ) → Type 0
IsWritable x = (length x.0 ≤ max_captured_length) × (x.1.0 < 2 ^ 32) × (x.1.1 < 1000000)

module _ (to_base64 : List ℕ → String) where
  -- What the parser should report of a frame that was written with this time.
  abbrev pub timed_events : ℕ → ℕ → List ℕ → ℕ → ℕ → List Event
  timed_events index offset frame seconds microseconds =
      on_packet_header (record {
        timestamp_seconds = seconds;
        timestamp_microseconds = microseconds;
        timestamp_nanoseconds = microseconds * 1000;
        captured_length = length frame;
        original_length = length frame;
      })
      ∷ on_packet_data frame
      ∷ on_packet (record {
        index = index + 1;
        offset = offset;
        length = 16 + length frame;
        record_header_offset = offset;
        record_header_length = 16;
        packet_offset = offset + 16;
        packet_length = length frame;
        seconds = seconds;
        microseconds = microseconds;
        nanoseconds = microseconds * 1000;
        packet = to_base64 frame;
      })
      ∷ []

  abbrev pub timed_reports : ℕ → ℕ → List (List ℕ × (ℕ × ℕ)) → List Event
  timed_reports index offset [] = []
  timed_reports index offset ((frame, stamp) ∷ xs) =
      timed_events index offset frame stamp.0 stamp.1
      ++ timed_reports (index + 1) (offset + (16 + length frame)) xs

module _ (convert : Number → Seconds) (now : Number) (to_base64 : List ℕ → String) where
  abbrev pub packets_of : List (List ℕ × (ℕ × ℕ)) → List Packet
  packets_of xs = map (λ x. packet_of convert now to_base64 pcap x.0 x.1.0 x.1.1) xs

  one_written :
      (w : Writer) (frame : List ℕ) (seconds microseconds : ℕ) (d : List ℕ)
      → w.closed ≡ false
      → w.format ≡ pcap
      → generate_pcap_data convert (packet_of convert now to_base64 pcap frame seconds microseconds)
        ≡ some d
      → let one = (write_packet convert now to_base64 w frame seconds microseconds).0 in
        (one.file ≡ w.file ++ d) × (one.closed ≡ false) × (one.format ≡ pcap)
  unfolding write_packet record_of append_record
  one_written w frame seconds microseconds d hc hf e = rw (hc, hf, e) (refl, refl, refl)

  records_written :
      (xs : List (List ℕ × (ℕ × ℕ))) (w : Writer) (bytes : List ℕ)
      → w.closed ≡ false
      → w.format ≡ pcap
      → generate_records convert (packets_of xs) ≡ some bytes
      → (write_packets convert now to_base64 w xs).0.file ≡ w.file ++ bytes
  unfolding write_packets generate_records
  records_written [] w bytes hc hf e =
      let none_left : bytes ≡ [] = cc in rw none_left (sym (append-nil w.file))
  records_written ((frame, stamp) ∷ xs) w bytes hc hf e =
      let parts = concat_bytes-some _ _ bytes e in
      let one = one_written w frame stamp.0 stamp.1 parts.0 hc hf parts.2 in
      let w1 = (write_packet convert now to_base64 w frame stamp.0 stamp.1).0 in
      records_written xs w1 parts.1 one.1 one.2 parts.3
      ∙ ap (λ t. t ++ parts.1) one.0
      ∙ append_assoc w.file parts.0 parts.1
      ∙ ap (λ t. w.file ++ t) (sym parts.4)

  -- A writer that is opened on no file writes, packet for packet, the file that the generator makes
  -- of the list of all packets, when the generator accepts them.
  pub write_packets-generate :
      (xs : List (List ℕ × (ℕ × ℕ))) (w : Writer) (include : Option Bool) (bytes : List ℕ)
      → open_writer none none include ≡ some w
      → generate convert (packets_of xs) ≡ some bytes
      → (write_packets convert now to_base64 w xs).0.file ≡ bytes
  unfolding open_writer file_header generate
  write_packets-generate xs w include bytes o e =
      let parts =
        concat_bytes-some (some pcap_header) (generate_records convert (packets_of xs)) bytes e in
      let header : pcap_header ≡ parts.0 = cc parts.2 in
      let opened : w.file ≡ pcap_header = cc in
      let is_open : w.closed ≡ false = cc in
      let is_pcap : w.format ≡ pcap = cc in
      records_written xs w parts.1 is_open is_pcap parts.3
      ∙ ap (λ t. t ++ parts.1) (opened ∙ header)
      ∙ sym parts.4

  seconds_written :
      (frame : List ℕ) (seconds microseconds : ℕ)
      → seconds < 2 ^ 32
      → microseconds < 1000000
      → seconds_field convert (packet_of convert now to_base64 pcap frame seconds microseconds)
        ≡ seconds
  unfolding seconds_field stamp clamp clamp_zero packet_of
  seconds_written frame seconds microseconds hs hm = omega arith

  microseconds_written :
      (frame : List ℕ) (seconds microseconds : ℕ)
      → microseconds < 1000000
      → microseconds_field convert (packet_of convert now to_base64 pcap frame seconds microseconds)
        ≡ microseconds
  unfolding microseconds_field stamp clamp clamp_zero packet_of
  microseconds_written frame seconds microseconds hm = omega arith

  reports_written :
      (xs : List (List ℕ × (ℕ × ℕ))) (index offset : ℕ)
      → All IsWritable xs
      → reports to_base64 convert index offset (packets_of xs)
        ≡ timed_reports to_base64 index offset xs
  unfolding reports packet_of
  reports_written [] index offset all = refl
  reports_written ((frame, stamp) ∷ xs) index offset ((small, s, m), all) =
      let seconds = seconds_written frame stamp.0 stamp.1 s m in
      let microseconds = microseconds_written frame stamp.0 stamp.1 m in
      let rest = reports_written xs (index + 1) (offset + (16 + length frame)) all in
      λ i. timed_events to_base64 index offset frame (seconds i) (microseconds i) ++ rest i

  packets_of-IsCapturable :
      (xs : List (List ℕ × (ℕ × ℕ)))
      → All IsWritable xs
      → All (IsCapturable to_base64 convert) (packets_of xs)
  unfolding packet_of
  packets_of-IsCapturable [] all = tt
  packets_of-IsCapturable (x ∷ xs) ((small, s, m), all) = (small, packets_of-IsCapturable xs all)

  -- What the writer makes of frames that a capture can hold, each with seconds below 2 ^ 32 and
  -- microseconds below a million, is read back: the parser, given the file in one write, reports
  -- each of them at its place, with the seconds and microseconds it was written with, and drains
  -- the file.
  pub write_packets-write :
      (xs : List (List ℕ × (ℕ × ℕ))) (w : Writer) (include : Option Bool)
      → open_writer none none include ≡ some w
      → All IsWritable xs
      → (q : Parser) × (write to_base64 new_parser (write_packets convert now to_base64 w xs).0.file
          ≡ returns q (
              on_global_header (standard_header to_base64 convert)
              ∷ timed_reports to_base64 0 24 xs))
        × (q.buffer ≡ [])
        × (q.control.errored ≡ false)
  write_packets-write xs w include o all =
      let read =
        write-generate to_base64 convert (packets_of xs) (packets_of-IsCapturable xs all) in
      let same = write_packets-generate xs w include read.0 o read.2 in
      let times = reports_written xs 0 24 all in
      let header = on_global_header (standard_header to_base64 convert) in
      (
        read.1,
        ap (write to_base64 new_parser) same
            ∙ read.3
            ∙ ap (λ es. returns read.1 (header ∷ es)) times,
        read.4,
        read.5,
      )
