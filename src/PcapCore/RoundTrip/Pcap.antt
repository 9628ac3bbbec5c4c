-- ===== src/PcapCore/RoundTrip/Pcap.antt =====
-- packages/pcap-core/src/PcapGenerator.ts against PcapParserCore.ts.
use netkitty.Base.{ℕ, zero, suc, ◌+◌, ◌*◌, ◌^◌, ◌≤◌, ◌<◌, ◌≡◌, refl, ap, ◌∙◌, arith}
use netkitty.Base.{false, some, List, [], ◌∷◌, ◌++◌, length, drop}
use netkitty.Base.{take_front, drop_front, length-append, All, le→leb, le→ltb-false, lt→ltb}
use netkitty.Base.Int.{pos}
use Prim.Native.String.{String}
use netkitty.PcapCore.Bytes.{be, ◌>>=◌, read_u32_be, read_u16_be, u32_be_bytes}
use netkitty.PcapCore.Bytes.RoundTrip.{read_u32_be-at}
use netkitty.PcapCore.Format.{
  RecordHeader, PacketInfo, GlobalHeader, Control, Event, on_packet_header, on_packet_data,
  on_packet, on_global_header, packet_header, packet_body, global_header, pcap, more, wait,
  max_captured_length,
}
use netkitty.PcapCore.Parser.Classic.{
  read_u16, read_global_header, accept_global_header, parse_global_header, detect_format,
  detect_magic, classic_variant, read_u32, read_packet_header, accept_packet_header,
  parse_packet_header, parse_packet_body, emit_packet_body, packet_info,
}
use netkitty.PcapCore.Parser.Machine.Progress.{rank, rank-le, run_more, run_wait, run_fuel}
use netkitty.PcapCore.Parser.Machine.Seen.{emit_before-emit_before}
use netkitty.PcapCore.Parser.Machine.{
  Parser, new_control, new_parser, Written, returns, emit_before, step, step_in, run, write,
}
use netkitty.PcapCore.Generator.Stamp.{Number, Seconds, Packet}
use netkitty.PcapCore.Generator.Pcap.{
  seconds_field, microseconds_field, record_bytes, pcap_header, generate_pcap_data,
  generate_records, generate,
}

-- A parser between two records of a file of the generator's kind.
record IsReading (c : Control) : Type 0 where
  phase : c.phase ≡ packet_header
  order : c.endianness ≡ some be
  micro : c.timestamp_nanosecond ≡ false

module _ (s us cap orig : ℕ) (rest : List ℕ) where
  abbrev header_bytes : List ℕ
  header_bytes =
      u32_be_bytes s ++ (u32_be_bytes us ++ (u32_be_bytes cap ++ (u32_be_bytes orig ++ rest)))

  read_packet_header-at :
      read_packet_header (some be) false header_bytes
      ≡ some (record {
        timestamp_seconds = s;
        timestamp_microseconds = us;
        timestamp_nanoseconds = us * 1000;
        captured_length = cap;
        original_length = orig;
      })
  unfolding read_packet_header read_u32
  read_packet_header-at = rw (
    ◌>>=◌,
    read_u32_be-at 4 us header_bytes _ refl,
    read_u32_be-at 0 s header_bytes _ refl,
    read_u32_be-at 8 cap header_bytes _ refl,
    read_u32_be-at 12 orig header_bytes rest refl,
  )

module _ (base64 : List ℕ → String) (convert : Number → Seconds) where
  -- What the parser should report of a packet: its record's header, its data, and where they stand.
  abbrev pub packet_record : Packet → RecordHeader
  packet_record p = record {
    timestamp_seconds = seconds_field convert p;
    timestamp_microseconds = microseconds_field convert p;
    timestamp_nanoseconds = microseconds_field convert p * 1000;
    captured_length = length p.buffer;
    original_length = length p.buffer;
  }

  abbrev pub packet_report : ℕ → ℕ → Packet → PacketInfo
  packet_report index offset p = record {
    index = index;
    offset = offset;
    length = 16 + length p.buffer;
    record_header_offset = offset;
    record_header_length = 16;
    packet_offset = offset + 16;
    packet_length = length p.buffer;
    seconds = seconds_field convert p;
    microseconds = microseconds_field convert p;
    nanoseconds = microseconds_field convert p * 1000;
    packet = base64 p.buffer;
  }

  abbrev pub record_events : ℕ → ℕ → Packet → List Event
  record_events index offset p =
      on_packet_header (packet_record p)
      ∷ on_packet_data p.buffer
      ∷ on_packet (packet_report (index + 1) offset p)
      ∷ []

  unfoldable pub reports : ℕ → ℕ → List Packet → List Event
  reports index offset [] = []
  reports index offset (p ∷ ps) =
      record_events index offset p ++ reports (index + 1) (offset + (16 + length p.buffer)) ps

  abbrev after_header : Control → Packet → Control
  after_header c p = record c {
    current_packet_header = some (packet_record p);
    phase = packet_body;
    index = c.index + 1;
  }

  abbrev after_record : Control → Packet → Control
  after_record c p = record c {
    current_packet_header = some (packet_record p);
    phase = packet_header;
    index = c.index + 1;
    offset = c.offset + (16 + length p.buffer);
  }

  module _ (c : Control) (p : Packet) (rest : List ℕ) where
    header_step :
        IsReading c
        → length p.buffer ≤ max_captured_length
        → step base64 c (record_bytes convert p ++ rest)
          ≡ more (after_header c p) 16 (on_packet_header (packet_record p) ∷ [])
    unfolding step step_in parse_packet_header accept_packet_header record_bytes
    header_step r small = rw (
      r.phase,
      r.order,
      r.micro,
      read_packet_header-at (seconds_field convert p) (microseconds_field convert p)
          (length p.buffer) (length p.buffer) (p.buffer ++ rest),
      le→leb 16 (length (record_bytes convert p ++ rest)) (omega arith),
      le→ltb-false max_captured_length (length p.buffer) small,
    )

    body_step :
        step base64 (after_header c p) (p.buffer ++ rest)
        ≡ more
            (after_record c p)
            (length p.buffer)
            (on_packet_data p.buffer ∷ on_packet (packet_report (c.index + 1) c.offset p) ∷ [])
    unfolding step step_in parse_packet_body emit_packet_body packet_info
    body_step = rw (
      le→leb (length p.buffer) (length (p.buffer ++ rest))
          (omega (arith, length-append p.buffer rest)),
      take_front p.buffer rest,
    )

  -- The records of a file, one after another.
  abbrev all_records : List Packet → List ℕ
  all_records [] = []
  all_records (p ∷ ps) = record_bytes convert p ++ all_records ps

  abbrev pub IsCapturable : Packet → Type 0
  IsCapturable p = length p.buffer ≤ max_captured_length

  emit_before_returns :
      (es : List Event) (q : Parser) (fs : List Event)
      → emit_before es (returns q fs) ≡ returns q (es ++ fs)
  unfolding emit_before
  emit_before_returns es q fs = refl

  -- The parser has used up its input and goes on waiting.
  record Reads (c : Control) (w : Written) (es : List Event) : Type 0 where
    parser : Parser
    result : w ≡ returns parser es
    drained : parser.buffer ≡ []
    errored : parser.control.errored ≡ c.errored

  end_of_records : (fuel : ℕ) (c : Control) → IsReading c → Reads c (run base64 (suc fuel) c []) []
  end_of_records fuel c r = record {
    parser = record { control = c; buffer = [] };
    result = run_wait base64 fuel c [] idle;
    drained = refl;
    errored = refl;
  }
    where
      idle : step base64 c [] ≡ wait c
      idle = unfold step step_in parse_packet_header in rw r.phase

  drop_header :
      (p : Packet) (rest : List ℕ) → drop 16 (record_bytes convert p ++ rest) ≡ p.buffer ++ rest
  unfolding record_bytes
  drop_header p rest = refl

  one_record :
      (fuel : ℕ) (c : Control) (p : Packet) (rest : List ℕ)
      → IsReading c
      → IsCapturable p
      → run base64 (suc (suc fuel)) c (record_bytes convert p ++ rest)
        ≡ emit_before (record_events c.index c.offset p) (run base64 fuel (after_record c p) rest)
  one_record fuel c p rest r small =
      run_more base64 (suc fuel) c (record_bytes convert p ++ rest) (header_step c p rest r small)
      ∙ ap (emit_before _) (
          ap (run base64 (suc fuel) (after_header c p)) (drop_header p rest)
          ∙ run_more base64 fuel (after_header c p) (p.buffer ++ rest) (body_step c p rest)
          ∙ ap (λ d. emit_before _ (run base64 fuel (after_record c p) d))
              (drop_front p.buffer rest))
      ∙ emit_before-emit_before (on_packet_header (packet_record p) ∷ [])
          (on_packet_data p.buffer ∷ on_packet (packet_report (c.index + 1) c.offset p) ∷ [])
          (run base64 fuel (after_record c p) rest)

  read_records :
      (ps : List Packet) (fuel : ℕ) (c : Control)
      → IsReading c
      → All IsCapturable ps
      → rank c.phase + length (all_records ps) < fuel
      → Reads c (run base64 fuel c (all_records ps)) (reports c.index c.offset ps)
  unfolding reports
  read_records [] zero c r small m = absurd (omega arith)
  read_records [] (suc fuel) c r small m = end_of_records fuel c r
  read_records (p ∷ ps) fuel c r (small, all) m =
      let n : ℕ = suc (suc (length (all_records (p ∷ ps)))) in
      let after : IsReading (after_record c p) = record {
        phase = refl;
        order = r.order;
        micro = r.micro;
      } in
      let rest =
        read_records ps n (after_record c p) after all
          (omega (arith, length-append (record_bytes convert p) (all_records ps))) in
      record {
        parser = rest.parser;
        result =
            run_fuel base64 fuel (suc (suc n)) c (all_records (p ∷ ps)) m
              (omega (arith, rank-le c.phase))
            ∙ one_record n c p (all_records ps) r small
            ∙ ap (emit_before (record_events c.index c.offset p)) rest.result
            ∙ emit_before_returns (record_events c.index c.offset p) rest.parser _;
        drained = rest.drained;
        errored = rest.errored;
      }

  abbrev pub standard_header : GlobalHeader
  standard_header = record {
    magic_number = 0xa1b2c3d4;
    major_version = 2;
    minor_version = 4;
    gmt_offset = pos 0;
    timestamp_accuracy = 0;
    snapshot_length = 65535;
    link_layer_type = 1;
  }

  abbrev detected : Control
  detected = record new_control {
    file_format = some pcap;
    endianness = some be;
    phase = global_header;
  }

  abbrev started : Control
  started = record detected { phase = packet_header; offset = 24 }

  detect_step : (rest : List ℕ) → step base64 new_control (pcap_header ++ rest) ≡ more detected 0 []
  unfolding step step_in detect_format detect_magic classic_variant read_u32_be pcap_header
  detect_step rest =
      rw (le→ltb-false (length (pcap_header ++ rest)) 4 (unfold pcap_header in omega arith))

  global_step :
      (rest : List ℕ)
      → step base64 detected (pcap_header ++ rest)
        ≡ more started 24 (on_global_header standard_header ∷ [])
  unfolding step step_in parse_global_header accept_global_header read_global_header read_u32
      read_u16 read_u32_be read_u16_be pcap_header
  global_step rest =
      rw (le→leb 24 (length (pcap_header ++ rest)) (unfold pcap_header in omega arith))

  generate-all_records :
      (ps : List Packet) → All IsCapturable ps → generate_records convert ps ≡ some (all_records ps)
  unfolding generate_records generate_pcap_data
  generate-all_records [] all = refl
  generate-all_records (p ∷ ps) (small, all) =
      rw (lt→ltb (length p.buffer) (2 ^ 32) (omega arith), generate-all_records ps all)

  drop-pcap_header : (rest : List ℕ) → drop 24 (pcap_header ++ rest) ≡ rest
  unfolding pcap_header
  drop-pcap_header rest = refl

  file_read :
      (ps : List Packet)
      → All IsCapturable ps
      → Reads started
          (write base64 new_parser (pcap_header ++ all_records ps))
          (on_global_header standard_header ∷ reports 0 24 ps)
  unfolding write
  file_read ps all =
      let b : List ℕ = pcap_header ++ all_records ps in
      let n : ℕ = suc (suc (length b)) in
      let shorter : length (all_records ps) + 24 ≡ length b = unfold pcap_header in omega arith in
      let between : IsReading started = record { phase = refl; order = refl; micro = refl } in
      let read = read_records ps n started between all (omega arith) in
      record {
        parser = read.parser;
        result =
            run_fuel base64 (suc (suc (length b))) (suc (suc n)) new_control b (omega arith)
              (omega arith)
            ∙ run_more base64 (suc n) new_control b (detect_step (all_records ps))
            ∙ ap (emit_before []) (
                run_more base64 n detected b (global_step (all_records ps))
                ∙ ap
                    (λ d.
                      emit_before (on_global_header standard_header ∷ []) (run base64 n started d))
                    (drop-pcap_header (all_records ps))
                ∙ ap (emit_before (on_global_header standard_header ∷ [])) read.result
                ∙ emit_before_returns _ read.parser _)
            ∙ emit_before_returns [] read.parser _;
        drained = read.drained;
        errored = read.errored;
      }

  -- The generator succeeds on packets of at most 262144 bytes, and a new parser, given the file
  -- in one write, reports the file's header and then of each packet, in order: its record
  -- header, its data, and its place in the file, with the timestamp that was written. It drains
  -- the file and is not in the error state.
  pub write-generate :
      (ps : List Packet)
      → All IsCapturable ps
      → (bytes : List ℕ) × (q : Parser) × (generate convert ps ≡ some bytes)
        × (write base64 new_parser bytes
            ≡ returns q (on_global_header standard_header ∷ reports 0 24 ps))
        × (q.buffer ≡ [])
        × (q.control.errored ≡ false)
  unfolding generate
  write-generate ps all =
      let read = file_read ps all in
      (
        pcap_header ++ all_records ps,
        read.parser,
        rw (generate-all_records ps all),
        read.result,
        read.drained,
        read.errored,
      )
