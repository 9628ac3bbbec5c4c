-- ===== src/Pcap/Writer/Located.antt =====
-- PcapWriter.ts: the packet events say where the frames are in the file.
use netkitty.Base.{replicate, ◌==◌, ◌%◌, ◌-◌}
use netkitty.Base.{ℕ, ◌+◌, ◌++◌, ◌≤◌, ◌≡◌, refl, ap, sym, ◌∙◌, false, Option, none, some, List}
use netkitty.Base.{[], ◌∷◌, length, length-append, take, drop, drop-add, drop_front, drop-append}
use netkitty.Base.{take_front, append_assoc, append-nil, Bool-cases, inl, inr, arith}
use Prim.Native.String.{String}
use netkitty.PcapCore.Bytes.{u32_be_bytes, u32_le_bytes}
use netkitty.PcapCore.Format.{FileFormat, pcap, pcapng}
use netkitty.PcapCore.Generator.Stamp.{Number, Packet, Seconds}
use netkitty.PcapCore.Generator.Pcap.{generate_pcap_data, record_bytes}
use netkitty.PcapCore.Generator.Pcapng.{block_bytes, block_length, enhanced_packet, pad_to_4}
use netkitty.Pcap.Writer.{
  Writer, Written, append_record, header_length, ignored, packet_of, record_of, threw, write_packet,
  write_packets, wrote, wrote_info,
}

-- Bytes that stand behind a header of a record, in a file that goes on.
found :
    (file d more frame rest : List ℕ) (h : ℕ)
    → drop h d ≡ frame ++ rest
    → h ≤ length d
    → take (length frame) (drop (length file + h) ((file ++ d) ++ more)) ≡ frame
found file d more frame rest h e k =
    ap (λ t. take (length frame) t)
      (drop-add (length file) h ((file ++ d) ++ more)
        ∙ ap (λ t. drop h (drop (length file) t)) (append_assoc file d more)
        ∙ ap (drop h) (drop_front file (d ++ more))
        ∙ drop-append h d more k
        ∙ ap (λ t. t ++ more) e
        ∙ append_assoc frame rest more)
    ∙ take_front frame (rest ++ more)

-- Where the file of a packet event holds the frame, as long as the frame is.
unfoldable pub Locates : List ℕ → List ℕ → Written → Type 0
Locates file frame ignored = Unit
Locates file frame threw = Unit
Locates file frame (wrote info) =
    (info.packet_length ≡ length frame)
    × (take info.packet_length (drop info.packet_offset file) ≡ frame)

unfoldable pub AllLocate : List ℕ → List (List ℕ × (ℕ × ℕ)) → List Written → Type 0
AllLocate file [] done = done ≡ []
AllLocate file (x ∷ xs) [] = ⊥
AllLocate file (x ∷ xs) (d ∷ done) = Locates file x.0 d × AllLocate file xs done

module _ (convert : Number → Seconds) (now : Number) (to_base64 : List ℕ → String) where
  padded : (b : List ℕ) → (rest : List ℕ) × (pad_to_4 b ≡ b ++ rest)
  unfolding pad_to_4
  padded b = elim (Bool-cases (length b % 4 == 0)) [
    | inl y ↦ ([], rw y (sym (append-nil b)))
    | inr n ↦ (replicate (4 - length b % 4) 0, rw n refl)
  ]

  pcap_bytes :
      (p : Packet) (d : List ℕ) → generate_pcap_data convert p ≡ some d → d ≡ record_bytes convert p
  unfolding generate_pcap_data
  pcap_bytes p d e = ground arith

  pcapng_bytes :
      (p : Packet) (d : List ℕ) → enhanced_packet convert p ≡ some d → d ≡ block_bytes convert p
  unfolding enhanced_packet
  pcapng_bytes p d e = ground arith

  -- Behind the header of its format, a record has the frame.
  record_frame :
      (f : FileFormat) (p : Packet) (d : List ℕ)
      → record_of convert now to_base64 f p ≡ some d
      → (rest : List ℕ) × (drop (header_length f) d ≡ p.buffer ++ rest)
        × (header_length f ≤ length d)
  unfolding record_of record_bytes u32_be_bytes block_bytes u32_le_bytes
  record_frame pcap p d e =
      let same = pcap_bytes p d e in
      ([], rw same (sym (append-nil p.buffer)), rw same (omega arith))
  record_frame pcapng p d e =
      let same = pcapng_bytes p d e in
      let pad = padded p.buffer in
      (
        pad.0 ++ u32_le_bytes (block_length convert p),
        rw (same, pad.1) (append_assoc p.buffer pad.0 (u32_le_bytes (block_length convert p))),
        rw same (omega arith),
      )

  append_record-step :
      (w : Writer) (frame : List ℕ) (seconds microseconds : ℕ) (r : Option (List ℕ))
      → w.offset ≡ length w.file
      → ((d : List ℕ)
          → r ≡ some d
          → (rest : List ℕ) × (drop (header_length w.format) d ≡ frame ++ rest)
            × (header_length w.format ≤ length d))
      → let one = append_record convert now to_base64 w frame seconds microseconds r in
        (one.0.offset ≡ length one.0.file)
        × ((more : List ℕ) × (one.0.file ≡ w.file ++ more))
        × ((later : List ℕ) → Locates (one.0.file ++ later) frame one.1)
  unfolding append_record wrote_info Locates
  append_record-step w frame seconds microseconds none h f =
      (h, ([], sym (append-nil w.file)), λ later. tt)
  append_record-step w frame seconds microseconds (some d) h f =
      let there = f d refl in
      (
        omega (arith, length-append w.file d),
        (d, refl),
        λ later. (
          refl,
          rw h (found w.file d later frame there.0 (header_length w.format) there.1 there.2),
        ),
      )

  -- A call writes behind what is there and keeps the offset at the end of the file. Its event
  -- stays true when more is written.
  write_packet-step :
      (w : Writer) (frame : List ℕ) (seconds microseconds : ℕ)
      → w.offset ≡ length w.file
      → let one = write_packet convert now to_base64 w frame seconds microseconds in
        (one.0.offset ≡ length one.0.file)
        × ((more : List ℕ) × (one.0.file ≡ w.file ++ more))
        × ((later : List ℕ) → Locates (one.0.file ++ later) frame one.1)
  unfolding write_packet Locates
  write_packet-step w frame seconds microseconds h = elim (Bool-cases w.closed) [
    | inl y ↦ rw y (h, ([], sym (append-nil w.file)), λ later. tt)
    | inr n ↦ rw n (
        append_record-step (record w { closed = false; index = w.index + 1 }) frame seconds
          microseconds
          (record_of convert now to_base64 w.format
            (packet_of convert now to_base64 w.format frame seconds microseconds))
          h (record_frame w.format _))
  ]

  -- In the file that a list of calls leaves, every packet event says where its frame is and how
  -- long it is, when the offset of the writer was the length of its file before, as it is again.
  pub write_packets-AllLocate :
      (w : Writer) (xs : List (List ℕ × (ℕ × ℕ)))
      → w.offset ≡ length w.file
      → let done = write_packets convert now to_base64 w xs in
        (done.0.offset ≡ length done.0.file)
        × ((more : List ℕ) × (done.0.file ≡ w.file ++ more))
        × AllLocate done.0.file xs done.1
  unfolding write_packets AllLocate
  write_packets-AllLocate w [] h = (h, ([], sym (append-nil w.file)), refl)
  write_packets-AllLocate w ((frame, stamp) ∷ xs) h =
      let one = write_packet-step w frame stamp.0 stamp.1 h in
      let w1 = (write_packet convert now to_base64 w frame stamp.0 stamp.1).0 in
      let rest = write_packets-AllLocate w1 xs one.0 in
      (
        rest.0,
        (
          one.1.0 ++ rest.1.0,
          rest.1.1 ∙ ap (λ t. t ++ rest.1.0) one.1.1 ∙ append_assoc w.file one.1.0 rest.1.0,
        ),
        (rw rest.1.1 (one.2 rest.1.0), rest.2),
      )
