-- ===== src/Pcap/Examples.antt =====
-- Concrete captures for the editor and the writer.
mod Files
mod Reading
use netkitty.Base.{
  ℕ, ◌+◌, ◌-◌, ◌*◌, ◌≤◌, ◌<◌, ◌≡◌, ◌≢◌, ◌⊎◌, refl, Bool, true, false, Option, none, some,
}
use netkitty.Base.{List, [], ◌∷◌, map, All, length, take, drop, replicate, arith, inl, inr}
use netkitty.Base.Int.{pos, negsuc}
use Prim.Native.String.{String}
use netkitty.PcapCore.Format.{PacketInfo, pcap, pcapng, on_global_header}
use netkitty.PcapCore.Generator.Stamp.{Number, Seconds, whole_number}
use netkitty.PcapCore.Generator.Pcap.{
  generate, generate_records, generate_pcap_data, pcap_header, record_bytes,
}
use netkitty.PcapCore.Parser.Machine.{Parser, new_parser, returns, write}
use netkitty.PcapCore.RoundTrip.Pcap.{IsCapturable, reports, standard_header}
use netkitty.Pcap.Edit.{
  Context, EditError, FrameRange, Result, RetimeEdit, and_then, compressed_capture,
  constant_interval, context_of, finite, floor_micros, ok, patch_length, scale, set_micros,
  to_micros, unit_micros, micros,
}
use netkitty.Pcap.Retime.{
  Retimer, by_interval, by_scale, check_range, fresh_clock, is_set_start, make_retimer, mode_of,
  positive_integer, retime_all, retime_packet, within,
}
use netkitty.Pcap.Retime.Sorted.{Ascending, Ordered, edits_gaps, retime_all-Ascending}
use netkitty.Pcap.Retime.Behind.{moves_rest, retime_all-behind, time}
use netkitty.Pcap.Retime.Checked.{IsWindow, make_retimer-IsWindow}
use netkitty.Pcap.Transforms.{chain_all, swap_macs}
use netkitty.Pcap.Transforms.Retiming.{retime_all-chain_all, transform_of}
use netkitty.Pcap.Transforms.Mac.{swap_macs-swap_macs}

abbrev info_at : ℕ → ℕ → PacketInfo
info_at index seconds = record {
  index = index;
  offset = 0;
  length = 20;
  record_header_offset = 0;
  record_header_length = 16;
  packet_offset = 16;
  packet_length = 4;
  seconds = seconds;
  microseconds = 500000;
  nanoseconds = 500000000;
  packet = "";
}

abbrev three_frames : List (List ℕ × PacketInfo)
three_frames = (1 ∷ [], info_at 1 10) ∷ (2 ∷ [], info_at 2 12) ∷ (3 ∷ [], info_at 3 20) ∷ []

-- One and a half times the gaps of the first two frames.
abbrev slower : RetimeEdit
slower = scale (finite (record { top = pos 3; below = 1 }))

abbrev first_two : FrameRange
first_two = record {
  from = finite (record { top = pos 1; below = 0 });
  to = some (finite (record { top = pos 2; below = 0 }));
}

abbrev slow_retimer : Retimer
slow_retimer = record { mode = by_scale 3 1; window = record { from = 1; to = some 2 } }

slower_retimer : make_retimer slower (some first_two) ≡ ok slow_retimer
unfolding make_retimer
slower_retimer = refl

slower-edits_gaps : edits_gaps slower ≡ true
unfolding edits_gaps
slower-edits_gaps = refl

three_frames-Ordered : Ordered 0 0 three_frames
unfolding Ordered context_of to_micros
three_frames-Ordered =
    (omega arith, omega arith, (omega arith, omega arith, (omega arith, omega arith, tt)))

retime_all-Ascending_example : Ascending 0 (retime_all slow_retimer fresh_clock three_frames)
retime_all-Ascending_example =
    retime_all-Ascending slower (some first_two) slow_retimer three_frames slower-edits_gaps
      slower_retimer three_frames-Ordered

-- The times are 10.5, 13.5 and 21.5 seconds.
slower_times :
    map to_micros (retime_all slow_retimer fresh_clock three_frames)
    ≡ 10500000 ∷ 13500000 ∷ 21500000 ∷ []
unfolding retime_all retime_packet context_of to_micros set_micros
slower_times = refl

make_retimer-IsWindow_example :
    IsWindow (record { from = 1; to = some 2 })
    × ((some first_two ≡ none) ⊎ (is_set_start slower ≡ false))
make_retimer-IsWindow_example =
    make_retimer-IsWindow slower (some first_two) slow_retimer slower_retimer

by_scale-moves_rest : moves_rest slow_retimer.mode ≡ true
unfolding moves_rest
by_scale-moves_rest = refl

within_two : (within (some 2) 2 ≡ true) × (within (some 2) 3 ≡ false)
unfolding within
within_two = (refl, refl)

retime_all-behind_example :
    map to_micros (
      retime_all slow_retimer
        (retime_packet slow_retimer fresh_clock (2 ∷ []) (info_at 2 12)).1
        ((3 ∷ [], info_at 3 20) ∷ []))
    ≡ map
        (λ p.
          time p
          + to_micros (retime_packet slow_retimer fresh_clock (2 ∷ []) (info_at 2 12)).0
          - time (2 ∷ [], info_at 2 12))
        ((3 ∷ [], info_at 3 20) ∷ [])
retime_all-behind_example =
    retime_all-behind slow_retimer fresh_clock (2 ∷ []) (info_at 2 12) ((3 ∷ [], info_at 3 20) ∷ [])
      by_scale-moves_rest (omega arith, within_two.0) ((omega arith, within_two.1), tt)

retime_all-chain_all_example :
    retime_all
      (record { mode = by_interval 250; window = record { from = 1; to = none } })
      fresh_clock
      three_frames
    ≡ chain_all (transform_of (by_interval 250) ∷ []) three_frames
retime_all-chain_all_example =
    retime_all-chain_all (by_interval 250) three_frames
      (omega arith, (omega arith, (omega arith, tt)))
