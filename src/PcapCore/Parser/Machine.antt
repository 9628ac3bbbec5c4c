-- ===== src/PcapCore/Parser/Machine.antt =====
-- packages/pcap-core/src/PcapParserCore.ts: the state machine, `write`, `end` and `fail`.
pub mod Progress
pub mod Seen
pub mod Chunks
use netkitty.Base.{ℕ, zero, suc, true, false, none, List, [], ◌∷◌, ◌++◌}
use netkitty.Base.{if◌then◌else◌, length, drop}
use Prim.Native.String.{String}
use netkitty.PcapCore.Parser.Classic.{
  detect_format, parse_global_header, parse_packet_header, parse_packet_body,
}
use netkitty.PcapCore.Parser.Ng.{parse_ng_block}
use netkitty.PcapCore.Format.{
  Event, on_end, on_error, Phase, detecting_format, global_header, packet_header, packet_body,
  ng_block, Control, Step, more, wait, fail, fault,
}

-- The parser: its fields, and `this.buffer`. Before the first `write` the buffer is null, and
-- `write` puts the chunk in its place, as it would behind an empty buffer.
pub record Parser : Type 0 where
  pub control : Control
  pub buffer : List ℕ

abbrev pub new_control : Control
new_control = record {
  errored = false;
  endianness = none;
  index = 0;
  phase = detecting_format;
  offset = 0;
  file_format = none;
  timestamp_nanosecond = false;
  ng_interfaces = [];
  current_packet_header = none;
}

abbrev pub new_parser : Parser
new_parser = record { control = new_control; buffer = [] }

-- How a call of `write` ends: it returns, or an exception leaves it. `spins` is no behaviour of the
-- program: the loop of the model ran out of fuel.
pub data Written : Type 0 where
  returns : Parser → List Event → Written
  throws : Parser → List Event → Written
  spins : Written

-- What was emitted before comes first.
unfoldable pub emit_before : List Event → Written → Written
emit_before es (returns p fs) = returns p (es ++ fs)
emit_before es (throws p fs) = throws p (es ++ fs)
emit_before es spins = spins

-- `end`
pub end_events : List Event
end_events = on_end ∷ []

module _ (base64 : List ℕ → String) where
  -- A call of `this.state()`.
  unfoldable pub step_in : Phase → Control → List ℕ → Step
  step_in detecting_format c b = detect_format c b
  step_in global_header c b = parse_global_header c b
  step_in packet_header c b = parse_packet_header c b
  step_in packet_body c b = parse_packet_body base64 c b
  step_in ng_block c b = parse_ng_block base64 c b

  unfoldable pub step : Control → List ℕ → Step
  step c b = step_in c.phase c b

  -- `while (this.state()) {}`; `fail` sets `errored`, reports the error, and ends the input.
  unfoldable pub run : ℕ → Control → List ℕ → Written
  run zero c b = spins
  run (suc fuel) c b = elim (step c b) [
    | more c' n es ↦ emit_before es (run fuel c' (drop n b))
    | wait c' ↦ returns (record { control = c'; buffer = b }) []
    | fail c' e ↦
        returns (record { control = record c' { errored = true }; buffer = b })
          (on_error e ∷ end_events)
    | fault c' es ↦ throws (record { control = c'; buffer = b }) es
  ]

  -- Each call of `state()` that returns true drops bytes or leaves the phases that do not, so two
  -- rounds more than there are bytes are enough.
  unfoldable pub write : Parser → List ℕ → Written
  write p chunk =
      if p.control.errored
      then returns p []
      else let b = p.buffer ++ chunk in run (suc (suc (length b))) p.control b

  -- A stream of chunks, written one after another; an exception stops the stream.
  unfoldable pub write_all : Parser → List (List ℕ) → Written
  write_all p [] = returns p []
  write_all p (chunk ∷ chunks) = elim (write p chunk) [
    | returns p' es ↦ emit_before es (write_all p' chunks)
    | throws p' es ↦ throws p' es
    | spins ↦ spins
  ]
