-- ===== src/Pcap/Run.antt =====
-- packages/pcap/src/PcapEdit.ts: normalize, and run, rewrite and retime. The reader hands over the
-- frames of the input in order; the output file, which starts out fresh, is the list of the packets
-- that were written. A handler is a function of a state of its own and may throw.
pub mod Counts
use netkitty.Base.{ℕ, zero, suc, ◌+◌, ◌*◌, ◌/◌, ◌≤◌, min, ◌==◌, ◌++◌, Bool, true, false, Option}
use netkitty.Base.{none, some, List, [], ◌∷◌, map, length, ltb, leb, if◌then◌else◌}
use netkitty.Base.Text.{Text, text_eq}
use netkitty.PcapCore.Format.{PacketInfo}
use netkitty.Pcap.Edit.{
  Context, EditError, FrameRange, Result, RetimeEdit, context_of, err, ok, same_file,
}
use netkitty.Pcap.Retime.{Clock, Retimer, fresh_clock, make_retimer, retime_packet}

-- A member of what a handler returns: bytes, or a packet with some of its fields.
pub data Item : Type 0 where
  bytes : List ℕ → Item
  packet : Option (List ℕ) → Option ℕ → Option ℕ → Item

pub data Action : Type 0 where
  keep drop : Action
  one : Item → Action
  many : List Item → Action

unfoldable pub or_else : {A : Type 0} → Option A → A → A
or_else none d = d
or_else (some a) d = a

unfoldable pub normalize_item : List ℕ → PacketInfo → Item → Context
unfolding context_of or_else
normalize_item frame info (bytes b) = context_of b info
normalize_item frame info (packet f seconds microseconds) = record {
  frame = or_else f frame;
  seconds = or_else seconds info.seconds;
  microseconds = or_else microseconds info.microseconds;
}

unfoldable pub normalize : Action → List ℕ → PacketInfo → List Context
unfolding context_of normalize_item
normalize keep frame info = context_of frame info ∷ []
normalize drop frame info = []
normalize (one item) frame info = normalize_item frame info item ∷ []
normalize (many items) frame info = map (normalize_item frame info) items

pub record Progress : Type 0 where
  pub bytes_processed : ℕ
  pub total_bytes : ℕ
  pub read : ℕ
  pub written : ℕ

pub record RewriteResult : Type 0 where
  pub read : ℕ
  pub written : ℕ

-- The packets of the output file, if it was made, the reports and what the promise settles with.
pub record Outcome : Type 0 where
  pub output : Option (List Context)
  pub reports : List Progress
  pub result : Result RewriteResult

unfoldable pub refused : EditError → Outcome
refused e = record { output = none; reports = []; result = err e }

-- The variables of `run`: `next_percent` is `lastPercent + 1`. `output` and `reports` are what went
-- to the writer and to the progress callback.
pub record Job (S : Type 0) : Type 0 where
  pub handler : S
  pub read : ℕ
  pub written : ℕ
  pub next_percent : ℕ
  pub output : List Context
  pub reports : List Progress

-- Math.floor(ratio * 100)
unfoldable pub percent : ℕ → ℕ → ℕ
percent processed total = if ltb 0 total then min 100 (processed * 100 / total) else 100

-- `progressPercentStep`, which is 1 where it is missing or 0.
unfoldable pub step_of : Option ℕ → ℕ
step_of none = 1
step_of (some zero) = 1
step_of (some (suc n)) = suc n

module _ {S : Type 0} where
  reported : ℕ → ℕ → Job S → Job S
  unfolding percent
  reported processed total j = record j {
    next_percent = percent processed total + 1;
    reports =
        j.reports
        ++ (record {
          bytes_processed = processed;
          total_bytes = total;
          read = j.read;
          written = j.written;
        }
            ∷ []);
  }

  -- `percent < lastPercent + step` keeps a report back, unless it is forced.
  unfoldable pub emit_progress : Bool → ℕ → ℕ → ℕ → Bool → Job S → Job S
  unfolding reported percent
  emit_progress false step total processed force j = j
  emit_progress true step total processed true j = reported processed total j
  emit_progress true step total processed false j =
      if ltb (percent processed total + 1) (j.next_percent + step)
      then j
      else reported processed total j

  write_outs : List Context → Job S → Job S
  write_outs outs j = record j { output = j.output ++ outs; written = j.written + length outs }

  module _ (produce : S → List ℕ → PacketInfo → Result (List Context) × S) (listens : Bool)
      (step total : ℕ) where
    produced : Result (List Context) → S → PacketInfo → Job S → Result (Job S)
    unfolding write_outs emit_progress
    produced (err e) s info j = err e
    produced (ok outs) s info j = ok (
        emit_progress listens step total (info.offset + info.length) false
          (write_outs outs (record j { handler = s })))

    -- `handle`, the reader's onPacket.
    unfoldable pub handle : List ℕ → PacketInfo → Job S → Result (Job S)
    unfolding produced
    handle frame info j =
        let done = produce j.handler frame info in
        produced done.0 done.1 info (record j { read = j.read + 1 })

    -- The reader calls the handler for one frame after the other, until it throws. The job then
    -- stands as the throw left it.
    unfoldable pub handle_all : List (List ℕ × PacketInfo) → Job S → Job S × Option EditError
    unfolding handle
    handle_all [] j = (j, none)
    handle_all ((frame, info) ∷ rest) j = elim (handle frame info j) [
      | ok k ↦ handle_all rest k
      | err e ↦ (record j { read = j.read + 1 }, some e)
    ]

    finish : Job S × Option EditError → Outcome
    unfolding emit_progress
    finish (j, some e) = record { output = some j.output; reports = j.reports; result = err e }
    finish (j, none) =
        let last = emit_progress listens step total total true j in
        record {
          output = some last.output;
          reports = last.reports;
          result = ok (record { read = last.read; written = last.written });
        }

    -- From the fresh output file on: its packets, the reports and the result.
    unfoldable pub run_over : S → List (List ℕ × PacketInfo) → Outcome
    unfolding finish handle_all
    run_over s frames = finish (
        handle_all frames (record {
          handler = s;
          read = 0;
          written = 0;
          next_percent = 0;
          output = [];
          reports = [];
        }))

-- `path.resolve` is Node's, a parameter. Files of one path are refused, and no output is made.
module _ (resolve : Text → Text) where
  unfoldable pub run :
      {S : Type 0}
      → (S → List ℕ → PacketInfo → Result (List Context) × S)
      → S
      → Text
      → Text
      → Bool
      → Option ℕ
      → ℕ
      → List (List ℕ × PacketInfo)
      → Outcome
  unfolding run_over step_of refused
  run produce s input output listens step total frames =
      if text_eq (resolve input) (resolve output)
      then refused same_file
      else run_over produce listens (step_of step) total s frames

  unfoldable pub rewrite :
      (List ℕ → PacketInfo → Result Action)
      → Text
      → Text
      → Bool
      → Option ℕ
      → ℕ
      → List (List ℕ × PacketInfo)
      → Outcome
  unfolding run normalize
  rewrite on_packet input output listens step total frames =
      run (λ s frame info. (normalized frame info (on_packet frame info), s)) tt input output
        listens step total frames
    where
      normalized : List ℕ → PacketInfo → Result Action → Result (List Context)
      normalized frame info (ok a) = ok (normalize a frame info)
      normalized frame info (err e) = err e

  -- The edit is checked before anything of `run`.
  unfoldable pub retime :
      RetimeEdit
      → Option FrameRange
      → Text
      → Text
      → Bool
      → Option ℕ
      → ℕ
      → List (List ℕ × PacketInfo)
      → Outcome
  unfolding run make_retimer retime_packet refused
  retime edit range input output listens step total frames = retimed (make_retimer edit range)
    where
      retimed : Result Retimer → Outcome
      retimed (err e) = refused e
      retimed (ok r) =
          run
            (λ k frame info. let done = retime_packet r k frame info in (ok (done.0 ∷ []), done.1))
            fresh_clock input output listens step total frames
