-- ===== src/Analysis/Facade.antt =====
-- packages/analysis/src/Analysis.ts: the facade over the channel to the worker. A request is a
-- function of its payload, `none` where the worker rejects it.
pub mod Batches
use netkitty.Base.{
  ℕ, zero, suc, ◌+◌, ◌-◌, min, max, Bool, true, false, Option, none, some, List, [],
}
use netkitty.Base.{◌∷◌, ltb, if◌then◌else◌}
use mathlib.Core.Option
use netkitty.Base.Text.{Text}
use netkitty.Analysis.Worker.{FrameRow, LiveFrame}

abbrev pub replay_batch : ℕ
replay_batch = 512

pub data Phase : Type 0 where
  replay live : Phase

pub record UpdateContext : Type 0 where
  pub index : ℕ
  pub total : ℕ
  pub phase : Phase

-- A reducer with its state: `update`, `needs` and `indexOnly`.
pub record Reducer (S : Type 0) : Type 0 where
  pub update : LiveFrame → UpdateContext → S → S
  pub needs : Option (List Text)
  pub index_only : Bool

pub record Facade : Type 0 where
  pub has_channel : Bool
  pub frame_count : ℕ

-- What the worker notifies, and what the facade emits.
pub data Message : Type 0 where
  progress : ℕ → ℕ → ℕ → Message
  complete : ℕ → Message
  frame : LiveFrame → Message
  failure : Text → Message

pub data Emitted : Type 0 where
  emit_progress : ℕ → ℕ → Emitted
  emit_complete : Emitted
  emit_frame : FrameRow → Emitted
  emit_error : Text → Emitted

unfoldable pub on_message : Message → Facade → Facade × Emitted
on_message (progress frames read total) s =
    (record s { frame_count = frames }, emit_progress read total)
on_message (complete n) s = (record s { frame_count = n }, emit_complete)
on_message (frame f) s =
    (record s { frame_count = max (f.row.index + 1) s.frame_count }, emit_frame f.row)
on_message (failure t) s = (s, emit_error t)

-- What a live frame does to an attached reducer, once `on_message` has taken it.
unfoldable pub live_update : {S : Type 0} → Reducer S → Facade → LiveFrame → S → S
live_update r s f = r.update f (record { index = f.row.index; total = s.frame_count; phase = live })

-- The end of `open` and of `watch`, with the count that the worker answers.
unfoldable pub opened : ℕ → Facade → Facade
opened n s = record s { has_channel = true; frame_count = n }

unfoldable pub watched : ℕ → Facade → Facade
watched n s = record s { has_channel = true; frame_count = max n s.frame_count }

unfoldable pub close : Facade → Facade
close s = record { has_channel = false; frame_count = 0 }

-- A request without an open source is an AnalysisStateError.
pub data Answer (A : Type 0) : Type 0 where
  no_source rejected : Answer A
  answered : A → Answer A

answer : {A : Type 0} → Option A → Answer A
answer none = rejected
answer (some a) = answered a

unfoldable pub with_channel : {A : Type 0} → Facade → Option A → Answer A
unfolding answer
with_channel s a = if s.has_channel then answer a else no_source

module _ {S : Type 0} (r : Reducer S) where
  unfoldable pub feed : ℕ → List LiveFrame → S → S
  feed total [] st = st
  feed total (f ∷ fs) st =
      feed total fs (r.update f (record { index = f.row.index; total = total; phase = replay }) st)

  -- The loop of `attachReducer`; each round moves by REPLAY_BATCH, so `total` rounds are enough.
  unfoldable pub attach_loop :
      (Option (List Text) → Bool → ℕ → ℕ → Option (List LiveFrame)) → ℕ → ℕ → ℕ → S → Option S
  unfolding feed
  attach_loop request zero total from st = some st
  attach_loop request (suc fuel) total from st = elim (ltb from total) [
    | false ↦ some st
    | true ↦ elim (request r.needs r.index_only from (min (from + replay_batch) total)) [
      | none ↦ none
      | some frames ↦ attach_loop request fuel total (from + replay_batch) (feed total frames st)
    ]
  ]

  unfoldable pub attach_reducer :
      (Option (List Text) → Bool → ℕ → ℕ → Option (List LiveFrame)) → Facade → S → Answer S
  unfolding attach_loop with_channel
  attach_reducer request s st =
      with_channel s (attach_loop request s.frame_count s.frame_count 0 st)
