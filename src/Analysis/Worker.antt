-- ===== src/Analysis/Worker.antt =====
-- packages/analysis/src/worker/AnalysisWorkerCore.ts: the request handlers and the watch loop over the
-- index. A backend is the bytes of its file; the codec's decode is a parameter, `none` where it
-- throws. A handler that throws is `none`.
use netkitty.Base.{ℕ, zero, suc, ◌+◌, ◌-◌, Bool, true, false, Option, none, some, List}
use netkitty.Base.{[], ◌∷◌, take, drop, map, if◌then◌else◌, ◌||◌}
use mathlib.Core.Option
use netkitty.Base.Text.{Text, text_eq}
use netkitty.Analysis.Layer.{Layer}
use netkitty.Analysis.Store
use netkitty.Analysis.Store.{FrameIndexRecord}
use netkitty.Analysis.FrameIndexer.{Indexer, conversation_key, protocol_name}
use netkitty.Analysis.Filter.{FilterExpression}
use netkitty.Analysis.Filter.Match.{matches_filter}
use netkitty.Analysis.Filter.Indexed.{matches_indexed}
use netkitty.Analysis.Synthetic.{synthesize_layers}

pub record FrameRow : Type 0 where
  pub index : ℕ
  pub timestamp : ℕ
  pub length : ℕ
  pub top_protocol : Text
  pub conversation_key : Option Text

pub record LiveFrame : Type 0 where
  pub row : FrameRow
  pub captured_length : ℕ
  pub layers : List Layer

unfoldable pub frame_row : Indexer → FrameIndexRecord → FrameRow
frame_row s r = record {
  index = r.index;
  timestamp = r.timestamp;
  length = r.captured_length;
  top_protocol = protocol_name s r.protocol_id;
  conversation_key = conversation_key s r.conversation_hash;
}

-- `backend.read(offset, length)`
unfoldable pub read_bytes : List ℕ → ℕ → ℕ → List ℕ
read_bytes file offset n = take n (drop offset file)

unfoldable pub any_id : Text → List Text → Bool
any_id id [] = false
any_id id (t ∷ ts) = text_eq id t || any_id id ts

keep_layers : List Text → List Layer → List Layer
keep_layers needs [] = []
keep_layers needs (l ∷ ls) =
    let rest = keep_layers needs ls in if any_id l.id needs then l ∷ rest else rest

-- Without `needs` all layers stay.
unfoldable pub project : Option (List Text) → List Layer → List Layer
unfolding keep_layers any_id
project none ls = ls
project (some needs) ls = keep_layers needs ls

unfoldable pub live_frame : Indexer → FrameIndexRecord → List Layer → LiveFrame
live_frame s r ls = record { row = frame_row s r; captured_length = r.captured_length; layers = ls }

-- What an iteration adds: nothing where it throws or has no frame.
unfoldable pub push : {A : Type 0} → Option (Option A) → Option (List A) → Option (List A)
push none rest = none
push (some none) rest = rest
push (some (some a)) rest = Option.map (λ as'. a ∷ as') rest

-- `for (index = from; index < to; index++)`, by the rounds left.
unfoldable pub batch_loop : {A : Type 0} → (ℕ → Option (Option A)) → ℕ → ℕ → Option (List A)
unfolding push
batch_loop fetch zero index = some []
batch_loop fetch (suc n) index = push (fetch index) (batch_loop fetch n (index + 1))

module _ (decode : List ℕ → Option (List Layer)) where
  -- `materializeFrame`, which may answer null.
  unfoldable pub materialize_frame :
      Indexer → List ℕ → ℕ → Option (List Text) → Option (Option LiveFrame)
  materialize_frame s file index needs = elim (Store.get s.store index) [
    | none ↦ some none
    | some r ↦
        Option.map (λ ls. some (live_frame s r (project needs ls)))
          (decode (read_bytes file r.file_offset r.captured_length))
  ]

  synthetic_layers : Option Text → ℕ → List Layer
  synthetic_layers none forward = []
  synthetic_layers (some key) forward = synthesize_layers key forward

  -- The frame of an `indexOnly` reducer.
  unfoldable pub synthetic_frame : Indexer → ℕ → Option LiveFrame
  unfolding synthetic_layers
  synthetic_frame s index =
      Option.map
        (λ r.
          live_frame s r
            (synthetic_layers (conversation_key s r.conversation_hash) r.direction_forward))
        (Store.get s.store index)

  unfoldable pub batch_frame :
      Indexer → List ℕ → Option (List Text) → Bool → ℕ → Option (Option LiveFrame)
  unfolding materialize_frame synthetic_frame
  batch_frame s file needs true index = some (synthetic_frame s index)
  batch_frame s file needs false index = materialize_frame s file index needs

  -- The handler of `getFrameBatch`.
  unfoldable pub get_frame_batch :
      Indexer → List ℕ → Option (List Text) → Bool → ℕ → ℕ → Option (List LiveFrame)
  unfolding batch_loop batch_frame
  get_frame_batch s file needs index_only from to =
      batch_loop (batch_frame s file needs index_only) (to - from) from

  -- The handler of `getFrames`.
  unfoldable pub get_frames : Indexer → ℕ → ℕ → List FrameRow
  get_frames s from to = map (frame_row s) (Store.range s.store from to)

  -- A round of the handler of `filter`: the columns decide, or the layers of the frame.
  settle : FilterExpression → List ℕ → FrameIndexRecord → Option Bool → Option Bool
  settle e file r (some decided) = some decided
  settle e file r none =
      Option.map (λ ls. matches_filter ls e)
        (decode (read_bytes file r.file_offset r.captured_length))

  unfoldable pub filter_round : FilterExpression → Indexer → List ℕ → ℕ → Option (Option ℕ)
  unfolding settle
  filter_round e s file index = elim (Store.get s.store index) [
    | none ↦ some none
    | some r ↦
        Option.map (λ (b : Bool). if b then some index else none)
          (settle e file r (
            matches_indexed e (conversation_key s r.conversation_hash)
              (protocol_name s r.protocol_id) r.direction_forward))
  ]

  -- The handler of `filter`. Without a backend nothing matches.
  unfoldable pub filter_frames : FilterExpression → Indexer → Option (List ℕ) → Option (List ℕ)
  unfolding batch_loop filter_round
  filter_frames e s none = some []
  filter_frames e s (some file) =
      batch_loop (filter_round e s file) (Store.count s.store) (Store.first_index s.store)
