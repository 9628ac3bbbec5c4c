-- ===== src/Analysis/IndexBuilder.antt =====
-- packages/analysis/src/indexer/PcapIndexBuilder.ts, over the parser and the indexer. The codec's
-- decode is a parameter, `none` where it throws; a timestamp counts microseconds.
pub mod Chunks
use netkitty.Base.{ℕ, ◌+◌, ◌*◌, ◌++◌, Option, none, some, List, [], ◌∷◌, length}
use mathlib.Core.Option
use Prim.Native.String.{String}
use netkitty.PcapCore.Format.{Event, PacketInfo, on_packet, on_packet_data}
use netkitty.PcapCore.Parser.Machine.{
  Parser, Written, end_events, new_parser, returns, spins, throws, write,
}
use netkitty.Analysis.Layer.{Layer}
use netkitty.Analysis.FrameIndexer.{Indexer, add}

pub record PendingFrame : Type 0 where
  pub info : PacketInfo
  pub frame : List ℕ

-- `lastData` and `pending`, which the parser's handlers fill.
pub record Feed : Type 0 where
  pub last_data : List ℕ
  pub pending : List PendingFrame

unfoldable pub on_event : Event → Feed → Feed
on_event (on_packet_data d) f = record f { last_data = d }
on_event (on_packet info) f = record f {
  pending = f.pending ++ (record { info = info; frame = f.last_data } ∷ []);
}
on_event _ f = f

unfoldable pub collect : List Event → Feed → Feed
unfolding on_event
collect [] f = f
collect (e ∷ es) f = collect es (on_event e f)

unfoldable pub timestamp_of : PacketInfo → ℕ
timestamp_of info = info.seconds * 1000000 + info.microseconds

-- What the loop over the stream carries along. A progress report has the bytes read so far.
pub record Build : Type 0 where
  pub parser : Parser
  pub last_data : List ℕ
  pub indexer : Indexer
  pub count : ℕ
  pub bytes_read : ℕ
  pub progress : List ℕ

abbrev pub fresh_build : Indexer → Build
fresh_build s = record {
  parser = new_parser;
  last_data = [];
  indexer = s;
  count = 0;
  bytes_read = 0;
  progress = [];
}

module _ (base64 : List ℕ → String) (decode : List ℕ → Option (List Layer)) where
  -- A frame that was decoded goes to the index.
  unfoldable pub index_frame : PendingFrame → Indexer → Option (Indexer × ℕ)
  unfolding timestamp_of
  index_frame f s =
      Option.map
        (λ layers.
          add layers f.info.packet_offset f.info.packet_length f.info.packet_length
            (timestamp_of f.info) s)
        (decode f.frame)

  -- `drain`: the indexer and the number of frames, from those before.
  unfoldable pub drain : List PendingFrame → Indexer → ℕ → Option (Indexer × ℕ)
  unfolding index_frame
  drain [] s count = some (s, count)
  drain (f ∷ fs) s count = elim (index_frame f s) [
    | none ↦ none
    | some done ↦ drain fs done.0 (count + 1)
  ]

  drained : Build → Parser → Feed → ℕ → Option (Indexer × ℕ) → Option Build
  drained b p f n none = none
  drained b p f n (some done) = some (record {
    parser = p;
    last_data = f.last_data;
    indexer = done.0;
    count = done.1;
    bytes_read = b.bytes_read + n;
    progress = b.progress ++ ((b.bytes_read + n) ∷ []);
  })

  -- What the parser emitted in a write, once it has returned, is drained.
  absorb : Build → ℕ → Written → Option Build
  unfolding drained collect drain
  absorb b n (returns p es) =
      let f = collect es (record { last_data = b.last_data; pending = [] }) in
      drained b p f n (drain f.pending b.indexer b.count)
  absorb b n (throws p es) = none
  absorb b n spins = none

  unfoldable pub feed_chunk : Build → List ℕ → Option Build
  unfolding absorb
  feed_chunk b chunk = absorb b (length chunk) (write base64 b.parser chunk)

  unfoldable pub feed_chunks : Build → List (List ℕ) → Option Build
  unfolding feed_chunk
  feed_chunks b [] = some b
  feed_chunks b (chunk ∷ chunks) = elim (feed_chunk b chunk) [
    | none ↦ none
    | some c ↦ feed_chunks c chunks
  ]

  -- `build`, on the chunks of the stream. The events of the parser's end add no frame.
  unfoldable pub build : Indexer → List (List ℕ) → Option Build
  unfolding feed_chunks
  build s chunks = feed_chunks (fresh_build s) chunks
