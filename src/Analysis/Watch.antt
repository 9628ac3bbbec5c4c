-- ===== src/Analysis/Watch.antt =====
-- packages/analysis/src/worker/AnalysisWorkerCore.ts: the tail of a capture that is being written,
-- drainWatch and pumpWatch. A read of a file that has grown is a new list of its bytes; a round that
-- throws is told apart from one that returns.
pub mod Steady
use netkitty.Base.{
  ℕ, zero, suc, ◌+◌, ◌-◌, ◌++◌, min, Bool, true, false, Option, none, some, List, [],
}
use netkitty.Base.{◌∷◌, length, ltb, if◌then◌else◌}
use Prim.Native.String.{String}
use netkitty.PcapCore.Parser.Machine.{Parser, Written, new_parser, returns, spins, throws, write}
use netkitty.Analysis.Layer.{Layer}
use netkitty.Analysis.Store
use netkitty.Analysis.FrameIndexer.{Indexer, add}
use netkitty.Analysis.IndexBuilder.{Feed, PendingFrame, collect, timestamp_of}
use netkitty.Analysis.Worker.{LiveFrame, live_frame, read_bytes}

-- The variables of the watch, with the index and what was notified. `parser` is missing before
-- `watch` was called, and a watch without a `max_frames` has no bound.
pub record Watch : Type 0 where
  pub indexer : Indexer
  pub parser : Option Parser
  pub position : ℕ
  pub last_data : List ℕ
  pub pending : List PendingFrame
  pub max_frames : Option ℕ
  pub pumping : Bool
  pub pump_again : Bool
  pub notified : List LiveFrame

-- How an asynchronous function ends, with the state that it leaves.
pub data Ended : Type 0 where
  ended : Watch → Ended
  failed : Watch → Ended

-- `if (store.count() > watchMaxFrames) store.evictOldest(store.count() - watchMaxFrames)`
unfoldable pub evict : Option ℕ → Indexer → Indexer
evict none s = s
evict (some n) s =
    if ltb n (Store.count s.store)
    then record s { store = Store.evict_oldest s.store (Store.count s.store - n) }
    else s

-- The frame that was just indexed is read back and notified, if it is there.
unfoldable pub notify : Indexer → ℕ → List Layer → List LiveFrame
notify s index ls = elim (Store.get s.store index) [ none ↦ [] | some r ↦ live_frame s r ls ∷ [] ]

module _ (decode : List ℕ → Option (List Layer)) where
  indexed : PendingFrame → List Layer → Watch → Watch
  unfolding timestamp_of notify evict
  indexed f ls w =
      let done =
        add ls f.info.packet_offset f.info.packet_length f.info.packet_length (timestamp_of f.info)
          w.indexer in
      record w {
        indexer = evict w.max_frames done.0;
        notified = w.notified ++ notify done.0 done.1 ls;
      }

  -- The loop of `drainWatch` over the pending frames, which stay when a decode throws.
  unfoldable pub drain_loop : List PendingFrame → Watch → Ended
  unfolding indexed
  drain_loop [] w = ended w
  drain_loop (f ∷ fs) w = elim (decode f.frame) [
    | none ↦ failed w
    | some ls ↦ drain_loop fs (indexed f ls w)
  ]

  cleared : Ended → Ended
  cleared (ended w) = ended (record w { pending = [] })
  cleared (failed w) = failed w

  unfoldable pub drain_watch : Watch → Ended
  unfolding drain_loop cleared
  drain_watch w = cleared (drain_loop w.pending w)

  module _ (base64 : List ℕ → String) where
    -- One read: the parser takes the bytes, and its frames are drained.
    fed_bytes : Watch → ℕ → Written → Ended
    unfolding drain_watch collect
    fed_bytes w n (returns p es) =
        let f = collect es (record { last_data = w.last_data; pending = w.pending }) in
        drain_watch (record w {
          parser = some p;
          position = w.position + n;
          last_data = f.last_data;
          pending = f.pending;
        })
    fed_bytes w n (throws p es) =
        let f = collect es (record { last_data = w.last_data; pending = w.pending }) in
        failed (record w {
          parser = some p;
          position = w.position + n;
          last_data = f.last_data;
          pending = f.pending;
        })
    fed_bytes w n spins = failed w

    -- `while (watchPosition < size)`; each round reads a byte at least, so `size` rounds are enough.
    unfoldable pub pump_loop : ℕ → List ℕ → Parser → Watch → Ended
    unfolding fed_bytes read_bytes
    pump_loop zero file p w = ended w
    pump_loop (suc fuel) file p w = elim (ltb w.position (length file)) [
      | false ↦ ended w
      | true ↦
          let bytes = read_bytes file w.position (min 65536 (length file - w.position)) in
          elim (fed_bytes w (length bytes) (write base64 p bytes)) [
            | failed u ↦ failed u
            | ended u ↦ elim u.parser [ none ↦ ended u | some q ↦ pump_loop fuel file q u ]
          ]
    ]

    pump_round : List ℕ → Watch → Ended
    unfolding pump_loop
    pump_round file w = elim w.parser [ none ↦ ended w | some p ↦ pump_loop (length file) file p w ]

    -- The `do` loop: a file for the first round, and one for each time that `pumpAgain` was set
    -- while a round was waiting.
    unfoldable pub pump_rounds : List ℕ → List (List ℕ) → Watch → Ended
    unfolding pump_round
    pump_rounds file [] w = pump_round file (record w { pump_again = false })
    pump_rounds file (next ∷ files) w = elim (pump_round file (record w { pump_again = false })) [
      | failed u ↦ failed u
      | ended u ↦ pump_rounds next files u
    ]

    finished : Ended → Ended
    finished (ended w) = ended (record w { pumping = false })
    finished (failed w) = failed w

    unfoldable pub pump_watch : List ℕ → List (List ℕ) → Watch → Ended
    unfolding pump_rounds finished
    pump_watch file files w =
        if w.pumping
        then ended (record w { pump_again = true })
        else finished (pump_rounds file files (record w { pumping = true }))

    -- The handler of `watch`, up to the timer that calls `pumpWatch` again.
    unfoldable pub watch : List ℕ → List (List ℕ) → Option ℕ → Watch → Ended
    unfolding pump_watch
    watch file files max_frames w =
        pump_watch file files (record w {
          parser = some new_parser;
          position = 0;
          pending = [];
          max_frames = max_frames;
        })
