-- ===== src/Analysis/Examples/Service.antt =====
-- Runs of packages/analysis/src/indexer/PcapIndexBuilder.ts, worker/AnalysisWorkerCore.ts and
-- Analysis.ts.
use netkitty.Base.{
  ℕ, ◌+◌, ◌++◌, arith, ◌≡◌, refl, Option, none, some, List, [], ◌∷◌, flatten, false, true,
}
use Prim.Native.String.{String}
use netkitty.PcapCore.Bytes.{read_u16_be, read_u32_be}
use netkitty.PcapCore.Format.{Event}
use netkitty.PcapCore.Parser.Machine.{
  Parser, Written, emit_before, new_parser, returns, run, spins, step, step_in, throws, write,
  write_all,
}
use netkitty.PcapCore.Parser.Classic.{
  accept_global_header, accept_packet_header, classic_variant, detect_format, detect_magic,
  emit_packet_body, parse_global_header, parse_packet_body, parse_packet_header, read_global_header,
  read_packet_header, read_u16, read_u32, packet_info,
}
use netkitty.Analysis.Layer.{Layer}
use netkitty.Analysis.Store.{count, new_columns}
use netkitty.Analysis.FrameIndexer.{Indexer}
use netkitty.Analysis.IndexBuilder.{build}
use netkitty.Analysis.IndexBuilder.Chunks.{build-flatten, index_of}
use netkitty.Analysis.Worker.{batch_frame, batch_loop, get_frame_batch}
use netkitty.Analysis.Facade.{Facade, Reducer, attach_reducer, with_channel}
use netkitty.Analysis.Facade.Batches.{attach_reducer-get_frame_batch, fed}
use netkitty.Analysis.Watch.{
  Ended, Watch, drain_loop, drain_watch, ended, failed, pump_loop, pump_rounds, pump_watch,
}
use netkitty.Analysis.Watch.Steady.{IsBounded, left, pump_watch-IsBounded, pump_watch_stalls}

abbrev encoded : List ℕ → String
encoded bytes = "frame"

-- A codec that finds no layer.
abbrev no_layers : List ℕ → Option (List Layer)
no_layers bytes = some []

-- A capture of one frame of one byte, cut in its global header.
abbrev front : List ℕ
front = 0xa1 ∷ 0xb2 ∷ 0xc3 ∷ 0xd4 ∷ 0 ∷ 2 ∷ 0 ∷ 4 ∷ 0 ∷ 0 ∷ []

abbrev back : List ℕ
back =
    0 ∷ 0 ∷ 0 ∷ 0 ∷ 0 ∷ 0 ∷ 0 ∷ 0 ∷ 0xff ∷ 0xff ∷ 0 ∷ 0 ∷ 0 ∷ 1 ∷ 0 ∷ 0 ∷ 0 ∷ 5 ∷ 0 ∷ 0 ∷ 0 ∷ 6 ∷ 0
    ∷ 0 ∷ 0 ∷ 1 ∷ 0 ∷ 0 ∷ 0 ∷ 1 ∷ 7 ∷ []

abbrev parser_of : Written → Parser
parser_of (returns p es) = p
parser_of (throws p es) = p
parser_of spins = new_parser

abbrev events_of : Written → List Event
events_of (returns p es) = es
events_of (throws p es) = es
events_of spins = []

abbrev outcome : Written
outcome = write_all encoded new_parser (front ∷ back ∷ [])

parses : outcome ≡ returns (parser_of outcome) (events_of outcome)
unfolding write_all write run step step_in emit_before detect_format detect_magic classic_variant
    parse_global_header read_global_header read_u32 read_u16 accept_global_header
    parse_packet_header read_packet_header accept_packet_header parse_packet_body emit_packet_body
    packet_info read_u16_be read_u32_be
parses = refl

abbrev empty_index : Indexer
empty_index = record {
  store = record { capacity = 4; size = 0; base = 0; columns = new_columns 4 };
  protocol_ids = [];
  protocol_names = [];
  conversation_keys = [];
}

build-flatten_example :
    index_of (build encoded no_layers empty_index (front ∷ back ∷ []))
    ≡ index_of (build encoded no_layers empty_index (flatten (front ∷ back ∷ []) ∷ []))
build-flatten_example =
    build-flatten encoded no_layers empty_index front (back ∷ []) (parser_of outcome)
      (events_of outcome) parses

-- A reducer that counts frames.
abbrev counter : Reducer ℕ
counter = record { update = λ f c n. n + 1; needs = none; index_only = false }

abbrev open_facade : Facade
open_facade = record { has_channel = true; frame_count = 2 }

attach_reducer-get_frame_batch_example :
    attach_reducer counter (get_frame_batch no_layers empty_index (front ++ back)) open_facade 0
    ≡ with_channel open_facade (
        fed counter 2 0
          (batch_loop (batch_frame no_layers empty_index (front ++ back) none false) 2 0))
attach_reducer-get_frame_batch_example =
    attach_reducer-get_frame_batch counter no_layers empty_index (front ++ back) open_facade 0

-- A watch of at most one frame.
abbrev watching : Watch
watching = record {
  indexer = empty_index;
  parser = some new_parser;
  position = 0;
  last_data = [];
  pending = [];
  max_frames = some 1;
  pumping = false;
  pump_again = false;
  notified = [];
}

starts_empty : IsBounded (some 1) empty_index
unfolding IsBounded count
starts_empty = omega arith

pump_watch-IsBounded_example :
    IsBounded
      (some 1)
      (left (pump_watch no_layers encoded front ((front ++ back) ∷ []) watching)).indexer
pump_watch-IsBounded_example =
    pump_watch-IsBounded no_layers encoded front ((front ++ back) ∷ []) watching starts_empty

-- A codec that throws.
abbrev throwing : List ℕ → Option (List Layer)
throwing bytes = none

abbrev stalled : Ended
stalled = pump_watch throwing encoded (front ++ back) [] watching

throws_once : stalled ≡ failed (left stalled)
unfolding pump_watch pump_rounds pump_loop drain_watch drain_loop left write run step step_in
    emit_before detect_format detect_magic classic_variant parse_global_header read_global_header
    read_u32 read_u16 accept_global_header parse_packet_header read_packet_header
    accept_packet_header parse_packet_body emit_packet_body packet_info read_u16_be read_u32_be
throws_once = refl

pump_watch_stalls_example :
    pump_watch throwing encoded (front ++ back) [] (left stalled)
    ≡ ended (record (left stalled) { pump_again = true })
pump_watch_stalls_example =
    pump_watch_stalls throwing encoded (front ++ back) [] watching (left stalled) throws_once
      (front ++ back) []
