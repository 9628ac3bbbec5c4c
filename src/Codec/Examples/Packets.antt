-- ===== src/Codec/Examples/Packets.antt =====
-- Two small protocols, one inside the other, for the theorems of the engine.
use netkitty.Base.{ℕ, ◌+◌, ◌-◌, ◌≡◌, min, arith, refl, true, false, none, some, map}
use netkitty.Base.{List, [], ◌∷◌, length, get_or}
use mathlib.Core.Option
use netkitty.Base.Sort.{sort, insert}
use netkitty.Base.Dict
use netkitty.Base.Lists.{each}
use netkitty.Base.Text.{Text, text, text_eq, decimal}
use netkitty.Analysis.Layer.{number, field_value, to_text}
use netkitty.Codec.Header.{CodecData}
use netkitty.Codec.Engine.{
  CodecModule, CodecModuleConstructor, DemuxProducer, uint, compute_demux_keys, demux_key,
  digits_from, keys_of, normalize_demux, parse_range_key, split_colon,
}
use netkitty.Codec.Engine.Tables.{
  build_dispatch_table, push, register, register_all, register_heuristic, register_id, register_key,
  register_keys, sort_buckets,
}
use netkitty.Codec.Engine.Select.{
  by_key, by_keys, demux_keys, first_in_range, first_match, in_bucket, in_ranges, last_of,
  select_codec,
}
use netkitty.Codec.Engine.Select.Reference.{asked, select_codec-asked}
use netkitty.Codec.Engine.Layers.{decode_layer, decode_layers, fresh_data}
use netkitty.Codec.Engine.Layers.Tiles.{Tiles}
use netkitty.Codec.Engine.Graph.{check_consistency, producers_of}
use netkitty.Base.{◌%◌, Bool-cases, inl, inr}
use netkitty.Codec.Engine.Graph.Consistent.{HasExact}
use netkitty.Codec.Engine.Graph.Packets.{IsDeclared, decode_layers-check_consistency, result_of}
use netkitty.Codec.Examples.Numerals.{lower, numeral, whole}

-- A header of at most `n` bytes, whose first byte is its field `kind`.
abbrev module_of : Text → List DemuxProducer → ℕ → CodecData ℕ → CodecModule
module_of id producers n d = record {
  id = id;
  name = id;
  nickname = id;
  is_protocol = true;
  errors = [];
  fields = (text "kind", number (get_or d.packet d.start_pos 0 % 256)) ∷ [];
  demux_producers = producers;
  start_pos = d.start_pos;
  header_length = min (n + 1) (length d.packet - d.start_pos);
}

abbrev codec_of : Text → List Text → List DemuxProducer → ℕ → CodecModuleConstructor ℕ
codec_of id keys producers n = record {
  protocol_id = id;
  protocol_name = id;
  match_keys = keys;
  demux_producers = producers;
  heuristic_fallback = false;
  match_priority = 0;
  matches = λ d ms. true;
  decode_with = λ d ms. (d, module_of id producers n d);
  encode_with = λ d ms fields. none;
}

abbrev kind_producer : DemuxProducer
kind_producer = record { field = text "kind"; namespace = text "kind"; kind = uint }

abbrev link : CodecModuleConstructor ℕ
link = codec_of (text "link") (text "linktype:1" ∷ []) (kind_producer ∷ []) 1

abbrev inner : CodecModuleConstructor ℕ
inner = codec_of (text "inner") (text "kind:7" ∷ text "kind:10-20" ∷ []) [] 0

abbrev raw : CodecModuleConstructor ℕ
raw = codec_of (text "raw") [] [] 1500

abbrev codecs : List (CodecModuleConstructor ℕ)
codecs = link ∷ inner ∷ raw ∷ []

-- A link header for the kind 12, a header of one byte, and a rest.
abbrev packet : List ℕ
packet = 12 ∷ 0 ∷ 99 ∷ 5 ∷ 5 ∷ []

-- A codec whose header is empty.
abbrev empty_header : CodecModuleConstructor ℕ
empty_header = record (codec_of (text "empty") [] [] 0) {
  decode_with = λ d ms. (d, record (module_of (text "empty") [] 0 d) { header_length = 0 });
}

-- The codec behind a link header of kind 12.
select_codec-asked_example :
    select_codec whole lower
      (build_dispatch_table raw codecs)
      (fresh_data packet)
      (module_of (text "link") (kind_producer ∷ []) 1 (fresh_data packet) ∷ [])
      none
    ≡ Option.get_or
        (first_match
          (fresh_data packet)
          (module_of (text "link") (kind_producer ∷ []) 1 (fresh_data packet) ∷ [])
          (asked whole codecs (text "kind:12" ∷ [])))
        raw
unfolding demux_keys compute_demux_keys keys_of demux_key normalize_demux last_of field_value
    to_text decimal text_eq
select_codec-asked_example =
    select_codec-asked whole raw codecs (fresh_data packet)
      (module_of (text "link") (kind_producer ∷ []) 1 (fresh_data packet) ∷ []) lower none

kind-HasExact : (n : ℕ) → HasExact ((text "kind", number (n % 256)) ∷ [])
unfolding field_value
kind-HasExact n name = elim (Bool-cases (text_eq (text "kind") name)) [
  | inl same ↦ rw same (omega arith)
  | inr other ↦ rw other tt
]

IsDeclared-link : IsDeclared codecs link
unfolding producers_of text_eq
IsDeclared-link = record {
  named = λ d ms. refl;
  produces = λ d ms. refl;
  exact = λ d ms. kind-HasExact (get_or d.packet d.start_pos 0);
  spaced = ((refl, (refl, (refl, (refl, tt)))), tt);
}

IsDeclared-inner : IsDeclared codecs inner
unfolding producers_of text_eq
IsDeclared-inner = record {
  named = λ d ms. refl;
  produces = λ d ms. refl;
  exact = λ d ms. kind-HasExact (get_or d.packet d.start_pos 0);
  spaced = tt;
}

IsDeclared-raw : IsDeclared codecs raw
unfolding producers_of text_eq
IsDeclared-raw = record {
  named = λ d ms. refl;
  produces = λ d ms. refl;
  exact = λ d ms. kind-HasExact (get_or d.packet d.start_pos 0);
  spaced = tt;
}

abbrev layers : List CodecModule
layers =
    module_of (text "link") (kind_producer ∷ []) 1 (fresh_data packet)
    ∷ module_of (text "inner") [] 0 (record (fresh_data packet) { start_pos = 2 })
    ∷ module_of (text "raw") [] 1500 (record (fresh_data packet) { start_pos = 3 })
    ∷ []

layers_of_packet :
    decode_layers whole lower 6 (build_dispatch_table raw codecs) (fresh_data packet) [] (some 1)
    ≡ some (record (fresh_data packet) { start_pos = 5 }, layers)
unfolding decode_layers decode_layer select_codec demux_keys compute_demux_keys keys_of demux_key
    normalize_demux last_of field_value to_text decimal text_eq by_keys by_key in_bucket in_ranges
    first_in_range first_match split_colon build_dispatch_table register_all each register
    register_id register_keys register_key register_heuristic push sort_buckets parse_range_key
    digits_from whole sort insert Dict.get Dict.alter Dict.put
layers_of_packet = refl

decode_layers-check_consistency_example :
    check_consistency whole lower codecs (build_dispatch_table raw codecs) (map result_of layers)
    ≡ []
decode_layers-check_consistency_example =
    decode_layers-check_consistency whole lower numeral raw codecs IsDeclared-raw
      (IsDeclared-link, (IsDeclared-inner, (IsDeclared-raw, tt))) (some 1) 6 packet
      (record (fresh_data packet) { start_pos = 5 }, layers) layers_of_packet
