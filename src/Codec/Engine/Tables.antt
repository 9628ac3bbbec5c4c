-- ===== src/Codec/Engine/Tables.antt =====
-- The constructor of Codec and `buildDispatchTable`: custom codecs replace built-in ones of the
-- same id or come behind them, and every codec goes into the tables by its keys.
pub mod Buckets
pub mod Raw
use netkitty.Base.{ℕ, ltb, if◌then◌else◌, Bool, true, false, not, ◌||◌, Option, none, some}
use netkitty.Base.{List, [], ◌∷◌, ◌++◌, length, ◌==◌}
use netkitty.Base.Lists.{each}
use netkitty.Base.Text.{Text, text, text_eq}
use netkitty.Base.Dict.{text_key}
use netkitty.Base.Dict
use netkitty.Base.Sort.{sort}
use netkitty.Codec.Engine.{CodecModuleConstructor, RangeKey, parse_range_key}

module _ {H : Type 0} where
  unfoldable pub has_id : Text → List (CodecModuleConstructor H) → Bool
  has_id id [] = false
  has_id id (c ∷ cs) = text_eq c.protocol_id id || has_id id cs

  -- Every codec of the same id is replaced.
  unfoldable pub replace_in :
      CodecModuleConstructor H → List (CodecModuleConstructor H) → List (CodecModuleConstructor H)
  replace_in custom [] = []
  replace_in custom (c ∷ cs) =
      (if text_eq c.protocol_id custom.protocol_id then custom else c) ∷ replace_in custom cs

  unfoldable pub replace_all :
      List (CodecModuleConstructor H)
      → List (CodecModuleConstructor H)
      → List (CodecModuleConstructor H)
  unfolding replace_in
  replace_all [] cs = cs
  replace_all (custom ∷ customs) cs = replace_all customs (replace_in custom cs)

  -- The custom codecs that have replaced nothing. A replacement keeps all ids, so whether one has
  -- is seen from the ids of the built-in codecs.
  unfoldable pub not_replaced :
      List (CodecModuleConstructor H)
      → List (CodecModuleConstructor H)
      → List (CodecModuleConstructor H)
  unfolding has_id
  not_replaced cs [] = []
  not_replaced cs (custom ∷ customs) =
      let rest = not_replaced cs customs in
      if has_id custom.protocol_id cs then rest else custom ∷ rest

  -- The constructor, up to its tables.
  unfoldable pub header_codecs :
      List (CodecModuleConstructor H)
      → List (CodecModuleConstructor H)
      → List (CodecModuleConstructor H)
  unfolding replace_all not_replaced
  header_codecs built_in customs = replace_all customs built_in ++ not_replaced built_in customs

pub record RangeEntry (H : Type 0) : Type 0 where
  pub lo : ℕ
  pub hi : ℕ
  pub codec : CodecModuleConstructor H

pub record Tables (H : Type 0) : Type 0 where
  pub dispatch_table : List (Text × List (CodecModuleConstructor H))
  pub range_table : List (Text × List (RangeEntry H))
  pub heuristic_codecs : List (CodecModuleConstructor H)
  pub codec_constructor_by_id : List (Text × CodecModuleConstructor H)
  pub raw_data_codec : CodecModuleConstructor H

-- `if (bucket) bucket.push(x) else table.set(key, [x])`
unfoldable pub push : {A : Type 0} → Text → A → List (Text × List A) → List (Text × List A)
push key x table = Dict.alter key [] (λ bucket. bucket ++ (x ∷ [])) table

-- The id of RawData.
abbrev pub raw_id : Text
raw_id = text "raw"

module _ {H : Type 0} where
  unfoldable pub register_key : CodecModuleConstructor H → Text → Tables H → Tables H
  unfolding push
  register_key c key t = elim (parse_range_key key) [
    | some r ↦ record t {
      range_table = push r.namespace (record { lo = r.lo; hi = r.hi; codec = c }) t.range_table;
    }
    | none ↦ record t { dispatch_table = push key c t.dispatch_table }
  ]

  unfoldable pub register_keys : CodecModuleConstructor H → List Text → Tables H → Tables H
  unfolding register_key each
  register_keys c keys t = each (register_key c) keys t

  -- The first codec of an id is kept.
  unfoldable pub register_id : CodecModuleConstructor H → Tables H → Tables H
  register_id c t = elim (Dict.get c.protocol_id t.codec_constructor_by_id) [
    | some other ↦ t
    | none ↦ record t {
      codec_constructor_by_id = Dict.put c.protocol_id c t.codec_constructor_by_id;
    }
  ]

  -- A codec without keys, or with the fallback, is also tried by its content.
  unfoldable pub register_heuristic : CodecModuleConstructor H → Tables H → Tables H
  register_heuristic c t =
      if length c.match_keys == 0 || c.heuristic_fallback
      then record t { heuristic_codecs = t.heuristic_codecs ++ (c ∷ []) }
      else t

  unfoldable pub register : CodecModuleConstructor H → Tables H → Tables H
  unfolding register_id register_keys register_heuristic
  register c t =
      if text_eq c.protocol_id raw_id
      then record (register_id c t) { raw_data_codec = c }
      else register_heuristic c (register_keys c c.match_keys (register_id c t))

  unfoldable pub register_all : List (CodecModuleConstructor H) → Tables H → Tables H
  unfolding register each
  register_all codecs t = each register codecs t

  abbrev pub higher : CodecModuleConstructor H → CodecModuleConstructor H → Bool
  higher a b = ltb b.match_priority a.match_priority

  abbrev pub higher_range : RangeEntry H → RangeEntry H → Bool
  higher_range a b = higher a.codec b.codec

  abbrev pub by_priority : List (CodecModuleConstructor H) → List (CodecModuleConstructor H)
  by_priority cs = sort higher cs

-- `for (const bucket of table.values()) sort(bucket)`
unfoldable pub sort_buckets :
    {A : Type 0} → (A → A → Bool) → List (Text × List A) → List (Text × List A)
sort_buckets first [] = []
sort_buckets first ((key, bucket) ∷ table) = (key, sort first bucket) ∷ sort_buckets first table

module _ {H : Type 0} where
  -- The tables that an empty codec starts with: the field `#rawDataCodec` is RawData at first.
  abbrev pub empty_tables : CodecModuleConstructor H → Tables H
  empty_tables raw = record {
    dispatch_table = [];
    range_table = [];
    heuristic_codecs = [];
    codec_constructor_by_id = [];
    raw_data_codec = raw;
  }

  abbrev pub sorted_tables : Tables H → Tables H
  sorted_tables t = record t {
    dispatch_table = sort_buckets higher t.dispatch_table;
    range_table = sort_buckets higher_range t.range_table;
    heuristic_codecs = by_priority t.heuristic_codecs;
  }

  unfoldable pub build_dispatch_table :
      CodecModuleConstructor H → List (CodecModuleConstructor H) → Tables H
  unfolding register_all sort_buckets
  build_dispatch_table raw codecs = sorted_tables (register_all codecs (empty_tables raw))
