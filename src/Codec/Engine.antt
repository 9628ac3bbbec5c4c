-- ===== src/Codec/Engine.antt =====
-- packages/codec/src/Codec.ts: the set of header codecs, the tables that are made of it, and the
-- choice of the codec of the next layer. A header class is an interface here: what it declares, and
-- its `match`, `decode` and `encode`, which its subclasses define. The data of a decoded layer are
-- read through its fields. Priorities are whole numbers from 0 on. `whole` is the whole number that
-- `Number` makes of a text, and `lower` is toLowerCase.
pub mod Tables
pub mod Select
pub mod Layers
pub mod Graph
use netkitty.Base.{ℕ, ◌+◌, ◌-◌, ◌*◌, ◌≤◌, zero, suc, ltb, leb, ◌==◌, if◌then◌else◌}
use netkitty.Base.{Bool, true, false, not, ◌&&◌, ◌||◌, Option, none, some}
use netkitty.Base.{List, [], ◌∷◌, ◌++◌, length}
use netkitty.Base.Text.{Text, text, text_eq}
use netkitty.Base.Dict.{text_key}
use netkitty.Base.Dict
use netkitty.Base.Sort.{sort}
use netkitty.Analysis.Layer.{Value, undefined, null, to_text, field_value}
use netkitty.Codec.Header.{CodecData, CodecErrorInfo}

pub data DemuxProducerKind : Type 0 where
  uint string guid bytes : DemuxProducerKind

pub record DemuxProducer : Type 0 where
  pub field : Text
  pub namespace : Text
  pub kind : DemuxProducerKind

-- A decoded layer: what the engine reads of a header instance.
pub record CodecModule : Type 0 where
  pub id : Text
  pub name : Text
  pub nickname : Text
  pub is_protocol : Bool
  pub errors : List CodecErrorInfo
  pub fields : List (Text × Value)
  pub demux_producers : List DemuxProducer
  pub start_pos : ℕ
  pub header_length : ℕ

abbrev pub end_pos : CodecModule → ℕ
end_pos m = m.start_pos + m.header_length

-- `decode_with` and `encode_with` make an instance for the packet and the layers before, and run
-- it; `encode_with` is `none` when the data of the layer are not valid, which throws.
pub record CodecModuleConstructor (H : Type 0) : Type 0 where
  pub protocol_id : Text
  pub protocol_name : Text
  pub match_keys : List Text
  pub demux_producers : List DemuxProducer
  pub heuristic_fallback : Bool
  pub match_priority : ℕ
  pub matches : CodecData H → List CodecModule → Bool
  pub decode_with : CodecData H → List CodecModule → CodecData H × CodecModule
  pub encode_with :
      CodecData H → List CodecModule → List (Text × Value) → Option (CodecData H × CodecModule)

pub record RangeKey : Type 0 where
  pub namespace : Text
  pub lo : ℕ
  pub hi : ℕ

abbrev is_digit : ℕ → Bool
is_digit c = leb b'0' c && leb c b'9'

-- `(\d+)`: the digits at the front, as a number, and whether there are any.
unfoldable pub digits_from : Bool → ℕ → Text → (Bool × ℕ) × Text
digits_from any n [] = ((any, n), [])
digits_from any n (c ∷ s) =
    let rest = digits_from true (n * 10 + (c - b'0')) s in
    if is_digit c then rest else ((any, n), c ∷ s)

-- `([^:]+):`: what stands before the first colon, and what stands behind it.
unfoldable pub split_colon : Text → Option (Text × Text)
split_colon [] = none
split_colon (c ∷ s) =
    if c == b':'
    then some ([], s)
    else (elim (split_colon s) [ none ↦ none | some (a, b) ↦ some (c ∷ a, b) ])

range_of : Text → ℕ → ℕ → Option RangeKey
range_of namespace lo hi =
    if ltb hi lo then none else some (record { namespace = namespace; lo = lo; hi = hi })

-- `-(\d+)$` behind the digits of the lower bound.
upper_bound : Text → ℕ → (Bool × ℕ) × Text → Option RangeKey
unfolding range_of
upper_bound namespace lo ((true, hi), []) = range_of namespace lo hi
upper_bound namespace lo ((true, hi), c ∷ rest) = none
upper_bound namespace lo ((false, hi), rest) = none

lower_bound : Text → (Bool × ℕ) × Text → Option RangeKey
unfolding upper_bound digits_from
lower_bound namespace ((true, lo), c ∷ rest) =
    if c == b'-' then upper_bound namespace lo (digits_from false 0 rest) else none
lower_bound namespace ((true, lo), []) = none
lower_bound namespace ((false, lo), rest) = none

unfoldable pub parse_range_key : Text → Option RangeKey
unfolding split_colon digits_from lower_bound
parse_range_key key = elim (split_colon key) [
  | none ↦ none
  | some ([], b) ↦ none
  | some (c ∷ a, b) ↦ lower_bound (c ∷ a) (digits_from false 0 b)
]

-- `raw === undefined || raw === null`
abbrev pub is_absent : Value → Bool
is_absent undefined = true
is_absent null = true
is_absent v = false

module _ (lower : Text → Text) where
  -- `#normalizeDemux`
  unfoldable pub normalize_demux : Value → DemuxProducerKind → Text
  normalize_demux raw uint = to_text raw
  normalize_demux raw guid = lower (to_text raw)
  normalize_demux raw bytes = lower (to_text raw)
  normalize_demux raw string = to_text raw

  -- A key of the dispatch table.
  unfoldable pub demux_key : DemuxProducer → Value → Text
  unfolding normalize_demux
  demux_key p raw = p.namespace ++ (b':' ∷ normalize_demux raw p.kind)

  unfoldable pub keys_of : List DemuxProducer → List (Text × Value) → List Text
  unfolding demux_key
  keys_of [] fields = []
  keys_of (p ∷ ps) fields =
      let raw = field_value p.field fields in
      let rest = keys_of ps fields in if is_absent raw then rest else demux_key p raw ∷ rest

  unfoldable pub compute_demux_keys : Option CodecModule → List Text
  unfolding keys_of
  compute_demux_keys none = []
  compute_demux_keys (some m) = keys_of m.demux_producers m.fields
