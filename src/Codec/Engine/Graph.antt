-- ===== src/Codec/Engine/Graph.antt =====
-- The projections of the demux graph in packages/codec/src/Codec.ts: the layers that may follow a
-- layer, the field to set for one of them, and the check that the layers of a packet follow one
-- another as their fields say.
pub mod Matches
pub mod Consistent
pub mod Packets
use netkitty.Base.{
  ℕ, leb, ◌+◌, ◌==◌, if◌then◌else◌, Bool, true, false, ◌&&◌, ◌||◌, not, Option, none, some,
}
use netkitty.Base.{List, [], ◌∷◌, ◌++◌}
use netkitty.Base.Text.{Text, text, text_eq}
use netkitty.Base.Dict.{text_key}
use netkitty.Base.Dict
use netkitty.Analysis.Layer.{Value, to_text, to_number, field_value}
use netkitty.Codec.Engine.{
  CodecModuleConstructor, DemuxProducer, DemuxProducerKind, uint, is_absent, demux_key,
}
use netkitty.Codec.Engine.Select.{or_else}
use netkitty.Codec.Engine.Tables.{Tables, RangeEntry, has_id}

-- A value to set: a text, or a number, `none` where `Number` makes no whole number of the text.
pub data DiscriminatorValue : Type 0 where
  as_text : Text → DiscriminatorValue
  as_number : Option ℕ → DiscriminatorValue

pub record Discriminator : Type 0 where
  pub field : Text
  pub value : DiscriminatorValue

pub record NextLayer : Type 0 where
  pub id : Text
  pub name : Text
  pub discriminator : Option Discriminator

-- What the graph reads of a decoded layer.
pub record DecodedLayer : Type 0 where
  pub id : Text
  pub fields : List (Text × Value)

pub record ConsistencyIssue : Type 0 where
  pub index : ℕ
  pub parent_id : Text
  pub child_id : Text
  pub field : Text
  pub actual : Value
  pub suggestion : Option Discriminator
  pub message : Text

-- `key.startsWith(prefix)` and `key.substring(prefix.length)`
unfoldable pub strip_prefix : Text → Text → Option Text
strip_prefix [] key = some key
strip_prefix (p ∷ ps) [] = none
strip_prefix (p ∷ ps) (k ∷ ks) = let rest = strip_prefix ps ks in if p == k then rest else none

unfoldable pub includes : Text → List Text → Bool
includes id [] = false
includes id (x ∷ xs) = text_eq x id || includes id xs

-- The layers found so far, and the set `seen` of their ids.
pub record Found : Type 0 where
  pub result : List NextLayer
  pub seen : List Text

unfoldable pub value_for : (Text → Option ℕ) → DemuxProducerKind → Text → DiscriminatorValue
value_for whole kind raw = elim kind [ uint ↦ as_number (whole raw) | _ ↦ as_text raw ]

-- The first layer of this id that has a discriminator.
unfoldable pub find_child : Text → List NextLayer → Option Discriminator
find_child child [] = none
find_child child (n ∷ ns) =
    let rest = find_child child ns in
    if text_eq n.id child then (elim n.discriminator [ none ↦ rest | some d ↦ some d ]) else rest

module _ {H : Type 0} where
  -- `#producersOf`
  unfoldable pub producers_of : List (CodecModuleConstructor H) → Text → List DemuxProducer
  producers_of [] id = []
  producers_of (c ∷ cs) id =
      if text_eq c.protocol_id id then c.demux_producers else producers_of cs id

  unfoldable pub add_next : Text → DiscriminatorValue → CodecModuleConstructor H → Found → Found
  unfolding includes
  add_next field value c f = if includes c.protocol_id f.seen then f else record {
    result =
        f.result
        ++ (record {
          id = c.protocol_id;
          name = c.protocol_name;
          discriminator = some (record { field = field; value = value });
        }
            ∷ []);
    seen = c.protocol_id ∷ f.seen;
  }

  unfoldable pub add_bucket :
      Text → DiscriminatorValue → List (CodecModuleConstructor H) → Found → Found
  unfolding add_next
  add_bucket field value [] f = f
  add_bucket field value (c ∷ cs) f = add_bucket field value cs (add_next field value c f)

  unfoldable pub add_ranges : Text → List (RangeEntry H) → Found → Found
  unfolding add_next
  add_ranges field [] f = f
  add_ranges field (r ∷ rs) f =
      add_ranges field rs (add_next field (as_number (some r.lo)) r.codec f)

  module _ (whole : Text → Option ℕ) where
    -- The exact keys in the namespace of a producer.
    unfoldable pub add_keys :
        DemuxProducer → List (Text × List (CodecModuleConstructor H)) → Found → Found
    unfolding strip_prefix value_for add_bucket
    add_keys p [] f = f
    add_keys p ((key, cs) ∷ table) f =
        add_keys p table (elim (strip_prefix (p.namespace ++ (b':' ∷ [])) key) [
          | none ↦ f
          | some raw ↦ add_bucket p.field (value_for whole p.kind raw) cs f
        ])

    unfoldable pub add_producer : Tables H → DemuxProducer → Found → Found
    unfolding add_keys add_ranges
    add_producer t p f =
        let keyed = add_keys p t.dispatch_table f in
        elim (Dict.get p.namespace t.range_table) [
          | none ↦ keyed
          | some ranges ↦ add_ranges p.field ranges keyed
        ]

    unfoldable pub add_producers : Tables H → List DemuxProducer → Found → Found
    unfolding add_producer
    add_producers t [] f = f
    add_producers t (p ∷ ps) f = add_producers t ps (add_producer t p f)

    unfoldable pub allowed_next_layers :
        List (CodecModuleConstructor H) → Tables H → Text → List NextLayer
    unfolding add_producers producers_of
    allowed_next_layers cs t parent =
        (add_producers t (producers_of cs parent) (record { result = []; seen = [] })).result
        ++ (record {
          id = t.raw_data_codec.protocol_id;
          name = t.raw_data_codec.protocol_name;
          discriminator = none;
        }
            ∷ [])

    unfoldable pub child_discriminator :
        List (CodecModuleConstructor H) → Tables H → Text → Text → Option Discriminator
    unfolding allowed_next_layers find_child
    child_discriminator cs t parent child = find_child child (allowed_next_layers cs t parent)

module _ {H : Type 0} where
  unfoldable pub bucket_leads : Text → Option (List (CodecModuleConstructor H)) → Bool
  unfolding has_id
  bucket_leads child none = false
  bucket_leads child (some cs) = has_id child cs

  unfoldable pub range_leads : Text → ℕ → List (RangeEntry H) → Bool
  range_leads child n [] = false
  range_leads child n (r ∷ rs) =
      (leb r.lo n && (leb n r.hi && text_eq r.codec.protocol_id child)) || range_leads child n rs

  -- `ranges && Number.isInteger(Number(actual)) && ranges.some(…)`
  unfoldable pub ranges_lead : Text → Option (List (RangeEntry H)) → Option ℕ → Bool
  unfolding range_leads
  ranges_lead child none n = false
  ranges_lead child (some rs) none = false
  ranges_lead child (some rs) (some n) = range_leads child n rs

  module _ (whole : Text → Option ℕ) (lower : Text → Text) where
    -- Whether a field's value leads to the child.
    unfoldable pub leads : Tables H → Text → DemuxProducer → Value → Bool
    unfolding bucket_leads ranges_lead demux_key to_number
    leads t child p actual =
        bucket_leads child (Dict.get (demux_key lower p actual) t.dispatch_table)
        || ranges_lead child (Dict.get p.namespace t.range_table) (to_number whole actual)

    -- The loop over the producers: the first that has a value, and whether one leads to the child.
    unfoldable pub scan_producers :
        Tables H
        → Text
        → List (Text × Value)
        → List DemuxProducer
        → Option (DemuxProducer × Value)
        → Option (DemuxProducer × Value) × Bool
    unfolding leads
    scan_producers t child fields [] first = (first, false)
    scan_producers t child fields (p ∷ ps) first =
        let actual = field_value p.field fields in
        let first' = or_else first (some (p, actual)) in
        let skipped = scan_producers t child fields ps first in
        let rest = scan_producers t child fields ps first' in
        if is_absent actual
        then skipped
        else (if leads t child p actual then (first', true) else rest)

    abbrev pub issue_of :
        List (CodecModuleConstructor H)
        → Tables H
        → ℕ
        → DecodedLayer
        → Text
        → DemuxProducer × Value
        → ConsistencyIssue
    issue_of cs t i parent child (p, actual) = record {
      index = i;
      parent_id = parent.id;
      child_id = child;
      field = p.field;
      actual = actual;
      suggestion = child_discriminator whole cs t parent.id child;
      message =
          parent.id
          ++ (b'.'
              ∷ (p.field
                  ++ (b'=' ∷ (to_text actual ++ (text " 与下一层 '" ++ (child ++ text "' 不符"))))));
    }

    abbrev pub issue_after :
        List (CodecModuleConstructor H)
        → Tables H
        → ℕ
        → DecodedLayer
        → Text
        → Option (DemuxProducer × Value) × Bool
        → List ConsistencyIssue
    issue_after cs t i parent child (first, true) = []
    issue_after cs t i parent child (none, false) = []
    issue_after cs t i parent child (some r, false) = issue_of cs t i parent child r ∷ []

    unfoldable pub check_pair :
        List (CodecModuleConstructor H) → Tables H → ℕ → DecodedLayer → Text → List ConsistencyIssue
    unfolding has_id scan_producers producers_of
    check_pair cs t i parent child =
        if text_eq child t.raw_data_codec.protocol_id
        then []
        else if has_id child t.heuristic_codecs
        then []
        else issue_after cs t i parent child
            (scan_producers t child parent.fields (producers_of cs parent.id) none)

    unfoldable pub check_from :
        List (CodecModuleConstructor H) → Tables H → ℕ → List DecodedLayer → List ConsistencyIssue
    unfolding check_pair
    check_from cs t i [] = []
    check_from cs t i (p ∷ []) = []
    check_from cs t i (p ∷ c ∷ ls) = check_pair cs t i p c.id ++ check_from cs t (i + 1) (c ∷ ls)

    unfoldable pub check_consistency :
        List (CodecModuleConstructor H) → Tables H → List DecodedLayer → List ConsistencyIssue
    unfolding check_from
    check_consistency cs t decoded = check_from cs t 0 decoded
