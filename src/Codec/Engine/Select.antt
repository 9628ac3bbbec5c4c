-- ===== src/Codec/Engine/Select.antt =====
-- `selectCodec`: the codec of the next layer.
pub mod Reference
pub mod Chosen
use netkitty.Base.{ℕ, leb, ◌==◌, if◌then◌else◌, Bool, true, false, ◌&&◌, Option, none, some}
use netkitty.Base.{List, [], ◌∷◌, ◌++◌, length}
use netkitty.Base.Text.{Text, text, decimal}
use netkitty.Base.Dict.{text_key}
use netkitty.Base.Dict
use netkitty.Codec.Header.{CodecData}
use netkitty.Codec.Engine.{CodecModuleConstructor, CodecModule, compute_demux_keys, split_colon}
use netkitty.Codec.Engine.Tables.{Tables, RangeEntry}

-- `xs[xs.length - 1]`
unfoldable pub last_of : {A : Type 0} → List A → Option A
last_of [] = none
last_of (x ∷ []) = some x
last_of (x ∷ y ∷ xs) = last_of (y ∷ xs)

-- The first answer, or else the second.
abbrev pub or_else : {A : Type 0} → Option A → Option A → Option A
or_else none other = other
or_else (some a) other = some a

module _ {H : Type 0} where
  -- The first codec of a list that matches.
  unfoldable pub first_match :
      CodecData H
      → List CodecModule
      → List (CodecModuleConstructor H)
      → Option (CodecModuleConstructor H)
  first_match d ms [] = none
  first_match d ms (c ∷ cs) =
      let rest = first_match d ms cs in if c.matches d ms then some c else rest

  unfoldable pub first_in_range :
      CodecData H → List CodecModule → ℕ → List (RangeEntry H) → Option (CodecModuleConstructor H)
  first_in_range d ms value [] = none
  first_in_range d ms value (r ∷ rs) =
      let rest = first_in_range d ms value rs in
      if leb r.lo value && (leb value r.hi && r.codec.matches d ms) then some r.codec else rest

  unfoldable pub in_bucket :
      CodecData H
      → List CodecModule
      → Option (List (CodecModuleConstructor H))
      → Option (CodecModuleConstructor H)
  unfolding first_match
  in_bucket d ms none = none
  in_bucket d ms (some bucket) = first_match d ms bucket

-- The keys of the next layer: those of the layer before, or that of the link type at the root.
unfoldable pub demux_keys : (Text → Text) → List CodecModule → Option ℕ → List Text
unfolding last_of
demux_keys lower [] (some linktype) = (text "linktype:" ++ decimal linktype) ∷ []
demux_keys lower [] none = []
demux_keys lower (m ∷ ms) linktype = compute_demux_keys lower (last_of (m ∷ ms))

module _ {H : Type 0} (whole : Text → Option ℕ) where
  -- The ranges of the key's namespace, which ends at the first colon and is not empty.
  unfoldable pub in_ranges :
      CodecData H
      → List CodecModule
      → List (Text × List (RangeEntry H))
      → Option (Text × Text)
      → Option (CodecModuleConstructor H)
  unfolding first_in_range
  in_ranges d ms table none = none
  in_ranges d ms table (some ([], value)) = none
  in_ranges d ms table (some (c ∷ namespace, value)) = elim (Dict.get (c ∷ namespace) table) [
    | none ↦ none
    | some ranges ↦ elim (whole value) [ none ↦ none | some n ↦ first_in_range d ms n ranges ]
  ]

  unfoldable pub by_key :
      Tables H → CodecData H → List CodecModule → Text → Option (CodecModuleConstructor H)
  unfolding in_bucket in_ranges
  by_key t d ms key =
      or_else (in_bucket d ms (Dict.get key t.dispatch_table))
        (in_ranges d ms t.range_table (split_colon key))

  unfoldable pub by_keys :
      Tables H → CodecData H → List CodecModule → List Text → Option (CodecModuleConstructor H)
  unfolding by_key
  by_keys t d ms [] = none
  by_keys t d ms (key ∷ keys) = or_else (by_key t d ms key) (by_keys t d ms keys)

  unfoldable pub select_codec :
      (Text → Text)
      → Tables H
      → CodecData H
      → List CodecModule
      → Option ℕ
      → CodecModuleConstructor H
  unfolding by_keys first_match demux_keys
  select_codec lower t d ms linktype =
      elim (or_else (by_keys t d ms (demux_keys lower ms linktype))
        (first_match d ms t.heuristic_codecs)) [ some c ↦ c | none ↦ t.raw_data_codec ]
