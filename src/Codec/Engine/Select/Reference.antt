-- ===== src/Codec/Engine/Select/Reference.antt =====
-- `selectCodec` over the tables, against a search in the list of the registered codecs.
use mathlib.Core.Option
use netkitty.Base.{ℕ, leb, if◌then◌else◌, ◌&&◌, Option, none, some, ◌≡◌, refl, sym, ap, ◌∙◌, arith}
use netkitty.Base.{List, [], ◌∷◌, ◌++◌}
use netkitty.Base.Lists.{gather}
use netkitty.Base.Text.{Text}
use netkitty.Base.Dict.{text_key}
use netkitty.Base.Dict
use netkitty.Base.Sort.{sort}
use netkitty.Codec.Header.{CodecData}
use netkitty.Codec.Engine.{CodecModuleConstructor, CodecModule, split_colon}
use netkitty.Codec.Engine.Tables.{RangeEntry, build_dispatch_table, by_priority, higher_range}
use netkitty.Codec.Engine.Tables.Buckets.{exact_of, ranges_of, content_of, build_dispatch_table_lem}
use netkitty.Codec.Engine.Tables.Raw.{build_dispatch_table-raw, raw_of}
use netkitty.Codec.Engine.Select.{
  first_match, first_in_range, in_bucket, in_ranges, by_key, by_keys, demux_keys, select_codec,
  or_else,
}

module _ {H : Type 0} where
  -- The codecs of the ranges that a number lies in.
  abbrev pub covering : ℕ → List (RangeEntry H) → List (CodecModuleConstructor H)
  covering n [] = []
  covering n (r ∷ rs) = if leb r.lo n && leb n r.hi then r.codec ∷ covering n rs else covering n rs

  module _ (whole : Text → Option ℕ) (cs : List (CodecModuleConstructor H)) where
    -- The codecs whose ranges hold the value of a key.
    abbrev pub ranged : Option (Text × Text) → List (CodecModuleConstructor H)
    ranged none = []
    ranged (some ([], value)) = []
    ranged (some (c ∷ namespace, value)) = elim (whole value) [
      | none ↦ []
      | some n ↦ covering n (sort higher_range (gather (ranges_of (c ∷ namespace)) cs))
    ]

    -- The codecs that a key asks for: those with the exact key, and then those with its range.
    abbrev pub candidates : Text → List (CodecModuleConstructor H)
    candidates key = by_priority (gather (exact_of key) cs) ++ ranged (split_colon key)

  -- All codecs that are asked, in order: those of the keys, and then those by content.
  abbrev pub asked :
      (Text → Option ℕ)
      → List (CodecModuleConstructor H)
      → List Text
      → List (CodecModuleConstructor H)
  asked whole cs keys = gather (candidates whole cs) keys ++ by_priority (gather content_of cs)

  chosen_lem :
      (o : Option (CodecModuleConstructor H)) (r : CodecModuleConstructor H)
      → (elim o [ some c ↦ c | none ↦ r ]) ≡ Option.get_or o r
  chosen_lem none r = refl
  chosen_lem (some c) r = refl

  first_match-append :
      (d : CodecData H) (ms : List CodecModule) (xs ys : List (CodecModuleConstructor H))
      → first_match d ms (xs ++ ys) ≡ or_else (first_match d ms xs) (first_match d ms ys)
  unfolding first_match
  first_match-append d ms [] ys = refl
  first_match-append d ms (x ∷ xs) ys = ground (arith, first_match-append d ms xs ys)

  first_in_range_lem :
      (d : CodecData H) (ms : List CodecModule) (n : ℕ) (rs : List (RangeEntry H))
      → first_in_range d ms n rs ≡ first_match d ms (covering n rs)
  unfolding first_in_range first_match
  first_in_range_lem d ms n [] = refl
  first_in_range_lem d ms n (r ∷ rs) = ground (arith, first_in_range_lem d ms n rs)

  in_bucket_lem :
      (d : CodecData H) (ms : List CodecModule) (o : Option (List (CodecModuleConstructor H)))
      → in_bucket d ms o ≡ first_match d ms (Option.get_or o [])
  unfolding in_bucket first_match
  in_bucket_lem d ms none = refl
  in_bucket_lem d ms (some b) = refl

  module _ (whole : Text → Option ℕ) (raw : CodecModuleConstructor H)
      (cs : List (CodecModuleConstructor H)) (d : CodecData H) (ms : List CodecModule) where
    in_namespace :
        (o : Option (List (RangeEntry H))) (w : Option ℕ)
        → (elim o [
          | none ↦ none
          | some rs ↦ elim w [ none ↦ none | some n ↦ first_in_range d ms n rs ]
        ])
          ≡ first_match d ms (elim w [ none ↦ [] | some n ↦ covering n (Option.get_or o []) ])
    unfolding first_match
    in_namespace none none = refl
    in_namespace none (some n) = refl
    in_namespace (some rs) none = refl
    in_namespace (some rs) (some n) = first_in_range_lem d ms n rs

    in_ranges_lem :
        (s : Option (Text × Text))
        → in_ranges whole d ms (build_dispatch_table raw cs).range_table s
          ≡ first_match d ms (ranged whole cs s)
    unfolding in_ranges first_match
    in_ranges_lem none = refl
    in_ranges_lem (some ([], value)) = refl
    in_ranges_lem (some (c ∷ namespace, value)) =
        in_namespace (Dict.get (c ∷ namespace) (build_dispatch_table raw cs).range_table)
          (whole value)
        ∙ ap (λ b. first_match d ms (elim (whole value) [ none ↦ [] | some n ↦ covering n b ]))
            (build_dispatch_table_lem raw cs [] (c ∷ namespace)).1

    by_key_lem :
        (key : Text)
        → by_key whole (build_dispatch_table raw cs) d ms key
          ≡ first_match d ms (candidates whole cs key)
    unfolding by_key
    by_key_lem key =
        ap
          (λ o.
            or_else o
              (in_ranges whole d ms (build_dispatch_table raw cs).range_table (split_colon key)))
          (in_bucket_lem d ms (Dict.get key (build_dispatch_table raw cs).dispatch_table)
            ∙ ap (first_match d ms) (build_dispatch_table_lem raw cs key []).0)
        ∙ ap (or_else _) (in_ranges_lem (split_colon key))
        ∙ sym (first_match-append d ms (by_priority (gather (exact_of key) cs)) _)

    by_keys_lem :
        (keys : List Text)
        → by_keys whole (build_dispatch_table raw cs) d ms keys
          ≡ first_match d ms (gather (candidates whole cs) keys)
    unfolding by_keys first_match
    by_keys_lem [] = refl
    by_keys_lem (key ∷ keys) =
        ap (λ o. or_else o (by_keys whole (build_dispatch_table raw cs) d ms keys)) (by_key_lem key)
        ∙ ap (or_else (first_match d ms (candidates whole cs key))) (by_keys_lem keys)
        ∙ sym (first_match-append d ms (candidates whole cs key) _)

    -- The codec that is selected over the tables is the first that matches among the codecs that
    -- are asked: for each key in turn those that claim it and those whose range holds it, and then
    -- those by content, each group by priority; and RawData if none of them matches.
    pub select_codec-asked :
        (lower : Text → Text) (linktype : Option ℕ)
        → select_codec whole lower (build_dispatch_table raw cs) d ms linktype
          ≡ Option.get_or
              (first_match d ms (asked whole cs (demux_keys lower ms linktype)))
              (raw_of raw cs)
    unfolding select_codec
    select_codec-asked lower linktype =
        let keys = demux_keys lower ms linktype in
        let found = by_keys whole (build_dispatch_table raw cs) d ms keys in
        let content = (build_dispatch_table raw cs).heuristic_codecs in
        chosen_lem (or_else found (first_match d ms content))
          (build_dispatch_table raw cs).raw_data_codec
        ∙ ap (Option.get_or (or_else found (first_match d ms content)))
            (build_dispatch_table-raw raw cs)
        ∙ ap (λ o. Option.get_or o (raw_of raw cs))
            (ap (λ o. or_else o (first_match d ms content)) (by_keys_lem keys)
              ∙ ap
                  (λ l.
                    or_else (first_match d ms (gather (candidates whole cs) keys))
                      (first_match d ms l))
                  (build_dispatch_table_lem raw cs [] []).2
              ∙ sym (first_match-append d ms (gather (candidates whole cs) keys) _))
