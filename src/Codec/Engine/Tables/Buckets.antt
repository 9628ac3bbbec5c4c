-- ===== src/Codec/Engine/Tables/Buckets.antt =====
-- What the tables hold after the codecs have been registered, as lists of the codecs themselves.
use mathlib.Core.Option
use netkitty.Base.{
  if◌then◌else◌, Bool, true, false, ◌||◌, Option-cases, none, some, ◌≡◌, refl, sym, ap, ◌∙◌, arith,
  Bool-cases, inl, inr, ◌⊎◌,
}
use netkitty.Base.{List, [], ◌∷◌, ◌++◌, length, ◌==◌, append-nil}
use netkitty.Base.Lists.{gather, each-appends, each-keeps}
use netkitty.Base.Text.{Text, text_eq, text_eq_iff}
use netkitty.Base.Dict.{text_key}
use netkitty.Base.Dict
use netkitty.Base.Sort.{sort}
use netkitty.Codec.Engine.{CodecModuleConstructor, parse_range_key}
use netkitty.Codec.Engine.Tables.{
  Tables, RangeEntry, push, raw_id, register_key, register_keys, register_id, register_heuristic,
  register, register_all, higher, higher_range, by_priority, sort_buckets, empty_tables,
  build_dispatch_table,
}

module _ {A : Type 0} where
  -- The bucket of a key, empty where there is none.
  abbrev pub bucket : Text → List (Text × List A) → List A
  bucket key table = Option.get_or (Dict.get key table) []

  bucket-push :
      (key k : Text) (x : A) (table : List (Text × List A))
      → bucket key (push k x table) ≡ bucket key table ++ (if text_eq k key then x ∷ [] else [])
  unfolding push
  bucket-push key k x table =
      ap (λ o. Option.get_or o []) (Dict.get-alter k key [] (λ b. b ++ (x ∷ [])) table)
      ∙ split (Bool-cases (text_eq k key))
    where
      split :
          ((text_eq k key ≡ true) ⊎ (text_eq k key ≡ false))
          → Option.get_or
              (if text_eq k key then some (bucket k table ++ (x ∷ [])) else Dict.get key table)
              []
            ≡ bucket key table ++ (if text_eq k key then x ∷ [] else [])
      split (inl same) = rw same (ap (λ j. bucket j table ++ (x ∷ [])) ((text_eq_iff k key).0 same))
      split (inr other) = rw other (sym (append-nil _))

  bucket-sort_buckets :
      (first : A → A → Bool) (key : Text) (table : List (Text × List A))
      → bucket key (sort_buckets first table) ≡ sort first (bucket key table)
  unfolding sort_buckets Dict.get sort
  bucket-sort_buckets first key [] = refl
  bucket-sort_buckets first key ((k, b) ∷ table) = elim (Bool-cases (text_eq k key)) [
    | inl here ↦ rw here refl
    | inr there ↦ rw there (bucket-sort_buckets first key table)
  ]

module _ {H : Type 0} where
  -- The codec under an exact key, if this is the key.
  abbrev pub exact_claim : Text → CodecModuleConstructor H → Text → List (CodecModuleConstructor H)
  exact_claim key c k = elim (parse_range_key k) [
    | none ↦ if text_eq k key then c ∷ [] else []
    | some r ↦ []
  ]

  -- The range that a key claims in a namespace.
  abbrev pub range_claim : Text → CodecModuleConstructor H → Text → List (RangeEntry H)
  range_claim namespace c k = elim (parse_range_key k) [
    | none ↦ []
    | some r ↦
        if text_eq r.namespace namespace
        then record { lo = r.lo; hi = r.hi; codec = c } ∷ []
        else []
  ]

  abbrev pub is_raw : CodecModuleConstructor H → Bool
  is_raw c = text_eq c.protocol_id raw_id

  -- What a codec claims: RawData nothing, another by each of its keys.
  abbrev pub exact_of : Text → CodecModuleConstructor H → List (CodecModuleConstructor H)
  exact_of key c = if is_raw c then [] else gather (exact_claim key c) c.match_keys

  abbrev pub ranges_of : Text → CodecModuleConstructor H → List (RangeEntry H)
  ranges_of namespace c = if is_raw c then [] else gather (range_claim namespace c) c.match_keys

  abbrev pub content_of : CodecModuleConstructor H → List (CodecModuleConstructor H)
  content_of c =
      if is_raw c
      then []
      else (if length c.match_keys == 0 || c.heuristic_fallback then c ∷ [] else [])

  -- A step of registration, seen in one of the tables.
  register_key-exact :
      (key : Text) (c : CodecModuleConstructor H) (k : Text) (t : Tables H)
      → bucket key (register_key c k t).dispatch_table
        ≡ bucket key t.dispatch_table ++ exact_claim key c k
  unfolding register_key
  register_key-exact key c k t = elim (Option-cases (parse_range_key k)) [
    | inl exact ↦ rw (exact, register_key, exact_claim) (bucket-push key k c t.dispatch_table)
    | inr (r, ranged) ↦ rw (ranged, register_key, exact_claim) (sym (append-nil _))
  ]

  register_key-range :
      (namespace : Text) (c : CodecModuleConstructor H) (k : Text) (t : Tables H)
      → bucket namespace (register_key c k t).range_table
        ≡ bucket namespace t.range_table ++ range_claim namespace c k
  unfolding register_key
  register_key-range namespace c k t = elim (Option-cases (parse_range_key k)) [
    | inl exact ↦ rw (exact, register_key, range_claim) (sym (append-nil _))
    | inr (r, ranged) ↦
        rw (ranged, register_key, range_claim) (bucket-push namespace r.namespace _ t.range_table)
  ]

  register_key-content :
      (c : CodecModuleConstructor H) (k : Text) (t : Tables H)
      → (register_key c k t).heuristic_codecs ≡ t.heuristic_codecs
  unfolding register_key
  register_key-content c k t = ground (arith)

  register_id-tables :
      (c : CodecModuleConstructor H) (t : Tables H)
      → ((register_id c t).dispatch_table ≡ t.dispatch_table)
        × ((register_id c t).range_table ≡ t.range_table)
        × ((register_id c t).heuristic_codecs ≡ t.heuristic_codecs)
  unfolding register_id
  register_id-tables c t = elim (Option-cases (Dict.get c.protocol_id t.codec_constructor_by_id)) [
    | inl new ↦ rw (new, register_id) (refl, refl, refl)
    | inr (other, known) ↦ rw (known, register_id) (refl, refl, refl)
  ]

  register_heuristic-tables :
      (c : CodecModuleConstructor H) (t : Tables H)
      → ((register_heuristic c t).dispatch_table ≡ t.dispatch_table)
        × ((register_heuristic c t).range_table ≡ t.range_table)
        × ((register_heuristic c t).heuristic_codecs
            ≡ t.heuristic_codecs
              ++ (if length c.match_keys == 0 || c.heuristic_fallback then c ∷ [] else []))
  unfolding register_heuristic
  register_heuristic-tables c t =
      elim (Bool-cases (length c.match_keys == 0 || c.heuristic_fallback)) [
        | inl content ↦ rw content (refl, refl, refl)
        | inr keyed ↦ rw keyed (refl, refl, sym (append-nil _))
      ]

  register-exact :
      (key : Text) (c : CodecModuleConstructor H) (t : Tables H)
      → bucket key (register c t).dispatch_table ≡ bucket key t.dispatch_table ++ exact_of key c
  unfolding register register_keys
  register-exact key c t = elim (Bool-cases (is_raw c)) [
    | inl raw ↦ rw raw (ap (bucket key) (register_id-tables c t).0 ∙ sym (append-nil _))
    | inr keyed ↦ rw keyed (
        let t' = register_id c t in
        ap (bucket key) (register_heuristic-tables c (register_keys c c.match_keys t')).0
        ∙ each-appends (λ t. bucket key t.dispatch_table) (register_key c) (exact_claim key c)
            (register_key-exact key c) c.match_keys t'
        ∙ ap (λ d. bucket key d ++ gather (exact_claim key c) c.match_keys)
            (register_id-tables c t).0)
  ]

  register-range :
      (namespace : Text) (c : CodecModuleConstructor H) (t : Tables H)
      → bucket namespace (register c t).range_table
        ≡ bucket namespace t.range_table ++ ranges_of namespace c
  unfolding register register_keys
  register-range namespace c t = elim (Bool-cases (is_raw c)) [
    | inl raw ↦ rw raw (ap (bucket namespace) (register_id-tables c t).1 ∙ sym (append-nil _))
    | inr keyed ↦ rw keyed (
        let t' = register_id c t in
        ap (bucket namespace) (register_heuristic-tables c (register_keys c c.match_keys t')).1
        ∙ each-appends (λ t. bucket namespace t.range_table) (register_key c)
            (range_claim namespace c) (register_key-range namespace c) c.match_keys t'
        ∙ ap (λ d. bucket namespace d ++ gather (range_claim namespace c) c.match_keys)
            (register_id-tables c t).1)
  ]

  register-content :
      (c : CodecModuleConstructor H) (t : Tables H)
      → (register c t).heuristic_codecs ≡ t.heuristic_codecs ++ content_of c
  unfolding register register_keys
  register-content c t = elim (Bool-cases (is_raw c)) [
    | inl raw ↦ rw raw ((register_id-tables c t).2 ∙ sym (append-nil _))
    | inr keyed ↦ rw keyed (
        let t' = register_id c t in
        (register_heuristic-tables c (register_keys c c.match_keys t')).2
        ∙ ap (λ l. l ++ (if length c.match_keys == 0 || c.heuristic_fallback then c ∷ [] else []))
            (each-keeps (λ t. t.heuristic_codecs) (register_key c) (register_key-content c)
                c.match_keys t'
              ∙ (register_id-tables c t).2))
  ]

  -- The bucket of a key has the codecs that claim it, those of the namespace of ranges its ranges,
  -- and the list of content codecs those without keys or with the fallback: each by priority, and
  -- of one priority in the order of registration.
  pub build_dispatch_table_lem :
      (raw : CodecModuleConstructor H) (cs : List (CodecModuleConstructor H)) (key namespace : Text)
      → let t = build_dispatch_table raw cs in
        (bucket key t.dispatch_table ≡ by_priority (gather (exact_of key) cs))
        × (bucket namespace t.range_table ≡ sort higher_range (gather (ranges_of namespace) cs))
        × (t.heuristic_codecs ≡ by_priority (gather content_of cs))
  unfolding build_dispatch_table register_all Dict.get
  build_dispatch_table_lem raw cs key namespace =
      let t = register_all cs (empty_tables raw) in
      (
        bucket-sort_buckets higher key t.dispatch_table
            ∙ ap by_priority (
                each-appends (λ t. bucket key t.dispatch_table) register (exact_of key)
                  (register-exact key) cs (empty_tables raw)),
        bucket-sort_buckets higher_range namespace t.range_table
            ∙ ap (sort higher_range) (
                each-appends (λ t. bucket namespace t.range_table) register (ranges_of namespace)
                  (register-range namespace) cs (empty_tables raw)),
        ap by_priority (
            each-appends (λ t. t.heuristic_codecs) register content_of register-content cs
              (empty_tables raw)),
      )
