-- ===== src/Codec/Engine/Graph/Consistent.antt =====
-- The codec that decoding selects for a layer is one that the check of consistency accepts there.
use mathlib.Core.Path.{subst}
use netkitty.Base.{
  ℕ, ◌<◌, ◌^◌, ◌==◌, Bool, true, false, Option, Option-cases, none, some, ◌≡◌, refl, sym, ap, ◌∙◌,
  Bool-cases, inl, inr, if_true, if_false,
}
use netkitty.Base.{List, [], ◌∷◌, ◌++◌, All}
use netkitty.Base.Text.{Text, text, text_eq, text_eq_refl, decimal}
use netkitty.Base.Dict.{text_key}
use netkitty.Base.Dict
use netkitty.Analysis.Layer.{
  Value, undefined, null, number, flag, string, to_text, to_number, field_value,
}
use netkitty.Codec.Header.{CodecData}
use netkitty.Codec.Engine.{
  CodecModuleConstructor, CodecModule, DemuxProducer, DemuxProducerKind, uint, guid, bytes,
  is_absent, demux_key, normalize_demux, keys_of, compute_demux_keys, split_colon,
}
use netkitty.Codec.Engine as Kind
use netkitty.Codec.Engine.Tables.{Tables, has_id}
use netkitty.Codec.Engine.Select.{
  or_else, first_match, in_bucket, in_ranges, by_key, by_keys, demux_keys, last_of, select_codec,
}
use netkitty.Codec.Engine.Graph.{
  DecodedLayer, producers_of, bucket_leads, leads, scan_producers, check_pair, issue_after,
}
use netkitty.Codec.Engine.Graph.Matches.{
  in_ranges-leads, or_left, or_right, if_nil, or_else-cases, first_match-has_id, in_bucket-leads,
}

-- What is relied on of `Number` and toLowerCase: `Number` reads the decimal numeral of an exact
-- number back, reads no number in the names of the Booleans, and does not see the case of letters.
pub record IsNumeral (whole : Text → Option ℕ) (lower : Text → Text) : Type 0 where
  pub decimals : (n : ℕ) → n < 2 ^ 53 → whole (decimal n) ≡ some n
  pub truth : whole (text "true") ≡ none
  pub falsity : whole (text "false") ≡ none
  pub lowered : (s : Text) → whole (lower s) ≡ whole s

-- A number that a double holds with all smaller ones.
abbrev pub IsExact : Value → Type 0
IsExact (number n) = n < 2 ^ 53
IsExact undefined = Unit
IsExact null = Unit
IsExact (flag b) = Unit
IsExact (string s) = Unit

abbrev pub HasExact : List (Text × Value) → Type 0
HasExact fields = (name : Text) → IsExact (field_value name fields)

-- A namespace is not empty and has no colon.
abbrev pub HasNoColon : Text → Type 0
HasNoColon s = All (λ c. (c == b':') ≡ false) s

abbrev pub IsNamespace : Text → Type 0
IsNamespace [] = ⊥
IsNamespace (c ∷ s) = HasNoColon (c ∷ s)

split_colon_lem : (s v : Text) → HasNoColon s → split_colon (s ++ (b':' ∷ v)) ≡ some (s, v)
unfolding split_colon
split_colon_lem [] v h = refl
split_colon_lem (c ∷ s) v h = rw (h.0, split_colon_lem s v h.1) refl

IsNamespace-HasNoColon : (s : Text) → IsNamespace s → HasNoColon s
IsNamespace-HasNoColon [] h = absurd h
IsNamespace-HasNoColon (c ∷ s) h = h

module _ (whole : Text → Option ℕ) (lower : Text → Text) (numeral : IsNumeral whole lower) where
  whole-to_text :
      (v : Value) (n : ℕ)
      → is_absent v ≡ false
      → IsExact v
      → whole (to_text v) ≡ some n
      → to_number whole v ≡ some n
  unfolding to_text to_number
  whole-to_text undefined n a x h = cc
  whole-to_text null n a x h = cc
  whole-to_text (number k) n a x h = sym (numeral.decimals k x) ∙ h
  whole-to_text (flag true) n a x h = cc (numeral.truth)
  whole-to_text (flag false) n a x h = cc (numeral.falsity)
  whole-to_text (string s) n a x h = h

  whole-normalize_demux :
      (v : Value) (k : DemuxProducerKind) → whole (normalize_demux lower v k) ≡ whole (to_text v)
  unfolding normalize_demux
  whole-normalize_demux v uint = refl
  whole-normalize_demux v guid = numeral.lowered (to_text v)
  whole-normalize_demux v bytes = numeral.lowered (to_text v)
  whole-normalize_demux v Kind.string = refl

module _ {H : Type 0} (whole : Text → Option ℕ) (lower : Text → Text)
    (numeral : IsNumeral whole lower) (t : Tables H) (d : CodecData H) (ms : List CodecModule) where
  by_key-leads :
      (p : DemuxProducer) (v : Value) (c : CodecModuleConstructor H)
      → IsNamespace p.namespace
      → is_absent v ≡ false
      → IsExact v
      → by_key whole t d ms (demux_key lower p v) ≡ some c
      → leads whole lower t c.protocol_id p v ≡ true
  unfolding by_key leads demux_key
  by_key-leads p v c ns present exact_value h =
      let key = demux_key lower p v in
      let split : split_colon key ≡ some (p.namespace, normalize_demux lower v p.kind) =
        split_colon_lem p.namespace _ (IsNamespace-HasNoColon p.namespace ns) in
      let exact = bucket_leads c.protocol_id (Dict.get key t.dispatch_table) in
      elim (or_else-cases (in_bucket d ms (Dict.get key t.dispatch_table)) _ c h) [
        | inl found ↦ or_left exact _ (in_bucket-leads d ms _ c found)
        | inr (missed, ranged) ↦ or_right exact _ (
            in_ranges-leads d ms whole t.range_table p.namespace (normalize_demux lower v p.kind)
              (to_number whole v) c
              (λ n e.
                whole-to_text whole lower numeral v n present exact_value
                  (sym (whole-normalize_demux whole lower numeral v p.kind) ∙ e))
              (ap (in_ranges whole d ms t.range_table) (sym split) ∙ ranged))
      ]

  by_keys-scan :
      (c : CodecModuleConstructor H) (fields : List (Text × Value)) (ps : List DemuxProducer)
      (first : Option (DemuxProducer × Value))
      → HasExact fields
      → All (λ p. IsNamespace p.namespace) ps
      → by_keys whole t d ms (keys_of lower ps fields) ≡ some c
      → (scan_producers whole lower t c.protocol_id fields ps first).1 ≡ true
  unfolding by_keys keys_of scan_producers
  by_keys-scan c fields [] first small ns h = cc
  by_keys-scan c fields (p ∷ ps) first small ns h =
      let v = field_value p.field fields in
      elim (Bool-cases (is_absent v)) [
        | inl absent ↦ rw absent (
            by_keys-scan c fields ps first small ns.1
              (ap (by_keys whole t d ms) (sym (if_true _ _ absent)) ∙ h))
        | inr present ↦ rw present (elim (Bool-cases (leads whole lower t c.protocol_id p v)) [
          | inl led ↦ rw led refl
          | inr not_led ↦
              rw not_led
                (elim (or_else-cases (by_key whole t d ms (demux_key lower p v)) _ c
                  (ap (by_keys whole t d ms) (sym (if_false _ _ present)) ∙ h)) [
                    | inl found ↦ cc (by_key-leads p v c ns.0 present (small p.field) found)
                    | inr (missed, later) ↦ by_keys-scan c fields ps _ small ns.1 later
                  ])
        ])
      ]

  no_issue :
      (cs : List (CodecModuleConstructor H)) (i : ℕ) (parent : DecodedLayer) (child : Text)
      (s : Option (DemuxProducer × Value) × Bool)
      → s.1 ≡ true
      → issue_after whole lower cs t i parent child s ≡ []
  no_issue cs i parent child (first, true) h = refl
  no_issue cs i parent child (first, false) h = cc

  demux_keys-last :
      (ms : List CodecModule) (m : CodecModule) (linktype : Option ℕ)
      → last_of ms ≡ some m
      → demux_keys lower ms linktype ≡ keys_of lower m.demux_producers m.fields
  unfolding demux_keys last_of compute_demux_keys
  demux_keys-last [] m linktype h = cc
  demux_keys-last (x ∷ ms) m linktype h = ap (compute_demux_keys lower) h

  abbrev picked :
      Option (CodecModuleConstructor H) → CodecModuleConstructor H → CodecModuleConstructor H
  picked o raw = elim o [ some c ↦ c | none ↦ raw ]

  module _ (cs : List (CodecModuleConstructor H)) (i : ℕ) (m : CodecModule) where
    raw-check_pair :
        check_pair whole lower cs t i
          (record { id = m.id; fields = m.fields })
          t.raw_data_codec.protocol_id
        ≡ []
    unfolding check_pair
    raw-check_pair = if_true _ _ (text_eq_refl t.raw_data_codec.protocol_id)

    content-check_pair :
        (c : CodecModuleConstructor H)
        → has_id c.protocol_id t.heuristic_codecs ≡ true
        → check_pair whole lower cs t i (record { id = m.id; fields = m.fields }) c.protocol_id ≡ []
    unfolding check_pair
    content-check_pair c h =
        if_nil (text_eq c.protocol_id t.raw_data_codec.protocol_id) _ (if_true _ _ h)

    scanned-check_pair :
        (c : CodecModuleConstructor H)
        → (scan_producers whole lower t c.protocol_id m.fields (producers_of cs m.id) none).1 ≡ true
        → check_pair whole lower cs t i (record { id = m.id; fields = m.fields }) c.protocol_id ≡ []
    unfolding check_pair
    scanned-check_pair c h = if_nil (text_eq c.protocol_id t.raw_data_codec.protocol_id) _ (
        if_nil (has_id c.protocol_id t.heuristic_codecs) _
          (no_issue cs i (record { id = m.id; fields = m.fields }) c.protocol_id _ h))

  -- The codec that is selected behind a layer is never reported as a child that the layer does not
  -- lead to.
  pub select_codec-check_pair :
      (cs : List (CodecModuleConstructor H)) (i : ℕ) (m : CodecModule) (linktype : Option ℕ)
      → last_of ms ≡ some m
      → producers_of cs m.id ≡ m.demux_producers
      → All (λ p. IsNamespace p.namespace) m.demux_producers
      → HasExact m.fields
      → check_pair whole lower cs t i
          (record { id = m.id; fields = m.fields })
          (select_codec whole lower t d ms linktype).protocol_id
        ≡ []
  unfolding select_codec
  select_codec-check_pair cs i m linktype last declared ns small =
      let found =
        or_else (by_keys whole t d ms (demux_keys lower ms linktype))
          (first_match d ms t.heuristic_codecs) in
      let accepted = λ (c : CodecModuleConstructor H).
        check_pair whole lower cs t i (record { id = m.id; fields = m.fields }) c.protocol_id
        ≡ [] in
      elim (Option-cases found) [
        | inl nothing ↦
            subst accepted (sym (ap (λ o. picked o t.raw_data_codec) nothing))
              (raw-check_pair cs i m)
        | inr (c, chosen) ↦
            subst accepted (sym (ap (λ o. picked o t.raw_data_codec) chosen))
              (elim (or_else-cases (by_keys whole t d ms (demux_keys lower ms linktype)) _ c
                chosen) [
                  | inl keyed ↦ scanned-check_pair cs i m c (
                      ap (λ ps. (scan_producers whole lower t c.protocol_id m.fields ps none).1)
                        declared
                      ∙ by_keys-scan c m.fields m.demux_producers none small ns (
                          ap (by_keys whole t d ms) (sym (demux_keys-last ms m linktype last))
                          ∙ keyed))
                  | inr (missed, content) ↦
                      content-check_pair cs i m c
                        (first_match-has_id d ms t.heuristic_codecs c content)
                ])
      ]
