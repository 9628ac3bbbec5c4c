-- ===== src/Codec/Engine/Graph/Packets.antt =====
-- The layers of a decoded packet pass the check of consistency.
use mathlib.Core.Path.{subst}
use netkitty.Base.{
  ℕ, leb, ◌+◌, zero, suc, Option, some, ◌≡◌, refl, sym, ap, ◌∙◌, Bool-cases, inl, inr, if_true,
  if_false,
}
use netkitty.Base.{List, [], ◌∷◌, ◌++◌, All, length, map}
use netkitty.Base.Text.{Text}
use netkitty.Codec.Header.{CodecData}
use netkitty.Codec.Engine.{CodecModuleConstructor, CodecModule}
use netkitty.Codec.Engine.Tables.{Tables, build_dispatch_table}
use netkitty.Codec.Engine.Select.{last_of, select_codec}
use netkitty.Codec.Engine.Select.Chosen.{select_codec-All}
use netkitty.Codec.Engine.Layers.{decode_layer, decode_layers, fresh_data}
use netkitty.Codec.Engine.Graph.{
  DecodedLayer, producers_of, check_pair, check_from, check_consistency,
}
use netkitty.Codec.Engine.Graph.Consistent.{
  HasExact, IsNumeral, IsNamespace, select_codec-check_pair,
}
use netkitty.Codec.Engine.Graph.Matches.{some_injective}

-- What `decode` answers of a layer, as the check reads it.
abbrev pub result_of : CodecModule → DecodedLayer
result_of m = record { id = m.id; fields = m.fields }

-- The instances of a codec have its id and declare the producers that are found under this id,
-- whose namespaces have no colon; and every number among their fields is below 2 ^ 53.
pub record IsDeclared {H : Type 0} (cs : List (CodecModuleConstructor H))
    (c : CodecModuleConstructor H) : Type 0 where
  pub named : (d : CodecData H) (ms : List CodecModule) → (c.decode_with d ms).1.id ≡ c.protocol_id
  pub produces :
      (d : CodecData H) (ms : List CodecModule)
      → (c.decode_with d ms).1.demux_producers ≡ producers_of cs c.protocol_id
  pub exact : (d : CodecData H) (ms : List CodecModule) → HasExact (c.decode_with d ms).1.fields
  pub spaced : All (λ p. IsNamespace p.namespace) (producers_of cs c.protocol_id)

nil_both : {A : Type 0} (xs ys : List A) → xs ++ ys ≡ [] → (xs ≡ []) × (ys ≡ [])
nil_both [] ys h = (refl, h)
nil_both (x ∷ xs) ys h = cc

both_nil : {A : Type 0} (xs ys : List A) → xs ≡ [] → ys ≡ [] → xs ++ ys ≡ []
both_nil xs ys h k = rw (h, k) refl

last-append : {A : Type 0} (xs : List A) (x : A) → last_of (xs ++ (x ∷ [])) ≡ some x
unfolding last_of
last-append [] x = refl
last-append (y ∷ []) x = refl
last-append (y ∷ z ∷ xs) x = last-append (z ∷ xs) x

module _ {H : Type 0} (whole : Text → Option ℕ) (lower : Text → Text)
    (numeral : IsNumeral whole lower) (raw : CodecModuleConstructor H)
    (cs : List (CodecModuleConstructor H)) (hr : IsDeclared cs raw) (all : All (IsDeclared cs) cs)
    (linktype : Option ℕ) where
  abbrev t : Tables H
  t = build_dispatch_table raw cs

  -- No two neighbours are reported.
  abbrev Quiet : List CodecModule → Type 0
  Quiet ms = (i : ℕ) → check_from whole lower cs t i (map result_of ms) ≡ []

  -- The last layer declares what its codec does.
  abbrev EndsDeclared : List CodecModule → Type 0
  EndsDeclared ms =
      (m : CodecModule)
      → last_of ms ≡ some m
      → (producers_of cs m.id ≡ m.demux_producers)
        × (All (λ p. IsNamespace p.namespace) m.demux_producers × HasExact m.fields)

  Quiet-append :
      (ms : List CodecModule) (m : CodecModule) (i : ℕ)
      → check_from whole lower cs t i (map result_of ms) ≡ []
      → ((l : CodecModule) (j : ℕ)
          → last_of ms ≡ some l
          → check_pair whole lower cs t j (result_of l) m.id ≡ [])
      → check_from whole lower cs t i (map result_of (ms ++ (m ∷ []))) ≡ []
  unfolding check_from last_of
  Quiet-append [] m i q p = refl
  Quiet-append (x ∷ []) m i q p = both_nil _ [] (p x i refl) refl
  Quiet-append (x ∷ y ∷ ms) m i q p =
      let parts = nil_both (check_pair whole lower cs t i (result_of x) y.id) _ q in
      both_nil _ _ parts.0 (Quiet-append (y ∷ ms) m (i + 1) parts.1 p)

  decode_layer-IsDeclared :
      (d : CodecData H) (ms : List CodecModule)
      → IsDeclared cs (select_codec whole lower t d ms linktype)
  decode_layer-IsDeclared d ms =
      select_codec-All (IsDeclared cs) whole lower raw cs d ms linktype hr all

  step-Quiet :
      (d : CodecData H) (ms : List CodecModule)
      → Quiet ms
      → EndsDeclared ms
      → let m = (decode_layer whole lower t d ms linktype).1 in
        Quiet (ms ++ (m ∷ [])) × EndsDeclared (ms ++ (m ∷ []))
  unfolding decode_layer
  step-Quiet d ms q e =
      let c = select_codec whole lower t d ms linktype in
      let declared = decode_layer-IsDeclared d ms in
      let m = (c.decode_with d ms).1 in
      let named : m.id ≡ c.protocol_id = declared.named d ms in
      let same : m.demux_producers ≡ producers_of cs c.protocol_id = declared.produces d ms in
      (
        (λ i. Quiet-append ms m i (q i) (λ l j last.
            subst (λ id. check_pair whole lower cs t j (result_of l) id ≡ []) (sym named)
              (select_codec-check_pair whole lower numeral t d ms cs j l linktype last (e l last).0
                (e l last).1.0 (e l last).1.1))),
        (λ x last.
            let here : m ≡ x = some_injective (sym (last-append ms m) ∙ last) in
            subst
              (λ x.
                (producers_of cs x.id ≡ x.demux_producers)
                × (All (λ p. IsNamespace p.namespace) x.demux_producers × HasExact x.fields))
              here
              (
                ap (producers_of cs) named ∙ sym same,
                (
                  subst (λ ps. All (λ p. IsNamespace p.namespace) ps) (sym same) declared.spaced,
                  declared.exact d ms,
                ),
              )),
      )

  decode_layers-Quiet :
      (fuel : ℕ) (d : CodecData H) (ms : List CodecModule) (r : CodecData H × List CodecModule)
      → Quiet ms
      → EndsDeclared ms
      → decode_layers whole lower fuel t d ms linktype ≡ some r
      → Quiet r.1
  unfolding decode_layers
  decode_layers-Quiet zero d ms r q e h = cc
  decode_layers-Quiet (suc fuel) d ms r q e h =
      let s = decode_layer whole lower t d ms linktype in
      let next = step-Quiet d ms q e in
      elim (Bool-cases (leb (length s.0.packet) s.0.start_pos)) [
        | inl done ↦
            subst (λ (r : CodecData H × List CodecModule). Quiet r.1)
              (some_injective (sym (if_true _ _ done) ∙ h)) next.0
        | inr more ↦
            decode_layers-Quiet fuel s.0 (ms ++ (s.1 ∷ [])) r next.0 next.1
              (sym (if_false _ _ more) ∙ h)
      ]

  -- Where `Number` reads the numerals below 2 ^ 53 back and does not see the case of letters, and
  -- every codec, RawData's included, makes headers that have its id, declare the producers of the
  -- first codec with this id, under namespaces that are not empty and have no colon, and hold no
  -- number from 2 ^ 53 on: the check of consistency reports nothing in the layers that a packet
  -- decodes to.
  pub decode_layers-check_consistency :
      (fuel : ℕ) (packet : List ℕ) (r : CodecData H × List CodecModule)
      → decode_layers whole lower fuel (build_dispatch_table raw cs) (fresh_data packet) [] linktype
        ≡ some r
      → check_consistency whole lower cs (build_dispatch_table raw cs) (map result_of r.1) ≡ []
  unfolding check_consistency check_from last_of
  decode_layers-check_consistency fuel packet r h =
      decode_layers-Quiet fuel (fresh_data packet) [] r (λ i. refl) (λ m last. cc) h 0
