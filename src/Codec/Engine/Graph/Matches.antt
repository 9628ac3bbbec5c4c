-- ===== src/Codec/Engine/Graph/Matches.antt =====
-- What selectCodec of Codec.ts takes from a key or a range, and what checkConsistency finds there.
use netkitty.Base.{
  ℕ, leb, if◌then◌else◌, Bool, true, false, ◌&&◌, ◌||◌, Option, none, some, ◌≡◌, refl, sym, ap, ◌∙◌,
  arith, Bool-cases, inl, inr, ◌⊎◌, if_true, if_false,
}
use netkitty.Base.{List, [], ◌∷◌}
use netkitty.Base.Text.{Text, text_eq, text_eq_refl}
use netkitty.Base.Dict.{text_key}
use netkitty.Base.Dict
use netkitty.Codec.Header.{CodecData}
use netkitty.Codec.Engine.{CodecModuleConstructor, CodecModule}
use netkitty.Codec.Engine.Tables.{RangeEntry, has_id}
use netkitty.Codec.Engine.Select.{or_else, first_match, first_in_range, in_bucket, in_ranges}
use netkitty.Codec.Engine.Graph.{bucket_leads, range_leads, ranges_lead}

pub some_injective : {A : Type 0} {a b : A} → some a ≡ some b → a ≡ b
some_injective h = cc

pub or_left : (a b : Bool) → a ≡ true → a || b ≡ true
or_left a b h = ground (arith)

pub or_right : (a b : Bool) → b ≡ true → a || b ≡ true
or_right a b h = ground (arith)

in_both : (a b c e : Bool) → a && (b && c) ≡ true → e ≡ true → a && (b && e) ≡ true
in_both a b c e h k = ground (arith)

pub if_nil : {A : Type 0} (b : Bool) (xs : List A) → xs ≡ [] → (if b then [] else xs) ≡ []
if_nil true xs h = refl
if_nil false xs h = h

pub or_else-cases :
    {A : Type 0} (o p : Option A) (c : A)
    → or_else o p ≡ some c
    → (o ≡ some c) ⊎ ((o ≡ none) × (p ≡ some c))
or_else-cases none p c h = inr (refl, h)
or_else-cases (some a) p c h = inl h

module _ {H : Type 0} (d : CodecData H) (ms : List CodecModule) where
  pub first_match-has_id :
      (cs : List (CodecModuleConstructor H)) (c : CodecModuleConstructor H)
      → first_match d ms cs ≡ some c
      → has_id c.protocol_id cs ≡ true
  unfolding first_match has_id
  first_match-has_id [] c h = cc
  first_match-has_id (x ∷ xs) c h = elim (Bool-cases (x.matches d ms)) [
    | inl e ↦
        let same : x ≡ c = some_injective (sym (if_true _ _ e) ∙ h) in
        or_left (text_eq x.protocol_id c.protocol_id) _
          (ap (λ y. text_eq y.protocol_id c.protocol_id) same ∙ text_eq_refl c.protocol_id)
    | inr e ↦
        or_right (text_eq x.protocol_id c.protocol_id) _
          (first_match-has_id xs c (sym (if_false _ _ e) ∙ h))
  ]

  pub in_bucket-leads :
      (o : Option (List (CodecModuleConstructor H))) (c : CodecModuleConstructor H)
      → in_bucket d ms o ≡ some c
      → bucket_leads c.protocol_id o ≡ true
  unfolding in_bucket bucket_leads
  in_bucket-leads none c h = cc
  in_bucket-leads (some cs) c h = first_match-has_id cs c h

  first_in_range-leads :
      (n : ℕ) (rs : List (RangeEntry H)) (c : CodecModuleConstructor H)
      → first_in_range d ms n rs ≡ some c
      → range_leads c.protocol_id n rs ≡ true
  unfolding first_in_range range_leads
  first_in_range-leads n [] c h = cc
  first_in_range-leads n (r ∷ rs) c h =
      elim (Bool-cases (leb r.lo n && (leb n r.hi && r.codec.matches d ms))) [
        | inl e ↦
            let same : r.codec ≡ c = some_injective (sym (if_true _ _ e) ∙ h) in
            or_left (leb r.lo n && (leb n r.hi && text_eq r.codec.protocol_id c.protocol_id)) _ (
              in_both (leb r.lo n) (leb n r.hi) _ _ e
                (ap (λ y. text_eq y.protocol_id c.protocol_id) same ∙ text_eq_refl c.protocol_id))
        | inr e ↦
            or_right (leb r.lo n && (leb n r.hi && text_eq r.codec.protocol_id c.protocol_id)) _
              (first_in_range-leads n rs c (sym (if_false _ _ e) ∙ h))
      ]

  in_table :
      (rs : Option (List (RangeEntry H))) (w o : Option ℕ) (c : CodecModuleConstructor H)
      → ((n : ℕ) → w ≡ some n → o ≡ some n)
      → (elim rs [
        | none ↦ none
        | some ranges ↦ elim w [ none ↦ none | some n ↦ first_in_range d ms n ranges ]
      ])
        ≡ some c
      → ranges_lead c.protocol_id rs o ≡ true
  unfolding ranges_lead
  in_table none w o c f h = cc
  in_table (some rs) none o c f h = cc
  in_table (some rs) (some n) o c f h =
      ap (ranges_lead c.protocol_id (some rs)) (f n refl) ∙ first_in_range-leads n rs c h

  module _ (whole : Text → Option ℕ) where
    pub in_ranges-leads :
        (table : List (Text × List (RangeEntry H))) (namespace value : Text) (o : Option ℕ)
        (c : CodecModuleConstructor H)
        → ((n : ℕ) → whole value ≡ some n → o ≡ some n)
        → in_ranges whole d ms table (some (namespace, value)) ≡ some c
        → ranges_lead c.protocol_id (Dict.get namespace table) o ≡ true
    unfolding in_ranges ranges_lead
    in_ranges-leads table [] value o c f h = cc
    in_ranges-leads table (x ∷ s) value o c f h =
        in_table (Dict.get (x ∷ s) table) (whole value) o c f h
