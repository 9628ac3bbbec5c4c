-- ===== src/Codec/Engine/Select/Chosen.antt =====
-- The codec that is selected is one of those that were registered: what holds of all of them, and of
-- RawData, holds of it.
use mathlib.Core.Option
use netkitty.Base.{
  ℕ, leb, ◌==◌, if◌then◌else◌, Bool, true, false, ◌&&◌, ◌||◌, Option, Option-cases, none, some,
  Bool-cases, inl, inr, sym,
}
use mathlib.Core.Path.{subst}
use netkitty.Base.{List, [], ◌∷◌, ◌++◌, length, All}
use netkitty.Base.Lists.{gather}
use netkitty.Base.Sort.{sort, insert}
use netkitty.Base.Text.{Text, text_eq}
use netkitty.Codec.Header.{CodecData}
use netkitty.Codec.Engine.{CodecModuleConstructor, CodecModule, parse_range_key, split_colon}
use netkitty.Codec.Engine.Tables.{
  RangeEntry, build_dispatch_table, by_priority, higher, higher_range,
}
use netkitty.Codec.Engine.Tables.Buckets.{
  exact_of, exact_claim, ranges_of, range_claim, content_of, is_raw,
}
use netkitty.Codec.Engine.Tables.Raw.{raw_of}
use netkitty.Codec.Engine.Select.{first_match, select_codec, demux_keys}
use netkitty.Codec.Engine.Select.Reference.{asked, candidates, ranged, covering, select_codec-asked}

module _ {A : Type 0} (P : A → Type 0) where
  All-append : (xs ys : List A) → All P xs → All P ys → All P (xs ++ ys)
  All-append [] ys h k = k
  All-append (x ∷ xs) ys h k = (h.0, All-append xs ys h.1 k)

  All-gather :
      {X : Type 0} (out : X → List A) (xs : List X)
      → All (λ x. All P (out x)) xs
      → All P (gather out xs)
  All-gather out [] h = tt
  All-gather out (x ∷ xs) h = All-append (out x) (gather out xs) h.0 (All-gather out xs h.1)

  All-insert :
      (first : A → A → Bool) (x : A) (ys : List A) → P x → All P ys → All P (insert first x ys)
  unfolding insert
  All-insert first x [] h k = (h, tt)
  All-insert first x (y ∷ ys) h k = elim (Bool-cases (first y x)) [
    | inl before ↦ rw before (k.0, All-insert first x ys h k.1)
    | inr after ↦ rw after (h, k)
  ]

  All-sort : (first : A → A → Bool) (xs : List A) → All P xs → All P (sort first xs)
  unfolding sort
  All-sort first [] h = tt
  All-sort first (x ∷ xs) h = All-insert first x (sort first xs) h.0 (All-sort first xs h.1)

  All-if : (b : Bool) (xs : List A) → All P xs → All P (if b then [] else xs)
  All-if true xs h = tt
  All-if false xs h = h

All-imp :
    {A : Type 0} (P Q : A → Type 0) (xs : List A) → ((x : A) → P x → Q x) → All P xs → All Q xs
All-imp P Q [] f h = tt
All-imp P Q (x ∷ xs) f h = (f x h.0, All-imp P Q xs f h.1)

All-of : {A : Type 0} (P : A → Type 0) → ((x : A) → P x) → (xs : List A) → All P xs
All-of P p [] = tt
All-of P p (x ∷ xs) = (p x, All-of P p xs)

module _ {H : Type 0} (P : CodecModuleConstructor H → Type 0) where
  claims-All :
      (key : Text) (c : CodecModuleConstructor H) (k : Text) → P c → All P (exact_claim key c k)
  claims-All key c k h = elim (Option-cases (parse_range_key k)) [
    | inl exact ↦
        rw (exact, exact_claim)
          (elim (Bool-cases (text_eq k key)) [ inl e ↦ rw e (h, tt) | inr e ↦ rw e tt ])
    | inr (r, ranged) ↦ rw (ranged, exact_claim) tt
  ]

  range_claim-All :
      (namespace : Text) (c : CodecModuleConstructor H) (k : Text)
      → P c
      → All (λ r. P r.codec) (range_claim namespace c k)
  range_claim-All namespace c k h = elim (Option-cases (parse_range_key k)) [
    | inl exact ↦ rw (exact, range_claim) tt
    | inr (r, ranged) ↦
        rw (ranged, range_claim)
          (elim (Bool-cases (text_eq r.namespace namespace)) [
            | inl e ↦ rw e (h, tt)
            | inr e ↦ rw e tt
          ])
  ]

  covering-All :
      (n : ℕ) (rs : List (RangeEntry H)) → All (λ r. P r.codec) rs → All P (covering n rs)
  covering-All n [] h = tt
  covering-All n (r ∷ rs) h = elim (Bool-cases (leb r.lo n && leb n r.hi)) [
    | inl e ↦ rw e (h.0, covering-All n rs h.1)
    | inr e ↦ rw e (covering-All n rs h.1)
  ]

  content_of-All : (c : CodecModuleConstructor H) → P c → All P (content_of c)
  content_of-All c h =
      All-if P (is_raw c) _ (elim (Bool-cases (length c.match_keys == 0 || c.heuristic_fallback)) [
        | inl e ↦ rw e (h, tt)
        | inr e ↦ rw e tt
      ])

  module _ (cs : List (CodecModuleConstructor H)) (all : All P cs) where
    exact-All : (key : Text) → All P (by_priority (gather (exact_of key) cs))
    exact-All key = All-sort P higher _ (
        All-gather P (exact_of key) cs (
          All-imp P _ cs
            (λ c h. All-if P (is_raw c) _ (
              All-gather P (exact_claim key c) c.match_keys
                (All-of _ (λ k. claims-All key c k h) c.match_keys)))
            all))

    ranges-All :
        (namespace : Text)
        → All (λ r. P r.codec) (sort higher_range (gather (ranges_of namespace) cs))
    ranges-All namespace =
        All-sort (λ r. P r.codec) higher_range _
          (All-gather (λ r. P r.codec) (ranges_of namespace) cs
            (All-imp P _ cs
              (λ c h.
                All-if (λ r. P r.codec) (is_raw c) _
                  (All-gather (λ r. P r.codec) (range_claim namespace c) c.match_keys
                    (All-of _ (λ k. range_claim-All namespace c k h) c.match_keys)))
              all))

    ranged-All : (whole : Text → Option ℕ) (s : Option (Text × Text)) → All P (ranged whole cs s)
    ranged-All whole none = tt
    ranged-All whole (some ([], value)) = tt
    ranged-All whole (some (c ∷ namespace, value)) = elim (Option-cases (whole value)) [
      | inl e ↦ rw (e, All, ranged) tt
      | inr (n, e) ↦ rw (e, ranged) (covering-All n _ (ranges-All (c ∷ namespace)))
    ]

    asked-All : (whole : Text → Option ℕ) (keys : List Text) → All P (asked whole cs keys)
    asked-All whole keys =
        All-append P (gather (candidates whole cs) keys) _
          (All-gather P (candidates whole cs) keys (
            All-of _
              (λ key.
                All-append P (by_priority (gather (exact_of key) cs)) _ (exact-All key)
                  (ranged-All whole (split_colon key)))
              keys))
          (All-sort P higher _ (All-gather P content_of cs (All-imp P _ cs content_of-All all)))

  first_match-All :
      (d : CodecData H) (ms : List CodecModule) (xs : List (CodecModuleConstructor H))
      (r : CodecModuleConstructor H)
      → All P xs
      → P r
      → P (Option.get_or (first_match d ms xs) r)
  unfolding first_match
  first_match-All d ms [] r h hr = hr
  first_match-All d ms (x ∷ xs) r h hr = elim (Bool-cases (x.matches d ms)) [
    | inl e ↦ rw e h.0
    | inr e ↦ rw e (first_match-All d ms xs r h.1 hr)
  ]

  raw_of-All :
      (raw : CodecModuleConstructor H) (cs : List (CodecModuleConstructor H))
      → P raw
      → All P cs
      → P (raw_of raw cs)
  raw_of-All raw [] hr h = hr
  raw_of-All raw (c ∷ cs) hr h = elim (Bool-cases (is_raw c)) [
    | inl e ↦ rw e (raw_of-All c cs h.0 h.1)
    | inr e ↦ rw e (raw_of-All raw cs hr h.1)
  ]

  pub select_codec-All :
      (whole : Text → Option ℕ) (lower : Text → Text) (raw : CodecModuleConstructor H)
      (cs : List (CodecModuleConstructor H)) (d : CodecData H) (ms : List CodecModule)
      (linktype : Option ℕ)
      → P raw
      → All P cs
      → P (select_codec whole lower (build_dispatch_table raw cs) d ms linktype)
  select_codec-All whole lower raw cs d ms linktype hr all =
      subst P (sym (select_codec-asked whole raw cs d ms lower linktype)) (
        first_match-All d ms _ _ (asked-All cs all whole (demux_keys lower ms linktype))
          (raw_of-All raw cs hr all))
