-- ===== src/Analysis/FrameIndexer/Protocols.antt =====
-- FrameIndexer.ts: the dictionary of the protocols, and the records that `add` stores.
use netkitty.Base.{ℕ, ◌+◌, ◌≤◌, ◌<◌, ◌≡◌, refl, sym, ap, ◌∙◌, arith}
use netkitty.Base.{
  Option, none, some, List, [], ◌∷◌, ◌++◌, length, get_or, length-append, get_or-append,
}
use netkitty.Base.{if◌then◌else◌, inl, inr, Bool-cases}
use netkitty.Base.Text.{Text, text_eq, text_eq_iff, text_eq_refl}
use netkitty.Base.Dict.{text_key, number_key, get, put, get-put}
use netkitty.Analysis.FrameIndexer.{Indexer, identify, protocol_id, protocol_name}

get_or_last : {A : Type 0} (xs : List A) (x d : A) → get_or (xs ++ (x ∷ [])) (length xs) d ≡ x
get_or_last [] x d = refl
get_or_last (y ∷ ys) x d = get_or_last ys x d

-- The ids are the positions of the names.
pub record AreNumbered (ids : List (Text × ℕ)) (names : List Text) : Type 0 where
  pub below : (name : Text) (id : ℕ) → get name ids ≡ some id → id < length names
  pub named : (name : Text) (id : ℕ) → get name ids ≡ some id → get_or names id [] ≡ name

module _ (ids : List (Text × ℕ)) (names : List Text) (new : Text) (v : AreNumbered ids names) where
  put-named :
      (name : Text) (id : ℕ)
      → get name (put new (length names) ids) ≡ some id
      → (id < length (names ++ (new ∷ []))) × (get_or (names ++ (new ∷ [])) id [] ≡ name)
  put-named name id h = elim (Bool-cases (text_eq new name)) [
    | inl same ↦
        let key : new ≡ name = (text_eq_iff new name).0 same in
        let place : length names ≡ id = ground (arith, get-put new name (length names) ids) in
        (
          omega (arith, length-append names (new ∷ [])),
          ap (λ i. get_or (names ++ (new ∷ [])) i []) (sym place) ∙ get_or_last names new [] ∙ key,
        )
    | inr other ↦
        let old : get name ids ≡ some id = ground (arith, get-put new name (length names) ids) in
        let low = v.below name id old in
        (
          omega (arith, length-append names (new ∷ [])),
          get_or-append names (new ∷ []) id [] low ∙ v.named name id old,
        )
  ]

  pub put-AreNumbered : AreNumbered (put new (length names) ids) (names ++ (new ∷ []))
  put-AreNumbered = record {
    below = λ name id h. (put-named name id h).0;
    named = λ name id h. (put-named name id h).1;
  }

-- What `#protocolId` answers, and what becomes of the dictionary.
pub record Identified (s t : Indexer) (name : Text) (id : ℕ) : Type 0 where
  pub numbered : AreNumbered t.protocol_ids t.protocol_names
  pub found : get name t.protocol_ids ≡ some id
  pub name_back : protocol_name t id ≡ name
  pub kept : (i : ℕ) → i < length s.protocol_names → protocol_name t i ≡ protocol_name s i
  pub longer : length s.protocol_names ≤ length t.protocol_names
  pub grown : length t.protocol_names ≤ length s.protocol_names + 1
  pub store : t.store ≡ s.store
  pub conversation_keys : t.conversation_keys ≡ s.conversation_keys

identify-Identified :
    (o : Option ℕ) (name : Text) (s : Indexer)
    → AreNumbered s.protocol_ids s.protocol_names
    → get name s.protocol_ids ≡ o
    → let (t, id) = identify o name s in Identified s t name id
unfolding identify protocol_name
identify-Identified (some id) name s v known = record {
  numbered = v;
  found = known;
  name_back = ground (arith, v.below name id known, v.named name id known);
  kept = λ i h. refl;
  longer = omega arith;
  grown = omega arith;
  store = refl;
  conversation_keys = refl;
}
identify-Identified none name s v missing =
    let names = s.protocol_names in
    let longer = length-append names (name ∷ []) in
    record {
      numbered = put-AreNumbered s.protocol_ids names name v;
      found =
          get-put name name (length names) s.protocol_ids
          ∙ ap (λ b. if b then some (length names) else get name s.protocol_ids)
              (text_eq_refl name);
      name_back = ground (arith, longer, get_or_last names name []);
      kept = λ i h. ground (arith, longer, get_or-append names (name ∷ []) i [] h);
      longer = omega (arith, longer);
      grown = omega (arith, longer);
      store = refl;
      conversation_keys = refl;
    }

-- Where the ids are the positions of the names, the id of a protocol, known or new, has the
-- protocol's name and is found again from then on, the other ids keep their names, and the ids
-- are still the positions.
pub protocol_id-Identified :
    (name : Text) (s : Indexer)
    → AreNumbered s.protocol_ids s.protocol_names
    → let (t, id) = protocol_id name s in Identified s t name id
unfolding protocol_id
protocol_id-Identified name s v = identify-Identified (get name s.protocol_ids) name s v refl
