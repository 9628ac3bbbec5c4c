-- ===== src/Analysis/FrameIndexer/Records.antt =====
-- FrameIndexer.ts: the record that `add` stores, and what the dictionaries make of it.
use mathlib.Core.Option
use mathlib.Core.Path.{subst}
use netkitty.Base.{ℕ, ◌+◌, ◌%◌, ◌^◌, ◌≤◌, ◌<◌, arith, ◌≡◌, refl, sym, ap, ◌∙◌, Option, none, some}
use netkitty.Base.{List, [], ◌∷◌, ◌++◌, length, if◌then◌else◌, ==_refl}
use netkitty.Base.Text.{Text}
use netkitty.Base.Dict.{number_key, get, get-put}
use netkitty.Analysis.Layer.{Layer}
use netkitty.Analysis.ConversationKey.{
  ConversationFlow, flow_of, canonical_conversation_key, hash32, top_protocol_of,
}
use netkitty.Analysis.ConversationKey.Laws.{hash32-lt}
use netkitty.Analysis.Store.{FrameIndexRecord, append}
use netkitty.Analysis.Store.Rows.{IsValid, rows, stored}
use netkitty.Analysis.Store.Queue.{append_refines}
use netkitty.Analysis.FrameIndexer.{
  Indexer, protocol_id, protocol_name, conversation_key, flow_hash, flow_forward, keep_key,
  note_key, add,
}
use netkitty.Analysis.FrameIndexer.Protocols.{AreNumbered, protocol_id-Identified}

keep_key_lem :
    (hash : ℕ) (key : Text) (o : Option Text) (m : List (ℕ × Text))
    → get hash m ≡ o
    → get hash (keep_key hash key o m) ≡ some (Option.get_or o key)
unfolding keep_key
keep_key_lem hash key none m h =
    get-put hash hash key m ∙ ap (λ b. if b then some key else get hash m) (==_refl hash)
keep_key_lem hash key (some old) m h = h

note_key_lem :
    (f : ConversationFlow) (o : Option ConversationFlow) (m : List (ℕ × Text))
    → o ≡ some f
    → get (flow_hash (some f)) (note_key o m)
      ≡ some (Option.get_or (get (flow_hash (some f)) m) (canonical_conversation_key f))
unfolding note_key flow_hash
note_key_lem f o m h =
    let hash = hash32 (canonical_conversation_key f) in
    rw h (keep_key_lem hash (canonical_conversation_key f) (get hash m) m refl)

flow_forward_fits : (o : Option ConversationFlow) → flow_forward o % 2 ^ 8 ≡ flow_forward o
unfolding flow_forward
flow_forward_fits none = refl
flow_forward_fits (some f) = ground arith

flow_hash_fits : (o : Option ConversationFlow) → flow_hash o % 2 ^ 32 ≡ flow_hash o
unfolding flow_hash
flow_hash_fits none = refl
flow_hash_fits (some f) = omega (arith, hash32-lt (canonical_conversation_key f))

module _ (layers : List Layer) (file_offset captured_length original_length timestamp : ℕ) where
  -- What `add` makes of an index: the row behind the others, and how the columns are read back.
  pub record Added (s t : Indexer) (index : ℕ) : Type 0 where
    pub row : FrameIndexRecord
    pub valid : IsValid t.store
    pub numbered : AreNumbered t.protocol_ids t.protocol_names
    pub rows_after : rows t.store ≡ rows s.store ++ (row ∷ [])
    pub number : index ≡ s.store.base + length (rows s.store)
    pub row_number : row.index ≡ index
    pub place : row.file_offset ≡ file_offset
    pub time : row.timestamp ≡ timestamp
    pub captured : row.captured_length ≡ captured_length % 2 ^ 32
    pub original : row.original_length ≡ original_length % 2 ^ 32
    pub name : protocol_name t row.protocol_id ≡ top_protocol_of layers
    pub forward : row.direction_forward ≡ flow_forward (flow_of layers)
    pub hash : row.conversation_hash ≡ flow_hash (flow_of layers)
    pub key :
        (f : ConversationFlow)
        → flow_of layers ≡ some f
        → conversation_key t (flow_hash (some f))
          ≡ some (
              Option.get_or
                (conversation_key s (flow_hash (some f)))
                (canonical_conversation_key f))

  -- On a valid index that knows fewer than 2 ^ 16 protocols, `add` stores one row behind the others.
  -- It holds the place and the time of the frame, and its lengths modulo 2 ^ 32; its protocol id has
  -- the name of the frame's top protocol, its direction is the flow's, and its hash leads to the
  -- flow's key, or to the first key that had this hash.
  pub add-Added :
      (s : Indexer)
      → IsValid s.store
      → AreNumbered s.protocol_ids s.protocol_names
      → length s.protocol_names < 2 ^ 16
      → let (t, index) = add layers file_offset captured_length original_length timestamp s in
        Added s t index
  unfolding add protocol_name conversation_key
  add-Added s valid numbered room =
      let noted = record s { conversation_keys = note_key (flow_of layers) s.conversation_keys } in
      let named = protocol_id-Identified (top_protocol_of layers) noted numbered in
      let t = (protocol_id (top_protocol_of layers) noted).0 in
      let id = (protocol_id (top_protocol_of layers) noted).1 in
      let entry : FrameIndexRecord = record {
        index = 0;
        file_offset = file_offset;
        captured_length = captured_length;
        original_length = original_length;
        timestamp = timestamp;
        protocol_id = id;
        conversation_hash = flow_hash (flow_of layers);
        direction_forward = flow_forward (flow_of layers);
      } in
      let done = append_refines t.store entry (subst IsValid (sym named.store) valid) in
      let index = (append t.store entry).1 in
      let kept : t.conversation_keys ≡ note_key (flow_of layers) s.conversation_keys =
        named.conversation_keys in
      let low : id < length t.protocol_names =
        named.numbered.below (top_protocol_of layers) id named.found in
      let grown : length t.protocol_names ≤ length s.protocol_names + 1 = named.grown in
      let fits : id % 2 ^ 16 ≡ id = omega arith in
      record {
        row = stored index entry;
        valid = done.0;
        numbered = named.numbered;
        rows_after = done.1 ∙ ap (λ w. rows w ++ (stored index entry ∷ [])) named.store;
        number = done.2 ∙ ap (λ w. w.base + length (rows w)) named.store;
        row_number = refl;
        place = refl;
        time = refl;
        captured = refl;
        original = refl;
        name = ap (protocol_name t) fits ∙ named.name_back;
        forward = flow_forward_fits (flow_of layers);
        hash = flow_hash_fits (flow_of layers);
        key = λ f h.
            ap (get (flow_hash (some f))) kept
            ∙ note_key_lem f (flow_of layers) s.conversation_keys h;
      }
