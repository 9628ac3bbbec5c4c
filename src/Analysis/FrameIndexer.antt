-- ===== src/Analysis/FrameIndexer.antt =====
-- packages/analysis/src/indexer/FrameIndexer.ts, over the store of ColumnarIndexStore.ts.
pub mod Protocols
pub mod Records
use netkitty.Base.{ℕ, Bool, Option, none, some, List, [], ◌∷◌, ◌++◌, length, get_or, ltb}
use netkitty.Base.{if◌then◌else◌}
use netkitty.Base.Text.{Text, text, text_le}
use netkitty.Base.Dict.{text_key, number_key, get, put}
use netkitty.Analysis.Layer.{Layer}
use netkitty.Analysis.ConversationKey.{
  ConversationFlow, flow_of, canonical_conversation_key, hash32, top_protocol_of,
}
use netkitty.Analysis.Store
use netkitty.Analysis.Store.{FrameIndexRecord, Store}

pub record Indexer : Type 0 where
  pub store : Store
  pub protocol_ids : List (Text × ℕ)
  pub protocol_names : List Text
  pub conversation_keys : List (ℕ × Text)

-- `#protocolId`, with the id that the dictionary has.
unfoldable pub identify : Option ℕ → Text → Indexer → Indexer × ℕ
identify (some id) name s = (s, id)
identify none name s = (
  record s {
    protocol_ids = put name (length s.protocol_names) s.protocol_ids;
    protocol_names = s.protocol_names ++ (name ∷ []);
  },
  length s.protocol_names,
)

unfoldable pub protocol_id : Text → Indexer → Indexer × ℕ
protocol_id name s = identify (get name s.protocol_ids) name s

unfoldable pub protocol_name : Indexer → ℕ → Text
protocol_name s id =
    if ltb id (length s.protocol_names) then get_or s.protocol_names id [] else text "unknown"

unfoldable pub conversation_key : Indexer → ℕ → Option Text
conversation_key s hash = get hash s.conversation_keys

-- The hash of the conversation, and 0 without one.
unfoldable pub flow_hash : Option ConversationFlow → ℕ
flow_hash none = 0
flow_hash (some f) = hash32 (canonical_conversation_key f)

unfoldable pub flow_forward : Option ConversationFlow → ℕ
flow_forward none = 1
flow_forward (some f) = if text_le f.source f.destination then 1 else 0

-- The first key of a hash stays.
unfoldable pub keep_key : ℕ → Text → Option Text → List (ℕ × Text) → List (ℕ × Text)
keep_key hash key none m = put hash key m
keep_key hash key (some old) m = m

unfoldable pub note_key : Option ConversationFlow → List (ℕ × Text) → List (ℕ × Text)
unfolding keep_key
note_key none m = m
note_key (some f) m =
    let key = canonical_conversation_key f in keep_key (hash32 key) key (get (hash32 key) m) m

-- The record's index is a placeholder, -1 in the source, that `append` does not read.
unfoldable pub add : List Layer → ℕ → ℕ → ℕ → ℕ → Indexer → Indexer × ℕ
unfolding flow_hash flow_forward note_key
add layers file_offset captured_length original_length timestamp s =
    let flow = flow_of layers in
    let noted = record s { conversation_keys = note_key flow s.conversation_keys } in
    let (named, id) = protocol_id (top_protocol_of layers) noted in
    let (store, index) = Store.append named.store (record {
      index = 0;
      file_offset = file_offset;
      captured_length = captured_length;
      original_length = original_length;
      timestamp = timestamp;
      protocol_id = id;
      conversation_hash = flow_hash flow;
      direction_forward = flow_forward flow;
    }) in
    (record named { store = store }, index)
