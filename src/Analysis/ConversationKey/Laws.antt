-- ===== src/Analysis/ConversationKey/Laws.antt =====
-- The canonical key does not depend on the direction of a flow, and the hash is a 32-bit word.
use netkitty.Base.{ℕ, ◌^◌, ◌<◌, ◌≡◌, arith, [], ◌∷◌}
use netkitty.Base.Text.{Text, text_le_total, text_le_antisymm}
use netkitty.Analysis.ConversationKey.{
  ConversationFlow, endpoint_a, endpoint_b, canonical_conversation_key, hash_round, hash_loop,
  hash32,
}

abbrev pub reversed : ConversationFlow → ConversationFlow
reversed f = record f { source = f.destination; destination = f.source }

-- A flow and its answer have the same first endpoint, and the same second.
pub endpoints-reversed :
    (f : ConversationFlow)
    → (endpoint_a (reversed f) ≡ endpoint_a f) × (endpoint_b (reversed f) ≡ endpoint_b f)
endpoints-reversed f =
    ground (arith, text_le_total f.source f.destination, text_le_antisymm f.source f.destination)

-- Both directions of a conversation have one key.
pub canonical_conversation_key-reversed :
    (f : ConversationFlow) → canonical_conversation_key (reversed f) ≡ canonical_conversation_key f
unfolding canonical_conversation_key
canonical_conversation_key-reversed f = ground (arith, endpoints-reversed f)

hash_loop-lt : (s : Text) (h : ℕ) → h < 2 ^ 32 → hash_loop s h < 2 ^ 32
unfolding hash_loop hash_round
hash_loop-lt [] h small = small
hash_loop-lt (unit ∷ rest) h small = hash_loop-lt rest _ (omega arith)

-- The hash of a text fits the 32 bits of its column.
pub hash32-lt : (s : Text) → hash32 s < 2 ^ 32
unfolding hash32
hash32-lt s = hash_loop-lt s 0x811c9dc5 (omega arith)
