-- ===== src/Analysis/ConversationKey.antt =====
-- packages/analysis/src/indexer/ConversationKey.ts.
pub mod Laws
use Prim.Native.Nat.{bit_xor}
use netkitty.Base.{ℕ, ◌+◌, ◌*◌, ◌%◌, ◌^◌, Bool, true, false, ◌||◌, Option, none, some, List, []}
use netkitty.Base.{◌∷◌, ◌++◌, if◌then◌else◌}
use netkitty.Base.Text.{Text, text, text_eq, text_le}
use netkitty.Analysis.Layer.{Layer, value_of, to_text, find_layer}

pub record ConversationFlow : Type 0 where
  pub protocol : Text
  pub source : Text
  pub destination : Text

abbrev pub is_ip : Text → Bool
is_ip id = text_eq id (text "ipv4") || text_eq id (text "ipv6")

abbrev pub is_transport : Text → Bool
is_transport id = text_eq id (text "tcp") || text_eq id (text "udp")

abbrev pub is_eth : Text → Bool
is_eth id = text_eq id (text "eth")

-- `${address}:${port}`
unfoldable pub endpoint : Layer → Text → Layer → Text → Text
endpoint ip address transport port =
    to_text (value_of ip address) ++ (b':' ∷ to_text (value_of transport port))

unfoldable pub ip_flow : Layer → Option Layer → ConversationFlow
ip_flow ip none = record {
  protocol = text "ip";
  source = to_text (value_of ip (text "sip"));
  destination = to_text (value_of ip (text "dip"));
}
ip_flow ip (some transport) = record {
  protocol = transport.id;
  source = endpoint ip (text "sip") transport (text "srcport");
  destination = endpoint ip (text "dip") transport (text "dstport");
}

unfoldable pub eth_flow : Option Layer → Option ConversationFlow
eth_flow none = none
eth_flow (some eth) = some (record {
  protocol = text "eth";
  source = to_text (value_of eth (text "smac"));
  destination = to_text (value_of eth (text "dmac"));
})

unfoldable pub flow_from : Option Layer → List Layer → Option ConversationFlow
flow_from none layers = eth_flow (find_layer is_eth layers)
flow_from (some ip) layers = some (ip_flow ip (find_layer is_transport layers))

unfoldable pub flow_of : List Layer → Option ConversationFlow
flow_of layers = flow_from (find_layer is_ip layers) layers

-- Whether the source is the canonical first endpoint.
abbrev pub is_forward : ConversationFlow → Bool
is_forward f = text_le f.source f.destination

abbrev pub endpoint_a : ConversationFlow → Text
endpoint_a f = if is_forward f then f.source else f.destination

abbrev pub endpoint_b : ConversationFlow → Text
endpoint_b f = if is_forward f then f.destination else f.source

unfoldable pub canonical_conversation_key : ConversationFlow → Text
canonical_conversation_key f = f.protocol ++ (b'|' ∷ (endpoint_a f ++ (b'|' ∷ endpoint_b f)))

-- The last layer that is a protocol, or else the last layer.
last_protocol : List Layer → Text → Text
last_protocol [] id = id
last_protocol (l ∷ ls) id = last_protocol ls (if l.is_protocol then l.id else id)

last_id : List Layer → Text → Text
last_id [] id = id
last_id (l ∷ ls) id = last_id ls l.id

unfoldable pub top_protocol_of : List Layer → Text
unfolding last_protocol last_id
top_protocol_of layers = last_protocol layers (last_id layers (text "unknown"))

-- One round of `hash32`. The shifts wrap to 32 bits, and so does `>>> 0`, so the sum is taken
-- modulo 2 ^ 32; a code unit is below 2 ^ 16, and `^` of two words below 2 ^ 32 is taken as such.
unfoldable pub hash_round : ℕ → ℕ → ℕ
hash_round hash unit =
    let h = bit_xor hash unit in
    (h + (h * 2 ^ 1 + h * 2 ^ 4 + h * 2 ^ 7 + h * 2 ^ 8 + h * 2 ^ 24)) % 2 ^ 32

hash_loop : Text → ℕ → ℕ
hash_loop [] hash = hash
hash_loop (unit ∷ rest) hash = hash_loop rest (hash_round hash unit)

unfoldable pub hash32 : Text → ℕ
unfolding hash_loop hash_round
hash32 input = hash_loop input 0x811c9dc5
