-- ===== src/Analysis/Filter/Columns.antt =====
-- FilterExpression.ts: what the columns of the index decide.
use netkitty.Base.{◌≡◌, refl, ap, arith, Bool, ◌&&◌, ◌||◌, Option, none, some}
use netkitty.Base.{if◌then◌else◌, Bool-cases, inl, inr}
use netkitty.Base.Text.{Text, text, text_eq, text_le}
use netkitty.Analysis.ConversationKey.{
  ConversationFlow, canonical_conversation_key, endpoint_a, endpoint_b,
}
use netkitty.Analysis.FrameIndexer.{flow_forward}
use netkitty.Analysis.Filter.{FilterPredicate}
use netkitty.Analysis.Filter.Match.{Selector, selector_of}
use netkitty.Analysis.Filter.Indexed.{
  decide_field, decide_key, key_protocol_is, indexable_eval, has_ip, ip_of, port_of,
}
use netkitty.Analysis.Filter.Keys.{Lacks, proto_of-key, key_endpoint_a-key, key_endpoint_b-key}

-- The flow that the index was filled with, decided by without the key.
unfoldable pub flow_eval : FilterPredicate → ConversationFlow → Text → Option Bool
flow_eval (FilterPredicate.protocol name) f top =
    if text_eq name (text "tcp") || text_eq name (text "udp")
    then some (text_eq f.protocol name)
    else if text_eq name (text "arp")
    then some (text_eq top (text "arp"))
    else none
flow_eval (FilterPredicate.field selector value) f top =
    decide_field (selector_of selector) value f.protocol f.source f.destination f.source
      f.destination

or_comm : (a b : Bool) → (a || b) ≡ (b || a)
or_comm a b = ground arith

-- The selectors without a direction do not see the order of the endpoints.
decide_field_swap :
    (selector : Selector) (value proto a b source destination : Text)
    → decide_field selector value proto a b source destination
      ≡ decide_field selector value proto b a source destination
unfolding decide_field
decide_field_swap Selector.ip_addr value proto a b source destination =
    ap (λ t. some (has_ip proto && t))
      (or_comm (text_eq (ip_of a proto) value) (text_eq (ip_of b proto) value))
decide_field_swap Selector.ip_src value proto a b source destination = refl
decide_field_swap Selector.ip_dst value proto a b source destination = refl
decide_field_swap Selector.tcp_port value proto a b source destination =
    ap (λ t. some (text_eq proto (text "tcp") && t))
      (or_comm (text_eq (port_of a) value) (text_eq (port_of b) value))
decide_field_swap Selector.tcp_srcport value proto a b source destination = refl
decide_field_swap Selector.tcp_dstport value proto a b source destination = refl
decide_field_swap Selector.udp_port value proto a b source destination =
    ap (λ t. some (text_eq proto (text "udp") && t))
      (or_comm (text_eq (port_of a) value) (text_eq (port_of b) value))
decide_field_swap Selector.udp_srcport value proto a b source destination = refl
decide_field_swap Selector.udp_dstport value proto a b source destination = refl
decide_field_swap Selector.eth_addr value proto a b source destination =
    ap (λ t. some (text_eq proto (text "eth") && t)) (or_comm (text_eq a value) (text_eq b value))
decide_field_swap Selector.eth_src value proto a b source destination = refl
decide_field_swap Selector.eth_dst value proto a b source destination = refl
decide_field_swap Selector.other value proto a b source destination = refl

-- The endpoints of a flow have no bar, and neither has its protocol.
pub record IsBare (f : ConversationFlow) : Type 0 where
  pub protocol : Lacks b'|' f.protocol
  pub source : Lacks b'|' f.source
  pub destination : Lacks b'|' f.destination

module _ (f : ConversationFlow) (bare : IsBare f) where
  bare_first : Lacks b'|' (endpoint_a f)
  bare_first = ground (arith, bare.source, bare.destination)

  key_protocol_is-flow :
      (name : Text)
      → key_protocol_is (some (canonical_conversation_key f)) name ≡ text_eq f.protocol name
  unfolding key_protocol_is canonical_conversation_key
  key_protocol_is-flow name =
      rw (proto_of-key f.protocol (endpoint_a f) (endpoint_b f) bare.protocol bare_first) refl

  decide_key-flow :
      (selector : Selector) (value : Text)
      → decide_key selector value (some (canonical_conversation_key f)) (flow_forward (some f))
        ≡ decide_field selector value f.protocol f.source f.destination f.source f.destination
  unfolding decide_key canonical_conversation_key flow_forward
  decide_key-flow selector value =
      let proto = proto_of-key f.protocol (endpoint_a f) (endpoint_b f) bare.protocol bare_first in
      let a =
        key_endpoint_a-key f.protocol (endpoint_a f) (endpoint_b f) bare.protocol bare_first in
      let b =
        key_endpoint_b-key f.protocol (endpoint_a f) (endpoint_b f) bare.protocol bare_first in
      rw (proto, a, b)
        (elim (Bool-cases (text_le f.source f.destination)) [
          | inl forward ↦ rw forward refl
          | inr backward ↦ rw backward (
              decide_field_swap selector value f.protocol f.destination f.source f.source
                f.destination)
        ])

-- The key and the direction that the index keeps of a flow decide every predicate as the flow
-- itself does, where no part of the flow has a bar.
pub indexable_eval-flow :
    (p : FilterPredicate) (f : ConversationFlow) (top : Text)
    → IsBare f
    → indexable_eval p (some (canonical_conversation_key f)) top (flow_forward (some f))
      ≡ flow_eval p f top
unfolding indexable_eval flow_eval
indexable_eval-flow (FilterPredicate.protocol name) f top bare =
    rw (key_protocol_is-flow f bare name) refl
indexable_eval-flow (FilterPredicate.field selector value) f top bare =
    decide_key-flow f bare (selector_of selector) value
