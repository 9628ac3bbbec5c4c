-- ===== src/Analysis/Filter/Agree.antt =====
-- FilterExpression.ts: matchesIndexed against matchesFilter, on frames of TCP over IP.
use netkitty.Base.{◌≡◌, refl, ap, ◌∙◌, arith, Bool, true, false, ◌&&◌, ◌||◌, Option, none, some}
use netkitty.Base.{List, [], ◌∷◌, All, Bool-cases, inl, inr}
use netkitty.Base.Text.{Text, text, text_eq, text_eq_iff}
use netkitty.Analysis.Layer.{Layer, value_of, to_text, find_layer}
use netkitty.Analysis.ConversationKey.{
  ConversationFlow, flow_of, flow_from, canonical_conversation_key, is_ip, is_transport, ip_flow,
  endpoint,
}
use netkitty.Analysis.FrameIndexer.{flow_forward}
use netkitty.Analysis.Filter.{FilterPredicate, FilterExpression}
use netkitty.Analysis.Filter.Match.{
  Selector, selector_of, text_of, field_of, equals, any_equals, layer_of, has_layer, matches_field,
  matches_predicate, matches_filter,
}
use netkitty.Analysis.Filter.Indexed.{
  ip_of, port_of, decide_field, indexable_eval, indexed_round, indexed_loop, matches_indexed,
}
use netkitty.Analysis.Filter.Keys.{Lacks, ip_of-endpoint, port_of-endpoint}
use netkitty.Analysis.Filter.Columns.{IsBare, flow_eval, indexable_eval-flow}

-- A layer has the field, and it is not null.
abbrev pub Has : Layer → Text → Type 0
Has l name = text_of (value_of l name) ≡ some (to_text (value_of l name))

-- The layers of a TCP segment over IP: it is the first transport, no UDP is around it, addresses
-- and ports are there, and a port has no colon.
pub record IsTcp (layers : List Layer) (ip tcp : Layer) : Type 0 where
  pub found_ip : find_layer is_ip layers ≡ some ip
  pub found_transport : find_layer is_transport layers ≡ some tcp
  pub id : tcp.id ≡ text "tcp"
  pub no_udp : layer_of layers (text "udp") ≡ none
  pub sip : Has ip (text "sip")
  pub dip : Has ip (text "dip")
  pub srcport : Has tcp (text "srcport")
  pub dstport : Has tcp (text "dstport")
  pub bare_srcport : Lacks b':' (to_text (value_of tcp (text "srcport")))
  pub bare_dstport : Lacks b':' (to_text (value_of tcp (text "dstport")))

find_layer-first :
    (layers : List Layer) (t : Layer)
    → find_layer is_transport layers ≡ some t
    → t.id ≡ text "tcp"
    → layer_of layers (text "tcp") ≡ some t
unfolding find_layer layer_of
find_layer-first [] t h k = cc
find_layer-first (l ∷ ls) t h k = elim (Bool-cases (is_transport l.id)) [
  | inl first ↦
      let same : l ≡ t = ground (arith, first, h) in
      let id : text_eq l.id (text "tcp") ≡ true =
        (text_eq_iff l.id (text "tcp")).1 (ap (λ (m : Layer). m.id) same ∙ k) in
      rw (id, same) refl
  | inr later ↦
      let rest : find_layer is_transport ls ≡ some t = ground (arith, later, h) in
      let id : text_eq l.id (text "tcp") ≡ false = ground (arith, later) in
      rw id (find_layer-first ls t rest k)
]

not_ip : text_eq (text "tcp") (text "ip") ≡ false
unfolding text_eq
not_ip = refl

-- The selectors of addresses and ports.
unfoldable pub is_decided : Selector → Bool
is_decided selector = elim selector [
  | Selector.eth_addr ↦ false
  | Selector.eth_src ↦ false
  | Selector.eth_dst ↦ false
  | Selector.other ↦ false
  | _ ↦ true
]

module _ (layers : List Layer) (ip tcp : Layer) (v : IsTcp layers ip tcp) where
  abbrev flow : ConversationFlow
  flow = ip_flow ip (some tcp)

  flow_of-flow : flow_of layers ≡ some flow
  unfolding flow_of flow_from
  flow_of-flow = rw (v.found_ip, v.found_transport) refl

  found_tcp : layer_of layers (text "tcp") ≡ some tcp
  found_tcp = find_layer-first layers tcp v.found_transport v.id

  source_ip : ip_of flow.source (text "tcp") ≡ to_text (value_of ip (text "sip"))
  unfolding ip_flow endpoint
  source_ip = ip_of-endpoint _ _ (text "tcp") not_ip v.bare_srcport

  destination_ip : ip_of flow.destination (text "tcp") ≡ to_text (value_of ip (text "dip"))
  unfolding ip_flow endpoint
  destination_ip = ip_of-endpoint _ _ (text "tcp") not_ip v.bare_dstport

  source_port : port_of flow.source ≡ to_text (value_of tcp (text "srcport"))
  unfolding ip_flow endpoint
  source_port = port_of-endpoint _ _ v.bare_srcport

  destination_port : port_of flow.destination ≡ to_text (value_of tcp (text "dstport"))
  unfolding ip_flow endpoint
  destination_port = port_of-endpoint _ _ v.bare_dstport

  decide_field-matches :
      (selector : Selector) (value : Text)
      → is_decided selector ≡ true
      → decide_field selector value
          (text "tcp")
          flow.source
          flow.destination
          flow.source
          flow.destination
        ≡ some (matches_field layers selector value)
  unfolding decide_field matches_field any_equals equals field_of is_decided text_eq
  decide_field-matches Selector.ip_addr value h =
      rw (source_ip, destination_ip, v.found_ip, v.sip, v.dip) refl
  decide_field-matches Selector.ip_src value h = rw (source_ip, v.found_ip, v.sip) refl
  decide_field-matches Selector.ip_dst value h = rw (destination_ip, v.found_ip, v.dip) refl
  decide_field-matches Selector.tcp_port value h =
      rw (source_port, destination_port, found_tcp, v.srcport, v.dstport) refl
  decide_field-matches Selector.tcp_srcport value h = rw (source_port, found_tcp, v.srcport) refl
  decide_field-matches Selector.tcp_dstport value h =
      rw (destination_port, found_tcp, v.dstport) refl
  decide_field-matches Selector.udp_port value h = rw v.no_udp refl
  decide_field-matches Selector.udp_srcport value h = rw v.no_udp refl
  decide_field-matches Selector.udp_dstport value h = rw v.no_udp refl
  decide_field-matches Selector.eth_addr value h = cc
  decide_field-matches Selector.eth_src value h = cc
  decide_field-matches Selector.eth_dst value h = cc
  decide_field-matches Selector.other value h = cc

has_layer-some :
    (layers : List Layer) (name : Text) (l : Layer)
    → layer_of layers name ≡ some l
    → has_layer layers name ≡ true
unfolding find_layer layer_of has_layer
has_layer-some [] name l h = cc
has_layer-some (m ∷ ls) name l h = ground (arith, has_layer-some ls name l)

has_layer-none :
    (layers : List Layer) (name : Text)
    → layer_of layers name ≡ none
    → has_layer layers name ≡ false
unfolding find_layer layer_of has_layer
has_layer-none [] name h = refl
has_layer-none (m ∷ ls) name h = ground (arith, has_layer-none ls name)

-- The predicates that the key of a TCP flow answers: the two transports, addresses and ports.
unfoldable pub is_columned : FilterPredicate → Bool
is_columned (FilterPredicate.protocol name) = text_eq name (text "tcp") || text_eq name (text "udp")
is_columned (FilterPredicate.field selector value) = is_decided (selector_of selector)

-- A round on a decided predicate is a conjunction.
both :
    (a b : Bool) (on on_decode : Option Bool)
    → on ≡ some b
    → indexed_round (some a) on on_decode ≡ some (a && b)
unfolding indexed_round
both true b on on_decode h = h
both false b on on_decode h = refl

module _ (layers : List Layer) (ip tcp : Layer) (v : IsTcp layers ip tcp)
    (bare : IsBare (ip_flow ip (some tcp))) (top : Text) where
  flow_eval-matches :
      (p : FilterPredicate)
      → is_columned p ≡ true
      → flow_eval p (ip_flow ip (some tcp)) top ≡ some (matches_predicate layers p)
  unfolding flow_eval is_columned matches_predicate ip_flow text_eq
  flow_eval-matches (FilterPredicate.protocol name) h =
      elim (Bool-cases (text_eq name (text "tcp"))) [
        | inl is_tcp ↦
            let key : name ≡ text "tcp" = (text_eq_iff name (text "tcp")).0 is_tcp in
            let has = has_layer-some layers (text "tcp") tcp (found_tcp layers ip tcp v) in
            rw (key, has) (ap (λ i. some (text_eq i (text "tcp"))) v.id)
        | inr no_tcp ↦
            let is_udp : text_eq name (text "udp") ≡ true = ground (arith, h, no_tcp) in
            let key : name ≡ text "udp" = (text_eq_iff name (text "udp")).0 is_udp in
            let has = has_layer-none layers (text "udp") v.no_udp in
            rw (key, has) (ap (λ i. some (text_eq i (text "udp"))) v.id)
      ]
  flow_eval-matches (FilterPredicate.field selector value) h =
      let f = ip_flow ip (some tcp) in
      ap
        (λ i.
          decide_field (selector_of selector) value i f.source f.destination f.source f.destination)
        v.id
      ∙ decide_field-matches layers ip tcp v (selector_of selector) value h

  indexable_eval-matches :
      (p : FilterPredicate)
      → is_columned p ≡ true
      → indexable_eval p
          (some (canonical_conversation_key (ip_flow ip (some tcp))))
          top
          (flow_forward (flow_of layers))
        ≡ some (matches_predicate layers p)
  indexable_eval-matches p h =
      rw (flow_of-flow layers ip tcp v)
        (indexable_eval-flow p (ip_flow ip (some tcp)) top bare ∙ flow_eval-matches p h)

  -- For a frame of TCP over IP, whose addresses and ports are there, without a UDP layer, a
  -- colon in a port or a bar in the flow, the columns of the index decide every expression of
  -- predicates tcp, udp, and of addresses of IP and ports, and decide it as the decoded layers
  -- do.
  pub matches_indexed-matches_filter :
      (ps : FilterExpression)
      → All (λ p. is_columned p ≡ true) ps
      → matches_indexed ps
          (some (canonical_conversation_key (ip_flow ip (some tcp))))
          top
          (flow_forward (flow_of layers))
        ≡ some (matches_filter layers ps)
  unfolding matches_indexed indexed_loop indexed_round matches_filter
  matches_indexed-matches_filter [] all = refl
  matches_indexed-matches_filter (p ∷ ps) (h, all) =
      let rest = matches_indexed-matches_filter ps all in
      rw (indexable_eval-matches p h)
        (both (matches_predicate layers p) (matches_filter layers ps) _ _ rest)
