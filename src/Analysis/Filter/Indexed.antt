-- ===== src/Analysis/Filter/Indexed.antt =====
-- FilterExpression.ts: matchesIndexed, which decides by the columns of the index alone.
use netkitty.Base.{ℕ, ◌+◌, ◌-◌, Bool, true, false, not, ◌&&◌, ◌||◌, Option, none, some, [], ◌∷◌}
use netkitty.Base.{length, take, drop, ◌==◌, if◌then◌else◌}
use netkitty.Base.Text.{Text, text, text_eq}
use netkitty.Analysis.Filter.{FilterPredicate, FilterExpression, index_of, last_index_of}
use netkitty.Analysis.Filter.Match.{Selector, selector_of}

-- `slice(0, i)`, where -1 takes the last unit away.
unfoldable pub before : Option ℕ → Text → Text
before none s = take (length s - 1) s
before (some i) s = take i s

-- `slice(i + 1)`, where -1 takes all.
unfoldable pub after : Option ℕ → Text → Text
after none s = s
after (some i) s = drop (i + 1) s

-- The parts of a conversation key. Without a second bar the last part is all of the key.
unfoldable pub proto_of : Text → Text
unfolding before
proto_of key = before (index_of b'|' key) key

unfoldable pub endpoints_of : Text → Text
unfolding after
endpoints_of key = after (index_of b'|' key) key

unfoldable pub key_endpoint_a : Text → Text
unfolding before endpoints_of
key_endpoint_a key = let rest = endpoints_of key in before (index_of b'|' rest) rest

unfoldable pub last_part : Option ℕ → Text → Text → Text
last_part none key rest = key
last_part (some i) key rest = drop (i + 1) rest

unfoldable pub key_endpoint_b : Text → Text
unfolding last_part
key_endpoint_b key = last_part (index_of b'|' (endpoints_of key)) key (endpoints_of key)

unfoldable pub ip_of : Text → Text → Text
ip_of endpoint proto =
    if text_eq proto (text "ip")
    then endpoint
    else elim (last_index_of b':' endpoint) [ none ↦ endpoint | some i ↦ take i endpoint ]

unfoldable pub behind : Option ℕ → Text → Text
behind none s = []
behind (some i) s = drop (i + 1) s

unfoldable pub port_of : Text → Text
unfolding behind
port_of endpoint = behind (last_index_of b':' endpoint) endpoint

abbrev pub has_ip : Text → Bool
has_ip proto = text_eq proto (text "tcp") || text_eq proto (text "udp") || text_eq proto (text "ip")

abbrev pub one_of : Text → Text → Text → Bool
one_of value a b = text_eq a value || text_eq b value

-- The second switch, on the protocol and the endpoints that the key has: a and b, source and
-- destination. `none` asks for the layers.
unfoldable pub decide_field : Selector → Text → Text → Text → Text → Text → Text → Option Bool
decide_field selector value proto a b source destination =
    let tcp = text_eq proto (text "tcp") in
    let udp = text_eq proto (text "udp") in
    let eth = text_eq proto (text "eth") in
    elim selector [
      | Selector.ip_addr ↦ some (has_ip proto && one_of value (ip_of a proto) (ip_of b proto))
      | Selector.ip_src ↦ some (has_ip proto && text_eq (ip_of source proto) value)
      | Selector.ip_dst ↦ some (has_ip proto && text_eq (ip_of destination proto) value)
      | Selector.tcp_port ↦ some (tcp && one_of value (port_of a) (port_of b))
      | Selector.tcp_srcport ↦ some (tcp && text_eq (port_of source) value)
      | Selector.tcp_dstport ↦ some (tcp && text_eq (port_of destination) value)
      | Selector.udp_port ↦ some (udp && one_of value (port_of a) (port_of b))
      | Selector.udp_srcport ↦ some (udp && text_eq (port_of source) value)
      | Selector.udp_dstport ↦ some (udp && text_eq (port_of destination) value)
      | Selector.eth_addr ↦ some (eth && one_of value a b)
      | Selector.eth_src ↦ some (eth && text_eq source value)
      | Selector.eth_dst ↦ some (eth && text_eq destination value)
      | Selector.other ↦ none
    ]

unfoldable pub key_protocol_is : Option Text → Text → Bool
key_protocol_is none name = false
key_protocol_is (some key) name = text_eq (proto_of key) name

unfoldable pub decide_key : Selector → Text → Option Text → ℕ → Option Bool
decide_key selector value none forward = some false
decide_key selector value (some key) forward =
    let a = key_endpoint_a key in
    let b = key_endpoint_b key in
    let is_forward = not (forward == 0) in
    decide_field selector value (proto_of key) a b (if is_forward then a else b)
      (if is_forward then b else a)

unfoldable pub indexable_eval : FilterPredicate → Option Text → Text → ℕ → Option Bool
unfolding key_protocol_is decide_key
indexable_eval (FilterPredicate.protocol name) key top forward =
    if text_eq name (text "tcp") || text_eq name (text "udp")
    then some (key_protocol_is key name)
    else if text_eq name (text "arp")
    then some (text_eq top (text "arp"))
    else none
indexable_eval (FilterPredicate.field selector value) key top forward =
    decide_key (selector_of selector) value key forward

-- A round of the loop: what the predicate is decided to, and what the rest comes to if no
-- predicate before asked for the layers, and if one did.
unfoldable pub indexed_round : Option Bool → Option Bool → Option Bool → Option Bool
indexed_round (some false) on on_decode = some false
indexed_round (some true) on on_decode = on
indexed_round none on on_decode = on_decode

unfoldable pub indexed_loop : FilterExpression → Option Text → Text → ℕ → Bool → Option Bool
indexed_loop [] key top forward needs_decode = if needs_decode then none else some true
indexed_loop (p ∷ ps) key top forward needs_decode =
    indexed_round (indexable_eval p key top forward) (indexed_loop ps key top forward needs_decode)
      (indexed_loop ps key top forward true)

unfoldable pub matches_indexed : FilterExpression → Option Text → Text → ℕ → Option Bool
unfolding indexed_loop
matches_indexed expression key top forward = indexed_loop expression key top forward false
