-- ===== src/Analysis/Filter/Match.antt =====
-- FilterExpression.ts: matchesFilter, over the decoded layers, and matchesIndexed, over the columns
-- of the index.
use netkitty.Base.{Bool, true, false, ◌&&◌, ◌||◌, Option, none, some}
use netkitty.Base.{List, [], ◌∷◌, if◌then◌else◌}
use netkitty.Base.Text.{Text, text, text_eq}
use netkitty.Analysis.Layer.{Value, Layer, value_of, to_text, find_layer}
use netkitty.Analysis.ConversationKey.{is_ip}
use netkitty.Analysis.Filter.{FilterPredicate, FilterExpression}
use netkitty.Analysis.Layer

-- The cases of the two switches.
pub data Selector : Type 0 where
  ip_addr ip_src ip_dst : Selector
  tcp_port tcp_srcport tcp_dstport : Selector
  udp_port udp_srcport udp_dstport : Selector
  eth_addr eth_src eth_dst : Selector
  other : Selector

unfoldable pub selector_of : Text → Selector
selector_of s =
    if text_eq s (text "ip.addr")
    then ip_addr
    else if text_eq s (text "ip.src")
    then ip_src
    else if text_eq s (text "ip.dst")
    then ip_dst
    else if text_eq s (text "tcp.port")
    then tcp_port
    else if text_eq s (text "tcp.srcport")
    then tcp_srcport
    else if text_eq s (text "tcp.dstport")
    then tcp_dstport
    else if text_eq s (text "udp.port")
    then udp_port
    else if text_eq s (text "udp.srcport")
    then udp_srcport
    else if text_eq s (text "udp.dstport")
    then udp_dstport
    else if text_eq s (text "eth.addr")
    then eth_addr
    else if text_eq s (text "eth.src")
    then eth_src
    else if text_eq s (text "eth.dst")
    then eth_dst
    else other

-- `field(layer, name)`, `none` for null.
unfoldable pub text_of : Value → Option Text
text_of Layer.undefined = none
text_of Layer.null = none
text_of v = some (to_text v)

unfoldable pub field_of : Option Layer → Text → Option Text
unfolding text_of
field_of none name = none
field_of (some l) name = text_of (value_of l name)

-- `a === value`, where `a` may be null.
unfoldable pub equals : Option Text → Text → Bool
equals none value = false
equals (some a) value = text_eq a value

unfoldable pub any_equals : Text → Option Text → Option Text → Bool
unfolding equals
any_equals value a b = equals a value || equals b value

-- The first layer with this id.
unfoldable pub layer_of : List Layer → Text → Option Layer
layer_of layers id = find_layer (λ i. text_eq i id) layers

unfoldable pub has_layer : List Layer → Text → Bool
has_layer [] name = false
has_layer (l ∷ ls) name = text_eq l.id name || has_layer ls name

unfoldable pub matches_field : List Layer → Selector → Text → Bool
unfolding any_equals equals field_of layer_of
matches_field layers selector value =
    let ip = find_layer is_ip layers in
    let tcp = layer_of layers (text "tcp") in
    let udp = layer_of layers (text "udp") in
    let eth = layer_of layers (text "eth") in
    elim selector [
      | ip_addr ↦ any_equals value (field_of ip (text "sip")) (field_of ip (text "dip"))
      | ip_src ↦ equals (field_of ip (text "sip")) value
      | ip_dst ↦ equals (field_of ip (text "dip")) value
      | tcp_port ↦ any_equals value (field_of tcp (text "srcport")) (field_of tcp (text "dstport"))
      | tcp_srcport ↦ equals (field_of tcp (text "srcport")) value
      | tcp_dstport ↦ equals (field_of tcp (text "dstport")) value
      | udp_port ↦ any_equals value (field_of udp (text "srcport")) (field_of udp (text "dstport"))
      | udp_srcport ↦ equals (field_of udp (text "srcport")) value
      | udp_dstport ↦ equals (field_of udp (text "dstport")) value
      | eth_addr ↦ any_equals value (field_of eth (text "smac")) (field_of eth (text "dmac"))
      | eth_src ↦ equals (field_of eth (text "smac")) value
      | eth_dst ↦ equals (field_of eth (text "dmac")) value
      | other ↦ false
    ]

unfoldable pub matches_predicate : List Layer → FilterPredicate → Bool
matches_predicate layers (FilterPredicate.protocol name) = has_layer layers name
matches_predicate layers (FilterPredicate.field selector value) =
    matches_field layers (selector_of selector) value

unfoldable pub matches_filter : List Layer → FilterExpression → Bool
matches_filter layers [] = true
matches_filter layers (p ∷ ps) = matches_predicate layers p && matches_filter layers ps
