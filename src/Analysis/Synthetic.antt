-- ===== src/Analysis/Synthetic.antt =====
-- packages/analysis/src/worker/SyntheticFrame.ts.
use netkitty.Base.{ℕ, ◌≡◌, refl, ap, ◌∙◌, true, false, not, Option, none, some, List, []}
use netkitty.Base.{◌∷◌, ◌++◌, ◌==◌, take, take_front, if◌then◌else◌, Bool-cases, inl, inr, arith}
use netkitty.Base.Text.{Text, text, text_eq, text_le}
use netkitty.Analysis.Layer.{Layer, Value, string, find_layer, field_value, to_text}
use netkitty.Analysis.ConversationKey.{
  ConversationFlow, endpoint_a, endpoint_b, canonical_conversation_key, flow_of, flow_from, ip_flow,
  eth_flow, endpoint, is_transport, is_ip,
}
use netkitty.Analysis.FrameIndexer.{flow_forward}
use netkitty.Analysis.Filter.{index_of, last_index_of}
use netkitty.Analysis.Filter.Indexed.{proto_of, key_endpoint_a, key_endpoint_b, port_of}
use netkitty.Analysis.Filter.Keys.{
  Lacks, proto_of-key, key_endpoint_a-key, key_endpoint_b-key, port_of-endpoint,
  last_index_of-append,
}
use netkitty.Analysis.Filter.Columns.{IsBare}

-- `layer(id, data)`
pub layer : Text → List (Text × Value) → Layer
layer id fields = record { id = id; is_protocol = true; fields = fields }

-- `splitEndpoint(endpoint).ip`; the port is `port_of`.
cut : Option ℕ → Text → Text
cut none endpoint = endpoint
cut (some i) endpoint = take i endpoint

pub split_ip : Text → Text
unfolding cut
split_ip endpoint = cut (last_index_of b':' endpoint) endpoint

includes_colon : Option ℕ → Text
includes_colon none = text "ipv4"
includes_colon (some i) = text "ipv6"

pub ip_id : Text → Text
unfolding includes_colon
ip_id ip = includes_colon (index_of b':' ip)

pub ip_layer : Text → Text → Layer
ip_layer source destination =
    layer (ip_id source) ((text "sip", string source) ∷ (text "dip", string destination) ∷ [])

pub layers_of : Text → Text → Text → List Layer
layers_of proto source destination =
    if is_transport proto
    then layer (text "eth") []
      ∷ layer (ip_id (split_ip source)) (
          (text "sip", string (split_ip source)) ∷ (text "dip", string (split_ip destination)) ∷ [])
      ∷ layer proto (
          (text "srcport", string (port_of source))
          ∷ (text "dstport", string (port_of destination))
          ∷ [])
      ∷ []
    else if text_eq proto (text "ip")
    then layer (text "eth") [] ∷ ip_layer source destination ∷ []
    else if text_eq proto (text "eth")
    then layer (text "eth") ((text "smac", string source) ∷ (text "dmac", string destination) ∷ [])
      ∷ []
    else layer (text "eth") [] ∷ []

pub synthesize_layers : Text → ℕ → List Layer
synthesize_layers key forward =
    let a = key_endpoint_a key in
    let b = key_endpoint_b key in
    let is_forward = not (forward == 0) in
    layers_of (proto_of key) (if is_forward then a else b) (if is_forward then b else a)

-- From the key and the direction of a flow, the layers are those of its protocol and endpoints.
synthesize_layers-flow :
    (f : ConversationFlow)
    → IsBare f
    → synthesize_layers (canonical_conversation_key f) (flow_forward (some f))
      ≡ layers_of f.protocol f.source f.destination
unfolding synthesize_layers canonical_conversation_key flow_forward
synthesize_layers-flow f bare =
    let first : Lacks b'|' (endpoint_a f) = ground (arith, bare.source, bare.destination) in
    let proto = proto_of-key f.protocol (endpoint_a f) (endpoint_b f) bare.protocol first in
    let a = key_endpoint_a-key f.protocol (endpoint_a f) (endpoint_b f) bare.protocol first in
    let b = key_endpoint_b-key f.protocol (endpoint_a f) (endpoint_b f) bare.protocol first in
    rw (proto, a, b)
      (elim (Bool-cases (text_le f.source f.destination)) [
        | inl forward ↦ rw forward refl
        | inr backward ↦ rw backward refl
      ])

-- The kinds of flow that `flowOf` gives, where a port has no colon.
pub data IsDerived : ConversationFlow → Type 0 where
  transport :
      (proto sip sport dip dport : Text)
      → is_transport proto ≡ true
      → Lacks b':' sport
      → Lacks b':' dport
      → IsDerived (record {
        protocol = proto;
        source = sip ++ (b':' ∷ sport);
        destination = dip ++ (b':' ∷ dport);
      })
  bare_ip :
      (sip dip : Text)
      → IsDerived (record { protocol = text "ip"; source = sip; destination = dip })
  ethernet :
      (smac dmac : Text)
      → IsDerived (record { protocol = text "eth"; source = smac; destination = dmac })

ip_id-is_ip : (ip : Text) → (is_ip (ip_id ip) ≡ true) × (is_transport (ip_id ip) ≡ false)
unfolding ip_id
ip_id-is_ip ip = go (index_of b':' ip)
  where
    go :
        (o : Option ℕ)
        → (is_ip (includes_colon o) ≡ true) × (is_transport (includes_colon o) ≡ false)
    go none = unfold includes_colon text_eq in (refl, refl)
    go (some i) = unfold includes_colon text_eq in (refl, refl)

module _ (i sip dip : Text) (ip : is_ip i ≡ true) (plain : is_transport i ≡ false) where
  abbrev addresses : Layer
  addresses = layer i ((text "sip", string sip) ∷ (text "dip", string dip) ∷ [])

  flow_of-ip :
      flow_of (layer (text "eth") [] ∷ addresses ∷ [])
      ≡ some (record { protocol = text "ip"; source = sip; destination = dip })
  unfolding flow_of flow_from find_layer layer ip_flow text_eq field_value to_text
  flow_of-ip = rw (ip, plain) refl

  flow_of-transport :
      (proto sport dport : Text)
      → is_transport proto ≡ true
      → flow_of (
          layer (text "eth") []
          ∷ addresses
          ∷ layer proto ((text "srcport", string sport) ∷ (text "dstport", string dport) ∷ [])
          ∷ [])
        ≡ some (record {
          protocol = proto;
          source = sip ++ (b':' ∷ sport);
          destination = dip ++ (b':' ∷ dport);
        })
  unfolding flow_of flow_from find_layer layer ip_flow text_eq field_value to_text endpoint
  flow_of-transport proto sport dport h = rw (ip, plain, h) refl

split_ip-endpoint : (ip port : Text) → Lacks b':' port → split_ip (ip ++ (b':' ∷ port)) ≡ ip
unfolding split_ip cut
split_ip-endpoint ip port h = rw (last_index_of-append b':' ip port h) (take_front ip (b':' ∷ port))

flow_of-layers_of :
    (f : ConversationFlow)
    → IsDerived f
    → flow_of (layers_of f.protocol f.source f.destination) ≡ some f
unfolding layers_of ip_layer
flow_of-layers_of f (transport proto sip sport dip dport t s d) =
    let kind = ip_id-is_ip sip in
    rw
      (
        t,
        split_ip-endpoint sip sport s,
        split_ip-endpoint dip dport d,
        port_of-endpoint sip sport s,
        port_of-endpoint dip dport d,
      )
      (flow_of-transport (ip_id sip) sip dip kind.0 kind.1 proto sport dport t)
flow_of-layers_of f (bare_ip sip dip) =
    let kind = ip_id-is_ip sip in unfold text_eq in flow_of-ip (ip_id sip) sip dip kind.0 kind.1
flow_of-layers_of f (ethernet smac dmac) =
    unfold flow_of flow_from find_layer layer eth_flow text_eq field_value to_text in refl

-- The layers that are made up from the key and the direction that the index keeps of a flow have
-- that flow again: for flows of the kinds that `flowOf` gives, without a bar in their parts and
-- without a colon in a port.
pub flow_of-synthesize_layers :
    (f : ConversationFlow)
    → IsBare f
    → IsDerived f
    → flow_of (synthesize_layers (canonical_conversation_key f) (flow_forward (some f))) ≡ some f
flow_of-synthesize_layers f bare derived =
    ap flow_of (synthesize_layers-flow f bare) ∙ flow_of-layers_of f derived
