-- ===== src/Analysis/Endpoints.antt =====
-- packages/analysis/src/reducers/EndpointsReducer.ts. A reducer's state is its Map.
pub mod Totals
use netkitty.Base.{ℕ, ◌+◌, Bool, true, false, Option, none, some, List, [], ◌∷◌, map}
use netkitty.Base.{if◌then◌else◌}
use netkitty.Base.Text.{Text}
use netkitty.Base.Dict.{text_key, alter}
use netkitty.Analysis.ConversationKey.{ConversationFlow, flow_of}
use netkitty.Analysis.Frame.{Frame}

pub record EndpointSummary : Type 0 where
  pub address : Text
  pub packets : ℕ
  pub bytes : ℕ
  pub tx_packets : ℕ
  pub tx_bytes : ℕ
  pub rx_packets : ℕ
  pub rx_bytes : ℕ

abbrev pub Endpoints : Type 0
Endpoints = List (Text × EndpointSummary)

abbrev pub new_endpoint : Text → EndpointSummary
new_endpoint address = record {
  address = address;
  packets = 0;
  bytes = 0;
  tx_packets = 0;
  tx_bytes = 0;
  rx_packets = 0;
  rx_bytes = 0;
}

credit : ℕ → Bool → EndpointSummary → EndpointSummary
credit size is_source v = record v {
  packets = v.packets + 1;
  bytes = v.bytes + size;
  tx_packets = if is_source then v.tx_packets + 1 else v.tx_packets;
  tx_bytes = if is_source then v.tx_bytes + size else v.tx_bytes;
  rx_packets = if is_source then v.rx_packets else v.rx_packets + 1;
  rx_bytes = if is_source then v.rx_bytes else v.rx_bytes + size;
}

account : Text → ℕ → Bool → Endpoints → Endpoints
unfolding credit
account address size is_source m = alter address (new_endpoint address) (credit size is_source) m

update_flow : Option ConversationFlow → ℕ → Endpoints → Endpoints
update_flow none size m = m
update_flow (some f) size m = account f.destination size false (account f.source size true m)

pub update : Endpoints → Frame → Endpoints
unfolding update_flow
update m x = update_flow (flow_of x.layers) x.length m

pub update_all : Endpoints → List Frame → Endpoints
update_all m [] = m
update_all m (x ∷ xs) = update_all (update m x) xs

pub result : Endpoints → List EndpointSummary
result m = map (λ e. e.1) m

pub reset : Endpoints → Endpoints
reset m = []
