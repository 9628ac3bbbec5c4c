-- ===== src/Analysis/Scans.antt =====
-- packages/analysis/src/worker/BuiltinScans.ts. `keyOf` is the parameter that the source takes.
pub mod Totals
pub mod Rows
use mathlib.Core.Option
use netkitty.Base.{ℕ, zero, suc, ◌+◌, not, Option, none, some, List, [], ◌∷◌, ltb, ◌==◌, map}
use netkitty.Base.{if◌then◌else◌}
use netkitty.Base.Text.{Text}
use netkitty.Base.Dict.{text_key, number_key, get, put, alter}
use netkitty.Analysis.Store
use netkitty.Analysis.Store.{FrameIndexRecord, Store}
use netkitty.Analysis.Conversations.{ConversationSummary}
use netkitty.Analysis.Endpoints.{EndpointSummary, new_endpoint}
use netkitty.Analysis.Filter.Indexed.{proto_of, key_endpoint_a, key_endpoint_b}

-- `if (!record) continue`
keep : Option FrameIndexRecord → List FrameIndexRecord → List FrameIndexRecord
keep none rest = rest
keep (some r) rest = r ∷ rest

-- `for (i = first; i < end; i++)` over the records that `store.get(i)` gives.
records_loop : Store → ℕ → ℕ → List FrameIndexRecord
unfolding keep
records_loop s zero index = []
records_loop s (suc n) index = keep (Store.get s index) (records_loop s n (index + 1))

pub records : Store → List FrameIndexRecord
unfolding records_loop
records s = records_loop s (Store.count s) (Store.first_index s)

pub new_summary : Text → FrameIndexRecord → ConversationSummary
new_summary key r = record {
  protocol = proto_of key;
  endpoint_a = key_endpoint_a key;
  endpoint_b = key_endpoint_b key;
  packets = 0;
  bytes = 0;
  packets_a_to_b = 0;
  packets_b_to_a = 0;
  first_timestamp = r.timestamp;
  last_timestamp = r.timestamp;
  first_index = r.index;
  last_index = r.index;
}

pub count_record : FrameIndexRecord → ConversationSummary → ConversationSummary
count_record r v =
    let forward = not (r.direction_forward == 0) in
    record v {
      packets = v.packets + 1;
      bytes = v.bytes + r.captured_length;
      packets_a_to_b = if forward then v.packets_a_to_b + 1 else v.packets_a_to_b;
      packets_b_to_a = if forward then v.packets_b_to_a else v.packets_b_to_a + 1;
      first_timestamp =
          if ltb r.timestamp v.first_timestamp then r.timestamp else v.first_timestamp;
      last_timestamp = if ltb v.last_timestamp r.timestamp then r.timestamp else v.last_timestamp;
      first_index = if ltb r.index v.first_index then r.index else v.first_index;
      last_index = if ltb v.last_index r.index then r.index else v.last_index;
    }

-- `byHash`; null stands for a hash without a key.
abbrev pub Hashes : Type 0
Hashes = List (ℕ × Option ConversationSummary)

-- The conversations that are not null.
pub known : Hashes → List ConversationSummary
known [] = []
known ((h, none) ∷ m) = known m
known ((h, some v) ∷ m) = v ∷ known m

module _ (key_of : ℕ → Option Text) where
  -- What `byHash` has for the record's hash after the round.
  pub resolve : Option (Option ConversationSummary) → FrameIndexRecord → Option ConversationSummary
  resolve none r =
      Option.map (λ key. count_record r (new_summary key r)) (key_of r.conversation_hash)
  resolve (some none) r = none
  resolve (some (some v)) r = some (count_record r v)

  pub scan_conversation : Hashes → FrameIndexRecord → Hashes
  scan_conversation m r = put r.conversation_hash (resolve (get r.conversation_hash m) r) m

  pub scan_conversations : Hashes → List FrameIndexRecord → Hashes
  scan_conversations m [] = m
  scan_conversations m (r ∷ rs) = scan_conversations (scan_conversation m r) rs

  pub compute_conversations : Store → List ConversationSummary
  compute_conversations s = known (scan_conversations [] (records s))

-- The two objects of a pair are shared with the table by their addresses.
pub record EndpointPair : Type 0 where
  pub a : Text
  pub b : Text

pub record Table : Type 0 where
  pub endpoints : List (Text × EndpointSummary)
  pub by_hash : List (ℕ × Option EndpointPair)

get_or_create : Text → List (Text × EndpointSummary) → List (Text × EndpointSummary)
get_or_create address m = alter address (new_endpoint address) (λ v. v) m

sent : ℕ → EndpointSummary → EndpointSummary
sent size v = record v {
  packets = v.packets + 1;
  bytes = v.bytes + size;
  tx_packets = v.tx_packets + 1;
  tx_bytes = v.tx_bytes + size;
}

received : ℕ → EndpointSummary → EndpointSummary
received size v = record v {
  packets = v.packets + 1;
  bytes = v.bytes + size;
  rx_packets = v.rx_packets + 1;
  rx_bytes = v.rx_bytes + size;
}

transfer :
    EndpointPair → FrameIndexRecord → List (Text × EndpointSummary) → List (Text × EndpointSummary)
unfolding sent received
transfer p r m =
    let forward = not (r.direction_forward == 0) in
    let source = if forward then p.a else p.b in
    let destination = if forward then p.b else p.a in
    alter destination (new_endpoint destination) (received r.captured_length)
      (alter source (new_endpoint source) (sent r.captured_length) m)

-- A pair that is known, a hash that has no key, and the first record of a hash.
scan_pair : Option Text → Option (Option EndpointPair) → FrameIndexRecord → Table → Table
unfolding get_or_create transfer
scan_pair key (some none) r t = t
scan_pair key (some (some p)) r t = record t { endpoints = transfer p r t.endpoints }
scan_pair none none r t = record t { by_hash = put r.conversation_hash none t.by_hash }
scan_pair (some key) none r t =
    let p : EndpointPair = record { a = key_endpoint_a key; b = key_endpoint_b key } in
    record {
      endpoints = transfer p r (get_or_create p.b (get_or_create p.a t.endpoints));
      by_hash = put r.conversation_hash (some p) t.by_hash;
    }

module _ (key_of : ℕ → Option Text) where
  pub scan_endpoints : Table → List FrameIndexRecord → Table
  unfolding scan_pair
  scan_endpoints t [] = t
  scan_endpoints t (r ∷ rs) =
      scan_endpoints
        (scan_pair (key_of r.conversation_hash) (get r.conversation_hash t.by_hash) r t) rs

  pub compute_endpoints : Store → List EndpointSummary
  compute_endpoints s =
      map (λ (e : Text × EndpointSummary). e.1)
        (scan_endpoints (record { endpoints = []; by_hash = [] }) (records s)).endpoints
