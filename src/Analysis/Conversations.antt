-- ===== src/Analysis/Conversations.antt =====
-- packages/analysis/src/reducers/ConversationsReducer.ts. A reducer's state is its Map.
pub mod Totals
pub mod Summaries
use netkitty.Base.{ℕ, ◌+◌, Bool, Option, none, some, List, [], ◌∷◌, map, ltb, if◌then◌else◌}
use netkitty.Base.Text.{Text, text_eq}
use netkitty.Base.Dict.{text_key, alter}
use netkitty.Analysis.ConversationKey.{
  ConversationFlow, flow_of, endpoint_a, endpoint_b, canonical_conversation_key,
}
use netkitty.Analysis.Frame.{Frame}

pub record ConversationSummary : Type 0 where
  pub protocol : Text
  pub endpoint_a : Text
  pub endpoint_b : Text
  pub packets : ℕ
  pub bytes : ℕ
  pub packets_a_to_b : ℕ
  pub packets_b_to_a : ℕ
  pub first_timestamp : ℕ
  pub last_timestamp : ℕ
  pub first_index : ℕ
  pub last_index : ℕ

abbrev pub Conversations : Type 0
Conversations = List (Text × ConversationSummary)

unfoldable pub new_conversation : ConversationFlow → Frame → ConversationSummary
new_conversation f x = record {
  protocol = f.protocol;
  endpoint_a = endpoint_a f;
  endpoint_b = endpoint_b f;
  packets = 0;
  bytes = 0;
  packets_a_to_b = 0;
  packets_b_to_a = 0;
  first_timestamp = x.timestamp;
  last_timestamp = x.timestamp;
  first_index = x.index;
  last_index = x.index;
}

-- What `update` does to the conversation of the frame.
unfoldable pub count_frame : ConversationFlow → Frame → ConversationSummary → ConversationSummary
count_frame f x v =
    let forward = text_eq f.source (endpoint_a f) in
    record v {
      packets = v.packets + 1;
      bytes = v.bytes + x.length;
      packets_a_to_b = if forward then v.packets_a_to_b + 1 else v.packets_a_to_b;
      packets_b_to_a = if forward then v.packets_b_to_a else v.packets_b_to_a + 1;
      first_timestamp =
          if ltb x.timestamp v.first_timestamp then x.timestamp else v.first_timestamp;
      last_timestamp = if ltb v.last_timestamp x.timestamp then x.timestamp else v.last_timestamp;
      first_index = if ltb x.index v.first_index then x.index else v.first_index;
      last_index = if ltb v.last_index x.index then x.index else v.last_index;
    }

update_flow : Option ConversationFlow → Frame → Conversations → Conversations
update_flow none x m = m
update_flow (some f) x m =
    alter (canonical_conversation_key f) (new_conversation f x) (count_frame f x) m

pub update : Conversations → Frame → Conversations
unfolding update_flow
update m x = update_flow (flow_of x.layers) x m

-- The frames in the order of their updates.
pub update_all : Conversations → List Frame → Conversations
update_all m [] = m
update_all m (x ∷ xs) = update_all (update m x) xs

pub result : Conversations → List ConversationSummary
result m = map (λ e. e.1) m

pub reset : Conversations → Conversations
reset m = []
