-- ===== src/Analysis/Conversations/Totals.antt =====
-- The counters of the conversation table against the frames.
use netkitty.Base.{ℕ, ◌+◌, ◌≡◌, refl, arith, Option, none, some, List, [], ◌∷◌}
use netkitty.Base.Dict.{text_key, sum, sum-alter}
use netkitty.Analysis.ConversationKey.{ConversationFlow, flow_of, canonical_conversation_key}
use netkitty.Analysis.Frame.{Frame, flow_weight, flow_count, flow_bytes}
use netkitty.Analysis.Conversations.{
  Conversations, new_conversation, count_frame, update_flow, update, update_all,
}

abbrev pub total_packets : Conversations → ℕ
total_packets m = sum (λ v. v.packets) m

abbrev pub total_bytes : Conversations → ℕ
total_bytes m = sum (λ v. v.bytes) m

update_totals :
    (m : Conversations) (x : Frame)
    → (total_packets (update m x) ≡ total_packets m + flow_weight (flow_of x.layers) 1)
      × (total_bytes (update m x) ≡ total_bytes m + flow_weight (flow_of x.layers) x.length)
unfolding update flow_weight
update_totals m x = go (flow_of x.layers)
  where
    go :
        (o : Option ConversationFlow)
        → (total_packets (update_flow o x m) ≡ total_packets m + flow_weight o 1)
          × (total_bytes (update_flow o x m) ≡ total_bytes m + flow_weight o x.length)
    go none = (omega arith, omega arith)
    go (some f) = (
      sum-alter (λ v. v.packets) (canonical_conversation_key f) (new_conversation f x)
          (count_frame f x) 1 m (unfold new_conversation in refl) (λ v. unfold count_frame in refl),
      sum-alter (λ v. v.bytes) (canonical_conversation_key f) (new_conversation f x)
          (count_frame f x) x.length m (unfold new_conversation in refl)
          (λ v. unfold count_frame in refl),
    )

-- However the frames fall into conversations, the conversations' packets sum up to the number of
-- frames that have a flow, and their bytes to the lengths of these frames.
pub update_all_totals :
    (xs : List Frame) (m : Conversations)
    → (total_packets (update_all m xs) ≡ total_packets m + flow_count xs)
      × (total_bytes (update_all m xs) ≡ total_bytes m + flow_bytes xs)
unfolding update_all flow_count flow_bytes
update_all_totals [] m = (omega arith, omega arith)
update_all_totals (x ∷ xs) m =
    let (packets, bytes) = update_all_totals xs (update m x) in
    let (packet, byte) = update_totals m x in (omega arith, omega arith)
