-- ===== src/Analysis/Conversations/Summaries.antt =====
-- ConversationsReducer.ts: the summary of a conversation against all of its frames.
use mathlib.Core.Option
use netkitty.Base.{ℕ, ◌+◌, ◌≡◌, refl, sym, ap, ◌∙◌, arith, Bool-cases, inl, inr}
use netkitty.Base.{Option, none, some, List, [], ◌∷◌, length, min, max, ltb, if◌then◌else◌}
use netkitty.Base.{if_true, if_false}
use netkitty.Base.Text.{Text, text_eq, text_eq_iff}
use netkitty.Base.Dict.{text_key, get, get-alter}
use netkitty.Analysis.ConversationKey.{
  ConversationFlow, flow_of, endpoint_a, endpoint_b, canonical_conversation_key,
}
use netkitty.Analysis.Frame.{Frame}
use netkitty.Analysis.Conversations.{
  ConversationSummary, Conversations, new_conversation, count_frame, update_flow, update,
  update_all,
}

-- The frames of one conversation, each with its flow, in their order.
abbrev pub with_frame :
    Text
    → Option ConversationFlow
    → Frame
    → List (ConversationFlow × Frame)
    → List (ConversationFlow × Frame)
with_frame key none x rest = rest
with_frame key (some f) x rest =
    if text_eq (canonical_conversation_key f) key then (f, x) ∷ rest else rest

abbrev pub frames_of : Text → List Frame → List (ConversationFlow × Frame)
frames_of key [] = []
frames_of key (x ∷ xs) = with_frame key (flow_of x.layers) x (frames_of key xs)

-- Sums, counts, the least and the greatest over the frames of a conversation.
abbrev pub total_length : List (ConversationFlow × Frame) → ℕ
total_length [] = 0
total_length ((f, x) ∷ ps) = x.length + total_length ps

-- How many frames were sent by the lower endpoint of their flow, and how many were not.
abbrev pub sent_by_a : List (ConversationFlow × Frame) → ℕ
sent_by_a [] = 0
sent_by_a ((f, x) ∷ ps) = (if text_eq f.source (endpoint_a f) then 1 else 0) + sent_by_a ps

abbrev pub sent_by_b : List (ConversationFlow × Frame) → ℕ
sent_by_b [] = 0
sent_by_b ((f, x) ∷ ps) = (if text_eq f.source (endpoint_a f) then 0 else 1) + sent_by_b ps

abbrev pub least : (Frame → ℕ) → ℕ → List (ConversationFlow × Frame) → ℕ
least of n [] = n
least of n ((f, x) ∷ ps) = least of (min n (of x)) ps

abbrev pub greatest : (Frame → ℕ) → ℕ → List (ConversationFlow × Frame) → ℕ
greatest of n [] = n
greatest of n ((f, x) ∷ ps) = greatest of (max n (of x)) ps

-- What the table should say of a conversation with these frames.
abbrev pub summary_of : List (ConversationFlow × Frame) → Option ConversationSummary
summary_of [] = none
summary_of ((f, x) ∷ ps) = some (record {
  protocol = f.protocol;
  endpoint_a = endpoint_a f;
  endpoint_b = endpoint_b f;
  packets = length ((f, x) ∷ ps);
  bytes = total_length ((f, x) ∷ ps);
  packets_a_to_b = sent_by_a ((f, x) ∷ ps);
  packets_b_to_a = sent_by_b ((f, x) ∷ ps);
  first_timestamp = least (λ y. y.timestamp) x.timestamp ps;
  last_timestamp = greatest (λ y. y.timestamp) x.timestamp ps;
  first_index = least (λ y. y.index) x.index ps;
  last_index = greatest (λ y. y.index) x.index ps;
})

-- The step of the table on one conversation, frame after frame.
counted : Option ConversationSummary → List (ConversationFlow × Frame) → Option ConversationSummary
counted o [] = o
counted o ((f, x) ∷ ps) =
    counted (some (count_frame f x (Option.get_or o (new_conversation f x)))) ps

get-update_flow :
    (key : Text) (o : Option ConversationFlow) (x : Frame) (m : Conversations)
    (rest : List (ConversationFlow × Frame))
    → counted (get key (update_flow o x m)) rest ≡ counted (get key m) (with_frame key o x rest)
unfolding update_flow counted
get-update_flow key none x m rest = refl
get-update_flow key (some f) x m rest =
    let k = canonical_conversation_key f in
    let changed = get-alter k key (new_conversation f x) (count_frame f x) m in
    elim (Bool-cases (text_eq k key)) [
      | inl same ↦
          let here : k ≡ key = (text_eq_iff k key).0 same in
          ap (λ o. counted o rest) (changed ∙ if_true _ _ same)
          ∙ ap
              (λ j.
                counted (some (count_frame f x (Option.get_or (get j m) (new_conversation f x))))
                  rest)
              here
          ∙ sym (ap (counted (get key m)) (if_true _ _ same))
      | inr other ↦
          ap (λ o. counted o rest) (changed ∙ if_false _ _ other)
          ∙ sym (ap (counted (get key m)) (if_false _ _ other))
    ]

update_all_lem :
    (key : Text) (xs : List Frame) (m : Conversations)
    → get key (update_all m xs) ≡ counted (get key m) (frames_of key xs)
unfolding update_all update counted
update_all_lem key [] m = refl
update_all_lem key (x ∷ xs) m =
    update_all_lem key xs (update m x)
    ∙ get-update_flow key (flow_of x.layers) x m (frames_of key xs)

-- The summary of a conversation that has the summary `v`, and then these frames.
followed : ConversationSummary → List (ConversationFlow × Frame) → ConversationSummary
followed v ps = record v {
  packets = v.packets + length ps;
  bytes = v.bytes + total_length ps;
  packets_a_to_b = v.packets_a_to_b + sent_by_a ps;
  packets_b_to_a = v.packets_b_to_a + sent_by_b ps;
  first_timestamp = least (λ y. y.timestamp) v.first_timestamp ps;
  last_timestamp = greatest (λ y. y.timestamp) v.last_timestamp ps;
  first_index = least (λ y. y.index) v.first_index ps;
  last_index = greatest (λ y. y.index) v.last_index ps;
}

lower_of : (a b : ℕ) → (if ltb a b then a else b) ≡ min b a
lower_of a b = ground arith

higher_of : (a b : ℕ) → (if ltb b a then a else b) ≡ max b a
higher_of a b = ground arith

-- A summary with other counts and another span.
with_values : ConversationSummary → (p b pa pb ft lt fi li : ℕ) → ConversationSummary
with_values v p b pa pb ft lt fi li = record v {
  packets = p;
  bytes = b;
  packets_a_to_b = pa;
  packets_b_to_a = pb;
  first_timestamp = ft;
  last_timestamp = lt;
  first_index = fi;
  last_index = li;
}

module _ {p p' b b' pa pa' pb pb' ft ft' lt lt' fi fi' li li' : ℕ} where
  same_values :
      (v : ConversationSummary)
      → p ≡ p'
      → b ≡ b'
      → pa ≡ pa'
      → pb ≡ pb'
      → ft ≡ ft'
      → lt ≡ lt'
      → fi ≡ fi'
      → li ≡ li'
      → some (with_values v p b pa pb ft lt fi li)
        ≡ some (with_values v p' b' pa' pb' ft' lt' fi' li')
  same_values v h1 h2 h3 h4 h5 h6 h7 h8 =
      λ i. some (with_values v (h1 i) (h2 i) (h3 i) (h4 i) (h5 i) (h6 i) (h7 i) (h8 i))

counted-some :
    (ps : List (ConversationFlow × Frame)) (v : ConversationSummary)
    → counted (some v) ps ≡ some (followed v ps)
unfolding counted followed with_values count_frame
counted-some [] v =
    same_values v (omega arith) (omega arith) (omega arith) (omega arith) refl refl refl refl
counted-some ((f, x) ∷ ps) v =
    counted-some ps (count_frame f x v)
    ∙ same_values v (omega arith) (omega arith) (ground arith) (ground arith)
        (ap (λ n. least (λ y. y.timestamp) n ps) (lower_of x.timestamp v.first_timestamp))
        (ap (λ n. greatest (λ y. y.timestamp) n ps) (higher_of x.timestamp v.last_timestamp))
        (ap (λ n. least (λ y. y.index) n ps) (lower_of x.index v.first_index))
        (ap (λ n. greatest (λ y. y.index) n ps) (higher_of x.index v.last_index))

first_counted : (ps : List (ConversationFlow × Frame)) → counted none ps ≡ summary_of ps
unfolding counted followed with_values count_frame new_conversation
first_counted [] = refl
first_counted ((f, x) ∷ ps) =
    counted-some ps (count_frame f x (new_conversation f x))
    ∙ same_values (new_conversation f x) (omega arith) (omega arith) (ground arith) (ground arith)
        (ap (λ n. least (λ y. y.timestamp) n ps) (ground arith))
        (ap (λ n. greatest (λ y. y.timestamp) n ps) (ground arith))
        (ap (λ n. least (λ y. y.index) n ps) (ground arith))
        (ap (λ n. greatest (λ y. y.index) n ps) (ground arith))

-- However the frames fall into conversations, after all updates of a new table the summary under a
-- key is that of the frames with this key: its flow is that of the first of them, its packets and
-- bytes are their number and their lengths, the packets of the two directions those that were sent
-- by the lower endpoint and those that were not, and its times and indices go from the least to
-- the greatest of them; and a key without frames has none.
pub get-update_all :
    (key : Text) (xs : List Frame) → get key (update_all [] xs) ≡ summary_of (frames_of key xs)
unfolding get
get-update_all key xs = update_all_lem key xs [] ∙ first_counted (frames_of key xs)
