-- ===== src/Analysis/Endpoints/Totals.antt =====
-- The counters of the endpoint table against the frames.
use netkitty.Base.{ℕ, ◌+◌, ◌≡◌, refl, arith, Bool, true, false, Option, none, some, List, []}
use netkitty.Base.{◌∷◌, All}
use netkitty.Base.Text.{Text}
use netkitty.Base.Dict.{text_key, sum, sum-alter, All-alter}
use netkitty.Analysis.ConversationKey.{ConversationFlow, flow_of}
use netkitty.Analysis.Frame.{Frame, flow_weight, flow_count, flow_bytes}
use netkitty.Analysis.Endpoints.{
  EndpointSummary, Endpoints, new_endpoint, credit, account, update_flow, update, update_all,
}

-- One number of every endpoint, summed up.
abbrev pub total : (EndpointSummary → ℕ) → Endpoints → ℕ
total f m = sum f m

-- What has been sent, and what has been received.
pub record Sent (m m' : Endpoints) (packets bytes : ℕ) : Type 0 where
  pub tx_packets : total (λ v. v.tx_packets) m' ≡ total (λ v. v.tx_packets) m + packets
  pub rx_packets : total (λ v. v.rx_packets) m' ≡ total (λ v. v.rx_packets) m + packets
  pub tx_bytes : total (λ v. v.tx_bytes) m' ≡ total (λ v. v.tx_bytes) m + bytes
  pub rx_bytes : total (λ v. v.rx_bytes) m' ≡ total (λ v. v.rx_bytes) m + bytes

module _ (address : Text) (size : ℕ) (is_source : Bool) (m : Endpoints) where
  account_total :
      (f : EndpointSummary → ℕ) (n : ℕ)
      → f (new_endpoint address) ≡ 0
      → ((v : EndpointSummary) → f (credit size is_source v) ≡ f v + n)
      → total f (account address size is_source m) ≡ total f m + n
  unfolding account
  account_total f n h0 hf =
      sum-alter f address (new_endpoint address) (credit size is_source) n m h0 hf

flow_Sent :
    (f : ConversationFlow) (size : ℕ) (m : Endpoints)
    → Sent m (account f.destination size false (account f.source size true m)) 1 size
flow_Sent f size m =
    let m' = account f.source size true m in
    record {
      tx_packets = omega (
        arith,
        account_total f.source size true m (λ v. v.tx_packets) 1 refl (λ v. unfold credit in refl),
        account_total f.destination size false m' (λ v. v.tx_packets) 0 refl
            (λ v. unfold credit in omega arith),
      );
      rx_packets = omega (
        arith,
        account_total f.source size true m (λ v. v.rx_packets) 0 refl
            (λ v. unfold credit in omega arith),
        account_total f.destination size false m' (λ v. v.rx_packets) 1 refl
            (λ v. unfold credit in refl),
      );
      tx_bytes = omega (
        arith,
        account_total f.source size true m (λ v. v.tx_bytes) size refl (λ v. unfold credit in refl),
        account_total f.destination size false m' (λ v. v.tx_bytes) 0 refl
            (λ v. unfold credit in omega arith),
      );
      rx_bytes = omega (
        arith,
        account_total f.source size true m (λ v. v.rx_bytes) 0 refl
            (λ v. unfold credit in omega arith),
        account_total f.destination size false m' (λ v. v.rx_bytes) size refl
            (λ v. unfold credit in refl),
      );
    }

update-Sent :
    (m : Endpoints) (x : Frame)
    → Sent m
        (update m x)
        (flow_weight (flow_of x.layers) 1)
        (flow_weight (flow_of x.layers) x.length)
unfolding update flow_weight
update-Sent m x = go (flow_of x.layers)
  where
    go :
        (o : Option ConversationFlow)
        → Sent m (update_flow o x.length m) (flow_weight o 1) (flow_weight o x.length)
    go none = omega arith
    go (some f) = flow_Sent f x.length m

-- Each frame with a flow is sent once and received once: over all endpoints, the packets and the
-- bytes sent are those of the frames with a flow, and so are the packets and the bytes received.
pub update_all-Sent :
    (xs : List Frame) (m : Endpoints) → Sent m (update_all m xs) (flow_count xs) (flow_bytes xs)
unfolding update_all flow_count flow_bytes
update_all-Sent [] m = omega arith
update_all-Sent (x ∷ xs) m =
    let rest = update_all-Sent xs (update m x) in let first = update-Sent m x in omega arith

pub record IsBalanced (v : EndpointSummary) : Type 0 where
  pub packets : v.packets ≡ v.tx_packets + v.rx_packets
  pub bytes : v.bytes ≡ v.tx_bytes + v.rx_bytes

abbrev pub AllBalanced : Endpoints → Type 0
AllBalanced m = All (λ e. IsBalanced e.1) m

credit-IsBalanced :
    (size : ℕ) (is_source : Bool) (v : EndpointSummary)
    → IsBalanced v
    → IsBalanced (credit size is_source v)
unfolding credit
credit-IsBalanced size is_source v h = ground arith

account-AllBalanced :
    (address : Text) (size : ℕ) (is_source : Bool) (m : Endpoints)
    → AllBalanced m
    → AllBalanced (account address size is_source m)
unfolding account
account-AllBalanced address size is_source m all =
    All-alter (λ e. IsBalanced e.1) address (new_endpoint address) (credit size is_source) m
      (credit-IsBalanced size is_source (new_endpoint address) (omega arith))
      (credit-IsBalanced size is_source) all

-- An update keeps the totals of every endpoint the sums of what it sent and what it received.
pub update-AllBalanced : (m : Endpoints) (x : Frame) → AllBalanced m → AllBalanced (update m x)
unfolding update
update-AllBalanced m x all = go (flow_of x.layers)
  where
    go : (o : Option ConversationFlow) → AllBalanced (update_flow o x.length m)
    go none = all
    go (some f) =
        account-AllBalanced f.destination x.length false _
          (account-AllBalanced f.source x.length true m all)
