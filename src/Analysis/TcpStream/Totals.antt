-- ===== src/Analysis/TcpStream/Totals.antt =====
-- TcpStreamReducer.ts: the counters of the streams against the frames, and the summary of the
-- round-trip times.
use mathlib.Core.Path.{subst}
use netkitty.Base.{ℕ, suc, ◌+◌, ◌*◌, ◌≤◌, ◌≡◌, ◌≢◌, refl, arith, Option, none, some, List, []}
use netkitty.Base.{◌∷◌, length}
use netkitty.Base.Text.{Text}
use netkitty.Base.Dict.{text_key, sum, sum-alter}
use netkitty.Analysis.Frame.{Frame}
use netkitty.Analysis.TcpStream.{
  TcpView, RttSample, TcpStreamDiagnostic, State, tcp_view_of, stream_key, new_stream, count_stream,
  update_view, update_option, update, update_all, sum_rtt, min_rtt, max_rtt, summary_of,
  summarize_rtt,
}

-- The packets of all streams together.
abbrev pub total_packets : State → ℕ
total_packets s = sum (λ v. v.packets) s.streams

unfoldable pub view_weight : Option TcpView → ℕ
view_weight none = 0
view_weight (some v) = 1

module _ (parse : Text → Option ℕ) where
  -- The number of frames that are TCP segments over IP.
  unfoldable pub tcp_count : List Frame → ℕ
  tcp_count [] = 0
  tcp_count (x ∷ xs) = view_weight (tcp_view_of parse x) + tcp_count xs

update_option_total :
    (o : Option TcpView) (s : State)
    → total_packets (update_option o s) ≡ total_packets s + view_weight o
unfolding update_option view_weight update_view count_stream new_stream
update_option_total none s = omega arith
update_option_total (some v) s =
    sum-alter (λ t. t.packets) (stream_key v) (new_stream v) _ 1 s.streams refl (λ t. refl)

-- The packets of all streams grow by the number of TCP segments among the frames.
pub tcp_update_all_total :
    (parse : Text → Option ℕ) (xs : List Frame) (s : State)
    → total_packets (update_all parse s xs) ≡ total_packets s + tcp_count parse xs
unfolding update_all tcp_count update
tcp_update_all_total parse [] s = omega arith
tcp_update_all_total parse (x ∷ xs) s = omega (
  arith,
  tcp_update_all_total parse xs (update parse s x),
  update_option_total (tcp_view_of parse x) s,
)

min_rtt_le : (least : ℕ) (rs : List RttSample) → min_rtt least rs ≤ least
unfolding min_rtt
min_rtt_le least [] = omega arith
min_rtt_le least (r ∷ rs) = ground (arith, min_rtt_le r.rtt rs, min_rtt_le least rs)

max_rtt_ge : (most : ℕ) (rs : List RttSample) → most ≤ max_rtt most rs
unfolding max_rtt
max_rtt_ge most [] = omega arith
max_rtt_ge most (r ∷ rs) = ground (arith, max_rtt_ge r.rtt rs, max_rtt_ge most rs)

suc_mul : (n k : ℕ) → (n + 1) * k ≡ k + n * k
suc_mul n k = omega arith

min_rtt-sum :
    (k least : ℕ) (rs : List RttSample) → k ≤ min_rtt least rs → length rs * k ≤ sum_rtt rs
unfolding sum_rtt min_rtt
min_rtt-sum k least [] h = omega arith
min_rtt-sum k least (r ∷ rs) h = ground (
  arith,
  min_rtt-sum k r.rtt rs,
  min_rtt-sum k least rs,
  min_rtt_le r.rtt rs,
  min_rtt_le least rs,
  suc_mul (length rs) k,
)

max_rtt-sum : (k most : ℕ) (rs : List RttSample) → max_rtt most rs ≤ k → sum_rtt rs ≤ length rs * k
unfolding sum_rtt max_rtt
max_rtt-sum k most [] h = omega arith
max_rtt-sum k most (r ∷ rs) h = ground (
  arith,
  max_rtt-sum k r.rtt rs,
  max_rtt-sum k most rs,
  max_rtt_ge r.rtt rs,
  max_rtt_ge most rs,
  suc_mul (length rs) k,
)

spread_lem :
    (r : RttSample) (rs : List RttSample)
    → ((length rs + 1) * min_rtt r.rtt rs ≤ sum_rtt (r ∷ rs))
      × (sum_rtt (r ∷ rs) ≤ (length rs + 1) * max_rtt r.rtt rs)
unfolding sum_rtt
spread_lem r rs =
    let below = min_rtt-sum (min_rtt r.rtt rs) r.rtt rs (omega arith) in
    let above = max_rtt-sum (max_rtt r.rtt rs) r.rtt rs (omega arith) in
    (
      omega (arith, below, min_rtt_le r.rtt rs, suc_mul (length rs) (min_rtt r.rtt rs)),
      omega (arith, above, max_rtt_ge r.rtt rs, suc_mul (length rs) (max_rtt r.rtt rs)),
    )

one_more : (n : ℕ) → n + 1 ≡ suc n
one_more n = omega arith

-- The mean of the samples, by its numerator and its denominator, lies between least and greatest.
pub record HasSpread (t : TcpStreamDiagnostic) : Type 0 where
  pub least : ℕ
  pub greatest : ℕ
  pub total : ℕ
  pub min : t.rtt_min ≡ some least
  pub max : t.rtt_max ≡ some greatest
  pub mean : t.rtt_mean ≡ some (total, length t.rtt_samples)
  pub above : length t.rtt_samples * least ≤ total
  pub below : total ≤ length t.rtt_samples * greatest

-- The summary of a stream that has samples has a least, a greatest and a mean round-trip time, and
-- the mean lies between the two.
pub summarize_rtt-HasSpread :
    (t : TcpStreamDiagnostic) → t.rtt_samples ≢ [] → HasSpread (summarize_rtt t)
unfolding summarize_rtt summary_of
summarize_rtt-HasSpread t some_samples = go t.rtt_samples some_samples
  where
    go : (rs : List RttSample) → rs ≢ [] → HasSpread (summary_of rs (record t { rtt_samples = rs }))
    go [] h = absurd (h refl)
    go (r ∷ rs) h = record {
      least = min_rtt r.rtt rs;
      greatest = max_rtt r.rtt rs;
      total = sum_rtt (r ∷ rs);
      min = refl;
      max = refl;
      mean = refl;
      above =
          subst (λ n. n * min_rtt r.rtt rs ≤ sum_rtt (r ∷ rs)) (one_more (length rs))
            (spread_lem r rs).0;
      below =
          subst (λ n. sum_rtt (r ∷ rs) ≤ n * max_rtt r.rtt rs) (one_more (length rs))
            (spread_lem r rs).1;
    }
