-- ===== src/Analysis/TcpStream/Acks.antt =====
-- TcpStreamReducer.ts, update: what a segment and an acknowledgement do to the halves of a stream.
use netkitty.Base.{◌+◌, ◌%◌, ◌^◌, ◌≤◌, ◌<◌, ◌≡◌, ◌≢◌, refl, arith, true, false}
use netkitty.Base.{List, [], ◌∷◌, length, All}
use netkitty.Analysis.TcpStream.{
  TcpView, HalfStream, PendingSegment, seq_lte, consumed, end_seq, is_retransmission, send_segment,
  remaining, samples,
}
use netkitty.Analysis.TcpStream.Serial.{seq_lte_refl, seq_lte_total}

-- A segment that takes sequence space and is sent a second time is a retransmission, and then
-- changes nothing of the sender's half, unless its end lies exactly 2 ^ 31 from the highest end
-- before.
pub send_segment_again :
    (v : TcpView) (h : HalfStream)
    → 0 < consumed v
    → (h.max_end_seq + 2 ^ 31) % 2 ^ 32 ≢ end_seq v % 2 ^ 32
    → (is_retransmission v (send_segment v h) ≡ true)
      × (send_segment v (send_segment v h) ≡ send_segment v h)
unfolding send_segment is_retransmission
send_segment_again v h sends apart =
    ground (arith, seq_lte_refl (end_seq v), seq_lte_total h.max_end_seq (end_seq v) apart)

-- An acknowledgement leaves only segments that it does not cover, and the samples that it takes
-- and the segments that it leaves are together no more than the segments before.
pub remaining-samples :
    (v : TcpView) (ps : List PendingSegment)
    → All (λ p. seq_lte p.end_seq v.ack ≡ false) (remaining v ps)
      × (length (samples v ps) + length (remaining v ps) ≤ length ps)
unfolding remaining samples
remaining-samples v [] = (tt, omega arith)
remaining-samples v (p ∷ ps) = ground (arith, remaining-samples v ps)

-- Once a half has lost the segments that an acknowledgement covers, the same acknowledgement
-- takes no sample of what remains.
pub samples-remaining : (v : TcpView) (ps : List PendingSegment) → samples v (remaining v ps) ≡ []
unfolding remaining samples
samples-remaining v [] = refl
samples-remaining v (p ∷ ps) = ground (arith, samples-remaining v ps)
