-- ===== src/Analysis/TcpStream/Serial.antt =====
-- TcpStreamReducer.ts, seqLte: comparison of sequence numbers that wrap around.
use netkitty.Base.{ℕ, ◌+◌, ◌%◌, ◌^◌, ◌<◌, ◌≡◌, ◌≢◌, true, false, arith}
use netkitty.Base.{lt→ltb, le→ltb-false}
use netkitty.Analysis.TcpStream.{seq_lte}

-- Of two numbers less than 2 ^ 31 apart, taken modulo 2 ^ 32, the lower is before or at the
-- higher, and the higher is not before or at the lower unless they are equal.
pub seq_lte-wraps :
    (a d : ℕ)
    → d < 2 ^ 31
    → (seq_lte (a % 2 ^ 32) ((a + d) % 2 ^ 32) ≡ true)
      × (0 < d → seq_lte ((a + d) % 2 ^ 32) (a % 2 ^ 32) ≡ false)
unfolding seq_lte
seq_lte-wraps a d h = (lt→ltb _ _ (omega arith), λ k. le→ltb-false _ _ (omega arith))

pub seq_lte_refl : (a : ℕ) → seq_lte a a ≡ true
unfolding seq_lte
seq_lte_refl a = lt→ltb _ _ (omega arith)

-- Any two numbers are in order, but for those exactly 2 ^ 31 apart.
pub seq_lte_total :
    (a b : ℕ) → (a + 2 ^ 31) % 2 ^ 32 ≢ b % 2 ^ 32 → seq_lte a b ≡ false → seq_lte b a ≡ true
unfolding seq_lte
seq_lte_total a b h k = ground arith
