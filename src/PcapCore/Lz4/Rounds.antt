-- ===== src/PcapCore/Lz4/Rounds.antt =====
-- Lz4FrameDecompress.ts: the loop over a block ends within as many rounds as the block has bytes.
use netkitty.Base.{ℕ, zero, suc, ◌+◌, ◌≤◌, ◌<◌, ◌≡◌, refl, sym, ap, arith}
use netkitty.Base.{List, [], length, take, length-take, ltb, if◌then◌else◌, le→ltb-false}
use netkitty.Base.{Bool, Bool-cases, inl, inr, true, false}
use netkitty.PcapCore.Lz4.{Sequence, length_at, sequence, block_loop, decode_block, after_sequence}

length_at_ge : (input : List ℕ) (nibble s : ℕ) → s ≤ (length_at input nibble s).1
unfolding length_at
length_at_ge input nibble s = ground arith

suc_add : (m n : ℕ) → suc m + n ≡ suc (m + n)
suc_add m n = omega arith

add_suc : (m n : ℕ) → m + suc n ≡ suc (m + n)
add_suc m n = omega arith

-- Where a sequence goes on is behind it.
Ahead : ℕ → Sequence → Type 0
Ahead s (Sequence.last out) = Unit
Ahead s (Sequence.next out s') = s < s'

Ahead-if :
    (b : Bool) (written copied : List ℕ) (s s' : ℕ)
    → s < s'
    → Ahead s (if b then Sequence.last written else Sequence.next copied s')
unfolding Ahead
Ahead-if true written copied s s' h = tt
Ahead-if false written copied s s' h = h

behind_both : (s s1 n s3 : ℕ) → s + 1 ≤ s1 → s1 + n + 2 ≤ s3 → s < s3
behind_both s s1 n s3 h k = omega arith

sequence-Ahead : (input : List ℕ) (end s : ℕ) (out : List ℕ) → Ahead s (sequence input end s out)
unfolding sequence
sequence-Ahead input end s out =
    Ahead-if _ _ _ s _ (behind_both s _ _ _ (length_at_ge input _ (s + 1)) (length_at_ge input _ _))

after_sequence_same :
    (s : ℕ) (f g : List ℕ → ℕ → List ℕ) (q : Sequence)
    → ((written : List ℕ) (s' : ℕ) → s < s' → f written s' ≡ g written s')
    → Ahead s q
    → after_sequence f q ≡ after_sequence g q
unfolding after_sequence Ahead
after_sequence_same s f g (Sequence.last written) same ahead = refl
after_sequence_same s f g (Sequence.next written s') same ahead = same written s' ahead

-- As many rounds as there are bytes up to the end of the block are enough: more change nothing.
pub block_loop-enough :
    (fuel more : ℕ) (input : List ℕ) (end s : ℕ) (out : List ℕ)
    → end ≤ s + fuel
    → block_loop (more + fuel) input end s out ≡ block_loop fuel input end s out
unfolding block_loop
block_loop-enough zero zero input end s out h = refl
block_loop-enough zero (suc more) input end s out h =
    let over : ltb s end ≡ false = le→ltb-false s end (omega arith) in
    rw (suc_add more 0, over) refl
block_loop-enough (suc fuel) more input end s out h = elim (Bool-cases (ltb s end)) [
  | inr over ↦ rw (add_suc more fuel, over) refl
  | inl under ↦
      rw (add_suc more fuel, under)
        (after_sequence_same s _ _ (sequence input end s out)
          (λ written s' ahead. block_loop-enough fuel more input end s' written (omega arith))
          (sequence-Ahead input end s out))
]

-- A block gives no more bytes than the size that it is bound to, and more rounds of the loop
-- than `end` change nothing.
pub decode_block-bounded :
    (input : List ℕ) (start end block_max_size more : ℕ)
    → (length (decode_block input start end block_max_size) ≤ block_max_size)
      × (decode_block input start end block_max_size
          ≡ take block_max_size (block_loop (more + end) input end start []))
unfolding decode_block
decode_block-bounded input start end block_max_size more = (
  omega (arith, length-take block_max_size (block_loop end input end start [])),
  ap (take block_max_size) (sym (block_loop-enough end more input end start [] (omega arith))),
)
