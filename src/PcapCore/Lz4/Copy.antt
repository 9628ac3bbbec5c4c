-- ===== src/PcapCore/Lz4/Copy.antt =====
-- Lz4FrameDecompress.ts: the loop that copies a match, which may overlap what it writes.
use netkitty.Base.{
  ℕ, zero, suc, ◌+◌, ◌-◌, ◌≤◌, ◌<◌, ◌≡◌, refl, sym, ◌∙◌, arith, List, [], ◌∷◌, ◌++◌,
}
use netkitty.Base.{length, get_or, length-append, get_or-append}
use netkitty.PcapCore.Lz4.{back_byte, copy_match}

get_or_last : (xs : List ℕ) (x : ℕ) → get_or (xs ++ (x ∷ [])) (length xs) 0 ≡ x
get_or_last [] x = refl
get_or_last (y ∷ ys) x = get_or_last ys x

-- What a copy of `n` bytes from `offset` bytes back makes of the output.
pub record Repeats (n offset : ℕ) (out copied : List ℕ) : Type 0 where
  pub longer : length copied ≡ length out + n
  pub kept : (i : ℕ) → i < length out → get_or copied i 0 ≡ get_or out i 0
  pub repeats :
      (i : ℕ) → i < n → get_or copied (length out + i) 0 ≡ get_or copied (length out + i - offset) 0

module _ (n offset : ℕ) (out : List ℕ) (h : 0 < offset) (k : offset ≤ length out) where
  abbrev wider : List ℕ
  wider = out ++ (back_byte offset out ∷ [])

  length-wider : length wider ≡ length out + 1
  length-wider = omega (arith, length-append out (back_byte offset out ∷ []))

  back_byte_lem : back_byte offset out ≡ get_or out (length out - offset) 0
  unfolding back_byte
  back_byte_lem = ground arith

  module _ (rest : Repeats n offset wider (copy_match n offset wider)) where
    kept_step : (i : ℕ) → i < length out → get_or (copy_match n offset wider) i 0 ≡ get_or out i 0
    kept_step i l =
        rest.kept i (omega (arith, length-wider))
        ∙ get_or-append out (back_byte offset out ∷ []) i 0 l

    repeats_first :
        get_or (copy_match n offset wider) (length out) 0
        ≡ get_or (copy_match n offset wider) (length out - offset) 0
    repeats_first =
        rest.kept (length out) (omega (arith, length-wider))
        ∙ get_or_last out (back_byte offset out)
        ∙ back_byte_lem
        ∙ sym (kept_step (length out - offset) (omega arith))

    repeats_step :
        (i : ℕ)
        → i < suc n
        → get_or (copy_match n offset wider) (length out + i) 0
          ≡ get_or (copy_match n offset wider) (length out + i - offset) 0
    repeats_step zero l =
        let here : length out + 0 ≡ length out = omega arith in rw here repeats_first
    repeats_step (suc i) l =
        let there : length out + suc i ≡ length wider + i = omega (arith, length-wider) in
        rw there (rest.repeats i (omega arith))

-- A match within the output leaves what is written, adds as many bytes as it is long, and each of
-- these is the byte `offset` before it, which may be one that the match itself has written.
pub copy_match-Repeats :
    (n offset : ℕ) (out : List ℕ)
    → 0 < offset
    → offset ≤ length out
    → Repeats n offset out (copy_match n offset out)
unfolding copy_match
copy_match-Repeats zero offset out h k = record {
  longer = omega arith;
  kept = λ i l. refl;
  repeats = λ i l. absurd (omega arith);
}
copy_match-Repeats (suc n) offset out h k =
    let longer = length-wider n offset out h k in
    let rest = copy_match-Repeats n offset (wider n offset out h k) h (omega (arith, longer)) in
    record {
      longer = omega (arith, rest.longer, longer);
      kept = kept_step n offset out h k rest;
      repeats = repeats_step n offset out h k rest;
    }
