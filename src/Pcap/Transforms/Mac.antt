-- ===== src/Pcap/Transforms/Mac.antt =====
-- PcapEdit.ts: the MAC transforms against each other.
use netkitty.Base.{ℕ, ◌≤◌, ◌≡◌, refl, ap, sym, ◌∙◌, true, false, List, ◌++◌, arith, inl, inr}
use netkitty.Base.{length, take, drop, length-take, length-drop, length-append, ltb}
use netkitty.Base.{append_assoc, le→ltb-false, Bool-cases}
use netkitty.Base.{take_of, drop_of, take-drop}
use netkitty.Pcap.Transforms.{copy_to, swap_macs}

ltb-false→le : {a b : ℕ} → ltb a b ≡ false → b ≤ a
ltb-false→le h = ground arith

-- An address that is copied over one at the front, and one behind the first.
copy_first : (b d rest : List ℕ) → length b ≡ 6 → length d ≡ 6 → copy_to b 0 (d ++ rest) ≡ b ++ rest
unfolding copy_to
copy_first b d rest hb hd = rw hb (ap (λ t. b ++ t) (drop_of 6 d rest hd))

copy_second :
    (b d s rest : List ℕ)
    → length b ≡ 6
    → length d ≡ 6
    → length s ≡ 6
    → copy_to b 6 (d ++ (s ++ rest)) ≡ d ++ (b ++ rest)
unfolding copy_to
copy_second b d s rest hb hd hs =
    rw (hb, take_of 6 d (s ++ rest) hd)
      (ap (λ t. d ++ (b ++ t))
        (ap (λ t. drop 12 t) (sym (append_assoc d s rest))
          ∙ drop_of 12 (d ++ s) rest (omega (arith, length-append d s))))

-- On a frame of three parts the swap exchanges the first two.
swap_parts :
    (d s rest : List ℕ)
    → length d ≡ 6
    → length s ≡ 6
    → swap_macs (d ++ (s ++ rest)) ≡ s ++ (d ++ rest)
unfolding swap_macs
swap_parts d s rest hd hs =
    let long : ltb (length (d ++ (s ++ rest))) 12 ≡ false =
      le→ltb-false _ 12 (omega (arith, length-append d (s ++ rest), length-append s rest)) in
    rw
      (
        long,
        take_of 6 d (s ++ rest) hd,
        drop_of 6 d (s ++ rest) hd,
        take_of 6 s rest hs,
        copy_first s d (s ++ rest) hs hd,
      )
      (copy_second d s s rest hd hs hs)

short_frame : (frame : List ℕ) → ltb (length frame) 12 ≡ true → swap_macs frame ≡ frame
unfolding swap_macs
short_frame frame b = rw b refl

parts : (frame : List ℕ) → take 6 frame ++ (take 6 (drop 6 frame) ++ drop 6 (drop 6 frame)) ≡ frame
parts frame = ap (λ t. take 6 frame ++ t) (take-drop 6 (drop 6 frame)) ∙ take-drop 6 frame

-- The swap of the addresses undoes itself, on frames of every length.
pub swap_macs-swap_macs : (frame : List ℕ) → swap_macs (swap_macs frame) ≡ frame
swap_macs-swap_macs frame = elim (Bool-cases (ltb (length frame) 12)) [
  | inl b ↦ ap swap_macs (short_frame frame b) ∙ short_frame frame b
  | inr f ↦
      let d = take 6 frame in
      let s = take 6 (drop 6 frame) in
      let rest = drop 6 (drop 6 frame) in
      let hd : length d ≡ 6 = omega (arith, length-take 6 frame, ltb-false→le f) in
      let hs : length s ≡ 6 =
        omega (arith, length-take 6 (drop 6 frame), length-drop 6 frame, ltb-false→le f) in
      ap (λ t. swap_macs (swap_macs t)) (sym (parts frame))
      ∙ ap swap_macs (swap_parts d s rest hd hs)
      ∙ swap_parts s d rest hs hd
      ∙ parts frame
]
