-- ===== src/Pcap/Retime/Order.antt =====
-- PcapEdit.ts, makeRetimer: a capture whose frames are in the order of time stays so.
use netkitty.Base.{ℕ, ◌+◌, ◌-◌, ◌≤◌, ◌≡◌, refl, ◌∙◌, inl, inr, true, false, Option}
use netkitty.Base.{none, some, ltb, Bool-cases, arith}
use netkitty.Base.{ltb→lt}
use netkitty.Base.Int.{ℤ, pos, clamp_zero, sub_ℕ, clamp_zero-shifted, ◌+ℤ◌}
use netkitty.Pcap.Edit.{Context, set_micros, to_micros, to_micros-set_micros}
use netkitty.Pcap.Retime.{Clock, Window, anchored, in_window, or_set, windowed, within}

within_later : (to : Option ℕ) (i j : ℕ) → i ≤ j → within to i ≡ false → within to j ≡ false
unfolding within
within_later none i j h e = cc
within_later (some to) i j h e = ground arith

ltb-false→le : {a b : ℕ} → ltb a b ≡ false → b ≤ a
ltb-false→le h = ground arith

module _ (target : ℕ → ℕ → ℕ → ℤ) (w : Window) where
  -- Where the clock stands after a frame of time `t` and index `i` that was sent at `low`.
  pub data Stage (low t i : ℕ) (k : Clock) : Type 0 where
    before : k.anchor ≡ none → k.shift ≡ pos 0 → low ≤ t → Stage low t i k
    inside :
        (a j : ℕ)
        → k.anchor ≡ some a
        → k.in_range_index ≡ j + 1
        → k.shift ≡ sub_ℕ low t
        → low ≡ clamp_zero (target t a j)
        → a ≤ t
        → w.from ≤ i
        → Stage low t i k
    past :
        (e s : ℕ)
        → k.shift ≡ sub_ℕ e s
        → s ≤ t
        → low ≡ t + e - s
        → w.from ≤ i
        → within w.to i ≡ false
        → Stage low t i k

  module _ (start : (t : ℕ) → clamp_zero (target t t 0) ≡ t)
      (grow : (a t u j : ℕ)
        → a ≤ t
        → t ≤ u
        → clamp_zero (target t a j) ≤ clamp_zero (target u a (j + 1))) where
    -- A frame that follows is not sent before the last one, and the clock stays in such a stage.
    unfoldable pub StepOf : (low t i u j : ℕ) (k : Clock) (c : Context) → Type 0
    unfolding windowed
    StepOf low t i u j k c =
        (low ≤ to_micros (windowed (target u) w k c j u).0)
        × Stage (to_micros (windowed (target u) w k c j u).0) u j (windowed (target u) w k c j u).1

    step-in_window :
        (low t i u j : ℕ) (k : Clock) (c : Context)
        → ltb j w.from ≡ false
        → within w.to j ≡ true
        → Stage low t i k
        → i ≤ j
        → t ≤ u
        → StepOf low t i u j k c
    unfolding windowed StepOf in_window anchored or_set
    step-in_window low t i u j k c hf hw (before ha hs hl) hij hu =
        let sent = (to_micros-set_micros c (pos (clamp_zero (target u u 0)))).0 in
        rw (hf, hw, ha, sent)
          (omega (arith, start u), inside u 0 refl refl refl refl (omega arith) (ltb-false→le hf))
    step-in_window low t i u j k c hf hw (inside a n ha hn hs hl hat hfi) hij hu =
        let sent = (to_micros-set_micros c (pos (clamp_zero (target u a (n + 1))))).0 in
        rw (hf, hw, ha, hn, sent)
          (
            omega (arith, grow a t u n hat hu),
            inside a (n + 1) refl refl refl refl (omega arith) (ltb-false→le hf),
          )
    step-in_window low t i u j k c hf hw (past e s hs hst hl hfi ho) hij hu =
        absurd (cc (hw, within_later w.to i j hij ho))

    step-before :
        (low t i u j : ℕ) (k : Clock) (c : Context)
        → ltb j w.from ≡ true
        → to_micros c ≡ u
        → Stage low t i k
        → i ≤ j
        → t ≤ u
        → StepOf low t i u j k c
    unfolding windowed StepOf
    step-before low t i u j k c hf hc (before ha hs hl) hij hu =
        rw (hf, hc) (omega arith, before ha hs (omega arith))
    step-before low t i u j k c hf hc (inside a n ha hn hs hl hat hfi) hij hu =
        absurd (omega (arith, ltb→lt j w.from hf))
    step-before low t i u j k c hf hc (past e s hs hst hl hfi ho) hij hu =
        absurd (omega (arith, ltb→lt j w.from hf))

    -- A frame behind the window is moved by the difference of two times.
    moved :
        (e s u j : ℕ) (k : Clock) (c : Context)
        → k.shift ≡ sub_ℕ e s
        → to_micros (set_micros c (pos u +ℤ k.shift)) ≡ u + e - s
    moved e s u j k c hs =
        rw hs ((to_micros-set_micros c (pos u +ℤ sub_ℕ e s)).0 ∙ clamp_zero-shifted u e s)

    step-behind :
        (low t i u j : ℕ) (k : Clock) (c : Context)
        → ltb j w.from ≡ false
        → within w.to j ≡ false
        → Stage low t i k
        → i ≤ j
        → t ≤ u
        → StepOf low t i u j k c
    unfolding windowed StepOf
    step-behind low t i u j k c hf hw (before ha hs hl) hij hu =
        let sent = moved 0 0 u j k c hs in
        rw (hf, hw, sent) (omega arith, past 0 0 hs (omega arith) refl (ltb-false→le hf) hw)
    step-behind low t i u j k c hf hw (inside a n ha hn hs hl hat hfi) hij hu =
        let sent = moved low t u j k c hs in
        rw (hf, hw, sent) (omega arith, past low t hs hu refl (ltb-false→le hf) hw)
    step-behind low t i u j k c hf hw (past e s hs hst hl hfi ho) hij hu =
        let sent = moved e s u j k c hs in
        rw (hf, hw, sent) (omega arith, past e s hs (omega arith) refl (ltb-false→le hf) hw)

    pub step :
        (low t i u j : ℕ) (k : Clock) (c : Context)
        → to_micros c ≡ u
        → Stage low t i k
        → i ≤ j
        → t ≤ u
        → StepOf low t i u j k c
    step low t i u j k c hc st hij hu = elim (Bool-cases (ltb j w.from)) [
      | inl b ↦ step-before low t i u j k c b hc st hij hu
      | inr f ↦ elim (Bool-cases (within w.to j)) [
        | inl y ↦ step-in_window low t i u j k c f y st hij hu
        | inr n ↦ step-behind low t i u j k c f n st hij hu
      ]
    ]
