-- ===== src/Replay/Threads.antt =====
-- The threads of Replay.ts and replay.cc and their last events, whatever the client does.
use mathlib.Core.Path.{subst}
use netkitty.Base.{
  ℕ, ◌+◌, ◌++◌, ◌≡◌, ◌⊎◌, refl, ap, sym, ◌∙◌, if_true, if_false, true, false, List, [], ◌∷◌,
  Bool-cases, inl, inr, arith,
}
use netkitty.Replay.{
  Event, Progresses, Reach, ReplayFrame, System, add_frames, added, delivers, end_thread, ends,
  fresh, halted, ignored, is_terminal, launched, moved, native_start, native_stop, new_replay,
  on_emit, post, progress, start, stop, terminals,
}
use netkitty.Replay.Invariant.{count, pending, end_thread-IsEnded, terminals-append}

pub record IsCounted (n : ℕ) (s : System) : Type 0 where
  pub counted : terminals s.emitted + pending s ≡ n
  pub held : s.sending ≡ true → s.running ≡ true

module _ (n : ℕ) (s : System) (i : IsCounted n s) where
  add_frames-IsCounted : (fs : List ReplayFrame) → IsCounted n (add_frames fs s)
  unfolding add_frames pending
  add_frames-IsCounted fs = record { counted = i.counted; held = i.held }

  launched-IsCounted : s.started ≡ false → s.running ≡ false → IsCounted (n + 1) (start s)
  unfolding start native_start pending
  launched-IsCounted idle r =
      let silent : s.sending ≡ false = elim (Bool-cases s.sending) [
        | inl y ↦ cc (i.held y, r)
        | inr f ↦ f
      ] in
      subst (IsCounted (n + 1)) (sym (if_false s _ idle ∙ if_false _ _ r))
        (record { counted = omega (arith, i.counted, ap count silent); held = λ h. refl })

  ignored-IsCounted : (s.started ≡ true) ⊎ (s.running ≡ true) → IsCounted n (start s)
  unfolding start native_start pending
  ignored-IsCounted (inl h) = subst (IsCounted n) (sym (if_true s _ h)) i
  ignored-IsCounted (inr r) = elim (Bool-cases s.started) [
    | inl y ↦ subst (IsCounted n) (sym (if_true s _ y)) i
    | inr f ↦
        subst (IsCounted n) (sym (if_false s _ f ∙ if_true _ _ r))
          (record { counted = i.counted; held = i.held })
  ]

  ends-IsCounted : (e : Event) → is_terminal e ≡ true → IsCounted n (end_thread e s)
  ends-IsCounted e t =
      let ended = end_thread-IsEnded e s t in
      record {
        counted = omega (arith, i.counted, ended.same_pending, ap terminals ended.same_emitted);
        held = λ h. cc (h, ended.silent);
      }

  native_stop-IsCounted : (e : Event) → is_terminal e ≡ true → IsCounted n (native_stop e s)
  unfolding native_stop pending
  native_stop-IsCounted e t = elim (Bool-cases s.running) [
    | inl y ↦
        let ended = end_thread-IsEnded e s t in
        subst (IsCounted n) (sym (if_true _ s y))
          (record { counted = (ends-IsCounted e t).counted; held = λ h. cc (h, ended.silent) })
    | inr f ↦ subst (IsCounted n) (sym (if_false _ s f)) i
  ]

  stop-IsCounted : (e : Event) → is_terminal e ≡ true → IsCounted n (stop e s)
  unfolding stop pending
  stop-IsCounted e t = elim (Bool-cases s.started) [
    | inl y ↦
        let stopped = native_stop-IsCounted e t in
        subst (IsCounted n) (sym (if_true _ s y))
          (record { counted = stopped.counted; held = stopped.held })
    | inr f ↦ subst (IsCounted n) (sym (if_false _ s f)) i
  ]

  post-IsCounted : IsCounted n (record s { queue = s.queue ++ (progress ∷ []) })
  unfolding pending terminals
  post-IsCounted = record {
    counted = omega (arith, i.counted, terminals-append s.queue (progress ∷ []));
    held = i.held;
  }

  delivers-IsCounted :
      (e : Event) (rest : List Event)
      → s.queue ≡ e ∷ rest
      → IsCounted n (on_emit e (record s { queue = rest }))
  unfolding on_emit pending terminals
  delivers-IsCounted e rest h = record {
    counted = omega (arith, i.counted, terminals-append s.emitted (e ∷ []), ap terminals h);
    held = i.held;
  }

  Progresses-IsCounted : {t : System} → Progresses s t → IsCounted n t
  Progresses-IsCounted (post _ h) = post-IsCounted
  Progresses-IsCounted (ends _ e h t) = ends-IsCounted e t
  Progresses-IsCounted (delivers _ e rest h) = delivers-IsCounted e rest h

new_replay-IsCounted : IsCounted 0 new_replay
unfolding new_replay pending terminals
new_replay-IsCounted = record { counted = refl; held = λ h. cc h }

pub Reach-IsCounted : {n : ℕ} {s : System} → Reach n s → IsCounted n s
Reach-IsCounted fresh = new_replay-IsCounted
Reach-IsCounted (added fs r) = add_frames-IsCounted _ _ (Reach-IsCounted r) fs
Reach-IsCounted (launched r k q) = launched-IsCounted _ _ (Reach-IsCounted r) k q
Reach-IsCounted (ignored r h) = ignored-IsCounted _ _ (Reach-IsCounted r) h
Reach-IsCounted (halted e t r) = stop-IsCounted _ _ (Reach-IsCounted r) e t
Reach-IsCounted (moved r p) = Progresses-IsCounted _ _ (Reach-IsCounted r) p
