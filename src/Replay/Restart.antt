-- ===== src/Replay/Restart.antt =====
-- Replay.ts and replay.cc: a second start after a thread that ended on its own.
use netkitty.Base.{◌≡◌, refl, ap, ◌∙◌, true, false, [], if_true, if_false}
use mathlib.Core.Path.{subst}
use netkitty.Base.{ℕ, ◌≤◌, Bool, ◌∷◌, Bool-cases, inl, inr, arith, sym}
use netkitty.Replay.{Orderly, began, on_emit, terminals, progress, is_terminal}
use netkitty.Replay.Invariant.{
  count, pending, end_thread-IsEnded, terminals-append, Orderly-IsSession,
}
use netkitty.Replay.Sessions.{Leads-Orderly}
use netkitty.Replay.{
  Leads, Progresses, System, delivers, ends, is_running, moves, native_start, post, start, stays,
}

-- No step is left when the thread is gone and the queue is empty.
no_progress : {s t : System} → s.sending ≡ false → s.queue ≡ [] → Progresses s t → ⊥
no_progress h q (post _ k) = cc (h, k)
no_progress h q (ends _ e k t) = cc (h, k)
no_progress h q (delivers _ e rest k) = cc (q, k)

nothing_moves : {s t : System} → s.sending ≡ false → s.queue ≡ [] → Leads s t → t ≡ s
nothing_moves h q stays = refl
nothing_moves h q (moves l p) =
    let same = nothing_moves h q l in
    absurd (no_progress (ap (λ u. u.sending) same ∙ h) (ap (λ u. u.queue) same ∙ q) p)

stuck_lem :
    (s t : System)
    → s.started ≡ false
    → s.running ≡ true
    → s.sending ≡ false
    → s.queue ≡ []
    → Leads (start s) t
    → (is_running t ≡ true) × (t.emitted ≡ s.emitted)
unfolding start native_start is_running
stuck_lem s t hs hr hd hq l =
    let began : start s ≡ record s { started = true; finished = false } =
      if_false s _ hs ∙ if_true _ _ hr in
    let same = nothing_moves (ap (λ u. u.sending) began ∙ hd) (ap (λ u. u.queue) began ∙ hq) l in
    rw (same, began) (refl, refl)

-- A thread that nobody stops: the native object counts as running, and one last event is to come
-- just as long as Replay.ts counts as started.
record IsAlone (s : System) : Type 0 where
  runs : s.running ≡ true
  awaited : count s.started ≡ pending s

count_one : (b : Bool) → count b ≤ 1
count_one b = ground arith

Progresses-IsAlone : {s t : System} → IsAlone s → Progresses s t → IsAlone t
unfolding pending terminals on_emit
Progresses-IsAlone i (post s h) = record {
  runs = i.runs;
  awaited = omega (arith, i.awaited, terminals-append s.queue (progress ∷ []));
}
Progresses-IsAlone i (ends s e h t) =
    let ended = end_thread-IsEnded e s t in
    record {
      runs = ended.same_running ∙ i.runs;
      awaited = ap count ended.same_started ∙ i.awaited ∙ sym ended.same_pending;
    }
Progresses-IsAlone i (delivers s e rest h) = record {
  runs = i.runs;
  awaited = elim (Bool-cases (is_terminal e)) [
    | inl y ↦
        ap count (if_true false s.started y)
        ∙ omega (arith, i.awaited, ap terminals h, ap count y, count_one s.started)
    | inr f ↦
        ap count (if_false false s.started f) ∙ omega (arith, i.awaited, ap terminals h, ap count f)
  ];
}

Leads-IsAlone : {s t : System} → IsAlone s → Leads s t → IsAlone t
Leads-IsAlone i stays = i
Leads-IsAlone i (moves l p) = Progresses-IsAlone (Leads-IsAlone i l) p

-- From a state that an orderly client can start in: let a thread be started and come to its end on
-- its own, so that the replay no longer reports that it is running and every event has arrived. The
-- native object still counts as running then, and after another `start`, whatever the thread and the
-- loop do, the replay reports that it is running, and nothing more is emitted.
pub start-Leads_stuck :
    {n : ℕ} (s t u : System)
    → Orderly n s
    → s.running ≡ false
    → terminals s.queue ≡ 0
    → Leads (start s) t
    → is_running t ≡ false
    → t.queue ≡ []
    → Leads (start t) u
    → (t.running ≡ true) × (is_running u ≡ true) × (u.emitted ≡ t.emitted)
unfolding pending terminals is_running
start-Leads_stuck s t u r hr hq l done empty l' =
    let i = Orderly-IsSession r in
    let idle : s.started ≡ false = elim (Bool-cases s.started) [
      | inl y ↦ cc ((i.live y).0, hr)
      | inr f ↦ f
    ] in
    let first : start s
        ≡ record s { started = true; finished = false; running = true; sending = true } =
      unfold start native_start in if_false s _ idle ∙ if_false _ _ hr in
    let alone : IsAlone (start s) =
      subst IsAlone (sym first) (record { runs = refl; awaited = omega (arith, hq) }) in
    let a = Leads-IsAlone alone l in
    let j = Orderly-IsSession (Leads-Orderly l (began r hr hq)) in
    let ended : t.started ≡ false = elim (Bool-cases t.started) [
      | inl y ↦ cc (y, (j.live y).2, done)
      | inr f ↦ f
    ] in
    let silent : t.sending ≡ false = elim (Bool-cases t.sending) [
      | inl y ↦ absurd (omega (arith, a.awaited, ap count ended, ap count y))
      | inr f ↦ f
    ] in
    let rest = stuck_lem t u ended a.runs silent empty l' in (a.runs, rest.0, rest.1)
