-- ===== src/Replay/Sessions.antt =====
-- Replay.ts: each thread ends with one event, and a replay that runs comes to its end.
use netkitty.Base.{ℕ, ◌+◌, ◌≤◌, ◌≡◌, refl, ap, true, false, List, []}
use netkitty.Base.{◌⊎◌, ◌∷◌, Bool-cases, inl, inr, arith}
use netkitty.Replay.{
  Event, Leads, Orderly, System, delivers, end_thread, ends, is_running, is_terminal, moves,
  on_emit, stays, terminals, went,
}
use netkitty.Replay.{Reach, moved}
use netkitty.Replay.Threads.{Reach-IsCounted}
use netkitty.Replay.Invariant.{
  count, pending, running_started, end_thread-IsEnded, Orderly-IsSession,
}

-- Where the client starts a thread only when the last one has been stopped and its last event has
-- arrived: in every state that is reached with `n` threads, the last events that have reached the
-- listeners and those still to come are `n` together; at most one is still to come, and exactly one
-- while the replay reports that it is running.
pub Orderly-terminals :
    {n : ℕ} {s : System}
    → Orderly n s
    → (terminals s.emitted + pending s ≡ n)
      × (pending s ≤ 1)
      × ((is_running s ≡ false) ⊎ (pending s ≡ 1))
Orderly-terminals {n} {s} r =
    let i = Orderly-IsSession r in
    (
      i.counted,
      i.single,
      elim (Bool-cases (is_running s)) [
        | inl h ↦ inr (i.live (running_started s h)).1
        | inr h ↦ inl h
      ],
    )

-- The loop delivers what is in the queue when the thread is gone.
drained :
    (q : List Event) (s t : System)
    → t.queue ≡ q
    → t.sending ≡ false
    → Leads s t
    → (u : System) × Leads s u × (u.queue ≡ []) × (u.sending ≡ false)
unfolding on_emit
drained [] s t h k l = (t, l, h, k)
drained (e ∷ q) s t h k l =
    drained q s (on_emit e (record t { queue = q })) refl k (moves l (delivers t e q h))

-- The thread ends first, if there is one.
settled :
    (e : Event) (s : System)
    → is_terminal e ≡ true
    → (u : System) × Leads s u × (u.queue ≡ []) × (u.sending ≡ false)
settled e s t = elim (Bool-cases s.sending) [
  | inl y ↦
      drained (end_thread e s).queue s (end_thread e s) refl (end_thread-IsEnded e s t).silent
        (moves stays (ends s e y t))
  | inr f ↦ drained s.queue s s refl f stays
]

pub Leads-Orderly : {n : ℕ} {s t : System} → Leads s t → Orderly n s → Orderly n t
Leads-Orderly stays r = r
Leads-Orderly (moves l p) r = went (Leads-Orderly l r) p

-- Where the client starts a thread only when the last one has been stopped and its last event has
-- arrived: from every state that is reached with `n` threads, whatever last event `e` the thread
-- ends with, the thread and the event loop alone lead to a state in which the replay is not running
-- and each of the `n` threads has had its one last event delivered.
pub Orderly-settles :
    {n : ℕ} {s : System} (e : Event)
    → is_terminal e ≡ true
    → Orderly n s
    → (t : System) × Leads s t × (t.queue ≡ []) × (is_running t ≡ false) × (terminals t.emitted ≡ n)
unfolding pending terminals
Orderly-settles {n} {s} e t r =
    let end = settled e s t in
    let i = Orderly-IsSession (Leads-Orderly end.1 r) in
    let none_left : pending end.0 ≡ 0 = omega (arith, ap terminals end.2, ap count end.3) in
    (
      end.0,
      end.1,
      end.2,
      elim (Bool-cases (is_running end.0)) [
        | inl h ↦ absurd (omega (arith, none_left, (i.live (running_started end.0 h)).1))
        | inr h ↦ h
      ],
      omega (arith, i.counted, none_left),
    )

Leads-Reach : {n : ℕ} {s t : System} → Leads s t → Reach n s → Reach n t
Leads-Reach stays r = r
Leads-Reach (moves l p) r = moved (Leads-Reach l r) p

-- Whatever the client does, in every state that is reached with `n` threads, the last events that
-- have reached the listeners, those in the queue, and one for a thread that lives are `n` together;
-- and a thread lives only while the native object counts as running.
pub Reach-terminals :
    {n : ℕ} {s : System}
    → Reach n s
    → (terminals s.emitted + pending s ≡ n) × ((s.sending ≡ false) ⊎ (s.running ≡ true))
Reach-terminals {n} {s} r =
    let i = Reach-IsCounted r in
    (i.counted, elim (Bool-cases s.sending) [ inl y ↦ inr (i.held y) | inr f ↦ inl f ])

-- Whatever the client has done, from every state that is reached with `n` threads the thread and the
-- event loop alone lead, whatever last event `e` a thread ends with, to a state without a thread and
-- with an empty queue, in which each of the `n` threads has had its one last event delivered.
pub Reach-settles :
    {n : ℕ} {s : System} (e : Event)
    → is_terminal e ≡ true
    → Reach n s
    → (t : System) × Leads s t × (t.queue ≡ []) × (t.sending ≡ false) × (terminals t.emitted ≡ n)
unfolding pending terminals
Reach-settles {n} {s} e t r =
    let end = settled e s t in
    let i = Reach-IsCounted (Leads-Reach end.1 r) in
    let none_left : pending end.0 ≡ 0 = omega (arith, ap terminals end.2, ap count end.3) in
    (end.0, end.1, end.2, end.3, omega (arith, i.counted, none_left))
