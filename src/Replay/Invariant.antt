-- ===== src/Replay/Invariant.antt =====
-- What every reachable state of Replay.ts and its send thread keeps where the client is orderly, over all
-- steps.
use netkitty.Base.{
  ℕ, ◌+◌, ◌++◌, ◌≤◌, ◌≡◌, refl, ap, sym, ◌∙◌, if_true, if_false, Bool, true, false, not, ◌&&◌, List,
  [],
}
use netkitty.Base.{◌∷◌, if◌then◌else◌, Bool-cases, inl, inr, arith}
use mathlib.Core.Path.{subst}
use netkitty.Replay.{
  Event, Progresses, Orderly, ReplayFrame, System, add_frames, again, began, delivers, end_thread,
  ends, here, is_running, is_terminal, native_start, native_stop, new_replay, on_emit, post,
  progress, queued, start, stop, stopped, terminals, went,
}

pub terminals-append : (xs ys : List Event) → terminals (xs ++ ys) ≡ terminals xs + terminals ys
unfolding terminals
terminals-append [] ys = omega arith
terminals-append (x ∷ xs) ys = omega (arith, terminals-append xs ys)

terminals_last :
    (xs : List Event) (e : Event)
    → is_terminal e ≡ true
    → terminals (xs ++ (e ∷ [])) ≡ terminals xs + 1
unfolding terminals
terminals_last xs e t =
    terminals-append xs (e ∷ []) ∙ ap (λ b. terminals xs + ((if b then 1 else 0) + 0)) t

abbrev pub count : Bool → ℕ
count b = if b then 1 else 0

-- The last events that are still to come: of the thread, and in the queue.
unfoldable pub pending : System → ℕ
unfolding terminals
pending s = count s.sending + terminals s.queue

pub record IsSession (n : ℕ) (s : System) : Type 0 where
  pub counted : terminals s.emitted + pending s ≡ n
  pub single : pending s ≤ 1
  pub held : s.sending ≡ true → s.running ≡ true
  pub live : s.started ≡ true → (s.running ≡ true) × (pending s ≡ 1) × (s.finished ≡ false)

-- What the end of the thread changes: its last event is now in the queue.
and_left : (a b : Bool) → (a && b) ≡ true → a ≡ true
and_left true b h = refl
and_left false b h = h

pub running_started : (s : System) → is_running s ≡ true → s.started ≡ true
unfolding is_running
running_started s h = and_left s.started (not s.finished) h

pub record IsEnded (s t : System) : Type 0 where
  pub silent : t.sending ≡ false
  pub same_pending : pending t ≡ pending s
  pub same_emitted : t.emitted ≡ s.emitted
  pub same_running : t.running ≡ s.running
  pub same_started : t.started ≡ s.started
  pub same_finished : t.finished ≡ s.finished

pub end_thread-IsEnded :
    (e : Event) (s : System) → is_terminal e ≡ true → IsEnded s (end_thread e s)
unfolding pending end_thread
end_thread-IsEnded e s t = elim (Bool-cases s.sending) [
  | inl y ↦ subst (IsEnded s) (sym (if_true _ s y)) (record {
    silent = refl;
    same_pending = let last = terminals_last s.queue e t in omega (arith, last, ap count y);
    same_emitted = refl;
    same_running = refl;
    same_started = refl;
    same_finished = refl;
  })
  | inr n ↦ subst (IsEnded s) (sym (if_false _ s n)) (record {
    silent = n;
    same_pending = refl;
    same_emitted = refl;
    same_running = refl;
    same_started = refl;
    same_finished = refl;
  })
]

module _ (n : ℕ) (s : System) (i : IsSession n s) where
  add_frames-IsSession : (fs : List ReplayFrame) → IsSession n (add_frames fs s)
  unfolding add_frames pending
  add_frames-IsSession fs = record {
    counted = i.counted;
    single = i.single;
    held = i.held;
    live = i.live;
  }

  again-IsSession : s.started ≡ true → IsSession n (start s)
  unfolding start
  again-IsSession h = subst (IsSession n) (sym (if_true s _ h)) i

  began-IsSession : s.running ≡ false → terminals s.queue ≡ 0 → IsSession (n + 1) (start s)
  unfolding start native_start pending
  began-IsSession r q =
      let idle : s.started ≡ false = elim (Bool-cases s.started) [
        | inl y ↦ cc ((i.live y).0, r)
        | inr f ↦ f
      ] in
      let silent : s.sending ≡ false = elim (Bool-cases s.sending) [
        | inl y ↦ cc (i.held y, r)
        | inr f ↦ f
      ] in
      let none_left : pending s ≡ 0 = omega (arith, q, ap count silent) in
      subst (IsSession (n + 1)) (sym (if_false s _ idle ∙ if_false _ _ r)) (record {
        counted = omega (arith, i.counted, none_left, q);
        single = omega (arith, q);
        held = λ h. refl;
        live = λ h. (refl, omega (arith, q), refl);
      })

  stop-IsSession : (e : Event) → is_terminal e ≡ true → IsSession n (stop e s)
  unfolding stop native_stop pending
  stop-IsSession e t = elim (Bool-cases s.started) [
    | inl y ↦
        let ended = end_thread-IsEnded e s t in
        let runs = i.live y in
        subst (IsSession n)
          (sym (
            if_true _ s y ∙ ap (λ (u : System). record u { started = false }) (if_true _ s runs.0)))
          (record {
            counted = omega (arith, i.counted, ended.same_pending, ap terminals ended.same_emitted);
            single = omega (arith, i.single, ended.same_pending);
            held = λ h. cc (h, ended.silent);
            live = λ h. cc h;
          })
    | inr f ↦ subst (IsSession n) (sym (if_false _ s f)) i
  ]

  post-IsSession : IsSession n (record s { queue = s.queue ++ (progress ∷ []) })
  unfolding pending terminals
  post-IsSession =
      let same = terminals-append s.queue (progress ∷ []) in
      record {
        counted = omega (arith, i.counted, same);
        single = omega (arith, i.single, same);
        held = i.held;
        live = λ h. ((i.live h).0, omega (arith, (i.live h).1, same), (i.live h).2);
      }

  ends-IsSession : (e : Event) → is_terminal e ≡ true → IsSession n (end_thread e s)
  ends-IsSession e t =
      let ended = end_thread-IsEnded e s t in
      record {
        counted = omega (arith, i.counted, ended.same_pending, ap terminals ended.same_emitted);
        single = omega (arith, i.single, ended.same_pending);
        held = λ h. cc (h, ended.silent);
        live = λ h.
            let before = i.live (sym ended.same_started ∙ h) in
            (
              ended.same_running ∙ before.0,
              ended.same_pending ∙ before.1,
              ended.same_finished ∙ before.2,
            );
      }

  -- The event that is delivered was counted in the queue, and now among those emitted.
  delivers-IsSession :
      (e : Event) (rest : List Event)
      → s.queue ≡ e ∷ rest
      → IsSession n (on_emit e (record s { queue = rest }))
  unfolding on_emit pending terminals
  delivers-IsSession e rest h =
      let seen = terminals-append s.emitted (e ∷ []) in
      let queued = ap terminals h in
      elim (Bool-cases (is_terminal e)) [
        | inl y ↦
            let one = ap count y in
            record {
              counted = omega (arith, i.counted, seen, queued);
              single = omega (arith, i.single, queued);
              held = i.held;
              live = λ k. cc (sym (if_true false s.started y) ∙ k);
            }
        | inr f ↦
            let none_more = ap count f in
            let live_before = if_false false s.started f in
            let before = λ (k : (if is_terminal e then false else s.started) ≡ true).
              i.live (sym live_before ∙ k) in
            record {
              counted = omega (arith, i.counted, seen, queued);
              single = omega (arith, i.single, queued);
              held = i.held;
              live = λ k. (
                (before k).0,
                omega (arith, (before k).1, queued, none_more),
                if_false true s.finished f ∙ (before k).2,
              );
            }
      ]

  Progresses-IsSession : {t : System} → Progresses s t → IsSession n t
  Progresses-IsSession (post _ h) = post-IsSession
  Progresses-IsSession (ends _ e h t) = ends-IsSession e t
  Progresses-IsSession (delivers _ e rest h) = delivers-IsSession e rest h

new_replay-IsSession : IsSession 0 new_replay
unfolding new_replay pending terminals
new_replay-IsSession = record {
  counted = refl;
  single = omega arith;
  held = λ h. cc h;
  live = λ h. cc h;
}

pub Orderly-IsSession : {n : ℕ} {s : System} → Orderly n s → IsSession n s
Orderly-IsSession here = new_replay-IsSession
Orderly-IsSession (queued fs r) = add_frames-IsSession _ _ (Orderly-IsSession r) fs
Orderly-IsSession (began r k q) = began-IsSession _ _ (Orderly-IsSession r) k q
Orderly-IsSession (again r h) = again-IsSession _ _ (Orderly-IsSession r) h
Orderly-IsSession (stopped e t r) = stop-IsSession _ _ (Orderly-IsSession r) e t
Orderly-IsSession (went r p) = Progresses-IsSession _ _ (Orderly-IsSession r) p
