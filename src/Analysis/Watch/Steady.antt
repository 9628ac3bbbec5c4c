-- ===== src/Analysis/Watch/Steady.antt =====
-- AnalysisWorkerCore.ts, drainWatch and pumpWatch: what every round keeps.
use netkitty.Base.{ℕ, zero, suc, ◌-◌, ◌≤◌, min, ◌≡◌, refl, ap, sym, ◌∙◌, true, false, Option}
use netkitty.Base.{
  none, some, List, [], ◌∷◌, length, ltb, Bool-cases, Option-cases, inl, inr, arith, if_true,
  if_false,
}
use Prim.Native.String.{String}
use mathlib.Core.Path.{subst}
use netkitty.PcapCore.Parser.Machine.{Parser, Written, returns, spins, throws, write}
use netkitty.Analysis.Layer.{Layer}
use netkitty.Analysis.Store
use netkitty.Analysis.Store.Sizes.{count-evict_oldest}
use netkitty.Analysis.FrameIndexer.{Indexer}
use netkitty.Analysis.IndexBuilder.{PendingFrame}
use netkitty.Analysis.Worker.{read_bytes}
use netkitty.Analysis.Watch.{
  Ended, Watch, cleared, drain_loop, drain_watch, ended, evict, failed, fed_bytes, finished,
  indexed, pump_loop, pump_round, pump_rounds, pump_watch,
}

-- The index holds at most `n` frames, where a watch has that bound.
unfoldable pub IsBounded : Option ℕ → Indexer → Type 0
IsBounded none s = Unit
IsBounded (some n) s = Store.count s.store ≤ n

unfoldable pub left : Ended → Watch
left (ended w) = w
left (failed w) = w

record IsSteady (w u : Watch) : Type 0 where
  same_pumping : u.pumping ≡ w.pumping
  same_max : u.max_frames ≡ w.max_frames
  bounded : IsBounded w.max_frames w.indexer → IsBounded w.max_frames u.indexer

IsSteady-refl : (w : Watch) → IsSteady w w
IsSteady-refl w = record { same_pumping = refl; same_max = refl; bounded = λ h. h }

IsSteady-trans : (w u v : Watch) → IsSteady w u → IsSteady u v → IsSteady w v
IsSteady-trans w u v a b = record {
  same_pumping = b.same_pumping ∙ a.same_pumping;
  same_max = b.same_max ∙ a.same_max;
  bounded = λ h.
      subst (λ m. IsBounded m v.indexer) a.same_max
        (b.bounded (subst (λ m. IsBounded m u.indexer) (sym a.same_max) (a.bounded h)));
}

evict-IsBounded : (m : Option ℕ) (s : Indexer) → IsBounded m (evict m s)
unfolding IsBounded evict
evict-IsBounded none s = tt
evict-IsBounded (some n) s = elim (Bool-cases (ltb n (Store.count s.store))) [
  | inl y ↦ subst (λ (t : Indexer). Store.count t.store ≤ n) (sym (if_true _ s y)) (least y)
  | inr f ↦ subst (λ (t : Indexer). Store.count t.store ≤ n) (sym (if_false _ s f)) (ltb-false→le f)
]
  where
    least :
        ltb n (Store.count s.store) ≡ true
        → Store.count (Store.evict_oldest s.store (Store.count s.store - n)) ≤ n
    least y = let c = count-evict_oldest s.store (Store.count s.store - n) in rw c (omega arith)

    ltb-false→le : ltb n (Store.count s.store) ≡ false → Store.count s.store ≤ n
    ltb-false→le f = ground arith

module _ (decode : List ℕ → Option (List Layer)) where
  indexed-IsSteady :
      (f : PendingFrame) (ls : List Layer) (w : Watch) → IsSteady w (indexed decode f ls w)
  unfolding indexed
  indexed-IsSteady f ls w = record {
    same_pumping = refl;
    same_max = refl;
    bounded = λ h. evict-IsBounded w.max_frames _;
  }

  drain_loop-IsSteady :
      (fs : List PendingFrame) (w : Watch) → IsSteady w (left (drain_loop decode fs w))
  unfolding drain_loop left
  drain_loop-IsSteady [] w = IsSteady-refl w
  drain_loop-IsSteady (f ∷ fs) w = elim (Option-cases (decode f.frame)) [
    | inl e ↦ rw (e, drain_loop) (IsSteady-refl w)
    | inr (ls, e) ↦
        rw (e, drain_loop)
          (IsSteady-trans w (indexed decode f ls w) _ (indexed-IsSteady f ls w)
            (drain_loop-IsSteady fs (indexed decode f ls w)))
  ]

  cleared-IsSteady :
      (w : Watch) (e : Ended) → IsSteady w (left e) → IsSteady w (left (cleared decode e))
  unfolding cleared left
  cleared-IsSteady w (ended u) s = record {
    same_pumping = s.same_pumping;
    same_max = s.same_max;
    bounded = s.bounded;
  }
  cleared-IsSteady w (failed u) s = s

  drain_watch-IsSteady : (w : Watch) → IsSteady w (left (drain_watch decode w))
  unfolding drain_watch
  drain_watch-IsSteady w =
      cleared-IsSteady w (drain_loop decode w.pending w) (drain_loop-IsSteady w.pending w)

  module _ (base64 : List ℕ → String) where
    fed_bytes-IsSteady :
        (w : Watch) (n : ℕ) (r : Written) → IsSteady w (left (fed_bytes decode base64 w n r))
    unfolding fed_bytes left
    fed_bytes-IsSteady w n (returns p es) =
        IsSteady-trans w _ _ (record { same_pumping = refl; same_max = refl; bounded = λ h. h })
          (drain_watch-IsSteady _)
    fed_bytes-IsSteady w n (throws p es) = record {
      same_pumping = refl;
      same_max = refl;
      bounded = λ h. h;
    }
    fed_bytes-IsSteady w n spins = IsSteady-refl w

    on_parser-IsSteady :
        (k : Parser → Watch → Ended)
        → ((q : Parser) (u : Watch) → IsSteady u (left (k q u)))
        → (u : Watch) (o : Option Parser)
        → IsSteady u (left (elim o [ none ↦ ended u | some q ↦ k q u ]))
    unfolding left
    on_parser-IsSteady k h u none = IsSteady-refl u
    on_parser-IsSteady k h u (some q) = h q u

    -- What follows a step that kept these things and keeps them too.
    follow-IsSteady :
        (w : Watch) (k : Watch → Ended)
        → ((u : Watch) → IsSteady u (left (k u)))
        → (e : Ended) → IsSteady w (left e)
        → IsSteady w (left (elim e [ failed u ↦ failed u | ended u ↦ k u ]))
    unfolding left
    follow-IsSteady w k h (failed u) s = s
    follow-IsSteady w k h (ended u) s = IsSteady-trans w u _ s (h u)

    pump_loop-IsSteady :
        (fuel : ℕ) (file : List ℕ) (p : Parser) (w : Watch)
        → IsSteady w (left (pump_loop decode base64 fuel file p w))
    unfolding pump_loop left
    pump_loop-IsSteady zero file p w = IsSteady-refl w
    pump_loop-IsSteady (suc fuel) file p w = elim (Bool-cases (ltb w.position (length file))) [
      | inr f ↦ rw (f, pump_loop) (IsSteady-refl w)
      | inl y ↦
          let bytes = read_bytes file w.position (min 65536 (length file - w.position)) in
          rw (y, pump_loop)
            (follow-IsSteady w
              (λ u. elim u.parser [
                | none ↦ ended u
                | some q ↦ pump_loop decode base64 fuel file q u
              ])
              (λ u.
                on_parser-IsSteady (pump_loop decode base64 fuel file)
                  (pump_loop-IsSteady fuel file) u u.parser)
              (fed_bytes decode base64 w (length bytes) (write base64 p bytes))
              (fed_bytes-IsSteady w (length bytes) (write base64 p bytes)))
    ]

    pump_round-IsSteady :
        (file : List ℕ) (w : Watch) → IsSteady w (left (pump_round decode base64 file w))
    unfolding pump_round
    pump_round-IsSteady file w =
        on_parser-IsSteady (pump_loop decode base64 (length file) file)
          (pump_loop-IsSteady (length file) file) w w.parser

    again : (w : Watch) → IsSteady w (record w { pump_again = false })
    again w = record { same_pumping = refl; same_max = refl; bounded = λ h. h }

    pump_rounds-IsSteady :
        (files : List (List ℕ)) (file : List ℕ) (w : Watch)
        → IsSteady w (left (pump_rounds decode base64 file files w))
    unfolding pump_rounds
    pump_rounds-IsSteady [] file w =
        IsSteady-trans w _ _ (again w) (pump_round-IsSteady file (record w { pump_again = false }))
    pump_rounds-IsSteady (next ∷ files) file w =
        follow-IsSteady w (pump_rounds decode base64 next files) (pump_rounds-IsSteady files next)
          (pump_round decode base64 file (record w { pump_again = false }))
          (IsSteady-trans w _ _ (again w)
            (pump_round-IsSteady file (record w { pump_again = false })))

    abbrev locked : Watch → Watch
    locked w = record w { pumping = true }

    finished-IsBounded :
        (w : Watch) (e : Ended)
        → IsSteady w (left e)
        → IsBounded w.max_frames w.indexer
        → IsBounded w.max_frames (left (finished decode base64 e)).indexer
    unfolding finished left
    finished-IsBounded w (ended u) s h = s.bounded h
    finished-IsBounded w (failed u) s h = s.bounded h

    finished-failed : (e : Ended) (u : Watch) → finished decode base64 e ≡ failed u → e ≡ failed u
    unfolding finished
    finished-failed (ended v) u h = cc
    finished-failed (failed v) u h = h

    -- A pump that throws was not refused by the flag, and it leaves the flag set.
    failed-pumping :
        (file : List ℕ) (files : List (List ℕ)) (w u : Watch)
        → pump_watch decode base64 file files w ≡ failed u
        → u.pumping ≡ true
    unfolding pump_watch left
    failed-pumping file files w u h = elim (Bool-cases w.pumping) [
      | inl y ↦ cc (sym (if_true _ _ y) ∙ h)
      | inr f ↦
          let e = pump_rounds decode base64 file files (locked w) in
          let threw = finished-failed e u (sym (if_false _ _ f) ∙ h) in
          ap (λ v. (left v).pumping) (sym threw)
          ∙ (pump_rounds-IsSteady files file (locked w)).same_pumping
    ]

    -- Whatever the file has grown to in the rounds of a pump, and whether it ends or throws, an
    -- index that holds at most as many frames as the watch allows still does.
    pub pump_watch-IsBounded :
        (file : List ℕ) (files : List (List ℕ)) (w : Watch)
        → IsBounded w.max_frames w.indexer
        → IsBounded w.max_frames (left (pump_watch decode base64 file files w)).indexer
    unfolding pump_watch left
    pump_watch-IsBounded file files w h = elim (Bool-cases w.pumping) [
      | inl y ↦ subst (λ e. IsBounded w.max_frames (left e).indexer) (sym (if_true _ _ y)) h
      | inr f ↦
          subst (λ e. IsBounded w.max_frames (left e).indexer) (sym (if_false _ _ f))
            (finished-IsBounded (locked w) (pump_rounds decode base64 file files (locked w))
              (pump_rounds-IsSteady files file (locked w)) h)
    ]

    -- After a pump that throws, every later one only asks for another round: nothing is read or
    -- indexed any more.
    pub pump_watch_stalls :
        (file : List ℕ) (files : List (List ℕ)) (w u : Watch)
        → pump_watch decode base64 file files w ≡ failed u
        → (later : List ℕ) (more : List (List ℕ))
        → pump_watch decode base64 later more u ≡ ended (record u { pump_again = true })
    unfolding pump_watch
    pump_watch_stalls file files w u h later more = if_true _ _ (failed-pumping file files w u h)
