-- ===== src/Analysis/Facade/Batches.antt =====
-- AnalysisWorkerCore.ts, getFrameBatch, and Analysis.ts, attachReducer: batches in sequence.
use netkitty.Base.{
  ℕ, zero, suc, ◌+◌, ◌-◌, ◌≤◌, ◌<◌, min, ◌≡◌, refl, ap, sym, ◌∙◌, Bool, true, false, Option,
}
use netkitty.Base.{◌⊎◌, none, some, List, [], ◌∷◌, ◌++◌, Bool-cases, inl, inr, ltb, arith}
use netkitty.Base.{ltb→lt}
use netkitty.Base.Text.{Text}
use netkitty.Analysis.Layer.{Layer}
use netkitty.Analysis.FrameIndexer.{Indexer}
use netkitty.Analysis.Worker.{LiveFrame, batch_frame, batch_loop, get_frame_batch, push}
use netkitty.Analysis.Facade.{Facade, Reducer, attach_loop, attach_reducer, feed, with_channel}

-- One batch before another, unless one throws.
joined : {A : Type 0} → Option (List A) → Option (List A) → Option (List A)
joined none ys = none
joined (some xs) none = none
joined (some xs) (some ys) = some (xs ++ ys)

ltb-false→le : {a b : ℕ} → ltb a b ≡ false → b ≤ a
ltb-false→le h = ground arith

joined-nil : {A : Type 0} (b : Option (List A)) → joined (some []) b ≡ b
unfolding joined
joined-nil none = refl
joined-nil (some ys) = refl

zero_add : (n : ℕ) → zero + n ≡ n
zero_add n = omega arith

suc_add : (m n : ℕ) → suc m + n ≡ suc (m + n)
suc_add m n = omega arith

push-joined :
    {A : Type 0} (x : Option (Option A)) (a b : Option (List A))
    → push x (joined a b) ≡ joined (push x a) b
unfolding push joined
push-joined none a b = refl
push-joined (some none) a b = refl
push-joined (some (some x)) none b = refl
push-joined (some (some x)) (some xs) none = refl
push-joined (some (some x)) (some xs) (some ys) = refl

batch_loop-add :
    {A : Type 0} (fetch : ℕ → Option (Option A)) (m n i : ℕ)
    → batch_loop fetch (m + n) i ≡ joined (batch_loop fetch m i) (batch_loop fetch n (i + m))
unfolding batch_loop joined
batch_loop-add fetch zero n i =
    ap (λ k. batch_loop fetch k i) (zero_add n)
    ∙ ap (batch_loop fetch n) (omega arith)
    ∙ sym (joined-nil (batch_loop fetch n (i + 0)))
batch_loop-add fetch (suc m) n i =
    ap (λ k. batch_loop fetch k i) (suc_add m n)
    ∙ ap (push (fetch i)) (batch_loop-add fetch m n (i + 1))
    ∙ push-joined (fetch i) (batch_loop fetch m (i + 1)) (batch_loop fetch n (i + 1 + m))
    ∙ ap (λ k. joined (push (fetch i) (batch_loop fetch m (i + 1))) (batch_loop fetch n k))
        (omega arith)

module _ {S : Type 0} (r : Reducer S) where
  feed-append :
      (total : ℕ) (xs ys : List LiveFrame) (st : S)
      → feed r total (xs ++ ys) st ≡ feed r total ys (feed r total xs st)
  unfolding feed
  feed-append total [] ys st = refl
  feed-append total (x ∷ xs) ys st = feed-append total xs ys _

  pub fed : ℕ → S → Option (List LiveFrame) → Option S
  fed total st none = none
  fed total st (some frames) = some (feed r total frames st)

  fed_later : ℕ → S → Option (List LiveFrame) → (S → Option S) → Option S
  fed_later total st none k = none
  fed_later total st (some frames) k = k (feed r total frames st)

  fed-joined :
      (total : ℕ) (st : S) (a b : Option (List LiveFrame))
      → fed total st (joined a b) ≡ fed_later total st a (λ st'. fed total st' b)
  unfolding fed joined fed_later
  fed-joined total st none b = refl
  fed-joined total st (some xs) none = refl
  fed-joined total st (some xs) (some ys) = ap some (feed-append total xs ys st)

  -- The frame of an index, for the layers that a reducer needs.
  module _ (frame_at : Option (List Text) → Bool → ℕ → Option (Option LiveFrame)) where
    abbrev fetch : ℕ → Option (Option LiveFrame)
    fetch index = frame_at r.needs r.index_only index

    request : Option (List Text) → Bool → ℕ → ℕ → Option (List LiveFrame)
    request needs index_only from to = batch_loop (frame_at needs index_only) (to - from) from

    -- A round is a batch and the rounds that follow.
    round :
        (fuel total from : ℕ) (st : S) (b : Option (List LiveFrame))
        → request r.needs r.index_only from (min (from + 512) total) ≡ b
        → ltb from total ≡ true
        → attach_loop r request (suc fuel) total from st
          ≡ fed_later total st b (λ st'. attach_loop r request fuel total (from + 512) st')
    unfolding attach_loop fed_later request
    round fuel total from st none e h = rw (attach_loop, h, e) refl
    round fuel total from st (some frames) e h = rw (attach_loop, h, e) refl

    moved : (n i j : ℕ) → (n ≡ 0) ⊎ (i ≡ j) → batch_loop fetch n i ≡ batch_loop fetch n j
    unfolding batch_loop
    moved n i j (inl z) = rw z refl
    moved n i j (inr e) = ap (batch_loop fetch n) e

    split :
        (total from : ℕ)
        → from < total
        → batch_loop fetch (total - from) from
          ≡ joined
              (batch_loop fetch (min (from + 512) total - from) from)
              (batch_loop fetch (total - (from + 512)) (from + 512))
    split total from h =
        let m = min (from + 512) total - from in
        let n = total - (from + 512) in
        let whole : total - from ≡ m + n = omega arith in
        ap (λ k. batch_loop fetch k from) whole
        ∙ batch_loop-add fetch m n from
        ∙ ap (joined (batch_loop fetch m from)) (moved n (from + m) (from + 512) fits)
      where
        fits : (total - (from + 512) ≡ 0) ⊎ (from + (min (from + 512) total - from) ≡ from + 512)
        fits = elim (Bool-cases (ltb (from + 512) total)) [
          | inl y ↦ inr (omega (arith, ltb→lt (from + 512) total y))
          | inr f ↦ inl (omega (arith, ltb-false→le f))
        ]

    fed_later_eq :
        (total : ℕ) (st : S) (b : Option (List LiveFrame)) (j k : S → Option S)
        → ((st' : S) → j st' ≡ k st')
        → fed_later total st b j ≡ fed_later total st b k
    unfolding fed_later
    fed_later_eq total st none j k h = refl
    fed_later_eq total st (some frames) j k h = h _

    -- Enough rounds of the loop replay all frames from `from` on, as one batch would give them.
    attach_loop_lem :
        (fuel total from : ℕ) (st : S)
        → total - from ≤ fuel
        → attach_loop r request fuel total from st
          ≡ fed total st (batch_loop fetch (total - from) from)
    unfolding attach_loop request fed batch_loop
    attach_loop_lem zero total from st h = let done : total - from ≡ 0 = omega arith in rw done refl
    attach_loop_lem (suc fuel) total from st h = elim (Bool-cases (ltb from total)) [
      | inl y ↦
          let later = batch_loop fetch (total - (from + 512)) (from + 512) in
          let b = batch_loop fetch (min (from + 512) total - from) from in
          round fuel total from st b refl y
          ∙ fed_later_eq total st b _ _ (λ st'.
            attach_loop_lem fuel total (from + 512) st' (omega (arith, ltb→lt from total y)))
          ∙ sym (fed-joined total st b later)
          ∙ ap (fed total st) (sym (split total from (ltb→lt from total y)))
      | inr n ↦
          let done : total - from ≡ 0 = omega (arith, ltb-false→le n) in
          rw (attach_loop, n, done) refl
    ]

  -- `attachReducer` over the worker's `getFrameBatch` replays, batch for batch, exactly the frames of
  -- the indices below the frame count, in order and each once, as one pass over all of them does.
  -- It is rejected when a frame cannot be decoded, and refused without an open source.
  pub attach_reducer-get_frame_batch :
      (decode : List ℕ → Option (List Layer)) (ix : Indexer) (file : List ℕ) (s : Facade) (st : S)
      → attach_reducer r (get_frame_batch decode ix file) s st
        ≡ with_channel s (
            fed s.frame_count st
              (batch_loop (batch_frame decode ix file r.needs r.index_only) s.frame_count 0))
  unfolding attach_reducer get_frame_batch request
  attach_reducer-get_frame_batch decode ix file s st =
      let n = s.frame_count in
      let all : n - 0 ≡ n = omega arith in
      ap (with_channel s) (
        attach_loop_lem (batch_frame decode ix file) n n 0 st (omega arith)
        ∙ ap (λ k. fed n st (batch_loop (batch_frame decode ix file r.needs r.index_only) k 0)) all)
