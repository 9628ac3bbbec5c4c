-- ===== src/PcapCore/Parser/Machine/Chunks.antt =====
-- How the input is cut into chunks makes no difference to what the parser reports.
use netkitty.Base.{ℕ, zero, suc, ◌+◌, ◌<◌, ◌≡◌, refl, sym, ap, ◌∙◌, arith, inl, inr}
use netkitty.Base.{true, false, Bool-cases, List, [], ◌∷◌, ◌++◌, append-nil, append_assoc}
use netkitty.Base.{length, length-append, drop, drop-append, length-drop, flatten}
use Prim.Native.String.{String}
use netkitty.PcapCore.Format.{Control, Event, on_error, Step, more, wait, fail, fault}
use netkitty.PcapCore.Parser.Steady.{Agrees-more, Agrees-fail}
use netkitty.PcapCore.Parser.Machine.Progress.{
  rank, rank-le, step_measure, step_shrinks, run_more, run_wait, run_fail, run_fault, run_fuel,
  write-ne-spins,
}
use netkitty.PcapCore.Parser.Machine.{
  Parser, Written, returns, throws, spins, emit_before, end_events, step, run, write, write_all,
}
use netkitty.PcapCore.Parser.Machine.Seen.{
  seen, seen-emit_before, emit_before-emit_before, step-Agrees, step_waits, emit_before-nil,
  emit_before-returns, seen_errored, returns_injective, emit_before-eq-returns,
}

module _ (base64 : List ℕ → String) where
  -- The loop depends on the fields only through the next step.
  run-step_eq :
      (fuel : ℕ) (c c' : Control) (b : List ℕ)
      → step base64 c b ≡ step base64 c' b
      → run base64 (suc fuel) c b ≡ run base64 (suc fuel) c' b
  unfolding run
  run-step_eq fuel c c' b h = rw (h, run)

  write-run :
      (p : Parser) (x : List ℕ)
      → p.control.errored ≡ false
      → write base64 p x ≡ run base64 (suc (suc (length (p.buffer ++ x)))) p.control (p.buffer ++ x)
  unfolding write
  write-run p x h = rw (h, write)

  write_errored :
      (p : Parser) (x : List ℕ) → p.control.errored ≡ true → write base64 p x ≡ returns p []
  unfolding write
  write_errored p x h = rw (h, write)

  -- A loop that waits goes on with the bytes that come.
  run-append_wait :
      (fuel : ℕ) (c c' : Control) (b x : List ℕ)
      → c.errored ≡ false
      → rank c.phase + length (b ++ x) < suc fuel
      → step base64 c b ≡ wait c'
      → run base64 (suc fuel) c (b ++ x) ≡ write base64 (record { control = c'; buffer = b }) x
  run-append_wait fuel c c' b x o m e =
      let (errored, phase, again) = step_waits base64 c b x e in
      run_fuel base64 (suc fuel) (suc (suc (length (b ++ x)))) c (b ++ x) m
        (omega (arith, rank-le c.phase))
      ∙ run-step_eq (suc (length (b ++ x))) c c' (b ++ x) (sym again)
      ∙ sym (write-run (record { control = c'; buffer = b }) x (errored ∙ o))

  -- The rest of the input, behind a loop that has returned.
  run-append :
      (fuel fuel' : ℕ) (c : Control) (b x : List ℕ) (p : Parser) (es : List Event)
      → c.errored ≡ false
      → rank c.phase + length b < fuel
      → rank c.phase + length (b ++ x) < fuel'
      → run base64 fuel c b ≡ returns p es
      → seen (run base64 fuel' c (b ++ x)) ≡ seen (emit_before es (write base64 p x))
  run-append zero fuel' c b x p es o m m' h = absurd (omega arith)
  run-append (suc fuel) zero c b x p es o m m' h = absurd (omega arith)
  run-append (suc fuel) (suc fuel') c b x p es o m m' h =
      go (step base64 c b) refl (run-append fuel fuel')
    where
      go :
          (r : Step)
          → step base64 c b ≡ r
          → ((c' : Control) (b' y : List ℕ) (q : Parser) (fs : List Event)
              → c'.errored ≡ false
              → rank c'.phase + length b' < fuel
              → rank c'.phase + length (b' ++ y) < fuel'
              → run base64 fuel c' b' ≡ returns q fs
              → seen (run base64 fuel' c' (b' ++ y)) ≡ seen (emit_before fs (write base64 q y)))
          → seen (run base64 (suc fuel') c (b ++ x)) ≡ seen (emit_before es (write base64 p x))
      go (more c' n fs) e ih =
          let (inside, falls, errored) = step_shrinks base64 c b e in
          let (gs, w, split) = emit_before-eq-returns fs _ (sym (run_more base64 fuel c b e) ∙ h) in
          let m2 : rank c'.phase + length (drop n b ++ x) < fuel' =
            omega (arith, length-append (drop n b) x, length-drop n b, length-append b x) in
          ap seen (run_more base64 fuel' c (b ++ x) (Agrees-more (step-Agrees base64 c b x) e))
          ∙ seen-emit_before fs _
          ∙ ap (emit_before fs) (
              ap (λ d. seen (run base64 fuel' c' d)) (drop-append n b x inside)
              ∙ ih c' (drop n b) x p gs (errored ∙ o) (step_measure base64 c b fuel e m) m2 w)
          ∙ sym (seen-emit_before fs (emit_before gs (write base64 p x)))
          ∙ ap seen (
              emit_before-emit_before fs gs (write base64 p x)
              ∙ ap (λ es'. emit_before es' (write base64 p x)) (sym split))
      go (wait c') e ih =
          let (is_p, is_es) = returns_injective (sym (run_wait base64 fuel c b e) ∙ h) in
          ap seen (
            run-append_wait fuel' c c' b x o m' e
            ∙ ap (λ q. write base64 q x) is_p
            ∙ sym (emit_before-nil (write base64 p x))
            ∙ ap (λ es'. emit_before es' (write base64 p x)) is_es)
      go (fail c' y) e ih =
          let (is_p, is_es) = returns_injective (sym (run_fail base64 fuel c b e) ∙ h) in
          let stopped : write base64 p x ≡ returns p [] =
            write_errored p x (sym (ap (λ q. q.control.errored) is_p)) in
          ap seen (run_fail base64 fuel' c (b ++ x) (Agrees-fail (step-Agrees base64 c b x) e))
          ∙ seen_errored (record c' { errored = true }) b (b ++ x) _ refl
          ∙ ap (λ q. seen (returns q (on_error y ∷ end_events))) is_p
          ∙ ap (λ es'. seen (returns p es')) is_es
          ∙ ap seen (sym (ap (emit_before es) stopped ∙ emit_before-returns es p))
      go (fault c' fs) e ih = cc (run_fault base64 fuel c b e)

  -- A chunk that is written behind another one is as good as both in one.
  write-append :
      (p : Parser) (chunk x : List ℕ) {q : Parser} {es : List Event}
      → write base64 p chunk ≡ returns q es
      → seen (write base64 p (chunk ++ x)) ≡ seen (emit_before es (write base64 q x))
  write-append p chunk x {q} {es} h = elim (Bool-cases p.control.errored) [
    | inl errored ↦
        let (is_q, is_es) = returns_injective (sym (write_errored p chunk errored) ∙ h) in
        ap seen (
          write_errored p (chunk ++ x) errored
          ∙ sym (write_errored p x errored)
          ∙ sym (emit_before-nil (write base64 p x))
          ∙ ap (λ r. emit_before [] (write base64 r x)) is_q
          ∙ ap (λ fs. emit_before fs (write base64 q x)) is_es)
    | inr going ↦
        let b = p.buffer ++ chunk in
        let whole : write base64 p (chunk ++ x)
            ≡ run base64 (suc (suc (length (b ++ x)))) p.control (b ++ x) =
          write-run p (chunk ++ x) going
          ∙ ap (λ d. run base64 (suc (suc (length d))) p.control d)
              (sym (append_assoc p.buffer chunk x)) in
        ap seen whole
        ∙ run-append (suc (suc (length b))) _ p.control b x q es going
            (omega (arith, rank-le p.control.phase)) (omega (arith, rank-le p.control.phase))
            (sym (write-run p chunk going) ∙ h)
  ]

  write_all_step :
      (p : Parser) (chunk : List ℕ) (chunks : List (List ℕ)) {p' : Parser} {es : List Event}
      → write base64 p chunk ≡ returns p' es
      → write_all base64 p (chunk ∷ chunks) ≡ emit_before es (write_all base64 p' chunks)
  unfolding write_all
  write_all_step p chunk chunks e = rw (e, write_all)

  write_all_stops :
      (p : Parser) (chunk : List ℕ) (chunks : List (List ℕ)) {p' q : Parser} {es fs : List Event}
      → write base64 p chunk ≡ throws p' es
      → write_all base64 p (chunk ∷ chunks) ≡ returns q fs
      → ⊥
  unfolding write_all
  write_all_stops p chunk chunks e h = cc (rw (e, write_all) at h)

  pub write_all-eq-returns :
      (p : Parser) (chunk : List ℕ) (chunks : List (List ℕ)) {q : Parser} {es : List Event}
      → write_all base64 p (chunk ∷ chunks) ≡ returns q es
      → (p' : Parser) × (es' : List Event) × (fs : List Event) × (write base64 p chunk
          ≡ returns p' es')
        × (write_all base64 p' chunks ≡ returns q fs)
        × (es ≡ es' ++ fs)
  write_all-eq-returns p chunk chunks {q} {es} h = go (write base64 p chunk) refl
    where
      go :
          (w : Written)
          → write base64 p chunk ≡ w
          → (p' : Parser) × (es' : List Event) × (fs : List Event) × (write base64 p chunk
              ≡ returns p' es')
            × (write_all base64 p' chunks ≡ returns q fs)
            × (es ≡ es' ++ fs)
      go (returns p' es') e =
          let after : emit_before es' (write_all base64 p' chunks) ≡ returns q es =
            sym (write_all_step p chunk chunks e) ∙ h in
          let (fs, rest, all) = emit_before-eq-returns es' (write_all base64 p' chunks) after in
          (p', es', fs, e, rest, all)
      go (throws p' es') e = absurd (write_all_stops p chunk chunks e h)
      go spins e = absurd (write-ne-spins base64 p chunk e)

  -- However the input is cut into chunks, if no write of them throws then one write of the whole
  -- input reports the same events and leaves the same parser, but for the buffer that a parser in
  -- the error state keeps and never reads.
  pub write_all-flatten :
      (p : Parser) (chunk : List ℕ) (chunks : List (List ℕ)) {q : Parser} {es : List Event}
      → write_all base64 p (chunk ∷ chunks) ≡ returns q es
      → seen (write base64 p (flatten (chunk ∷ chunks))) ≡ seen (returns q es)
  unfolding write_all emit_before seen
  write_all-flatten p chunk [] {q} h =
      let (p', es', fs, one, rest, all) = write_all-eq-returns p chunk [] h in
      let (is_q, is_fs) = returns_injective rest in
      ap (λ d. seen (write base64 p d)) (append-nil chunk)
      ∙ ap seen one
      ∙ ap (λ r. seen (returns r es')) is_q
      ∙ ap (λ gs. seen (returns q gs)) (sym (append-nil es') ∙ ap (λ gs. es' ++ gs) is_fs ∙ sym all)
  write_all-flatten p chunk (next ∷ chunks) {q} h =
      let (p', es', fs, one, rest, all) = write_all-eq-returns p chunk (next ∷ chunks) h in
      write-append p chunk (flatten (next ∷ chunks)) one
      ∙ seen-emit_before es' _
      ∙ ap (emit_before es') (write_all-flatten p' next chunks rest)
      ∙ sym (seen-emit_before es' (returns q fs))
      ∙ ap (λ gs. seen (returns q gs)) (sym all)
