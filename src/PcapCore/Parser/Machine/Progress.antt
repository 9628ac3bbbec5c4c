-- ===== src/PcapCore/Parser/Machine/Progress.antt =====
-- Every call of `state()` that returns true brings the loop of `write` closer to its end.
use netkitty.Base.{
  ℕ, zero, suc, ◌+◌, ◌≤◌, ◌<◌, ◌≡◌, ◌≢◌, refl, ap, arith, true, List, [], ◌∷◌, ◌++◌,
}
use netkitty.Base.{length, drop, length-drop}
use Prim.Native.String.{String}
use netkitty.PcapCore.Format.{
  Control, Event, ParseError, on_error, Step, more, wait, fail, fault, Phase, detecting_format,
  global_header, packet_header, packet_body, ng_block,
}
use netkitty.PcapCore.Parser.Classic.Moves.{
  detect_format_moves, parse_global_header_moves, parse_packet_header_moves,
  parse_packet_body_moves,
}
use netkitty.PcapCore.Parser.Ng.Moves.{parse_ng_block-Moves}
use netkitty.PcapCore.Parser.Machine.{
  Parser, Written, returns, throws, spins, emit_before, end_events, step_in, step, run, write,
}

-- The phases that may drop nothing, and are left at once.
abbrev pub rank : Phase → ℕ
rank detecting_format = 1
rank packet_body = 1
rank global_header = 0
rank packet_header = 0
rank ng_block = 0

pub rank-le : (p : Phase) → rank p ≤ 1
rank-le detecting_format = omega arith
rank-le global_header = omega arith
rank-le packet_header = omega arith
rank-le packet_body = omega arith
rank-le ng_block = omega arith

module _ (base64 : List ℕ → String) where
  step_in_shrinks :
      (p : Phase) (c : Control) (b : List ℕ) {c' : Control} {n : ℕ} {es : List Event}
      → c.phase ≡ p
      → step_in base64 p c b ≡ more c' n es
      → (n ≤ length b) × (rank c'.phase < rank p + n) × (c'.errored ≡ c.errored)
  unfolding step_in
  step_in_shrinks detecting_format c b e h = ground (arith, detect_format_moves c b h)
  step_in_shrinks global_header c b e h = ground (arith, parse_global_header_moves c b h)
  step_in_shrinks packet_header c b e h = ground (arith, parse_packet_header_moves c b h)
  step_in_shrinks packet_body c b e h = ground (arith, parse_packet_body_moves c b base64 h)
  step_in_shrinks ng_block c b e h = ground (arith, parse_ng_block-Moves base64 c b h)

  pub step_shrinks :
      (c : Control) (b : List ℕ) {c' : Control} {n : ℕ} {es : List Event}
      → step base64 c b ≡ more c' n es
      → (n ≤ length b) × (rank c'.phase < rank c.phase + n) × (c'.errored ≡ c.errored)
  unfolding step
  step_shrinks c b h = step_in_shrinks c.phase c b refl h

  -- A round of the loop that goes on leaves less to do.
  pub step_measure :
      (c : Control) (b : List ℕ) (fuel : ℕ) {c' : Control} {n : ℕ} {es : List Event}
      → step base64 c b ≡ more c' n es
      → rank c.phase + length b < suc fuel
      → rank c'.phase + length (drop n b) < fuel
  step_measure c b fuel {c'} {n} h m = omega (arith, step_shrinks c b h, length-drop n b)

  emit_before-ne-spins : (es : List Event) (w : Written) → w ≢ spins → emit_before es w ≢ spins
  unfolding emit_before
  emit_before-ne-spins es (returns p fs) h e = cc
  emit_before-ne-spins es (throws p fs) h e = cc
  emit_before-ne-spins es spins h e = h refl

  -- One round of the loop, by what `state()` does.
  module _ (fuel : ℕ) (c : Control) (b : List ℕ) {c' : Control} where
    pub run_more :
        {n : ℕ} {es : List Event}
        → step base64 c b ≡ more c' n es
        → run base64 (suc fuel) c b ≡ emit_before es (run base64 fuel c' (drop n b))
    unfolding run
    run_more e = rw (e, run)

    pub run_wait :
        step base64 c b ≡ wait c'
        → run base64 (suc fuel) c b ≡ returns (record { control = c'; buffer = b }) []
    unfolding run
    run_wait e = rw (e, run)

    pub run_fail :
        {x : ParseError}
        → step base64 c b ≡ fail c' x
        → run base64 (suc fuel) c b
          ≡ returns
              (record { control = record c' { errored = true }; buffer = b })
              (on_error x ∷ end_events)
    unfolding run
    run_fail e = rw (e, run)

    pub run_fault :
        {es : List Event}
        → step base64 c b ≡ fault c' es
        → run base64 (suc fuel) c b ≡ throws (record { control = c'; buffer = b }) es
    unfolding run
    run_fault e = rw (e, run)

  pub run-ne-spins :
      (fuel : ℕ) (c : Control) (b : List ℕ)
      → rank c.phase + length b < fuel
      → run base64 fuel c b ≢ spins
  run-ne-spins zero c b m = absurd (omega arith)
  run-ne-spins (suc fuel) c b m = go (step base64 c b) refl (run-ne-spins fuel)
    where
      go :
          (r : Step)
          → step base64 c b ≡ r
          → ((c' : Control) (b' : List ℕ)
              → rank c'.phase + length b' < fuel
              → run base64 fuel c' b' ≢ spins)
          → run base64 (suc fuel) c b ≢ spins
      go (more c' n es) e ih =
          rw (run_more fuel c b e)
            (emit_before-ne-spins es _ (ih c' (drop n b) (step_measure c b fuel e m)))
      go (wait c') e ih = λ h. cc (run_wait fuel c b e)
      go (fail c' x) e ih = λ h. cc (run_fail fuel c b e)
      go (fault c' es) e ih = λ h. cc (run_fault fuel c b e)

  -- The fuel does not matter, if there is enough.
  pub run_fuel :
      (fuel fuel' : ℕ) (c : Control) (b : List ℕ)
      → rank c.phase + length b < fuel
      → rank c.phase + length b < fuel'
      → run base64 fuel c b ≡ run base64 fuel' c b
  run_fuel zero fuel' c b m m' = absurd (omega arith)
  run_fuel (suc fuel) zero c b m m' = absurd (omega arith)
  run_fuel (suc fuel) (suc fuel') c b m m' = go (step base64 c b) refl (run_fuel fuel fuel')
    where
      go :
          (r : Step)
          → step base64 c b ≡ r
          → ((c' : Control) (b' : List ℕ)
              → rank c'.phase + length b' < fuel
              → rank c'.phase + length b' < fuel'
              → run base64 fuel c' b' ≡ run base64 fuel' c' b')
          → run base64 (suc fuel) c b ≡ run base64 (suc fuel') c b
      go (more c' n es) e ih =
          rw (run_more fuel c b e, run_more fuel' c b e)
            (ap (emit_before es)
              (ih c' (drop n b) (step_measure c b fuel e m) (step_measure c b fuel' e m')))
      go (wait c') e ih = cc (run_wait fuel c b e, run_wait fuel' c b e)
      go (fail c' x) e ih = cc (run_fail fuel c b e, run_fail fuel' c b e)
      go (fault c' es) e ih = cc (run_fault fuel c b e, run_fault fuel' c b e)

  -- The loop of `write` ends on every parser and every chunk.
  pub write-ne-spins : (p : Parser) (chunk : List ℕ) → write base64 p chunk ≢ spins
  unfolding write
  write-ne-spins p chunk = ground (
    arith,
    rank-le p.control.phase,
    run-ne-spins (suc (suc (length (p.buffer ++ chunk)))) p.control (p.buffer ++ chunk),
  )
