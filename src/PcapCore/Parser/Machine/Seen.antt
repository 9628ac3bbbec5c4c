-- ===== src/PcapCore/Parser/Machine/Seen.antt =====
-- What can be seen of a parser, and what a call of `state` does with more bytes behind its buffer.
use netkitty.Base.{ℕ, ◌≡◌, refl, sym, ap, ◌∙◌, arith}
use netkitty.Base.{true, List, [], ◌++◌, append-nil, append_assoc}
use netkitty.Base.{if◌then◌else◌}
use Prim.Native.String.{String}
use netkitty.PcapCore.Format.{
  Control, Event, wait, Phase, detecting_format, global_header, packet_header, packet_body,
  ng_block,
}
use netkitty.PcapCore.Parser.Steady.{Agrees}
use netkitty.PcapCore.Parser.Classic.Steady.{
  detect_format-Agrees, parse_global_header-Agrees, parse_packet_header-Agrees,
  parse_packet_body-Agrees, detect_format_waits, parse_global_header_waits,
  parse_packet_header_waits, parse_packet_body_waits,
}
use netkitty.PcapCore.Parser.Ng.{parse_ng_block}
use netkitty.PcapCore.Parser.Ng.Steady.{parse_ng_block-Agrees}
use netkitty.PcapCore.Parser.Ng.Waits.{parse_ng_block_resumes, parse_ng_block_waits}
use netkitty.PcapCore.Parser.Machine.{
  Parser, Written, returns, throws, spins, emit_before, step_in, step,
}

-- A parser in the error state never looks at its buffer again, so it is left out of what can be
-- seen of the parser.
abbrev pub visible : Parser → Parser
visible p = record p { buffer = if p.control.errored then [] else p.buffer }

unfoldable pub seen : Written → Written
seen (returns p es) = returns (visible p) es
seen (throws p es) = throws (visible p) es
seen spins = spins

pub seen-emit_before :
    (es : List Event) (w : Written) → seen (emit_before es w) ≡ emit_before es (seen w)
unfolding seen emit_before
seen-emit_before es (returns p fs) = refl
seen-emit_before es (throws p fs) = refl
seen-emit_before es spins = refl

pub emit_before-emit_before :
    (es fs : List Event) (w : Written)
    → emit_before es (emit_before fs w) ≡ emit_before (es ++ fs) w
unfolding emit_before
emit_before-emit_before es fs (returns p gs) = ap (returns p) (sym (append_assoc es fs gs))
emit_before-emit_before es fs (throws p gs) = ap (throws p) (sym (append_assoc es fs gs))
emit_before-emit_before es fs spins = refl

module _ (base64 : List ℕ → String) (c : Control) (b x : List ℕ) where
  pub step-Agrees : Agrees (step base64 c b) (step base64 c (b ++ x))
  unfolding step
  step-Agrees = go c.phase
    where
      go : (p : Phase) → Agrees (step_in base64 p c b) (step_in base64 p c (b ++ x))
      go =
          unfold step_in in
          elim [
            | detecting_format ↦ detect_format-Agrees c b x
            | global_header ↦ parse_global_header-Agrees c b x
            | packet_header ↦ parse_packet_header-Agrees c b x
            | packet_body ↦ parse_packet_body-Agrees c b x base64
            | ng_block ↦ parse_ng_block-Agrees base64 b x c
          ]

  pub step_waits :
      {c' : Control}
      → step base64 c b ≡ wait c'
      → (c'.errored ≡ c.errored)
        × (c'.phase ≡ c.phase)
        × (step base64 c' (b ++ x) ≡ step base64 c (b ++ x))
  unfolding step
  step_waits {c'} = go c.phase refl
    where
      unchanged :
          (p : Phase)
          → c.phase ≡ p
          → c' ≡ c
          → (c'.errored ≡ c.errored)
            × (c'.phase ≡ c.phase)
            × (step_in base64 c'.phase c' (b ++ x) ≡ step_in base64 c.phase c (b ++ x))
      unchanged p e h = (
        ap (λ d. d.errored) h,
        ap (λ d. d.phase) h,
        ap (λ d. step_in base64 d.phase d (b ++ x)) h,
      )

      go :
          (p : Phase)
          → c.phase ≡ p
          → step_in base64 p c b ≡ wait c'
          → (c'.errored ≡ c.errored)
            × (c'.phase ≡ c.phase)
            × (step_in base64 c'.phase c' (b ++ x) ≡ step_in base64 c.phase c (b ++ x))
      go detecting_format e h =
          unchanged detecting_format e (detect_format_waits c c' b (unfold step_in in h))
      go global_header e h =
          unchanged global_header e (parse_global_header_waits c c' b (unfold step_in in h))
      go packet_header e h =
          unchanged packet_header e (parse_packet_header_waits c c' b (unfold step_in in h))
      go packet_body e h =
          unchanged packet_body e (parse_packet_body_waits c c' b base64 (unfold step_in in h))
      go ng_block e h =
          let wait_h : parse_ng_block base64 c b ≡ wait c' = unfold step_in in h in
          let (errored, phase) = parse_ng_block_waits base64 c' c b wait_h in
          let again : step_in base64 ng_block c' (b ++ x) ≡ step_in base64 ng_block c (b ++ x) =
            unfold step_in in parse_ng_block_resumes base64 c' c b x wait_h in
          (
            errored,
            phase,
            ap (λ p. step_in base64 p c' (b ++ x)) (phase ∙ e)
                ∙ again
                ∙ ap (λ p. step_in base64 p c (b ++ x)) (sym e),
          )

pub emit_before-nil : (w : Written) → emit_before [] w ≡ w
unfolding emit_before
emit_before-nil (returns p fs) = refl
emit_before-nil (throws p fs) = refl
emit_before-nil spins = refl

pub emit_before-returns :
    (es : List Event) (p : Parser) → emit_before es (returns p []) ≡ returns p es
unfolding emit_before
emit_before-returns es p = ap (returns p) (append-nil es)

pub seen_errored :
    (c : Control) (b b' : List ℕ) (es : List Event)
    → c.errored ≡ true
    → seen (returns (record { control = c; buffer = b' }) es)
      ≡ seen (returns (record { control = c; buffer = b }) es)
unfolding seen
seen_errored c b b' es h = rw h

pub returns_injective :
    {p q : Parser} {es fs : List Event} → returns p es ≡ returns q fs → (p ≡ q) × (es ≡ fs)
returns_injective h = ground arith

pub emit_before-eq-returns :
    (es : List Event) (w : Written) {p : Parser} {fs : List Event}
    → emit_before es w ≡ returns p fs
    → (gs : List Event) × (w ≡ returns p gs) × (fs ≡ es ++ gs)
unfolding emit_before
emit_before-eq-returns es (returns p gs) h = (gs, ground arith, ground arith)
emit_before-eq-returns es (throws p gs) h = cc
emit_before-eq-returns es spins h = cc
