-- ===== src/Pcap/Run/Counts.antt =====
-- PcapEdit.ts, run: the counts of its result and the number of its reports.
use netkitty.Base.{ℕ, ◌+◌, ◌*◌, ◌≤◌, ◌≡◌, refl, ap, ◌∙◌, Bool, true, false, none, some, List}
use netkitty.Base.{[], ◌∷◌, ◌++◌, length, length-append, ltb, Option, Bool-cases, inl}
use netkitty.Base.{inr, arith}
use netkitty.PcapCore.Format.{PacketInfo}
use netkitty.Pcap.Edit.{Context, EditError, Result, Result-cases, err, ok}
use netkitty.Pcap.Run.{
  Job, Progress, RewriteResult, emit_progress, finish, handle, handle_all, percent, produced,
  run_over, write_outs,
}

ltb-false→le : {a b : ℕ} → ltb a b ≡ false → b ≤ a
ltb-false→le h = ground arith

percent_le : (processed total : ℕ) → percent processed total ≤ 100
unfolding percent
percent_le processed total = ground arith

-- One report more, after a gap of a step.
more_reports :
    (step : ℕ) (xs : List Progress) (x : Progress) (low next : ℕ)
    → length xs * step ≤ low
    → low + step ≤ next
    → length (xs ++ (x ∷ [])) * step ≤ next
more_reports step xs x low next h k =
    let grown : length (xs ++ (x ∷ [])) ≡ length xs + 1 =
      omega (arith, length-append xs (x ∷ [])) in
    rw grown (omega arith)

module _ {S : Type 0} (step : ℕ) where
  -- What was written is counted, and each report takes `step` percent at least.
  record IsFair (j : Job S) : Type 0 where
    written : j.written ≡ length j.output
    spaced : length j.reports * step ≤ j.next_percent
    bounded : j.next_percent ≤ 101

  emit_progress-IsFair :
      (listens : Bool) (total processed : ℕ) (j : Job S)
      → IsFair j
      → IsFair (emit_progress listens step total processed false j)
        × ((emit_progress listens step total processed false j).read ≡ j.read)
  unfolding emit_progress
  emit_progress-IsFair false total processed j f = (f, refl)
  emit_progress-IsFair true total processed j f =
      elim (Bool-cases (ltb (percent processed total + 1) (j.next_percent + step))) [
        | inl b ↦ rw b (f, refl)
        | inr n ↦ rw n (
          record {
            written = f.written;
            spaced =
                more_reports step j.reports _ j.next_percent (percent processed total + 1) f.spaced
                  (ltb-false→le n);
            bounded = omega (arith, percent_le processed total);
          },
          refl,
        )
      ]

  produced-IsFair :
      (produce : S → List ℕ → PacketInfo → Result (List Context) × S) (listens : Bool) (total : ℕ)
      (r : Result (List Context)) (s : S) (info : PacketInfo) (j k : Job S)
      → IsFair j
      → produced produce listens step total r s info j ≡ ok k
      → IsFair k × (k.read ≡ j.read)
  unfolding produced write_outs
  produced-IsFair produce listens total (err x) s info j k f e = cc
  produced-IsFair produce listens total (ok outs) s info j k f e =
      let before : Job S = write_outs outs (record j { handler = s }) in
      let fair : IsFair before = record {
        written = omega (arith, f.written, length-append j.output outs);
        spaced = f.spaced;
        bounded = f.bounded;
      } in
      let same : k ≡ emit_progress listens step total (info.offset + info.length) false before =
        cc in
      rw same (emit_progress-IsFair listens total (info.offset + info.length) before fair)

  module _ (produce : S → List ℕ → PacketInfo → Result (List Context) × S) (listens : Bool)
      (total : ℕ) where
    handle-IsFair :
        (frame : List ℕ) (info : PacketInfo) (j k : Job S)
        → IsFair j
        → handle produce listens step total frame info j ≡ ok k
        → IsFair k × (k.read ≡ j.read + 1)
    unfolding handle
    handle-IsFair frame info j k f e =
        let done = produce j.handler frame info in
        let started : Job S = record j { read = j.read + 1 } in
        produced-IsFair produce listens total done.0 done.1 info started k
          (record { written = f.written; spaced = f.spaced; bounded = f.bounded }) e

    handle_all-IsFair :
        (frames : List (List ℕ × PacketInfo)) (j : Job S)
        → IsFair j
        → IsFair (handle_all produce listens step total frames j).0
          × ((handle_all produce listens step total frames j).1 ≡ none
              → (handle_all produce listens step total frames j).0.read ≡ j.read + length frames)
    unfolding handle_all
    handle_all-IsFair [] j f = (f, λ e. omega arith)
    handle_all-IsFair ((frame, info) ∷ rest) j f =
        elim (Result-cases (handle produce listens step total frame info j)) [
          | inl (k, e) ↦
              let next = handle-IsFair frame info j k f e in
              let done = handle_all-IsFair rest k next.0 in
              rw (e, handle_all) (done.0, λ n. omega (arith, done.1 n, next.1))
          | inr (x, e) ↦
              rw (e, handle_all)
                (record { written = f.written; spaced = f.spaced; bounded = f.bounded }, λ n. cc n)
        ]

    abbrev fresh : S → Job S
    fresh s = record {
      handler = s;
      read = 0;
      written = 0;
      next_percent = 0;
      output = [];
      reports = [];
    }

    fresh-IsFair : (s : S) → IsFair (fresh s)
    fresh-IsFair s = record { written = refl; spaced = omega arith; bounded = omega arith }

    -- The last report, which is forced, changes no count.
    forced :
        (listens : Bool) (j : Job S)
        → IsFair j
        → ((emit_progress listens step total total true j).read ≡ j.read)
          × ((emit_progress listens step total total true j).written ≡ j.written)
          × ((emit_progress listens step total total true j).output ≡ j.output)
          × (length (emit_progress listens step total total true j).reports * step ≤ 101 + step)
    unfolding emit_progress
    forced false j f = (refl, refl, refl, omega (arith, f.spaced, f.bounded))
    forced true j f = (
      refl,
      refl,
      refl,
      more_reports step j.reports _ 101 (101 + step) (omega (arith, f.spaced, f.bounded))
          (omega arith),
    )

    finish-ok :
        (j : Job S) (x : Option EditError) (r : RewriteResult)
        → IsFair j
        → (finish produce listens step total (j, x)).result ≡ ok r
        → (x ≡ none)
          × (r.read ≡ j.read)
          × (r.written ≡ j.written)
          × ((finish produce listens step total (j, x)).output ≡ some j.output)
    unfolding finish
    finish-ok j none r f e =
        let same = forced listens j f in
        let last = emit_progress listens step total total true j in
        let counts : r ≡ record { read = last.read; written = last.written } = cc in
        (
          refl,
          ap (λ c. c.read) counts ∙ same.0,
          ap (λ c. c.written) counts ∙ same.1,
          ap some same.2,
        )
    finish-ok j (some x) r f e = cc

    -- A run that succeeds has read all frames of the input, and its count of written packets is
    -- the number of packets in the output.
    pub run_over-counts :
        (s : S) (frames : List (List ℕ × PacketInfo)) (r : RewriteResult)
        → (run_over produce listens step total s frames).result ≡ ok r
        → (r.read ≡ length frames)
          × ((out : List Context) × ((run_over produce listens step total s frames).output
                ≡ some out)
              × (r.written ≡ length out))
    unfolding run_over
    run_over-counts s frames r e =
        let done = handle_all-IsFair frames (fresh s) (fresh-IsFair s) in
        let went = handle_all produce listens step total frames (fresh s) in
        let ended = finish-ok went.0 went.1 r done.0 e in
        (
          omega (arith, done.1 ended.0, ended.1),
          (went.0.output, ended.3, omega (arith, done.0.written, ended.2)),
        )

    finish-reports :
        (j : Job S) (x : Option EditError)
        → IsFair j
        → length (finish produce listens step total (j, x)).reports * step ≤ 101 + step
    unfolding finish
    finish-reports j none f = (forced listens j f).3
    finish-reports j (some x) f = omega (arith, f.spaced, f.bounded)

    -- A run over any input makes at most (101 + step) / step reports.
    pub run_over-reports :
        (s : S) (frames : List (List ℕ × PacketInfo))
        → length (run_over produce listens step total s frames).reports * step ≤ 101 + step
    unfolding run_over
    run_over-reports s frames =
        let done = handle_all-IsFair frames (fresh s) (fresh-IsFair s) in
        let went = handle_all produce listens step total frames (fresh s) in
        finish-reports went.0 went.1 done.0
