-- ===== src/Analysis/Scans/Rows.antt =====
-- BuiltinScans.ts: the records that the scans go over.
use netkitty.Base.{ℕ, zero, suc, ◌+◌, ◌-◌, ◌≡◌, refl, ap, ◌∙◌, arith, some, ◌∷◌}
use netkitty.Base.{tabulate, tabulate_eq}
use netkitty.Analysis.Store
use netkitty.Analysis.Store.{Store, FrameIndexRecord, record_at}
use netkitty.Analysis.Store.Rows.{rows}
use netkitty.Analysis.Scans.{keep, records_loop, records}

get_slot :
    (s : Store) (k n : ℕ) → k + suc n ≡ s.size → Store.get s (s.base + k) ≡ some (record_at s k)
unfolding Store.get
get_slot s k n h = let slot : s.base + k - s.base ≡ k = omega arith in rw slot (ground arith)

records_loop-tabulate :
    (s : Store) (n k : ℕ)
    → k + n ≡ s.size
    → records_loop s n (s.base + k) ≡ tabulate n (λ i. record_at s (k + i))
unfolding records_loop keep
records_loop-tabulate s zero k h = refl
records_loop-tabulate s (suc n) k h =
    let next : s.base + k + 1 ≡ s.base + (k + 1) = omega arith in
    let here : k ≡ k + 0 = omega arith in
    rw (get_slot s k n h, next)
      (ap (λ j. record_at s j ∷ records_loop s n (s.base + (k + 1))) here
        ∙ ap (λ l. record_at s (k + 0) ∷ l)
            (records_loop-tabulate s n (k + 1) (omega arith)
              ∙ tabulate_eq n (λ i. record_at s (k + 1 + i)) (λ i. record_at s (k + suc i))
                  (λ i l. ap (record_at s) (omega arith))))

-- The scans go over all the records that the store holds, oldest first, however many were evicted.
pub records-rows : (s : Store) → records s ≡ rows s
unfolding records Store.count Store.first_index
records-rows s =
    let first : s.base ≡ s.base + 0 = omega arith in
    ap (records_loop s s.size) first
    ∙ records_loop-tabulate s s.size 0 (omega arith)
    ∙ tabulate_eq s.size (λ i. record_at s (0 + i)) (record_at s)
        (λ i l. ap (record_at s) (omega arith))
