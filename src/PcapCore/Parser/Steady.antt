-- ===== src/PcapCore/Parser/Steady.antt =====
-- What a call of `state()` decides on the bytes at hand it decides on more bytes too.
use netkitty.Base.{◌≡◌, ◌≤◌, Option-cases, inl, inr}
use netkitty.Base.{
  ℕ, List, [], ◌++◌, length, length-append, leb, ltb, if◌then◌else◌, Bool-cases, arith,
}
use netkitty.Base.{leb→le, le→leb, le→ltb-false}
use netkitty.PcapCore.Bytes.{Read, IsStable}
use netkitty.PcapCore.Format.{Control, Event, ParseError, Step, more, wait, fail, fault, on_read}

-- `Agrees r r'`: a step `r` that goes on or fails is also the step `r'`.
pub data Agrees : Step → Step → Type 0 where
  same : (r : Step) → Agrees r r
  waiting : (c : Control) (r' : Step) → Agrees (wait c) r'
  faulting : (c : Control) (es : List Event) (r' : Step) → Agrees (fault c es) r'

pub Agrees-more :
    {r r' : Step} {c : Control} {n : ℕ} {es : List Event}
    → Agrees r r'
    → r ≡ more c n es
    → r' ≡ more c n es
Agrees-more (same _) e = e
Agrees-more (waiting _ _) e = cc
Agrees-more (faulting _ _ _) e = cc

pub Agrees-fail :
    {r r' : Step} {c : Control} {x : ParseError} → Agrees r r' → r ≡ fail c x → r' ≡ fail c x
Agrees-fail (same _) e = e
Agrees-fail (waiting _ _) e = cc
Agrees-fail (faulting _ _ _) e = cc

module _ (b x : List ℕ) where
  pub Agrees-on_read :
      {A : Type 0} (c : Control) (r : Read A) (k k' : A → Step)
      → IsStable r
      → ((a : A) → Agrees (k a) (k' a))
      → Agrees (on_read c (r b) k) (on_read c (r (b ++ x)) k')
  Agrees-on_read c r k k' stable h = elim (Option-cases (r b)) [
    | inl e ↦ rw e (faulting c [] _)
    | inr (a, e) ↦ rw (e, stable b x a e) (h a)
  ]

  -- Waiting for `n` bytes.
  pub Agrees-enough :
      (c : Control) (n : ℕ) (r r' : Step)
      → (n ≤ length b → Agrees r r')
      → Agrees
          (if leb n (length b) then r else wait c)
          (if leb n (length (b ++ x)) then r' else wait c)
  Agrees-enough c n r r' h = elim (Bool-cases (leb n (length b))) [
    | inl e ↦
        rw (e, le→leb n (length (b ++ x)) (omega (arith, leb→le n _ e, length-append b x)))
          (h (leb→le _ _ e))
    | inr e ↦ rw e (waiting c _)
  ]

  pub Agrees-short :
      (c : Control) (n : ℕ) (r r' : Step)
      → (n ≤ length b → Agrees r r')
      → Agrees
          (if ltb (length b) n then wait c else r)
          (if ltb (length (b ++ x)) n then wait c else r')
  Agrees-short c n r r' h = elim (Bool-cases (ltb (length b) n)) [
    | inl e ↦ rw e (waiting c _)
    | inr e ↦
        let enough : n ≤ length b = ground arith in
        rw (e, le→ltb-false (length (b ++ x)) n (omega (arith, length-append b x))) (h enough)
  ]
