-- ===== src/Pcap/Retime/Checked.antt =====
-- PcapEdit.ts, makeRetimer: what its checks let through.
use netkitty.Base.{ℕ, ◌+◌, ◌≤◌, ◌≡◌, ◌⊎◌, refl, Bool, true, false}
use netkitty.Base.{Option, none, some, Option-cases, inl, inr, leb, leb→le, if◌then◌else◌, arith}
use mathlib.Core.Path.{subst}
use native.Mathlib.Nat.{div-add-mod}
use netkitty.Base.Int.{ℤ, pos, negsuc}
use netkitty.Pcap.Edit.{
  FrameRange, Number, RetimeEdit, and_then-ok, err, finite, not_finite, ok, range_to_not_integer,
  range_with_set_start, throw_if-ok,
}
use netkitty.Pcap.Retime.{
  Retimer, Window, check_bounds, check_from, check_range, check_to, is_set_start, make_retimer,
  mode_of, positive_integer, whole_fraction,
}

whole_fraction-pos : (z : ℤ) (d n : ℕ) → whole_fraction z d ≡ some n → 1 ≤ n
unfolding whole_fraction
whole_fraction-pos (negsuc m) d n h = cc
whole_fraction-pos (pos m) d n h = ground (arith, div-add-mod m (d + 1))

positive_integer-pos : (x : Number) (n : ℕ) → positive_integer x ≡ some n → 1 ≤ n
unfolding positive_integer
positive_integer-pos not_finite n h = cc
positive_integer-pos (finite x) n h = whole_fraction-pos x.top x.below n h

-- A window that starts at 1 or later, and does not end before it starts.
unfoldable pub IsWindow : Window → Type 0
IsWindow w = (1 ≤ w.from) × ends w.from w.to
  where
    ends : ℕ → Option ℕ → Type 0
    ends from none = Unit
    ends from (some to) = from ≤ to

bounds-IsWindow :
    (from to : ℕ) (b : Bool) (w : Window)
    → 1 ≤ from
    → leb from to ≡ b
    → (if b then ok (record { from = from; to = some to }) else err range_to_not_integer) ≡ ok w
    → IsWindow w
unfolding IsWindow
bounds-IsWindow from to true w h b e =
    let same : w ≡ record { from = from; to = some to } = cc in rw same (h, leb→le from to b)
bounds-IsWindow from to false w h b e = cc

check_to-IsWindow :
    (from : ℕ) (to : Option Number) (w : Window) → 1 ≤ from → check_to from to ≡ ok w → IsWindow w
unfolding check_to IsWindow check_bounds
check_to-IsWindow from none w h e =
    let same : w ≡ record { from = from; to = none } = cc in rw same (h, tt)
check_to-IsWindow from (some x) w h e = elim (Option-cases (positive_integer x)) [
  | inl n ↦ cc (e, n)
  | inr (to, s) ↦
      bounds-IsWindow from to (leb from to) w h refl (subst (λ o. check_bounds from o ≡ ok w) s e)
]

check_from-IsWindow :
    (r : FrameRange) (from : Option ℕ) (w : Window)
    → ((n : ℕ) → from ≡ some n → 1 ≤ n)
    → check_from r from ≡ ok w
    → IsWindow w
unfolding check_from
check_from-IsWindow r none w h e = cc
check_from-IsWindow r (some from) w h e = check_to-IsWindow from r.to w (h from refl) e

check_range-IsWindow :
    (edit : RetimeEdit) (range : Option FrameRange) (w : Window)
    → check_range edit range ≡ ok w
    → IsWindow w × ((range ≡ none) ⊎ (is_set_start edit ≡ false))
unfolding check_range IsWindow
check_range-IsWindow edit none w e =
    let same : w ≡ record { from = 1; to = none } = cc in (rw same (omega arith, tt), inl refl)
check_range-IsWindow edit (some r) w e =
    let checked = and_then-ok (check_from r (positive_integer r.from)) _ w e in
    let allowed = throw_if-ok (is_set_start edit) range_with_set_start (ok checked.0) w checked.2 in
    let same : w ≡ checked.0 = cc allowed.1 in
    (
      rw same (
          check_from-IsWindow r (positive_integer r.from) checked.0 (positive_integer-pos r.from)
            checked.1),
      inr allowed.0,
    )

-- A retimer that is made has a window from index 1 or later on, which does not end before it
-- starts, and a range is never given with the edit setStart.
pub make_retimer-IsWindow :
    (edit : RetimeEdit) (range : Option FrameRange) (r : Retimer)
    → make_retimer edit range ≡ ok r
    → IsWindow r.window × ((range ≡ none) ⊎ (is_set_start edit ≡ false))
unfolding make_retimer
make_retimer-IsWindow edit range r e =
    let checked = and_then-ok (check_range edit range) _ r e in
    let moded = and_then-ok (mode_of edit) _ r checked.2 in
    let same : r ≡ record { mode = moded.0; window = checked.0 } = cc moded.2 in
    rw same (check_range-IsWindow edit range checked.0 checked.1)
