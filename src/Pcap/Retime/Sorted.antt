-- ===== src/Pcap/Retime/Sorted.antt =====
-- PcapEdit.ts, makeRetimer: edits that change the gaps keep a capture in order.
use netkitty.Base.{Bool, true, false, Option, List, [], ◌∷◌}
use netkitty.Base.{ℕ, ◌+◌, ◌-◌, ◌*◌, ◌/◌, ◌≤◌, ◌≡◌, refl, le→leb, arith, ◌∙◌}
use netkitty.Base.Int.{ℤ, clamp_zero, pos, negsuc, ◌+ℤ◌, ◌*ℤ◌, floor_div}
use native.Mathlib.Nat.{mul-le-mul_right, le-div_iff_mul-le, div-mul-le_self, div-eq_of_lt-le}
use netkitty.PcapCore.Format.{PacketInfo}
use netkitty.Pcap.Edit.{
  Context, FrameRange, RetimeEdit, and_then, and_then-ok, constant_interval, context_of, finite,
  floor_micros, not_finite, ok, scale, set_start, shift, to_micros,
}
use netkitty.Pcap.Retime.{
  Clock, Mode, Retimer, Window, by_interval, by_scale, check_range, fresh_clock, make_retimer,
  mode_of, scale_mode, retime_all, retime_mode, retime_packet, scaled, windowed,
}
use netkitty.Pcap.Retime.Order.{Stage, before, step, StepOf}

div_mono : (x y k : ℕ) → x ≤ y → x / (k + 1) ≤ y / (k + 1)
div_mono x y k h = (le-div_iff_mul-le (omega arith)).1 (omega (arith, h, div-mul-le_self x (k + 1)))

-- The numerator over 2 (d + 1), whose floor is the rounded time.
scaled_value :
    (n d a t : ℕ)
    → a ≤ t
    → clamp_zero (scaled (pos n) d a t)
      ≡ (2 * (a * (d + 1) + (t - a) * n) + (d + 1)) / (2 * d + 1 + 1)
unfolding scaled ◌+ℤ◌ ◌*ℤ◌ floor_div
scaled_value n d a t h = let e = le→leb a t h in rw e refl

scaled_start : (n d t : ℕ) → clamp_zero (scaled (pos n) d t t) ≡ t
scaled_start n d t =
    let same : t - t ≡ 0 = omega arith in
    scaled_value n d t t (omega arith)
    ∙ div-eq_of_lt-le (2 * d + 1 + 1) (rw same (omega arith)) (rw same (omega arith))

scaled_grow :
    (n d a t u : ℕ)
    → a ≤ t
    → t ≤ u
    → clamp_zero (scaled (pos n) d a t) ≤ clamp_zero (scaled (pos n) d a u)
scaled_grow n d a t u h k =
    let more : (t - a) * n ≤ (u - a) * n = mul-le-mul_right n (omega arith) in
    rw (scaled_value n d a t h, scaled_value n d a u (omega arith))
      (div_mono _ _ (2 * d + 1) (omega arith))

-- Frames in the order of time, none before `t`, with growing indices, all from `i` on.
unfoldable pub Ordered : ℕ → ℕ → List (List ℕ × PacketInfo) → Type 0
Ordered t i [] = Unit
Ordered t i ((frame, info) ∷ rest) =
    (t ≤ to_micros (context_of frame info))
    × (i ≤ info.index)
    × Ordered (to_micros (context_of frame info)) (info.index + 1) rest

-- Packets in the order of time, none before `t`.
unfoldable pub Ascending : ℕ → List Context → Type 0
Ascending t [] = Unit
Ascending t (c ∷ rest) = (t ≤ to_micros c) × Ascending (to_micros c) rest

module _ (w : Window) where
  windowed_all :
      (target : ℕ → ℕ → ℕ → ℤ)
      → ((t : ℕ) → clamp_zero (target t t 0) ≡ t)
      → ((a t u j : ℕ)
          → a ≤ t
          → t ≤ u
          → clamp_zero (target t a j) ≤ clamp_zero (target u a (j + 1)))
      → (m : Mode)
      → ((k : Clock) (c : Context) (i t : ℕ)
          → retime_mode m w k c i t ≡ windowed (target t) w k c i t)
      → (frames : List (List ℕ × PacketInfo)) (low t i j : ℕ) (k : Clock) → Stage target w low t i k
      → i ≤ j
      → Ordered t j frames
      → Ascending low (retime_all (record { mode = m; window = w }) k frames)
  unfolding retime_all retime_packet Ordered Ascending StepOf
  windowed_all target start grow m same [] low t i j k st hij o = tt
  windowed_all target start grow m same ((frame, info) ∷ rest) low t i j k st hij (ht, hi, ho) =
      let c = context_of frame info in
      let done =
        step target w start grow low t i (to_micros c) info.index k c refl st (omega arith) ht in
      rw (same k c info.index (to_micros c)) (
        done.0,
        windowed_all target start grow m same rest _ (to_micros c) info.index (info.index + 1) _
            done.1 (omega arith) ho,
      )

  -- From the start, where no frame has been taken.
  windowed_sorted :
      (target : ℕ → ℕ → ℕ → ℤ)
      → ((t : ℕ) → clamp_zero (target t t 0) ≡ t)
      → ((a t u j : ℕ)
          → a ≤ t
          → t ≤ u
          → clamp_zero (target t a j) ≤ clamp_zero (target u a (j + 1)))
      → (m : Mode)
      → ((k : Clock) (c : Context) (i t : ℕ)
          → retime_mode m w k c i t ≡ windowed (target t) w k c i t)
      → (frames : List (List ℕ × PacketInfo)) → Ordered 0 0 frames
      → Ascending 0 (retime_all (record { mode = m; window = w }) fresh_clock frames)
  windowed_sorted target start grow m same frames o =
      windowed_all target start grow m same frames 0 0 0 0 fresh_clock
        (before refl refl (omega arith)) (omega arith) o

scale_sorted :
    (n d : ℕ) (w : Window) (frames : List (List ℕ × PacketInfo))
    → Ordered 0 0 frames
    → Ascending 0 (retime_all (record { mode = by_scale n d; window = w }) fresh_clock frames)
unfolding retime_mode
scale_sorted n d w frames o =
    windowed_sorted w (λ t a i. scaled (pos n) d a t) (scaled_start n d)
      (λ a t u j. scaled_grow n d a t u) (by_scale n d) (λ k c i t. refl) frames o

interval_grow : (n a j : ℕ) → a + j * n ≤ a + (j + 1) * n
interval_grow n a j = omega arith

interval_sorted :
    (n : ℕ) (w : Window) (frames : List (List ℕ × PacketInfo))
    → Ordered 0 0 frames
    → Ascending 0 (retime_all (record { mode = by_interval n; window = w }) fresh_clock frames)
unfolding retime_mode
interval_sorted n w frames o =
    windowed_sorted w (λ t a i. pos (a + i * n)) (λ t. omega arith)
      (λ a t u j h k. interval_grow n a j) (by_interval n) (λ k c i t. refl) frames o

-- The edits that multiply or replace the gaps.
unfoldable pub edits_gaps : RetimeEdit → Bool
edits_gaps (scale factor) = true
edits_gaps (constant_interval interval unit) = true
edits_gaps (shift delta unit) = false
edits_gaps (set_start seconds microseconds) = false

factor_sorted :
    (top : ℤ) (d : ℕ) (m : Mode) (w : Window) (frames : List (List ℕ × PacketInfo))
    → scale_mode (finite (record { top = top; below = d })) ≡ ok m
    → Ordered 0 0 frames
    → Ascending 0 (retime_all (record { mode = m; window = w }) fresh_clock frames)
unfolding scale_mode
factor_sorted (pos n) d m w frames e o =
    let same : m ≡ by_scale n d = cc in rw same (scale_sorted n d w frames o)
factor_sorted (negsuc n) d m w frames e o = cc

mode_sorted :
    (edit : RetimeEdit) (m : Mode) (w : Window) (frames : List (List ℕ × PacketInfo))
    → edits_gaps edit ≡ true
    → mode_of edit ≡ ok m
    → Ordered 0 0 frames
    → Ascending 0 (retime_all (record { mode = m; window = w }) fresh_clock frames)
unfolding edits_gaps mode_of and_then scale_mode floor_micros
mode_sorted (scale not_finite) m w frames g e o = cc
mode_sorted (scale (finite x)) m w frames g e o = factor_sorted x.top x.below m w frames e o
mode_sorted (constant_interval interval unit) m w frames g e o =
    let went = and_then-ok (floor_micros interval unit) (λ n. ok (by_interval n)) m e in
    let same : m ≡ by_interval went.0 = cc went.2 in rw same (interval_sorted went.0 w frames o)
mode_sorted (shift delta unit) m w frames g e o = cc
mode_sorted (set_start seconds microseconds) m w frames g e o = cc

-- A retimer for a scale or for a constant interval, with any window, sends the frames of a capture
-- in the order of time when they come in that order with growing indices.
pub retime_all-Ascending :
    (edit : RetimeEdit) (range : Option FrameRange) (r : Retimer)
    (frames : List (List ℕ × PacketInfo))
    → edits_gaps edit ≡ true
    → make_retimer edit range ≡ ok r
    → Ordered 0 0 frames
    → Ascending 0 (retime_all r fresh_clock frames)
unfolding make_retimer and_then
retime_all-Ascending edit range r frames g e o =
    let checked = and_then-ok (check_range edit range) _ r e in
    let moded = and_then-ok (mode_of edit) _ r checked.2 in
    let same : r ≡ record { mode = moded.0; window = checked.0 } = cc moded.2 in
    rw same (mode_sorted edit moded.0 checked.0 frames g moded.1 o)
