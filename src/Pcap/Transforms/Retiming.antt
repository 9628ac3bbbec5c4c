-- ===== src/Pcap/Transforms/Retiming.antt =====
-- PcapEdit.ts: the retiming transforms against makeRetimer without a range.
use netkitty.Base.{
  ℕ, ◌+◌, ◌*◌, ◌≤◌, ◌≡◌, ◌==◌, false, refl, ap, Option, none, some, List, [], ◌∷◌, arith,
}
use netkitty.Base.{All, le→leb, le→ltb-false}
use netkitty.Base.Int.{ℤ, pos, ◌+ℤ◌, ◌*ℤ◌, clamp_zero}
use netkitty.PcapCore.Format.{PacketInfo}
use netkitty.Pcap.Edit.{Context, context_of, set_micros, to_micros}
use netkitty.Pcap.Retime.{
  Clock, Mode, Window, anchored, by_interval, by_scale, by_shift, by_start, fresh_clock, in_window,
  or_set, retime_all, retime_mode, retime_packet, windowed, within, scaled,
}
use netkitty.Pcap.Transforms.{
  Transform, chain, chain_all, chain_loop, constant_interval, scale_time, set_start_time,
  shift_time, transform,
}

-- The transform of the same edit.
unfoldable pub transform_of : Mode → Transform
transform_of (by_scale n d) = scale_time (record { top = pos n; below = d }) none
transform_of (by_interval n) = constant_interval n 0 0
transform_of (by_shift z) = shift_time (pos 0) z
transform_of (by_start start) = set_start_time start none

-- The closure's variables agree with the clock's.
data Agree : Mode → Clock → Transform → Type 0 where
  scaling :
      {n d : ℕ} {k : Clock} (base : Option ℕ)
      → k.anchor ≡ base
      → Agree (by_scale n d) k (scale_time (record { top = pos n; below = d }) base)
  unspaced :
      {n start : ℕ} {k : Clock}
      → k.anchor ≡ none
      → Agree (by_interval n) k (constant_interval n 0 start)
  spacing :
      {n start : ℕ} {k : Clock} (i : ℕ)
      → k.anchor ≡ some start
      → k.in_range_index ≡ i + 1
      → Agree (by_interval n) k (constant_interval n (i + 1) start)
  shifting : {z : ℤ} {k : Clock} → Agree (by_shift z) k (shift_time (pos 0) z)
  starting :
      {start : ℤ} {k : Clock} (base : Option ℕ)
      → k.base ≡ base
      → Agree (by_start start) k (set_start_time start base)

abbrev whole_file : Window
whole_file = record { from = 1; to = none }

windowed_whole :
    (target : ℕ → ℕ → ℤ) (k : Clock) (c : Context) (i t : ℕ)
    → 1 ≤ i
    → windowed target whole_file k c i t ≡ in_window target k c t
unfolding windowed within
windowed_whole target k c i t h = let b = le→ltb-false i 1 h in rw b refl

set_micros_clamped : (c : Context) (z : ℤ) → set_micros c (pos (clamp_zero z)) ≡ set_micros c z
unfolding set_micros
set_micros_clamped c z = refl

step_agrees :
    (m : Mode) (k : Clock) (t : Transform) (c : Context) (info : PacketInfo)
    → 1 ≤ info.index
    → Agree m k t
    → ((retime_mode m whole_file k c info.index (to_micros c)).0 ≡ (transform t c info).0)
      × Agree m (retime_mode m whole_file k c info.index (to_micros c)).1 (transform t c info).1
unfolding retime_mode transform in_window anchored or_set ◌+ℤ◌ ◌*ℤ◌
step_agrees _ k _ c info h (scaling {n} {d} none e) =
    let t = to_micros c in
    let whole = windowed_whole (λ a i. scaled (pos n) d a t) k c info.index t h in
    rw (whole, e) (set_micros_clamped c (scaled (pos n) d t t), scaling (some t) refl)
step_agrees _ k _ c info h (scaling {n} {d} (some a) e) =
    let t = to_micros c in
    let whole = windowed_whole (λ a i. scaled (pos n) d a t) k c info.index t h in
    rw (whole, e) (set_micros_clamped c (scaled (pos n) d a t), scaling (some a) refl)
step_agrees _ k _ c info h (unspaced {n} {start} e) =
    let t = to_micros c in
    let whole = windowed_whole (λ a i. pos (a + i * n)) k c info.index t h in
    rw (whole, e) (refl, spacing 0 refl refl)
step_agrees _ k _ c info h (spacing {n} {start} i e ei) =
    let t = to_micros c in
    let whole = windowed_whole (λ a i. pos (a + i * n)) k c info.index t h in
    let later : ((i + 1) == 0) ≡ false = ground arith in
    rw (whole, e, ei, later) (refl, spacing (i + 1) refl refl)
step_agrees _ k _ c info h (shifting {z}) =
    let b = le→leb 1 info.index h in
    let same : to_micros c ≡ to_micros c + 0 = omega arith in
    rw b (ap (λ u. set_micros c (pos u +ℤ z)) same, shifting)
step_agrees _ k _ c info h (starting base e) =
    rw e (refl, starting (some (or_set base (to_micros c))) refl)

-- The frames through the transform as through the retimer, from agreeing states.
runs_alike :
    (m : Mode) (frames : List (List ℕ × PacketInfo)) (k : Clock) (t : Transform)
    → All (λ p. 1 ≤ p.1.index) frames
    → Agree m k t
    → retime_all (record { mode = m; window = whole_file }) k frames ≡ chain_all (t ∷ []) frames
unfolding retime_all retime_packet chain_all chain chain_loop
runs_alike m [] k t hs a = refl
runs_alike m ((frame, info) ∷ rest) k t (h, hs) a =
    let done = step_agrees m k t (context_of frame info) info h a in
    rw (done.0, runs_alike m rest _ _ hs done.1) refl

fresh_agrees : (m : Mode) → Agree m fresh_clock (transform_of m)
unfolding transform_of
fresh_agrees (by_scale n d) = scaling none refl
fresh_agrees (by_interval n) = unspaced refl
fresh_agrees (by_shift z) = shifting
fresh_agrees (by_start start) = starting none refl

-- A capture whose frames have indices from 1 on is the same, packet for packet, when a retimer
-- without a range and when the chain of the edit's one transform takes it.
pub retime_all-chain_all :
    (m : Mode) (frames : List (List ℕ × PacketInfo))
    → All (λ p. 1 ≤ p.1.index) frames
    → retime_all (record { mode = m; window = record { from = 1; to = none } }) fresh_clock frames
      ≡ chain_all (transform_of m ∷ []) frames
retime_all-chain_all m frames h =
    runs_alike m frames fresh_clock (transform_of m) h (fresh_agrees m)
