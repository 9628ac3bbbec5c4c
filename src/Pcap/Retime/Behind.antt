-- ===== src/Pcap/Retime/Behind.antt =====
-- PcapEdit.ts, makeRetimer: the frames behind the window.
use netkitty.Base.{ℕ, ◌+◌, ◌-◌, ◌*◌, ◌≡◌, refl, ap, ◌∙◌, true, false, List, [], ◌∷◌, map, All}
use netkitty.Base.{le→ltb-false, Bool, ◌≤◌}
use netkitty.Base.Int.{ℤ, pos, clamp_zero, sub_ℕ, ◌+ℤ◌, clamp_zero-shifted}
use netkitty.PcapCore.Format.{PacketInfo}
use netkitty.Pcap.Edit.{Context, context_of, to_micros, to_micros-set_micros}
use netkitty.Pcap.Retime.{
  Clock, Mode, Retimer, Window, anchored, by_interval, by_scale, by_shift, by_start, in_window,
  or_set, retime_all, retime_mode, retime_packet, scaled, windowed, within,
}

-- The modes that send the frames behind the window on.
unfoldable pub moves_rest : Mode → Bool
moves_rest (by_scale n d) = true
moves_rest (by_interval n) = true
moves_rest (by_shift z) = false
moves_rest (by_start start) = false

abbrev pub time : List ℕ × PacketInfo → ℕ
time p = to_micros (context_of p.0 p.1)

-- The index of a frame is in the window, or behind it.
abbrev pub IsInside : Window → List ℕ × PacketInfo → Type 0
IsInside w p = (w.from ≤ p.1.index) × (within w.to p.1.index ≡ true)

abbrev pub IsBehind : Window → List ℕ × PacketInfo → Type 0
IsBehind w p = (w.from ≤ p.1.index) × (within w.to p.1.index ≡ false)

windowed_shift :
    (target : ℕ → ℕ → ℤ) (w : Window) (k : Clock) (c : Context) (i t : ℕ)
    → w.from ≤ i
    → within w.to i ≡ true
    → (windowed target w k c i t).1.shift ≡ sub_ℕ (to_micros (windowed target w k c i t).0) t
unfolding windowed in_window
windowed_shift target w k c i t h b =
    let after = le→ltb-false i w.from h in
    let k1 = anchored k t in
    let sent =
      (to_micros-set_micros c
        (pos (clamp_zero (target (or_set k1.anchor t) k1.in_range_index)))).0 in
    rw (after, b, sent) refl

windowed_behind :
    (target : ℕ → ℕ → ℤ) (w : Window) (k : Clock) (c : Context) (i t e s : ℕ)
    → w.from ≤ i
    → within w.to i ≡ false
    → k.shift ≡ sub_ℕ e s
    → (to_micros (windowed target w k c i t).0 ≡ t + e - s) × ((windowed target w k c i t).1 ≡ k)
unfolding windowed
windowed_behind target w k c i t e s h b hs =
    let after = le→ltb-false i w.from h in
    rw (after, b)
      (
        (to_micros-set_micros c (pos t +ℤ k.shift)).0
            ∙ (ap (λ z. clamp_zero (pos t +ℤ z)) hs ∙ clamp_zero-shifted t e s),
        refl,
      )

-- Either mode is a windowed one.
mode_target :
    (m : Mode) (w : Window)
    → moves_rest m ≡ true
    → (target : ℕ → ℕ → ℕ → ℤ) × ((k : Clock) (c : Context) (i t : ℕ)
        → retime_mode m w k c i t ≡ windowed (target t) w k c i t)
unfolding moves_rest retime_mode
mode_target (by_scale n d) w h = (λ t a i. scaled (pos n) d a t, λ k c i t. refl)
mode_target (by_interval n) w h = (λ t a i. pos (a + i * n), λ k c i t. refl)
mode_target (by_shift z) w h = cc
mode_target (by_start start) w h = cc

rest_shifted :
    (r : Retimer) (k : Clock) (e s : ℕ) (rest : List (List ℕ × PacketInfo))
    → moves_rest r.mode ≡ true
    → k.shift ≡ sub_ℕ e s
    → All (IsBehind r.window) rest
    → map to_micros (retime_all r k rest) ≡ map (λ p. time p + e - s) rest
unfolding retime_all retime_packet
rest_shifted r k e s [] h hs a = refl
rest_shifted r k e s ((frame, info) ∷ rest) h hs (b, a) =
    let tg = mode_target r.mode r.window h in
    let t = time (frame, info) in
    let one =
      windowed_behind (tg.0 t) r.window k (context_of frame info) info.index t e s b.0 b.1 hs in
    rw (tg.1 k (context_of frame info) info.index t, one.0, one.1)
      (ap (λ xs. (t + e - s) ∷ xs) (rest_shifted r k e s rest h hs a))

-- In the modes that move the frames behind the window (a factor or an interval, not a shift or a
-- start): when a frame of the window is the last one of it, each frame behind it is sent as much
-- later than this one was sent as it was captured later than this one was. (A time that would be
-- below 0 is 0.)
pub retime_all-behind :
    (r : Retimer) (k : Clock) (frame : List ℕ) (info : PacketInfo)
    (rest : List (List ℕ × PacketInfo))
    → moves_rest r.mode ≡ true
    → IsInside r.window (frame, info)
    → All (IsBehind r.window) rest
    → map to_micros (retime_all r (retime_packet r k frame info).1 rest)
      ≡ map (λ p. time p + to_micros (retime_packet r k frame info).0 - time (frame, info)) rest
unfolding retime_packet
retime_all-behind r k frame info rest h i a =
    let tg = mode_target r.mode r.window h in
    let c = context_of frame info in
    let t = time (frame, info) in
    rest_shifted r (retime_packet r k frame info).1 (to_micros (retime_packet r k frame info).0) t
      rest h
      (rw (tg.1 k c info.index t) (windowed_shift (tg.0 t) r.window k c info.index t i.0 i.1)) a
