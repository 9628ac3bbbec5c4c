-- ===== src/Pcap/Retime.antt =====
-- packages/pcap/src/PcapEdit.ts: makeRetimer. Its checks make a Retimer, whose steps take the
-- closure's four variables along as a Clock.
pub mod Order
pub mod Sorted
pub mod Behind
pub mod Checked
use netkitty.Base.{
  ℕ, zero, suc, ◌+◌, ◌*◌, ◌/◌, ◌%◌, ◌==◌, ◌||◌, ◌&&◌, not, Bool, true, false, Option,
}
use netkitty.Base.{none, some, List, [], ◌∷◌, leb, ltb, if◌then◌else◌}
use netkitty.Base.Int.{ℤ, pos, negsuc, clamp_zero, sub_ℕ, ◌+ℤ◌, ◌*ℤ◌, round_div}
use netkitty.Base.Text.{Text}
use netkitty.PcapCore.Format.{PacketInfo}
use netkitty.Pcap.Edit.{
  Context, EditError, Fraction, FrameRange, Number, Result, RetimeEdit, and_then, context_of,
  constant_interval, err, finite, floor_micros, micros, micros_per_second, not_finite, ok,
  range_from_not_integer, range_to_not_integer, range_with_set_start, scale, scale_factor,
  set_micros, set_start, shift, throw_if, to_micros,
}

-- A whole number from 1 on, if it is one: `Number.isInteger(x)` and `x >= 1`.
whole_fraction : ℤ → ℕ → Option ℕ
whole_fraction (negsuc n) d = none
whole_fraction (pos n) d = if n % (d + 1) == 0 && not (n == 0) then some (n / (d + 1)) else none

unfoldable pub positive_integer : Number → Option ℕ
unfolding whole_fraction
positive_integer not_finite = none
positive_integer (finite x) = whole_fraction x.top x.below

-- The first and the last index of a window, which is open without `to`.
pub record Window : Type 0 where
  pub from : ℕ
  pub to : Option ℕ

check_bounds : ℕ → Option ℕ → Result Window
check_bounds from none = err range_to_not_integer
check_bounds from (some to) =
    if leb from to then ok (record { from = from; to = some to }) else err range_to_not_integer

unfoldable pub check_to : ℕ → Option Number → Result Window
unfolding check_bounds positive_integer
check_to from none = ok (record { from = from; to = none })
check_to from (some x) = check_bounds from (positive_integer x)

check_from : FrameRange → Option ℕ → Result Window
unfolding check_to
check_from r none = err range_from_not_integer
check_from r (some from) = check_to from r.to

unfoldable pub is_set_start : RetimeEdit → Bool
is_set_start (set_start seconds microseconds) = true
is_set_start (scale factor) = false
is_set_start (constant_interval interval unit) = false
is_set_start (shift delta unit) = false

unfoldable pub check_range : RetimeEdit → Option FrameRange → Result Window
unfolding check_from positive_integer and_then throw_if is_set_start
check_range edit none = ok (record { from = 1; to = none })
check_range edit (some r) =
    and_then (check_from r (positive_integer r.from))
      (λ w. throw_if (is_set_start edit) range_with_set_start (ok w))

-- The edit with its numbers in microseconds.
pub data Mode : Type 0 where
  by_scale : ℕ → ℕ → Mode
  by_interval : ℕ → Mode
  by_shift : ℤ → Mode
  by_start : ℤ → Mode

scale_mode : Number → Result Mode
scale_mode not_finite = err scale_factor
scale_mode (finite x) = elim x.top [ pos n ↦ ok (by_scale n x.below) | negsuc n ↦ err scale_factor ]

or_zero : Option ℤ → ℤ
or_zero none = pos 0
or_zero (some z) = z

unfoldable pub start_micros : ℤ → Option ℤ → ℤ
unfolding or_zero
start_micros seconds microseconds = seconds *ℤ pos micros_per_second +ℤ or_zero microseconds

unfoldable pub mode_of : RetimeEdit → Result Mode
unfolding scale_mode start_micros and_then
mode_of (scale factor) = scale_mode factor
mode_of (constant_interval interval unit) =
    and_then (floor_micros interval unit) (λ n. ok (by_interval n))
mode_of (shift delta unit) = and_then (micros delta unit) (λ z. ok (by_shift z))
mode_of (set_start seconds microseconds) = ok (by_start (start_micros seconds microseconds))

pub record Retimer : Type 0 where
  pub mode : Mode
  pub window : Window

unfoldable pub make_retimer : RetimeEdit → Option FrameRange → Result Retimer
unfolding check_range mode_of and_then
make_retimer edit range =
    and_then (check_range edit range)
      (λ w. and_then (mode_of edit) (λ m. ok (record { mode = m; window = w })))

-- `anchor`, `inRangeIndex`, `shift` and `base`.
pub record Clock : Type 0 where
  pub anchor : Option ℕ
  pub in_range_index : ℕ
  pub shift : ℤ
  pub base : Option ℕ

abbrev pub fresh_clock : Clock
fresh_clock = record { anchor = none; in_range_index = 0; shift = pos 0; base = none }

-- `if (variable === null) variable = t`
unfoldable pub or_set : Option ℕ → ℕ → ℕ
or_set none t = t
or_set (some v) t = v

-- A window without an end ends at infinity.
unfoldable pub within : Option ℕ → ℕ → Bool
within none index = true
within (some to) index = leb index to

-- Math.round(anchor + (t - anchor) * factor), with the factor `z / (d + 1)`.
unfoldable pub scaled : ℤ → ℕ → ℕ → ℕ → ℤ
unfolding round_div ◌+ℤ◌ ◌*ℤ◌
scaled z d anchor t = round_div (pos (anchor * (d + 1)) +ℤ sub_ℕ t anchor *ℤ z) d

-- The first frame of the window sets the anchor and counts from 0.
unfoldable pub anchored : Clock → ℕ → Clock
anchored k t = elim k.anchor [
  | none ↦ record k { anchor = some t; in_range_index = 0 }
  | some a ↦ k
]

unfoldable pub in_window : (ℕ → ℕ → ℤ) → Clock → Context → ℕ → Context × Clock
unfolding anchored or_set
in_window target k c t =
    let k1 = anchored k t in
    let emitted = clamp_zero (target (or_set k1.anchor t) k1.in_range_index) in
    (
      set_micros c (pos emitted),
      record k1 { shift = sub_ℕ emitted t; in_range_index = k1.in_range_index + 1 },
    )

unfoldable pub windowed : (ℕ → ℕ → ℤ) → Window → Clock → Context → ℕ → ℕ → Context × Clock
unfolding in_window within
windowed target w k c index t =
    if ltb index w.from
    then (c, k)
    else if within w.to index
    then in_window target k c t
    else (set_micros c (pos t +ℤ k.shift), k)

unfoldable pub retime_mode : Mode → Window → Clock → Context → ℕ → ℕ → Context × Clock
unfolding windowed or_set scaled
retime_mode (by_start start) w k c index t =
    let base = or_set k.base t in
    (set_micros c (start +ℤ sub_ℕ t base), record k { base = some base })
retime_mode (by_shift z) w k c index t =
    (if leb w.from index then set_micros c (pos t +ℤ z) else c, k)
retime_mode (by_scale n d) w k c index t =
    windowed (λ anchor i. scaled (pos n) d anchor t) w k c index t
retime_mode (by_interval interval) w k c index t =
    windowed (λ anchor i. pos (anchor + i * interval)) w k c index t

-- The function that makeRetimer returns.
unfoldable pub retime_packet : Retimer → Clock → List ℕ → PacketInfo → Context × Clock
unfolding retime_mode context_of to_micros
retime_packet r k frame info =
    retime_mode r.mode r.window k (context_of frame info) info.index
      (to_micros (context_of frame info))

-- The frames of a capture in order, each with its information, through one retimer.
unfoldable pub retime_all : Retimer → Clock → List (List ℕ × PacketInfo) → List Context
unfolding retime_packet
retime_all r k [] = []
retime_all r k ((frame, info) ∷ rest) =
    let done = retime_packet r k frame info in done.0 ∷ retime_all r done.1 rest
