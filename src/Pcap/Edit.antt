-- ===== src/Pcap/Edit.antt =====
-- packages/pcap/src/PcapEdit.ts: its types, errors, units, timestamps and MAC addresses. A frame is
-- the list of its bytes, and a thrown error a value. Times are whole, and arithmetic is exact.
use netkitty.Base.{ℕ, ◌+◌, ◌*◌, ◌/◌, ◌%◌, Bool, true, false, Option, none, some, List}
use netkitty.Base.{◌<◌, ◌≡◌, refl, ◌⊎◌, inl, inr, if◌then◌else◌, arith}
use netkitty.Base.Int.{ℤ, pos, clamp_zero, ◌*ℤ◌, floor_div, round_div}
use netkitty.Base.Text.{Text, text, text_eq}
use netkitty.PcapCore.Format.{PacketInfo}

pub data EditError : Type 0 where
  range_from_not_integer range_to_not_integer range_with_set_start scale_factor : EditError
  unknown_unit : Text → EditError
  patch_length : ℕ → ℕ → EditError
  compressed_capture same_file invalid_mac : EditError

pub data Result (A : Type 0) : Type 0 where
  ok : A → Result A
  err : EditError → Result A

-- Going on with a result, unless an error was thrown.
unfoldable pub and_then : {A B : Type 0} → Result A → (A → Result B) → Result B
and_then (ok a) k = k a
and_then (err e) k = err e

-- `if (condition) throw error`
unfoldable pub throw_if : {A : Type 0} → Bool → EditError → Result A → Result A
throw_if true e rest = err e
throw_if false e rest = rest

pub record Context : Type 0 where
  pub frame : List ℕ
  pub seconds : ℕ
  pub microseconds : ℕ

-- A finite number: `top / (below + 1)`.
pub record Fraction : Type 0 where
  pub top : ℤ
  pub below : ℕ

pub data Number : Type 0 where
  finite : Fraction → Number
  not_finite : Number

pub record FrameRange : Type 0 where
  pub from : Number
  pub to : Option Number

pub data RetimeEdit : Type 0 where
  scale : Number → RetimeEdit
  constant_interval : Fraction → Option Text → RetimeEdit
  shift : Fraction → Option Text → RetimeEdit
  set_start : ℤ → Option ℤ → RetimeEdit

abbrev pub micros_per_second : ℕ
micros_per_second = 1000000

-- `UNIT_MICROS`
unit_table : Text → Option ℕ
unit_table u =
    if text_eq u (text "us")
    then some 1
    else if text_eq u (text "ms")
    then some 1000
    else if text_eq u (text "s")
    then some 1000000
    else if text_eq u (text "min")
    then some 60000000
    else none

unit_result : Text → Option ℕ → Result ℕ
unit_result u none = err (unknown_unit u)
unit_result u (some factor) = ok factor

unfoldable pub unit_micros : Option Text → Result ℕ
unfolding unit_table unit_result
unit_micros none = unit_result (text "us") (unit_table (text "us"))
unit_micros (some u) = unit_result u (unit_table u)

-- `Math.round(value * unitMicros(unit))`
unfoldable pub micros : Fraction → Option Text → Result ℤ
unfolding and_then unit_micros round_div ◌*ℤ◌
micros value unit =
    and_then (unit_micros unit) (λ factor. ok (round_div (value.top *ℤ pos factor) value.below))

-- `Math.max(0, Math.floor(value * unitMicros(unit)))`
unfoldable pub floor_micros : Fraction → Option Text → Result ℕ
unfolding and_then unit_micros floor_div ◌*ℤ◌
floor_micros value unit =
    and_then (unit_micros unit)
      (λ factor. ok (clamp_zero (floor_div (value.top *ℤ pos factor) value.below)))

unfoldable pub to_micros : Context → ℕ
to_micros c = c.seconds * micros_per_second + c.microseconds

unfoldable pub set_micros : Context → ℤ → Context
set_micros c z = record c {
  seconds = clamp_zero z / micros_per_second;
  microseconds = clamp_zero z % micros_per_second;
}

-- The context of a packet that was read.
unfoldable pub context_of : List ℕ → PacketInfo → Context
context_of frame info = record {
  frame = frame;
  seconds = info.seconds;
  microseconds = info.microseconds;
}

-- A time that is set is read back, and the fields are those of a normal timestamp.
pub to_micros-set_micros :
    (c : Context) (z : ℤ)
    → (to_micros (set_micros c z) ≡ clamp_zero z)
      × ((set_micros c z).microseconds < micros_per_second)
unfolding to_micros set_micros
to_micros-set_micros c z = (omega arith, omega arith)

-- What a chain of results that succeeds went through.
pub and_then-ok :
    {A B : Type 0} (r : Result A) (k : A → Result B) (b : B)
    → and_then r k ≡ ok b
    → (a : A) × (r ≡ ok a) × (k a ≡ ok b)
unfolding and_then
and_then-ok (ok a) k b e = (a, refl, e)
and_then-ok (err x) k b e = cc

pub throw_if-ok :
    {A : Type 0} (c : Bool) (x : EditError) (r : Result A) (a : A)
    → throw_if c x r ≡ ok a
    → (c ≡ false) × (r ≡ ok a)
unfolding throw_if
throw_if-ok true x r a e = cc
throw_if-ok false x r a e = (refl, e)

-- To split on a result and keep the equation.
pub Result-cases :
    {A : Type 0} (r : Result A) → ((a : A) × (r ≡ ok a)) ⊎ ((e : EditError) × (r ≡ err e))
Result-cases (ok a) = inl (a, refl)
Result-cases (err e) = inr (e, refl)
