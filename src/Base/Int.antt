-- ===== src/Base/Int.antt =====
-- Signed integers over the native numbers: `negsuc n` is -(n + 1). Fractions stand for the finite
-- JavaScript numbers that are not whole.
use Prim.Native.Nat.{ℕ, ◌+◌, ◌-◌, ◌*◌, ◌/◌}
use mathlib.Core.Path.{◌≡◌}
use native.Mathlib.Omega.{arith}
use netkitty.Base.Tests.{leb, if◌then◌else◌}

pub data ℤ : Type 0 where
  pos : ℕ → ℤ
  negsuc : ℕ → ℤ

-- a - b, as an integer.
abbrev pub sub_ℕ : ℕ → ℕ → ℤ
sub_ℕ a b = if leb b a then pos (a - b) else negsuc (b - a - 1)

-- Math.max(0, z)
abbrev pub clamp_zero : ℤ → ℕ
clamp_zero (pos n) = n
clamp_zero (negsuc n) = 0

infix 60 ◌+ℤ◌
unfoldable pub ◌+ℤ◌ : ℤ → ℤ → ℤ
pos a +ℤ pos b = pos (a + b)
pos a +ℤ negsuc b = sub_ℕ a (b + 1)
negsuc a +ℤ pos b = sub_ℕ b (a + 1)
negsuc a +ℤ negsuc b = negsuc (a + b + 1)

infix 70 ◌*ℤ◌
unfoldable pub ◌*ℤ◌ : ℤ → ℤ → ℤ
pos a *ℤ pos b = pos (a * b)
pos a *ℤ negsuc b = sub_ℕ 0 (a * (b + 1))
negsuc a *ℤ pos b = sub_ℕ 0 ((a + 1) * b)
negsuc a *ℤ negsuc b = pos ((a + 1) * (b + 1))

-- Math.floor of z / (d + 1).
unfoldable pub floor_div : ℤ → ℕ → ℤ
floor_div (pos n) d = pos (n / (d + 1))
floor_div (negsuc n) d = negsuc (n / (d + 1))

-- Math.round of z / (d + 1): the floor of (2 z + (d + 1)) / (2 (d + 1)).
unfoldable pub round_div : ℤ → ℕ → ℤ
unfolding floor_div ◌+ℤ◌ ◌*ℤ◌
round_div z d = floor_div (pos 2 *ℤ z +ℤ pos (d + 1)) (2 * d + 1)

pub clamp_zero-sub_ℕ : (a b : ℕ) → clamp_zero (sub_ℕ a b) ≡ a - b
clamp_zero-sub_ℕ a b = ground arith

-- A time moved by the difference of two others, and cut at 0.
pub clamp_zero-shifted : (t a b : ℕ) → clamp_zero (pos t +ℤ sub_ℕ a b) ≡ t + a - b
unfolding ◌+ℤ◌
clamp_zero-shifted t a b = ground arith
