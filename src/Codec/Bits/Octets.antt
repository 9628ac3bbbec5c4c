-- ===== src/Codec/Bits/Octets.antt =====
-- The window of a bit field of BaseHeader.ts: its octets in the packet, and the number that they
-- spell.
use native.Mathlib.Nat.{pow-suc}
use mathlib.Core.Path.{subst}
use netkitty.Base.{ℕ, ◌+◌, ◌-◌, ◌*◌, ◌^◌, ◌≡◌, ◌≤◌, ◌<◌, zero, suc}
use netkitty.Base.{arith, ap, ◌∙◌, refl}
use netkitty.Base.{
  List, [], ◌∷◌, ◌++◌, length, All, take, drop, replicate, drop_of, append-nil, take_front,
}
use netkitty.Base.{length-take, length-drop, length-append, length-replicate}
use netkitty.Codec.Header.Padding.{write_over}
use netkitty.Codec.Bits.{number_from}
use netkitty.Codec.Bits.Arith.{number_from_bound, pow-add}

abbrev pub IsBytes : List ℕ → Type 0
IsBytes bs = All (λ b. b < 256) bs

pub take-IsBytes : (n : ℕ) (bs : List ℕ) → IsBytes bs → IsBytes (take n bs)
take-IsBytes zero bs h = tt
take-IsBytes (suc n) [] h = tt
take-IsBytes (suc n) (b ∷ bs) h = (h.0, take-IsBytes n bs h.1)

pub drop-IsBytes : (n : ℕ) (bs : List ℕ) → IsBytes bs → IsBytes (drop n bs)
drop-IsBytes zero bs h = h
drop-IsBytes (suc n) [] h = tt
drop-IsBytes (suc n) (b ∷ bs) h = drop-IsBytes n bs h.1

zeros-IsBytes : (k : ℕ) → IsBytes (replicate k 0)
zeros-IsBytes zero = tt
zeros-IsBytes (suc k) = (omega arith, zeros-IsBytes k)

append-IsBytes : (bs cs : List ℕ) → IsBytes bs → IsBytes cs → IsBytes (bs ++ cs)
append-IsBytes [] cs h k = k
append-IsBytes (b ∷ bs) cs h k = (h.0, append-IsBytes bs cs h.1 k)

pow8 : (n : ℕ) → 2 ^ (suc n * 8) ≡ 2 ^ (n * 8) * 256
pow8 n = ap (λ k. 2 ^ k) {x = suc n * 8} {y = n * 8 + 8} (omega arith) ∙ pow-add 2 (n * 8) 8

pub pow_octets : (n : ℕ) → 256 ^ n ≡ 2 ^ (n * 8)
pow_octets zero = refl
pow_octets (suc n) = omega (arith, pow_octets n, pow-suc 256 n, pow8 n)

-- The bytes that a write into a sequence has put there.
pub window_back :
    (s : ℕ) (bytes v : List ℕ) → take (length bytes) (drop s (write_over s bytes v)) ≡ bytes
window_back s bytes v =
    ap (take (length bytes)) (
      drop_of s (take s (v ++ replicate (s - length v) 0)) _ (
        omega (
          arith,
          length-take {0} s (v ++ replicate (s - length v) 0),
          length-append {0} v (replicate (s - length v) 0),
          length-replicate {0} {A = ℕ} (s - length v) 0,
        )))
    ∙ take_front bytes _

-- The window at `s` of a packet, as far as it must be made longer with zeros.
abbrev pub padded : ℕ → ℕ → List ℕ → List ℕ
padded s size v = v ++ replicate (s + size - length v) 0

pub unpadded : (s size : ℕ) (v : List ℕ) → s + size ≤ length v → padded s size v ≡ v
unpadded s size v h = ap (λ k. v ++ replicate k 0) {y = 0} (omega arith) ∙ append-nil v

abbrev pub window : ℕ → ℕ → List ℕ → List ℕ
window s size v = take size (drop s (padded s size v))

pub length-window : (s size : ℕ) (v : List ℕ) → length (window s size v) ≡ size
length-window s size v =
    let m = s + size - length v in
    omega (
      arith,
      length-take {0} size (drop s (padded s size v)),
      length-drop {0} s (padded s size v),
      length-append {0} v (replicate m 0),
      length-replicate {0} {A = ℕ} m 0,
    )

pub window_bound :
    (s size : ℕ) (v : List ℕ) → IsBytes v → number_from 0 (window s size v) < 2 ^ (size * 8)
window_bound s size v h =
    subst (λ n. number_from 0 (window s size v) < 2 ^ (n * 8)) (length-window s size v)
      (subst (λ t. number_from 0 (window s size v) < t) (pow_octets (length (window s size v)))
        (omega (
          arith,
          number_from_bound 0 (window s size v)
              (take-IsBytes size _ (drop-IsBytes s _ (append-IsBytes v _ h (zeros-IsBytes _)))),
        )))

pub number_from_nil : (n w : ℕ) → number_from (0 * 256 ^ n + w) [] ≡ w
unfolding number_from
number_from_nil n w = grind arith
