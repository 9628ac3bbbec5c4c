-- ===== src/PcapCore/Bytes.antt =====
-- The Buffer accessors that packages/pcap-core/src uses. A Buffer is the list of its bytes; a read
-- at an offset out of range throws a RangeError, which is `none` here, and so is a write of a value
-- that does not fit its field.
pub mod RoundTrip
use netkitty.Base.{ℕ, ◌+◌, ◌-◌, ◌*◌, ◌/◌, ◌%◌, ◌^◌, ◌≡◌, ltb}
use netkitty.Base.{if◌then◌else◌, Option, none, some, Option-cases, inl, inr}
use netkitty.Base.{List, [], ◌∷◌, ◌++◌, get_elem?, get_elem?-append}
use netkitty.Base.Int.{ℤ, pos, negsuc}

-- A read depends on the bytes and may throw.
abbrev pub Read : Type 0 → Type 0
Read A = List ℕ → Option A

infixl 5 ◌>>=◌
abbrev pub ◌>>=◌ : {A B : Type 0} → Read A → (A → Read B) → Read B
◌>>=◌ m f b = elim (m b) [ none ↦ none | some a ↦ f a b ]

abbrev pub pure : {A : Type 0} → A → Read A
pure a b = some a

abbrev pub read_u8 : ℕ → Read ℕ
read_u8 o b = get_elem? b o

pub data Endianness : Type 0 where
  be le : Endianness

unfoldable pub read_u16_be : ℕ → Read ℕ
read_u16_be o = do x ← read_u8 o; y ← read_u8 (o + 1); pure (x * 256 + y)

unfoldable pub read_u16_le : ℕ → Read ℕ
read_u16_le o = do x ← read_u8 o; y ← read_u8 (o + 1); pure (x + y * 256)

unfoldable pub read_u32_be : ℕ → Read ℕ
read_u32_be o = do
  x ← read_u8 o
  y ← read_u8 (o + 1)
  z ← read_u8 (o + 2)
  w ← read_u8 (o + 3)
  pure (x * 2 ^ 24 + y * 2 ^ 16 + z * 2 ^ 8 + w)

unfoldable pub read_u32_le : ℕ → Read ℕ
read_u32_le o = do
  x ← read_u8 o
  y ← read_u8 (o + 1)
  z ← read_u8 (o + 2)
  w ← read_u8 (o + 3)
  pure (x + y * 2 ^ 8 + z * 2 ^ 16 + w * 2 ^ 24)

-- The integer that a 32-bit pattern stands for.
abbrev pub signed32 : ℕ → ℤ
signed32 w = if ltb w (2 ^ 31) then pos w else negsuc (2 ^ 32 - w - 1)

abbrev pub u16_be_bytes : ℕ → List ℕ
u16_be_bytes n = n / 2 ^ 8 ∷ n % 2 ^ 8 ∷ []

abbrev pub u16_le_bytes : ℕ → List ℕ
u16_le_bytes n = n % 2 ^ 8 ∷ n / 2 ^ 8 ∷ []

abbrev pub u32_be_bytes : ℕ → List ℕ
u32_be_bytes n = n / 2 ^ 24 ∷ n / 2 ^ 16 % 2 ^ 8 ∷ n / 2 ^ 8 % 2 ^ 8 ∷ n % 2 ^ 8 ∷ []

abbrev pub u32_le_bytes : ℕ → List ℕ
u32_le_bytes n = n % 2 ^ 8 ∷ n / 2 ^ 8 % 2 ^ 8 ∷ n / 2 ^ 16 % 2 ^ 8 ∷ n / 2 ^ 24 ∷ []

-- More bytes behind the buffer do not change a read that succeeds.
abbrev pub IsStable : {A : Type 0} → Read A → Type 0
IsStable {A} r = (b c : List ℕ) (v : A) → r b ≡ some v → r (b ++ c) ≡ some v

pub pure-IsStable : {A : Type 0} (a : A) → IsStable (pure a)
pure-IsStable a b c v h = h

pub bind-IsStable :
    {A B : Type 0} (m : Read A) (f : A → Read B)
    → IsStable m
    → ((a : A) → IsStable (f a))
    → IsStable (m >>= f)
bind-IsStable m f hm hf b c v h = elim (Option-cases (m b)) [
  | inl e ↦ cc (rw (e, ◌>>=◌) at h)
  | inr (a, e) ↦ rw (hm b c a e, ◌>>=◌) (hf a b c v (rw (e, ◌>>=◌) at h))
]

pub read_u8-IsStable : (o : ℕ) → IsStable (read_u8 o)
read_u8-IsStable o b c v h = get_elem?-append b c o h

module _ (o : ℕ) where
  pub read_u16_be-IsStable : IsStable (read_u16_be o)
  unfolding read_u16_be
  read_u16_be-IsStable =
      bind-IsStable _ _ (read_u8-IsStable _)
        (λ x. bind-IsStable _ _ (read_u8-IsStable _) (λ y. pure-IsStable _))

  pub read_u16_le-IsStable : IsStable (read_u16_le o)
  unfolding read_u16_le
  read_u16_le-IsStable =
      bind-IsStable _ _ (read_u8-IsStable _)
        (λ x. bind-IsStable _ _ (read_u8-IsStable _) (λ y. pure-IsStable _))

  pub read_u32_be-IsStable : IsStable (read_u32_be o)
  unfolding read_u32_be
  read_u32_be-IsStable = bind-IsStable _ _ (read_u8-IsStable _) λ x.
      bind-IsStable _ _ (read_u8-IsStable _) λ y.
        bind-IsStable _ _ (read_u8-IsStable _)
          λ z. bind-IsStable _ _ (read_u8-IsStable _) (λ w. pure-IsStable _)

  pub read_u32_le-IsStable : IsStable (read_u32_le o)
  unfolding read_u32_le
  read_u32_le-IsStable = bind-IsStable _ _ (read_u8-IsStable _) λ x.
      bind-IsStable _ _ (read_u8-IsStable _) λ y.
        bind-IsStable _ _ (read_u8-IsStable _)
          λ z. bind-IsStable _ _ (read_u8-IsStable _) (λ w. pure-IsStable _)
