-- ===== src/PcapCore/Bytes/RoundTrip.antt =====
-- What the Buffer writers put at an offset, the readers of the same byte order read back.
use netkitty.Base.{ℕ, ◌+◌, ◌≡◌, arith, some, List, ◌++◌, drop, ap, ◌∙◌}
use netkitty.Base.{get_elem?, get_elem?-drop}
use netkitty.PcapCore.Bytes.{
  ◌>>=◌, read_u16_be, read_u16_le, read_u32_be, read_u32_le, u16_be_bytes, u16_le_bytes,
  u32_be_bytes, u32_le_bytes,
}

here : (o : ℕ) (b b' : List ℕ) → drop o b ≡ b' → get_elem? b o ≡ get_elem? b' 0
here o b b' h = ap (get_elem? b) (omega arith) ∙ get_elem?-drop o 0 b ∙ ap (λ d. get_elem? d 0) h

there : (o i : ℕ) (b b' : List ℕ) → drop o b ≡ b' → get_elem? b (o + i) ≡ get_elem? b' i
there o i b b' h = get_elem?-drop o i b ∙ ap (λ d. get_elem? d i) h

module _ (o n : ℕ) (b rest : List ℕ) where
  pub read_u32_be-at : drop o b ≡ u32_be_bytes n ++ rest → read_u32_be o b ≡ some n
  unfolding read_u32_be
  read_u32_be-at h =
      rw (here o b _ h, there o 1 b _ h, there o 2 b _ h, there o 3 b _ h, ◌>>=◌)
        (ap some (omega arith))

  pub read_u32_le-at : drop o b ≡ u32_le_bytes n ++ rest → read_u32_le o b ≡ some n
  unfolding read_u32_le
  read_u32_le-at h =
      rw (here o b _ h, there o 1 b _ h, there o 2 b _ h, there o 3 b _ h, ◌>>=◌)
        (ap some (omega arith))

  pub read_u16_be-at : drop o b ≡ u16_be_bytes n ++ rest → read_u16_be o b ≡ some n
  unfolding read_u16_be
  read_u16_be-at h = rw (here o b _ h, there o 1 b _ h, ◌>>=◌) (ap some (omega arith))

  pub read_u16_le-at : drop o b ≡ u16_le_bytes n ++ rest → read_u16_le o b ≡ some n
  unfolding read_u16_le
  read_u16_le-at h = rw (here o b _ h, there o 1 b _ h, ◌>>=◌) (ap some (omega arith))
