-- ===== src/Analysis/Store/Column.antt =====
-- One column under the operations of the store.
use netkitty.Base.{ℕ, ◌+◌, ◌-◌, ◌≤◌, ◌<◌, ◌≡◌, ◌∙◌, arith, List, length, get_or}
use netkitty.Base.{take, drop, replicate, length-append, length-replicate, length-take, length-drop}
use netkitty.Base.{get_or-append, get_or-take, get_or-drop}
use netkitty.Analysis.Store.{grow_column, copy_within}

module _ (xs : List ℕ) where
  pub length-grow_column : (next : ℕ) → length xs ≤ next → length (grow_column next xs) ≡ next
  unfolding grow_column
  length-grow_column next h = omega (
    arith,
    length-append xs (replicate (next - length xs) 0),
    length-replicate (next - length xs) (let z : ℕ = 0 in z),
  )

  pub get_or-grow_column :
      (next i : ℕ) → i < length xs → get_or (grow_column next xs) i 0 ≡ get_or xs i 0
  unfolding grow_column
  get_or-grow_column next i h = get_or-append xs _ i 0 h

  pub length-copy_within :
      (from to : ℕ) → from ≤ to → to ≤ length xs → length (copy_within from to xs) ≡ length xs
  unfolding copy_within
  length-copy_within from to h k = omega (
    arith,
    length-append (take (to - from) (drop from xs)) (drop (to - from) xs),
    length-take (to - from) (drop from xs),
    length-drop from xs,
    length-drop (to - from) xs,
  )

  pub get_or-copy_within :
      (from to i : ℕ)
      → to ≤ length xs
      → i < to - from
      → get_or (copy_within from to xs) i 0 ≡ get_or xs (from + i) 0
  unfolding copy_within
  get_or-copy_within from to i k h =
      get_or-append (take (to - from) (drop from xs)) _ i 0
        (omega (arith, length-take (to - from) (drop from xs), length-drop from xs))
      ∙ get_or-take (to - from) i (drop from xs) 0 h
      ∙ get_or-drop from i xs 0
