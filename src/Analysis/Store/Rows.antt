-- ===== src/Analysis/Store/Rows.antt =====
-- The store as a queue of records that are numbered from the base on.
use netkitty.Base.{ℕ, ◌+◌, ◌*◌, ◌%◌, ◌^◌, ◌≤◌, ◌<◌, ◌≡◌, refl, arith}
use netkitty.Base.{Bool-cases, inl, inr, List}
use netkitty.Base.{length, get_or, tabulate, leb}
use netkitty.Base.{tabulate_eq}
use netkitty.Analysis.Store.Column.{length-grow_column, get_or-grow_column}
use netkitty.Analysis.Store.{
  FrameIndexRecord, Columns, Store, each, grow_column, grow, with_room, record_at,
}

-- Every column has `n` elements.
pub record HasLength (n : ℕ) (c : Columns) : Type 0 where
  pub file_offset : length c.file_offset ≡ n
  pub captured_length : length c.captured_length ≡ n
  pub original_length : length c.original_length ≡ n
  pub timestamp : length c.timestamp ≡ n
  pub protocol_id : length c.protocol_id ≡ n
  pub conversation_hash : length c.conversation_hash ≡ n
  pub direction_forward : length c.direction_forward ≡ n

pub record IsValid (s : Store) : Type 0 where
  pub columns : HasLength s.capacity s.columns
  pub room : s.size ≤ s.capacity
  pub positive : 1 ≤ s.capacity

-- The records that the store holds, oldest first.
abbrev pub rows : Store → List FrameIndexRecord
rows s = tabulate s.size (record_at s)

-- What the columns keep of a record that is appended as number `index`.
abbrev pub stored : ℕ → FrameIndexRecord → FrameIndexRecord
stored index r = record {
  index = index;
  file_offset = r.file_offset;
  captured_length = r.captured_length % 2 ^ 32;
  original_length = r.original_length % 2 ^ 32;
  timestamp = r.timestamp;
  protocol_id = r.protocol_id % 2 ^ 16;
  conversation_hash = r.conversation_hash % 2 ^ 32;
  direction_forward = r.direction_forward % 2 ^ 8;
}

pub each-HasLength :
    (f : List ℕ → List ℕ) (n m : ℕ) (c : Columns)
    → ((xs : List ℕ) → length xs ≡ n → length (f xs) ≡ m)
    → HasLength n c
    → HasLength m (each f c)
each-HasLength f n m c h v = record {
  file_offset = h c.file_offset v.file_offset;
  captured_length = h c.captured_length v.captured_length;
  original_length = h c.original_length v.original_length;
  timestamp = h c.timestamp v.timestamp;
  protocol_id = h c.protocol_id v.protocol_id;
  conversation_hash = h c.conversation_hash v.conversation_hash;
  direction_forward = h c.direction_forward v.direction_forward;
}

-- An operation on every column that moves slot `j` to slot `i` moves the record.
pub record_at-each :
    (f : List ℕ → List ℕ) (n i j : ℕ) (s t : Store)
    → ((xs : List ℕ) → length xs ≡ n → get_or (f xs) i 0 ≡ get_or xs j 0)
    → HasLength n s.columns
    → t.columns ≡ each f s.columns
    → t.base + i ≡ s.base + j
    → record_at t i ≡ record_at s j
unfolding record_at
record_at-each f n i j s t h v e b = ground (
  arith,
  h s.columns.file_offset v.file_offset,
  h s.columns.captured_length v.captured_length,
  h s.columns.original_length v.original_length,
  h s.columns.timestamp v.timestamp,
  h s.columns.protocol_id v.protocol_id,
  h s.columns.conversation_hash v.conversation_hash,
  h s.columns.direction_forward v.direction_forward,
)

grow-IsValid : (s : Store) → IsValid s → IsValid (grow s)
unfolding grow
grow-IsValid s v = record {
  columns =
      each-HasLength (grow_column (s.capacity * 2)) s.capacity (s.capacity * 2) s.columns
        (λ xs h. length-grow_column xs (s.capacity * 2) (omega arith)) v.columns;
  room = let r = v.room in omega arith;
  positive = let p = v.positive in omega arith;
}

rows-grow : (s : Store) → IsValid s → rows (grow s) ≡ rows s
unfolding grow
rows-grow s v = tabulate_eq s.size (record_at (grow s)) (record_at s) λ i h.
    record_at-each (grow_column (s.capacity * 2)) s.capacity i i s (grow s)
      (λ xs k. get_or-grow_column xs (s.capacity * 2) i (let r = v.room in omega arith)) v.columns
      refl refl

-- Making room keeps the store valid and its records, and leaves a free slot.
pub record Roomy (s t : Store) : Type 0 where
  pub valid : IsValid t
  pub same_rows : rows t ≡ rows s
  pub size : t.size ≡ s.size
  pub base : t.base ≡ s.base
  pub free : t.size < t.capacity

pub with_room-Roomy : (s : Store) → IsValid s → Roomy s (with_room s)
unfolding with_room
with_room-Roomy s v = elim (Bool-cases (leb s.capacity s.size)) [
  | inl full ↦ rw full (record {
    valid = grow-IsValid s v;
    same_rows = rows-grow s v;
    size = unfold grow in refl;
    base = unfold grow in refl;
    free = unfold grow in let r = v.room in let p = v.positive in omega arith;
  })
  | inr free ↦
      rw free
        (record { valid = v; same_rows = refl; size = refl; base = refl; free = ground arith })
]
