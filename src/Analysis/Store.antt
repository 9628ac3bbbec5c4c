-- ===== src/Analysis/Store.antt =====
-- packages/analysis/src/stores/ColumnarIndexStore.ts. A TypedArray is the list of its elements; a
-- write out of range is ignored, and an element wraps to the width of the array. A Float64 element
-- is a whole number below 2 ^ 53, which the array holds as it is.
pub mod Column
pub mod Rows
pub mod Queue
pub mod Sizes
use netkitty.Base.{ℕ, zero, suc, ◌+◌, ◌-◌, ◌*◌, ◌%◌, ◌^◌, ◌≤◌, min, max, Bool, Option, none, some}
use netkitty.Base.{List, [], ◌∷◌, ◌++◌, length, get_or, set, take, drop, replicate, ltb, leb}
use netkitty.Base.{if◌then◌else◌, ◌||◌, ◌==◌}

pub record FrameIndexRecord : Type 0 where
  pub index : ℕ
  pub file_offset : ℕ
  pub captured_length : ℕ
  pub original_length : ℕ
  pub timestamp : ℕ
  pub protocol_id : ℕ
  pub conversation_hash : ℕ
  pub direction_forward : ℕ

-- The columns, all of `capacity` elements.
pub record Columns : Type 0 where
  pub file_offset : List ℕ
  pub captured_length : List ℕ
  pub original_length : List ℕ
  pub timestamp : List ℕ
  pub protocol_id : List ℕ
  pub conversation_hash : List ℕ
  pub direction_forward : List ℕ

pub record Store : Type 0 where
  pub capacity : ℕ
  pub size : ℕ
  pub base : ℕ
  pub columns : Columns

-- A function on every column.
abbrev pub each : (List ℕ → List ℕ) → Columns → Columns
each f c = record {
  file_offset = f c.file_offset;
  captured_length = f c.captured_length;
  original_length = f c.original_length;
  timestamp = f c.timestamp;
  protocol_id = f c.protocol_id;
  conversation_hash = f c.conversation_hash;
  direction_forward = f c.direction_forward;
}

pub new_columns : ℕ → Columns
new_columns n = record {
  file_offset = replicate n 0;
  captured_length = replicate n 0;
  original_length = replicate n 0;
  timestamp = replicate n 0;
  protocol_id = replicate n 0;
  conversation_hash = replicate n 0;
  direction_forward = replicate n 0;
}

pub new_store : ℕ → Store
new_store initial_capacity =
    let capacity = max 1 initial_capacity in
    record { capacity = capacity; size = 0; base = 0; columns = new_columns capacity }

-- A longer array with the elements of `xs` at its front.
pub grow_column : ℕ → List ℕ → List ℕ
grow_column next xs = xs ++ replicate (next - length xs) 0

grow : Store → Store
grow s =
    let next = s.capacity * 2 in
    record s { capacity = next; columns = each (grow_column next) s.columns }

pub write_slot : ℕ → FrameIndexRecord → Columns → Columns
write_slot slot r c = record {
  file_offset = set c.file_offset slot r.file_offset;
  captured_length = set c.captured_length slot (r.captured_length % 2 ^ 32);
  original_length = set c.original_length slot (r.original_length % 2 ^ 32);
  timestamp = set c.timestamp slot r.timestamp;
  protocol_id = set c.protocol_id slot (r.protocol_id % 2 ^ 16);
  conversation_hash = set c.conversation_hash slot (r.conversation_hash % 2 ^ 32);
  direction_forward = set c.direction_forward slot (r.direction_forward % 2 ^ 8);
}

pub with_room : Store → Store
with_room s = if leb s.capacity s.size then grow s else s

pub append : Store → FrameIndexRecord → Store × ℕ
append s r =
    let t = with_room s in
    (record t { columns = write_slot t.size r t.columns; size = t.size + 1 }, t.base + t.size)

pub record_at : Store → ℕ → FrameIndexRecord
record_at s slot = record {
  index = s.base + slot;
  file_offset = get_or s.columns.file_offset slot 0;
  captured_length = get_or s.columns.captured_length slot 0;
  original_length = get_or s.columns.original_length slot 0;
  timestamp = get_or s.columns.timestamp slot 0;
  protocol_id = get_or s.columns.protocol_id slot 0;
  conversation_hash = get_or s.columns.conversation_hash slot 0;
  direction_forward = get_or s.columns.direction_forward slot 0;
}

-- A slot below 0 is an index below the base.
unfoldable pub get : Store → ℕ → Option FrameIndexRecord
get s index =
    if ltb index s.base || leb s.size (index - s.base)
    then none
    else some (record_at s (index - s.base))

-- `for (index = start; index < end; index++)`, by the rounds left.
range_loop : Store → ℕ → ℕ → List FrameIndexRecord
range_loop s zero index = []
range_loop s (suc n) index = record_at s (index - s.base) ∷ range_loop s n (index + 1)

pub range : Store → ℕ → ℕ → List FrameIndexRecord
range s from to =
    let start = max from s.base in
    let end = min to (s.base + s.size) in range_loop s (end - start) start

scan_loop : Store → (FrameIndexRecord → Bool) → ℕ → ℕ → List ℕ
scan_loop s predicate zero slot = []
scan_loop s predicate (suc n) slot =
    let rest = scan_loop s predicate n (slot + 1) in
    if predicate (record_at s slot) then (record_at s slot).index ∷ rest else rest

pub scan : Store → (FrameIndexRecord → Bool) → List ℕ
scan s predicate = scan_loop s predicate s.size 0

unfoldable pub count : Store → ℕ
count s = s.size

unfoldable pub first_index : Store → ℕ
first_index s = s.base

-- `copyWithin(0, from, to)`
pub copy_within : ℕ → ℕ → List ℕ → List ℕ
copy_within from to xs = take (to - from) (drop from xs) ++ drop (to - from) xs

pub evict_oldest : Store → ℕ → Store
evict_oldest s count =
    let dropped = min count s.size in
    if dropped == 0 then s else record s {
      columns = each (copy_within dropped s.size) s.columns;
      size = s.size - dropped;
      base = s.base + dropped;
    }

pub clear : Store → Store
clear s = record s { size = 0; base = 0 }
