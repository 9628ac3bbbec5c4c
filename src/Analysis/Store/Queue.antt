-- ===== src/Analysis/Store/Queue.antt =====
-- The operations of the store against a queue of numbered records.
use netkitty.Base.{max, replicate, length-replicate}
use netkitty.Base.{ℕ, suc, ◌+◌, ◌-◌, ◌%◌, ◌^◌, ◌≤◌, ◌<◌, ◌≡◌, refl, sym, ap, ◌∙◌, arith}
use netkitty.Base.{min, Bool-cases, inl, inr, none, List, []}
use netkitty.Base.{◌∷◌, ◌++◌, length, drop, get_elem?, tabulate, length-tabulate, ltb}
use netkitty.Base.{
  leb, tabulate_last, tabulate_eq, drop-tabulate, get_elem?-tabulate, ◌==◌, ==_iff, leb→le,
}
use netkitty.Base.{get_elem?-none, get_or-set_self, get_or-set_lt, length-set}
use netkitty.Base.{if◌then◌else◌}
use netkitty.Analysis.Store.Column.{length-copy_within, get_or-copy_within}
use netkitty.Analysis.Store.Rows.{
  HasLength, IsValid, rows, stored, each-HasLength, record_at-each, with_room-Roomy,
}
use netkitty.Analysis.Store.{
  FrameIndexRecord, Columns, Store, each, write_slot, with_room, append, record_at, get,
  copy_within, evict_oldest, new_store, new_columns, clear,
}

module _ (c : Columns) (n slot : ℕ) (r : FrameIndexRecord) (v : HasLength n c) where
  write_slot-HasLength : HasLength n (write_slot slot r c)
  unfolding write_slot
  write_slot-HasLength = record {
    file_offset = length-set c.file_offset slot _ ∙ v.file_offset;
    captured_length = length-set c.captured_length slot _ ∙ v.captured_length;
    original_length = length-set c.original_length slot _ ∙ v.original_length;
    timestamp = length-set c.timestamp slot _ ∙ v.timestamp;
    protocol_id = length-set c.protocol_id slot _ ∙ v.protocol_id;
    conversation_hash = length-set c.conversation_hash slot _ ∙ v.conversation_hash;
    direction_forward = length-set c.direction_forward slot _ ∙ v.direction_forward;
  }

-- The state after `t` has written a record at the slot behind the last.
abbrev written : Store → FrameIndexRecord → Store
written t r = record t { columns = write_slot t.size r t.columns; size = t.size + 1 }

record_at-written_old :
    (t : Store) (r : FrameIndexRecord) (i : ℕ)
    → i < t.size
    → record_at (written t r) i ≡ record_at t i
unfolding record_at write_slot
record_at-written_old t r i h = rw (
  get_or-set_lt t.columns.file_offset i t.size r.file_offset 0 h,
  get_or-set_lt t.columns.captured_length i t.size (r.captured_length % 2 ^ 32) 0 h,
  get_or-set_lt t.columns.original_length i t.size (r.original_length % 2 ^ 32) 0 h,
  get_or-set_lt t.columns.timestamp i t.size r.timestamp 0 h,
  get_or-set_lt t.columns.protocol_id i t.size (r.protocol_id % 2 ^ 16) 0 h,
  get_or-set_lt t.columns.conversation_hash i t.size (r.conversation_hash % 2 ^ 32) 0 h,
  get_or-set_lt t.columns.direction_forward i t.size (r.direction_forward % 2 ^ 8) 0 h,
)

record_at-written_new :
    (t : Store) (r : FrameIndexRecord)
    → IsValid t
    → t.size < t.capacity
    → record_at (written t r) t.size ≡ stored (t.base + t.size) r
unfolding record_at write_slot
record_at-written_new t r v free =
    let c = v.columns in
    rw (
      get_or-set_self t.columns.file_offset t.size r.file_offset 0 (omega arith),
      get_or-set_self t.columns.captured_length t.size (r.captured_length % 2 ^ 32) 0 (omega arith),
      get_or-set_self t.columns.original_length t.size (r.original_length % 2 ^ 32) 0 (omega arith),
      get_or-set_self t.columns.timestamp t.size r.timestamp 0 (omega arith),
      get_or-set_self t.columns.protocol_id t.size (r.protocol_id % 2 ^ 16) 0 (omega arith),
      get_or-set_self t.columns.conversation_hash t.size (r.conversation_hash % 2 ^ 32) 0
          (omega arith),
      get_or-set_self t.columns.direction_forward t.size (r.direction_forward % 2 ^ 8) 0
          (omega arith),
    )

-- `append` keeps the store valid, puts the record, cut to the widths of the columns, behind the
-- others, moves no record, and answers the number that the record has from then on.
pub append_refines :
    (s : Store) (r : FrameIndexRecord)
    → IsValid s
    → let (t, index) = append s r in
      IsValid t
      × (rows t ≡ rows s ++ (stored index r ∷ []))
      × (index ≡ s.base + length (rows s))
      × (t.base ≡ s.base)
unfolding append
append_refines s r v =
    let t = with_room s in
    let room = with_room-Roomy s v in
    let valid = room.valid in
    let free = room.free in
    (
      record {
        columns = write_slot-HasLength t.columns t.capacity t.size r valid.columns;
        room = omega arith;
        positive = valid.positive;
      },
      ap (λ n. tabulate n (record_at (written t r)))
            (let e : t.size + 1 ≡ suc t.size = omega arith in e)
          ∙ tabulate_last t.size (record_at (written t r))
          ∙ ap (λ l. l ++ (record_at (written t r) t.size ∷ []))
              (tabulate_eq t.size (record_at (written t r)) (record_at t)
                  (record_at-written_old t r)
                ∙ room.same_rows)
          ∙ ap (λ x. rows s ++ (x ∷ [])) (record_at-written_new t r valid free),
      omega (arith, room.size, room.base, length-tabulate s.size (record_at s)),
      room.base,
    )

-- `get` answers the record with that number while the store holds it, and null before and after.
pub get_refines :
    (s : Store) (index : ℕ)
    → get s index ≡ (if ltb index s.base then none else get_elem? (rows s) (index - s.base))
unfolding get
get_refines s index = elim (Bool-cases (leb s.size (index - s.base))) [
  | inl out ↦ ground (
    arith,
    out,
    get_elem?-none (rows s) (index - s.base)
        (omega (arith, leb→le s.size (index - s.base) out, length-tabulate s.size (record_at s))),
  )
  | inr held ↦
      let inside : index - s.base < s.size = ground arith in
      ground (arith, held, get_elem?-tabulate s.size (index - s.base) (record_at s) inside)
]

-- The state after the `n` oldest records are gone.
abbrev evicted : Store → ℕ → Store
evicted s n = record s {
  columns = each (copy_within n s.size) s.columns;
  size = s.size - n;
  base = s.base + n;
}

-- `evictOldest` keeps the store valid, takes as many of the oldest records away as it is asked to
-- (all, if there are fewer), and leaves the others with their numbers.
pub evict_oldest_refines :
    (s : Store) (count : ℕ)
    → IsValid s
    → let t = evict_oldest s count in
      IsValid t × (rows t ≡ drop (min count s.size) (rows s)) × (t.base ≡ s.base + min count s.size)
unfolding evict_oldest
evict_oldest_refines s count v = elim (Bool-cases (min count s.size == 0)) [
  | inl nothing ↦
      let none_dropped : min count s.size ≡ 0 = (==_iff (min count s.size) 0).0 nothing in
      rw nothing (v, sym (ap (λ k. drop k (rows s)) none_dropped), omega arith)
  | inr going ↦ rw going (
    record {
      columns =
          each-HasLength (copy_within (min count s.size) s.size) s.capacity s.capacity s.columns
            (λ xs h. length-copy_within xs (min count s.size) s.size (omega arith) (room xs h) ∙ h)
            v.columns;
      room = let r = v.room in omega arith;
      positive = v.positive;
    },
    tabulate_eq (s.size - min count s.size) (record_at (evicted s (min count s.size)))
          (λ i. record_at s (min count s.size + i))
          (λ i h.
            record_at-each (copy_within (min count s.size) s.size) s.capacity i
              (min count s.size + i) s (evicted s (min count s.size))
              (λ xs k. get_or-copy_within xs (min count s.size) s.size i (room xs k) h) v.columns
              refl (omega arith))
        ∙ sym (drop-tabulate (min count s.size) s.size (record_at s) (omega arith)),
    refl,
  )
]
  where
    room : (xs : List ℕ) → length xs ≡ s.capacity → s.size ≤ length xs
    room xs h = let r = v.room in omega arith

-- A new store is valid, and so is one that is cleared.
pub new_store-IsValid : (n : ℕ) → IsValid (new_store n)
unfolding new_store new_columns
new_store-IsValid n =
    let filled : length (replicate (max 1 n) 0) ≡ max 1 n = length-replicate (max 1 n) 0 in
    record {
      columns = record {
        file_offset = filled;
        captured_length = filled;
        original_length = filled;
        timestamp = filled;
        protocol_id = filled;
        conversation_hash = filled;
        direction_forward = filled;
      };
      room = omega arith;
      positive = omega arith;
    }

pub clear-IsValid : (s : Store) → IsValid s → IsValid (clear s)
unfolding clear
clear-IsValid s v = record { columns = v.columns; room = omega arith; positive = v.positive }
