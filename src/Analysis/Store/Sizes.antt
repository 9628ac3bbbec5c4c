-- ===== src/Analysis/Store/Sizes.antt =====
-- ColumnarIndexStore.ts: the number of records that an eviction leaves.
use netkitty.Base.{ℕ, ◌-◌, ◌≡◌, arith}
use netkitty.Analysis.Store.{Store, count, evict_oldest}

pub count-evict_oldest : (s : Store) (n : ℕ) → count (evict_oldest s n) ≡ count s - n
unfolding count evict_oldest
count-evict_oldest s n = ground arith
