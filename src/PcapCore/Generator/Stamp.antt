-- ===== src/PcapCore/Generator/Stamp.antt =====
-- The timestamps of packages/pcap-core/src/PcapGenerator.ts and PcapngGenerator.ts.
use netkitty.Base.{ℕ, Bool, true, false, not, ◌&&◌, ◌==◌, Option, none, some}
use netkitty.Base.{if◌then◌else◌, List, ◌++◌}
use Prim.Native.String.{String}
use netkitty.Base.Int.{ℤ, pos, negsuc, clamp_zero}

-- A JavaScript number, by what the generators ask of it: whether it is finite, its floor, and
-- whether it is that whole number. Sums of them are exact below 2 ^ 53.
pub data Number : Type 0 where
  nan : Number
  infinite : Bool → Number
  finite : ℤ → Bool → Number

-- The test of a number as a condition: NaN and zero are false.
unfoldable pub is_truthy : Number → Bool
is_truthy nan = false
is_truthy (infinite negative) = true
is_truthy (finite (pos n) whole) = not (n == 0 && whole)
is_truthy (finite (negsuc n) whole) = true

pub record Seconds : Type 0 where
  pub seconds : Number
  pub microseconds : Number

-- `Number.isFinite(x) ? Math.max(0, Math.floor(x)) : 0`
unfoldable pub clamp : Number → ℕ
clamp nan = 0
clamp (infinite negative) = 0
clamp (finite floor whole) = clamp_zero floor

abbrev pub whole_number : ℕ → Number
whole_number n = finite (pos n) true

pub record Packet : Type 0 where
  pub buffer : List ℕ
  pub timestamp : Option Number
  pub microsecond : Option Seconds
  pub interface_id : Option ℕ

-- A packet whose frame is base64 text.
pub record InputPacket : Type 0 where
  pub frame_base64_data : String
  pub timestamp : Option Number
  pub microsecond : Option Seconds
  pub interface_id : Option ℕ

-- `Buffer.concat`, over parts that may have thrown.
abbrev pub concat_bytes : Option (List ℕ) → Option (List ℕ) → Option (List ℕ)
concat_bytes none rest = none
concat_bytes (some bytes) none = none
concat_bytes (some bytes) (some rest) = some (bytes ++ rest)

-- `convertMillisecond2Microsecond` goes through bignumber.js, which is no part of the repository: a
-- parameter.
module _ (convert : Number → Seconds) where
  from_timestamp : Option Number → Seconds
  from_timestamp none = record { seconds = whole_number 0; microseconds = whole_number 0 }
  from_timestamp (some t) =
      if is_truthy t
      then convert t
      else record { seconds = whole_number 0; microseconds = whole_number 0 }

  -- The seconds and microseconds of a packet, before they are clamped.
  unfoldable pub stamp : Packet → Seconds
  unfolding from_timestamp
  stamp p = elim p.microsecond [ none ↦ from_timestamp p.timestamp | some m ↦ m ]
