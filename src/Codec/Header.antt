-- ===== src/Codec/Header.antt =====
-- How a header of packages/codec/src/abstracts/BaseHeader.ts reads and writes the packet: the
-- buffer with its headroom, the header's length, and the byte ranges of a dissection. `H` is the
-- type of the closures that post handlers hold. A Buffer is the list of its bytes, and a view of it
-- (`subarray`) the bytes that it shows.
pub mod Padding
pub mod Writes
use netkitty.Base.{
  ℕ, ◌+◌, ◌-◌, ◌*◌, ◌/◌, ◌%◌, ◌^◌, zero, suc, ltb, leb, ◌==◌, if◌then◌else◌, min, max,
}
use netkitty.Base.{Bool, true, false, ◌&&◌, not, Option, none, some}
use netkitty.Base.{List, [], ◌∷◌, ◌++◌, length, take, drop, replicate, get_or}
use netkitty.Base.Int.{ℤ, pos, negsuc}
use netkitty.Base.Text.{Text}
use netkitty.Base.Dict
use netkitty.Base.Dict.{text_key}

pub record PostHandlerItem (H : Type 0) : Type 0 where
  pub priority : ℕ
  pub handler : H

-- `post_handlers` has a hole (`none`) for every header that registers no handler.
pub record CodecData (H : Type 0) : Type 0 where
  pub packet : List ℕ
  pub packet_length : Option ℕ
  pub start_pos : ℕ
  pub post_handlers : List (Option (List (PostHandlerItem H)))

pub record CodecErrorInfo : Type 0 where
  pub id : Text
  pub path : Text
  pub message : Text

pub record FieldByteRange : Type 0 where
  pub offset : ℕ
  pub size : ℕ

-- The fields of `this` that reads and writes use.
pub record Header : Type 0 where
  pub start_pos : ℕ
  pub header_length : ℕ
  pub byte_ranges : Option (List (Text × FieldByteRange))
  pub current_field_path : Text

-- The buffer is made larger if it has to be, at least doubled, and its logical bytes are copied.
unfoldable pub grown : ℕ → ℕ → List ℕ → List ℕ
grown end logical packet =
    if ltb (length packet) end
    then (let copied = take logical packet in
        copied ++ replicate (max end (length packet * 2) - length copied) 0)
    else packet

module _ {H : Type 0} where
  -- `codecData.packetLength ?? codecData.packet.length`
  unfoldable pub logical_length : CodecData H → ℕ
  logical_length d = elim d.packet_length [ none ↦ length d.packet | some n ↦ n ]

  -- The getter `packet`: the logical bytes.
  unfoldable pub packet_of : CodecData H → List ℕ
  packet_of d = elim d.packet_length [
    | none ↦ d.packet
    | some n ↦ if n == length d.packet then d.packet else take n d.packet
  ]

  -- The setter `packet`.
  unfoldable pub set_packet : List ℕ → CodecData H → CodecData H
  set_packet packet d = record d { packet = packet; packet_length = some (length packet) }

  unfoldable pub expand : ℕ → CodecData H → CodecData H
  unfolding grown logical_length
  expand end d = record d {
    packet = grown end (logical_length d) d.packet;
    packet_length = some end;
  }

-- The span of a read extends the range that its field has so far.
unfoldable pub joined : ℕ → ℕ → Option FieldByteRange → FieldByteRange
joined start size none = record { offset = start; size = size }
joined start size (some r) =
    let first = min r.offset start in
    record { offset = first; size = max (r.offset + r.size) (start + size) - first }

unfoldable pub track : ℕ → ℕ → Header → Header
unfolding joined
track start size h = elim h.byte_ranges [
  | none ↦ h
  | some ranges ↦ if length h.current_field_path == 0 then h else record h {
    byte_ranges = some (
        Dict.put h.current_field_path (joined start size (Dict.get h.current_field_path ranges))
          ranges);
  }
]

unfoldable pub changed_length : Bool → ℕ → Header → Header
changed_length change end h =
    if change then record h { header_length = max h.header_length (end - h.start_pos) } else h

-- `buffer.fill(bytes, start)` for bytes that fit.
unfoldable pub fill : ℕ → List ℕ → List ℕ → List ℕ
fill start bytes buffer = take start buffer ++ (bytes ++ drop (start + length bytes) buffer)

-- The first `n` bytes of a buffer that has more.
unfoldable pub trimmed : Option ℕ → List ℕ → List ℕ
trimmed none packet = packet
trimmed (some n) packet = if ltb n (length packet) then take n packet else packet

module _ {H : Type 0} where
  -- The end of a read: past the logical length it stops there, unless the read expands the packet.
  unfoldable pub read_end : CodecData H → ℕ → Bool → ℕ
  unfolding logical_length
  read_end d end expanding =
      if ltb (logical_length d) end then (if expanding then end else logical_length d) else end

  -- `#readBytes`: the data and the header after it, and the bytes that it answers.
  unfoldable pub read_raw :
      ℕ → ℕ → Bool → Bool → CodecData H → Header → (CodecData H × Header) × List ℕ
  unfolding logical_length expand read_end changed_length track
  read_raw offset size expanding change d h =
      let start = h.start_pos + offset in
      let end = read_end d (start + size) expanding in
      let d' =
        if ltb (logical_length d) (start + size) && expanding then expand (start + size) d else d in
      (
        (d', track start size (changed_length change end h)),
        take (end - start) (drop start d'.packet),
      )

  -- `readBytes`: a read never changes the packet.
  unfoldable pub read_bytes : ℕ → ℕ → Bool → CodecData H → Header → Header × List ℕ
  unfolding read_raw
  read_bytes offset size dry_run d h =
      let r = read_raw offset size false (not dry_run) d h in (r.0.1, r.1)

  unfoldable pub write_bytes : ℕ → List ℕ → CodecData H → Header → CodecData H × Header
  unfolding read_raw fill
  write_bytes offset bytes d h =
      let r = read_raw offset (length bytes) true true d h in
      let start = h.start_pos + offset in
      (record r.0.0 { packet = fill start bytes r.0.0.packet }, r.0.1)

  -- The end of `encode`: the buffer loses its headroom.
  unfoldable pub trim : CodecData H → CodecData H
  unfolding trimmed
  trim d = record d { packet = trimmed d.packet_length d.packet; packet_length = none }
