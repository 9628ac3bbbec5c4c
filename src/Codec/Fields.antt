-- ===== src/Codec/Fields.antt =====
-- The field factories `fieldUInt` and `fieldInt8` of packages/codec/src/abstracts/BaseHeader.ts,
-- with helper/BufferToNumber.ts and helper/NumberToBuffer.ts, and the loops of `decode` and
-- `encode` over the fields of a header that has only such fields. The closures of such fields never
-- throw, and no field of them registers a handler. A value of `instance` that is missing from
-- `node_values` is undefined.
pub mod Values
pub mod Windows
pub mod Encoded
pub mod Errors
pub mod RoundTrip
pub mod Shown
pub mod Stable
use netkitty.Base.{
  ℕ, ◌-◌, ◌^◌, ltb, leb, ◌==◌, if◌then◌else◌, Bool, true, false, Option, none, some,
}
use netkitty.Base.{List, [], ◌∷◌, ◌++◌, length, take}
use netkitty.Base.Int.{ℤ, pos, negsuc}
use netkitty.Base.Text.{Text, text, decimal}
use netkitty.Base.Lists.{each}
use netkitty.Base.Dict
use netkitty.Base.Dict.{text_key}
use netkitty.Codec.Header.{
  CodecData, CodecErrorInfo, Header, FieldByteRange, read_bytes, write_bytes, trim,
}
use netkitty.Codec.Bits.{number_from, octets, wrap}

-- `fieldUInt` of a number of octets, or `fieldInt8`.
pub data FieldKind : Type 0 where
  u_int : ℕ → FieldKind
  int8 : FieldKind

pub record Field : Type 0 where
  pub name : Text
  pub offset : ℕ
  pub kind : FieldKind

pub record HeaderState (H : Type 0) : Type 0 where
  pub id : Text
  pub codec_data : CodecData H
  pub header : Header
  pub node_values : List (Text × ℤ)
  pub errors : List CodecErrorInfo

-- How many octets the reader and the writer of a field of `byteLength` octets take.
unfoldable pub width : FieldKind → ℕ
width (u_int byte_length) = if byte_length == 1 then 1 else (if byte_length == 2 then 2 else 4)
width int8 = 1

unfoldable pub byte_length : FieldKind → ℕ
byte_length (u_int n) = n
byte_length int8 = 1

unfoldable pub maximum : FieldKind → ℕ
maximum (u_int n) = if n == 1 then 255 else (if n == 2 then 65535 else 4294967295)
maximum int8 = 127

-- `BufferToUInt8`, `BufferToUInt16` and `BufferToUInt32`: a buffer that is too short is a shorter
-- number.
unfoldable pub buffer_to_uint : ℕ → List ℕ → ℕ
unfolding number_from
buffer_to_uint n buffer =
    if leb n (length buffer) then number_from 0 (take n buffer) else number_from 0 buffer

-- `BufferToInt8`
unfoldable pub buffer_to_int8 : List ℕ → ℤ
buffer_to_int8 [] = pos 0
buffer_to_int8 (b ∷ bs) = if ltb 127 b then negsuc (255 - b) else pos b

unfoldable pub read : FieldKind → List ℕ → ℤ
unfolding buffer_to_uint buffer_to_int8 width
read (u_int n) buffer = pos (buffer_to_uint (width (u_int n)) buffer)
read int8 buffer = buffer_to_int8 buffer

-- `UInt8ToBuffer`, `UInt16ToBuffer`, `UInt32ToBuffer` and `Int8ToBuffer`: the low octets.
unfoldable pub number_to_buffer : ℕ → ℤ → List ℕ
unfolding octets wrap
number_to_buffer n value = octets n (wrap value (256 ^ n)) []

unfoldable pub is_above : ℤ → ℕ → Bool
is_above (pos n) most = ltb most n
is_above (negsuc n) most = false

-- `value < minimum`, where the minimum is 0, or -128.
unfoldable pub is_below : FieldKind → ℤ → Bool
is_below kind (pos n) = false
is_below (u_int w) (negsuc n) = true
is_below int8 (negsuc n) = ltb 127 n

unfoldable pub minimum : FieldKind → ℤ
minimum (u_int n) = pos 0
minimum int8 = negsuc 127

unfoldable pub minimum_text : FieldKind → Text
minimum_text (u_int n) = text "Minimum value is 0"
minimum_text int8 = text "Minimum value is -128"

module _ {H : Type 0} where
  unfoldable pub record_error : Text → Text → HeaderState H → HeaderState H
  record_error path message s = record s {
    errors = s.errors ++ (record { id = s.id; path = path; message = message } ∷ []);
  }

  -- `getValue(0, …)`
  unfoldable pub get_value : Field → HeaderState H → ℤ × HeaderState H
  unfolding record_error
  get_value f s = elim (Dict.get f.name s.node_values) [
    | none ↦ (pos 0, record_error f.name (text "Not Found") s)
    | some value ↦ (value, s)
  ]

  unfoldable pub cut_above : Field → ℤ × HeaderState H → ℤ × HeaderState H
  unfolding record_error is_above maximum
  cut_above f (value, s) =
      if is_above value (maximum f.kind)
      then (
        pos (maximum f.kind),
        record_error f.name (text "Maximum value is " ++ decimal (maximum f.kind)) s,
      )
      else (value, s)

  unfoldable pub cut_below : Field → ℤ × HeaderState H → ℤ × HeaderState H
  unfolding record_error is_below minimum
  cut_below f (value, s) =
      if is_below f.kind value
      then (minimum f.kind, record_error f.name (minimum_text f.kind) s)
      else (value, s)

  -- `node.setValue(value); this.writeBytes(offset, write(value))`
  unfoldable pub put_value : Field → ℤ × HeaderState H → HeaderState H
  unfolding number_to_buffer width
  put_value f (value, s) =
      let w = write_bytes f.offset (number_to_buffer (width f.kind) value) s.codec_data s.header in
      record s { codec_data = w.0; header = w.1; node_values = Dict.put f.name value s.node_values }

  unfoldable pub encode_field : Field → HeaderState H → HeaderState H
  unfolding get_value cut_above cut_below put_value
  encode_field f s = put_value f (cut_below f (cut_above f (get_value f s)))

  unfoldable pub decode_field : Field → HeaderState H → HeaderState H
  unfolding read byte_length
  decode_field f s =
      let r = read_bytes f.offset (byte_length f.kind) false s.codec_data s.header in
      record s { header = r.0; node_values = Dict.put f.name (read f.kind r.1) s.node_values }

  -- `this.#currentFieldPath = path`
  unfoldable pub at_path : Text → HeaderState H → HeaderState H
  at_path path s = record s { header = record s.header { current_field_path = path } }

  -- A dissection notes the path of the field that it reads.
  unfoldable pub enter : Field → HeaderState H → HeaderState H
  unfolding at_path
  enter f s = elim s.header.byte_ranges [ none ↦ s | some ranges ↦ at_path f.name s ]

  unfoldable pub decode_step : Field → HeaderState H → HeaderState H
  unfolding decode_field enter
  decode_step f s = decode_field f (enter f s)

  unfoldable pub decode_fields : List Field → HeaderState H → HeaderState H
  unfolding decode_step each at_path
  decode_fields fs s = at_path [] (each decode_step fs s)

  unfoldable pub encode_fields : List Field → HeaderState H → HeaderState H
  unfolding encode_field each
  encode_fields fs s = let t = each encode_field fs s in record t { codec_data = trim t.codec_data }
