-- ===== src/Codec/Examples/Fields.antt =====
-- A header of three fields: a port above the maximum, one that is missing, and a signed number.
use netkitty.Base.{ℕ, ◌≡◌, arith, refl, inl, some, List, [], ◌∷◌, All}
use netkitty.Base.Int.{pos, negsuc}
use netkitty.Base.Text.{Text, text, text_eq, decimal}
use netkitty.Base.Dict
use netkitty.Base.Dict.{text_key}
use netkitty.Codec.Header.{CodecErrorInfo}
use netkitty.Base.{none}
use netkitty.Codec.Examples.{header, packet_data, packet_data-Holds}
use netkitty.Codec.Fields.{
  Field, HeaderState, byte_length, decode_fields, encode_fields, int8, maximum, u_int, width,
}
use netkitty.Codec.Fields.Encoded.{AllApart, IsFixed}
use netkitty.Codec.Fields.Errors.{AllNamed, encode_fields-errors}
use netkitty.Codec.Header.{logical_length}
use netkitty.Codec.Header.Writes.{Holds}
use netkitty.Codec.Fields.Stable.{IsInside, encode_fields-decode_fields}
use netkitty.Codec.Fields.RoundTrip.{decode_fields-encode_fields}

abbrev fields : List Field
fields =
    record { name = text "srcport"; offset = 0; kind = u_int 2 }
    ∷ record { name = text "dstport"; offset = 2; kind = u_int 2 }
    ∷ record { name = text "poll"; offset = 4; kind = int8 }
    ∷ []

abbrev given : HeaderState ℕ
given = record {
  id = text "udp";
  codec_data = packet_data;
  header = header;
  node_values = (text "srcport", pos 70000) ∷ (text "poll", negsuc 1) ∷ [];
  errors = [];
}

abbrev reader : HeaderState ℕ
reader = record {
  id = text "udp";
  codec_data = (encode_fields fields given).codec_data;
  header = header;
  node_values = [];
  errors = [];
}

fields-AllApart : AllApart fields
unfolding text_eq width
fields-AllApart = (
  ((refl, inl (omega arith)), ((refl, inl (omega arith)), tt)),
  (((refl, inl (omega arith)), tt), (tt, tt)),
)

fields-AllFixed : All IsFixed fields
unfolding byte_length width
fields-AllFixed = (refl, (refl, (refl, tt)))

decode_fields-encode_fields_example :
    let m = (decode_fields fields reader).node_values in
    (Dict.get (text "srcport") m ≡ some (pos 65535))
    × ((Dict.get (text "dstport") m ≡ some (pos 0))
        × ((Dict.get (text "poll") m ≡ some (negsuc 1)) × Unit {0}))
unfolding maximum Dict.get text_eq decimal
decode_fields-encode_fields_example =
    decode_fields-encode_fields fields 0 (1 ∷ 2 ∷ 0x45 ∷ 4 ∷ []) given reader packet_data-Holds
      fields-AllApart fields-AllFixed refl refl

fields-AllNamed : AllNamed fields
unfolding text_eq
fields-AllNamed = ((refl, (refl, tt)), ((refl, tt), (tt, tt)))

abbrev complaint : Text → Text → CodecErrorInfo
complaint path message = record { id = text "udp"; path = path; message = message }

encode_fields-errors_example :
    (encode_fields fields given).errors
    ≡ complaint (text "srcport") (text "Maximum value is 65535")
      ∷ complaint (text "dstport") (text "Not Found")
      ∷ []
unfolding maximum Dict.get text_eq decimal
encode_fields-errors_example = encode_fields-errors fields given fields-AllNamed

-- A packet in which the header stands behind two bytes, with one byte behind it.
abbrev received_bytes : List ℕ
received_bytes = 1 ∷ 2 ∷ 0x1f ∷ 0x90 ∷ 0 ∷ 53 ∷ 0xfa ∷ 7 ∷ []

abbrev received : HeaderState ℕ
received = record {
  id = text "udp";
  codec_data = record {
    packet = received_bytes;
    packet_length = none;
    start_pos = 2;
    post_handlers = [];
  };
  header = header;
  node_values = [];
  errors = [];
}

received-Holds : Holds received.codec_data received_bytes 0
unfolding logical_length
received-Holds = record { padded = refl; measured = refl }

fields-AllInside : All (IsInside 2 received_bytes) fields
unfolding width
fields-AllInside = (omega arith, (omega arith, (omega arith, tt)))

encode_fields-decode_fields_example :
    let t = encode_fields fields (decode_fields fields received) in
    (t.codec_data.packet ≡ received_bytes) × (t.errors ≡ [])
encode_fields-decode_fields_example =
    encode_fields-decode_fields fields 0 received_bytes received received-Holds (omega arith)
      fields-AllApart fields-AllFixed fields-AllInside
