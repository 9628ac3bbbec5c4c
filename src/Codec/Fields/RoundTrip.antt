-- ===== src/Codec/Fields/RoundTrip.antt =====
-- The fields of a header, written by `encode` of BaseHeader.ts and read back by `decode`.
use mathlib.Core.Path.{subst}
use netkitty.Base.{ℕ, ◌+◌, ◌≡◌, true, false, if_true, if_false, Option, none, some}
use netkitty.Base.{arith, refl, sym, ap, ◌∙◌, List, [], ◌∷◌, take, drop, All}
use netkitty.Base.Int.{ℤ}
use netkitty.Base.Text.{Text, text_eq, text_eq_iff, text_eq_refl}
use netkitty.Base.Lists.{each}
use netkitty.Base.Dict
use netkitty.Base.Dict.{text_key, get-put}
use netkitty.Codec.Header.{FieldByteRange, read_bytes}
use netkitty.Codec.Header.Writes.{Holds, read_bytes-Holds, read_raw-start_pos}
use netkitty.Codec.Fields.{
  Field, HeaderState, byte_length, read, decode_field, at_path, enter, decode_step, decode_fields,
  encode_fields,
}
use netkitty.Codec.Fields.Values.{read-number_to_buffer}
use netkitty.Codec.Fields.Encoded.{
  AllApart, IsApart, IsFixed, value_for, encode_fields-Holds, All-zip,
}

text_eq_swap : (a b : Text) → text_eq a b ≡ false → text_eq b a ≡ false
text_eq_swap a b h = ground (arith, text_eq_iff a b, text_eq_iff b a)

-- What a field reads from a packet.
abbrev pub found : ℕ → List ℕ → Field → ℤ
found start v f = read f.kind (take (byte_length f.kind) (drop (start + f.offset) v))

module _ {H : Type 0} where
  pub enter_lem :
      (f : Field) (s : HeaderState H) (o : Option (List (Text × FieldByteRange)))
      → s.header.byte_ranges ≡ o
      → ((enter f s).codec_data ≡ s.codec_data)
        × (((enter f s).header.start_pos ≡ s.header.start_pos)
            × ((enter f s).node_values ≡ s.node_values))
  unfolding enter at_path
  enter_lem f s none e = rw (e, enter) (refl, (refl, refl))
  enter_lem f s (some ranges) e = rw (e, enter) (refl, (refl, refl))

  -- What `decode` does for a field.
  pub decode_step_lem :
      (f : Field) (k : ℕ) (v : List ℕ) (s : HeaderState H)
      → Holds s.codec_data v k
      → ((decode_step f s).codec_data ≡ s.codec_data)
        × (((decode_step f s).header.start_pos ≡ s.header.start_pos)
            × ((decode_step f s).node_values
                ≡ Dict.put f.name (found s.header.start_pos v f) s.node_values))
  unfolding decode_step decode_field read_bytes
  decode_step_lem f k v s hd =
      let (d, (h, m)) = enter_lem f s s.header.byte_ranges refl in
      let t = enter f s in
      let n = byte_length f.kind in
      let seen_bytes : (read_bytes f.offset n false t.codec_data t.header).1
          ≡ take n (drop (s.header.start_pos + f.offset) v) =
        read_bytes-Holds f.offset n k false v t.codec_data t.header
          (subst (λ c. Holds c v k) (sym d) hd)
        ∙ ap (λ p. take n (drop (p + f.offset) v)) h in
      (
        d,
        (
          read_raw-start_pos f.offset n false true t.codec_data t.header ∙ h,
          ap
                (λ m'.
                  Dict.put f.name
                    (read f.kind (read_bytes f.offset n false t.codec_data t.header).1) m')
                m
              ∙ ap (λ b. Dict.put f.name (read f.kind b) s.node_values) seen_bytes,
        ),
      )

  decodes_other :
      (f : Field) (fs : List Field) (k : ℕ) (v : List ℕ) (s : HeaderState H)
      → Holds s.codec_data v k
      → All (IsApart f) fs
      → Dict.get f.name (each decode_step fs s).node_values ≡ Dict.get f.name s.node_values
  unfolding each
  decodes_other f [] k v s hd all = refl
  decodes_other f (g ∷ fs) k v s hd ((names, apart), all) =
      let (d, (h, m)) = decode_step_lem g k v s hd in
      decodes_other f fs k v (decode_step g s) (subst (λ c. Holds c v k) (sym d) hd) all
      ∙ ap (Dict.get f.name) m
      ∙ get-put g.name f.name _ s.node_values
      ∙ if_false _ _ (text_eq_swap f.name g.name names)

  -- After `decode` each field has the value that it reads from the packet.
  pub decodes_found :
      (fs : List Field) (k : ℕ) (v : List ℕ) (s : HeaderState H)
      → Holds s.codec_data v k
      → AllApart fs
      → All
          (λ f.
            Dict.get f.name (each decode_step fs s).node_values
            ≡ some (found s.header.start_pos v f))
          fs
  unfolding each
  decodes_found [] k v s hd apart = tt
  decodes_found (f ∷ fs) k v s hd (all, apart) =
      let (d, (h, m)) = decode_step_lem f k v s hd in
      let t = decode_step f s in
      let held : Holds t.codec_data v k = subst (λ c. Holds c v k) (sym d) hd in
      (
        decodes_other f fs k v t held all
            ∙ ap (Dict.get f.name) m
            ∙ get-put f.name f.name _ s.node_values
            ∙ if_true _ _ (text_eq_refl f.name),
        subst
            (λ p.
              All (λ g. Dict.get g.name (each decode_step fs t).node_values ≡ some (found p v g))
                fs)
            h (decodes_found fs k v t held apart),
      )

  -- Where the fields of a header have different names and no octet in common, and each has one, two
  -- or four octets, a header that starts at the same place decodes from the packet that `encode`
  -- has left, for every field, the value that it was given: 0 for a missing one, and the nearest
  -- value that the field can hold for any other.
  pub decode_fields-encode_fields :
      (fs : List Field) (k : ℕ) (v : List ℕ) (s s' : HeaderState H)
      → Holds s.codec_data v k
      → AllApart fs
      → All IsFixed fs
      → s'.codec_data ≡ (encode_fields fs s).codec_data
      → s'.header.start_pos ≡ s.header.start_pos
      → All
          (λ f.
            Dict.get f.name (decode_fields fs s').node_values ≡ some (value_for s.node_values f))
          fs
  unfolding decode_fields at_path
  decode_fields-encode_fields fs k v s s' hd apart fixed same start =
      let (p, held, shown) = encode_fields-Holds fs k v s hd apart in
      let given : All (λ f. found s.header.start_pos p f ≡ value_for s.node_values f) fs =
        All-zip IsFixed _ _
          (λ f fix show.
            ap (λ n. read f.kind (take n (drop (s.header.start_pos + f.offset) p))) fix
            ∙ ap (read f.kind) show
            ∙ read-number_to_buffer f.kind (Dict.get f.name s.node_values))
          fs fixed shown in
      All-zip
        (λ f.
          Dict.get f.name (decode_fields fs s').node_values ≡ some (found s'.header.start_pos p f))
        (λ f. found s.header.start_pos p f ≡ value_for s.node_values f) _
        (λ f e q. e ∙ ap (λ x. some (found x p f)) start ∙ ap some q) fs
        (decodes_found fs 0 p s' (subst (λ c. Holds c p 0) (sym same) held) apart) given
