-- ===== src/Codec/Fields/Stable.antt =====
-- A header that is decoded and encoded again by BaseHeader.ts: its packet and its errors.
use netkitty.Base.{ℕ, ◌+◌, ◌-◌, ◌≡◌, ◌≤◌, le→ltb-false, if_false, true, false}
use netkitty.Base.{arith, refl, sym, ap, ◌∙◌, some, List, [], ◌∷◌, ◌++◌, length, take, drop, All}
use netkitty.Base.{replicate, take-append, take-drop, drop-add, length-take, length-drop}
use netkitty.Base.Int.{ℤ, pos, negsuc, clamp_zero}
use netkitty.Base.Text.{Text}
use netkitty.Base.Dict
use netkitty.Base.Dict.{text_key}
use netkitty.Codec.Header.Padding.{write_over, over}
use netkitty.Codec.Bits.Octets.{IsBytes, take-IsBytes, drop-IsBytes}
use netkitty.Codec.Fields.{
  Field, FieldKind, HeaderState, u_int, int8, byte_length, maximum, number_to_buffer, read, width,
}
use netkitty.Base.Lists.{each, each-keeps, gather}
use netkitty.Base.{Option, none, append-nil}
use mathlib.Core.Path.{subst}
use netkitty.Codec.Header.{FieldByteRange, read_bytes}
use netkitty.Codec.Header.Writes.{Holds, trim-Holds, read_raw-start_pos}
use netkitty.Codec.Fields.{
  decode_fields, decode_field, decode_step, at_path, enter, encode_fields, encode_field,
}
use netkitty.Codec.Fields.RoundTrip.{found, decodes_found, enter_lem}
use netkitty.Codec.Fields.Errors.{
  AllNamed, HasOtherName, complaints, encode_fields-errors, messages, reports,
}
use netkitty.Codec.Fields.Values.{clamped}
use netkitty.Codec.Fields.Encoded.{
  AllApart, All-zip, IsApart, IsFixed, bytes_for, encodes-Holds, seen, value_for, value_for-put,
  written,
}
use netkitty.Codec.Fields.Shown.{read-IsShown}

-- A part that is written as it is.
window-rewritten :
    (o n : ℕ) (v : List ℕ) → o + n ≤ length v → write_over o (take n (drop o v)) v ≡ v
window-rewritten o n v h =
    let w = take n (drop o v) in
    let wide : length w ≡ n = omega (arith, length-take {0} n (drop o v), length-drop {0} o v) in
    ap (λ p. p ++ (w ++ drop (o + length w) v))
      (take-append o v (replicate (o - length v) 0) (omega arith))
    ∙ ap (λ l. take o v ++ (w ++ drop (o + l) v)) wide
    ∙ ap (λ p. take o v ++ (w ++ p)) (drop-add o n v)
    ∙ ap (λ p. take o v ++ p) (take-drop n (drop o v))
    ∙ take-drop o v

-- A field whose octets are all in the packet.
abbrev pub IsInside : ℕ → List ℕ → Field → Type 0
IsInside start v f = start + f.offset + width f.kind ≤ length v

over_same :
    (start : ℕ) (fs : List Field) (m : List (Text × ℤ)) (v : List ℕ)
    → AllApart fs
    → All (IsInside start v) fs
    → All (λ f. bytes_for m f ≡ seen start v f) fs
    → over start (written fs m) v ≡ v
unfolding written
over_same start [] m v apart inside same = refl
over_same start (f ∷ fs) m v (apart, rest) (fits, inside) (e, same) =
    let m' = Dict.put f.name (value_for m f) m in
    ap (λ b. over start (written fs m') (write_over (start + f.offset) b v)) e
    ∙ ap (over start (written fs m')) (window-rewritten (start + f.offset) (width f.kind) v fits)
    ∙ over_same start fs m' v rest inside (
        All-zip (IsApart f) (λ g. bytes_for m g ≡ seen start v g) _
          (λ g p q.
            ap (number_to_buffer (width g.kind)) (value_for-put f g (value_for m f) m p) ∙ q)
          fs apart same)

-- What the decoder finds in a field of the packet.
shown :
    (start : ℕ) (v : List ℕ) (m : List (Text × ℤ)) (f : Field)
    → IsBytes v
    → IsFixed f
    → IsInside start v f
    → Dict.get f.name m ≡ some (found start v f)
    → (value_for m f ≡ found start v f) × (bytes_for m f ≡ seen start v f)
shown start v m f bytes fixed inside e =
    let w = seen start v f in
    let same : read f.kind w ≡ found start v f =
      ap (λ n. read f.kind (take n (drop (start + f.offset) v))) (sym fixed) in
    let r =
      read-IsShown f.kind w
        (omega (
          arith,
          length-take {0} (width f.kind) (drop (start + f.offset) v),
          length-drop {0} (start + f.offset) v,
          inside,
        ))
        (take-IsBytes (width f.kind) _ (drop-IsBytes (start + f.offset) v bytes)) in
    let value : value_for m f ≡ read f.kind w =
      ap (clamped f.kind) (e ∙ ap some (sym same)) ∙ r.kept in
    (value ∙ same, ap (number_to_buffer (width f.kind)) value ∙ r.back)

neg_part : ℤ → ℕ
neg_part (pos n) = 0
neg_part (negsuc n) = n

-- Of a value that a field keeps there is nothing to say.
messages-kept : (kind : FieldKind) (z : ℤ) → clamped kind (some z) ≡ z → messages kind (some z) ≡ []
unfolding neg_part maximum
messages-kept kind (pos n) h =
    if_false _ _ (le→ltb-false (maximum kind) n (omega (arith, ap clamp_zero h)))
messages-kept (u_int w) (negsuc n) h = cc
messages-kept int8 (negsuc n) h = if_false _ _ (le→ltb-false 127 n (omega (arith, ap neg_part h)))

complaints_nil :
    (id : Text) (m : List (Text × ℤ)) (start : ℕ) (v : List ℕ) (fs : List Field)
    → All (λ f. Dict.get f.name m ≡ some (found start v f)) fs
    → All (λ f. value_for m f ≡ found start v f) fs
    → gather (complaints id m) fs ≡ []
complaints_nil id m start v [] es hs = refl
complaints_nil id m start v (f ∷ fs) (e, es) (h, hs) =
    let quiet : messages f.kind (Dict.get f.name m) ≡ [] =
      ap (messages f.kind) e
      ∙ messages-kept f.kind (found start v f) (ap (clamped f.kind) (sym e) ∙ h) in
    ap (λ ts. reports id f.name ts ++ gather (complaints id m) fs) quiet
    ∙ complaints_nil id m start v fs es hs

AllApart-AllNamed : (fs : List Field) → AllApart fs → AllNamed fs
AllApart-AllNamed [] apart = tt
AllApart-AllNamed (f ∷ fs) (all, apart) = (
  All-zip (IsApart f) (IsApart f) (HasOtherName f) (λ g p q. p.0) fs all all,
  AllApart-AllNamed fs apart,
)

module _ {H : Type 0} where
  enter_keeps :
      (f : Field) (s : HeaderState H) (o : Option (List (Text × FieldByteRange)))
      → s.header.byte_ranges ≡ o
      → ((enter f s).id ≡ s.id) × ((enter f s).errors ≡ s.errors)
  unfolding enter at_path
  enter_keeps f s none e = rw (e, enter) (refl, refl)
  enter_keeps f s (some ranges) e = rw (e, enter) (refl, refl)

  -- Decoding the fields changes neither the packet, nor where the header starts, nor the errors.
  decodes_keep :
      (fs : List Field) (s : HeaderState H)
      → ((decode_fields fs s).codec_data ≡ s.codec_data)
        × (((decode_fields fs s).header.start_pos ≡ s.header.start_pos)
            × ((decode_fields fs s).errors ≡ s.errors))
  unfolding decode_fields at_path decode_step decode_field read_bytes
  decodes_keep fs s = (
    each-keeps (λ t. t.codec_data) decode_step (λ f t. (enter_lem f t t.header.byte_ranges refl).0)
        fs s,
    (
      each-keeps (λ t. t.header.start_pos) decode_step
          (λ f t.
            read_raw-start_pos f.offset (byte_length f.kind) false true (enter f t).codec_data
              (enter f t).header
            ∙ (enter_lem f t t.header.byte_ranges refl).1.0)
          fs s,
      each-keeps (λ t. t.errors) decode_step (λ f t. (enter_keeps f t t.header.byte_ranges refl).1)
          fs s,
    ),
  )

  -- A header whose fields have different names, one, two or four octets each and none in common,
  -- and stand inside a packet of octets: when it is decoded and encoded again, the packet is what
  -- it was, and no error is added.
  pub encode_fields-decode_fields :
      (fs : List Field) (k : ℕ) (v : List ℕ) (s : HeaderState H)
      → Holds s.codec_data v k
      → IsBytes v
      → AllApart fs
      → All IsFixed fs
      → All (IsInside s.header.start_pos v) fs
      → let t = encode_fields fs (decode_fields fs s) in
        (t.codec_data.packet ≡ v) × (t.errors ≡ s.errors)
  unfolding encode_fields
  encode_fields-decode_fields fs k v s hd bytes apart fixed inside =
      let start = s.header.start_pos in
      let u = decode_fields fs s in
      let m = u.node_values in
      let (same, (place, errors)) = decodes_keep fs s in
      let got : All (λ f. Dict.get f.name m ≡ some (found start v f)) fs =
        unfold decode_fields at_path in decodes_found fs k v s hd apart in
      let shows : All (λ f. (value_for m f ≡ found start v f) × (bytes_for m f ≡ seen start v f))
          fs =
        All-zip (λ f. IsFixed f × IsInside start v f) _ _
          (λ f p e. shown start v m f bytes p.0 p.1 e) fs
          (All-zip IsFixed (IsInside start v) _ (λ f p q. (p, q)) fs fixed inside) got in
      let (j, held) = encodes-Holds fs k v u (subst (λ c. Holds c v k) (sym same) hd) in
      (
        trim-Holds j _ (each encode_field fs u).codec_data held
            ∙ ap (λ p. over p (written fs m) v) place
            ∙ over_same start fs m v apart inside
                (All-zip _ _ (λ f. bytes_for m f ≡ seen start v f) (λ f p q. p.1) fs shows shows),
        encode_fields-errors fs u (AllApart-AllNamed fs apart)
            ∙ ap (λ es. u.errors ++ es)
                (complaints_nil u.id m start v fs got (
                  All-zip _ _ (λ f. value_for m f ≡ found start v f) (λ f p q. p.0) fs shows shows))
            ∙ append-nil u.errors
            ∙ errors,
      )
