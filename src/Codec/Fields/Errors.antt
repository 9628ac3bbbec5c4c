-- ===== src/Codec/Fields/Errors.antt =====
-- The errors that `encode` of BaseHeader.ts records for the fields of a header.
use netkitty.Base.{
  ℕ, ◌≡◌, ltb, if◌then◌else◌, if_false, false, Bool-cases, inl, inr, arith, Option, none, some,
}
use netkitty.Base.{refl, sym, ap, ◌∙◌, List, [], ◌∷◌, ◌++◌, All, append-nil, append_assoc}
use netkitty.Base.Int.{ℤ, pos, negsuc}
use netkitty.Base.Text.{Text, text, text_eq, decimal}
use netkitty.Base.Lists.{each, gather}
use netkitty.Base.Dict
use netkitty.Base.Dict.{text_key, get-put}
use netkitty.Codec.Header.{CodecErrorInfo}
use netkitty.Codec.Fields.{
  FieldKind, u_int, int8, Field, HeaderState, maximum, is_above, is_below, minimum_text,
  record_error, get_value, cut_above, cut_below, put_value, encode_field, encode_fields,
}
use netkitty.Codec.Fields.Encoded.{value_for, encode_field_lem}

-- What is wrong with a value for a field.
abbrev pub messages : FieldKind → Option ℤ → List Text
messages kind none = text "Not Found" ∷ []
messages kind (some (pos n)) =
    if ltb (maximum kind) n then (text "Maximum value is " ++ decimal (maximum kind)) ∷ [] else []
messages (u_int w) (some (negsuc n)) = text "Minimum value is 0" ∷ []
messages int8 (some (negsuc n)) = if ltb 127 n then text "Minimum value is -128" ∷ [] else []

abbrev pub reports : Text → Text → List Text → List CodecErrorInfo
reports id path [] = []
reports id path (t ∷ ts) = record { id = id; path = path; message = t } ∷ reports id path ts

abbrev pub complaints : Text → List (Text × ℤ) → Field → List CodecErrorInfo
complaints id m f = reports id f.name (messages f.kind (Dict.get f.name m))

abbrev pub HasOtherName : Field → Field → Type 0
HasOtherName f g = text_eq f.name g.name ≡ false

abbrev pub AllNamed : List Field → Type 0
AllNamed [] = Unit
AllNamed (f ∷ fs) = All (HasOtherName f) fs × AllNamed fs

zero_fits : (kind : FieldKind) → ltb (maximum kind) 0 ≡ false
zero_fits kind = ground arith

complaints-put :
    (id : Text) (f : Field) (z : ℤ) (m : List (Text × ℤ)) (fs : List Field)
    → All (HasOtherName f) fs
    → gather (complaints id (Dict.put f.name z m)) fs ≡ gather (complaints id m) fs
complaints-put id f z m [] all = refl
complaints-put id f z m (g ∷ fs) (names, all) =
    ap
      (λ o.
        reports id g.name (messages g.kind o) ++ gather (complaints id (Dict.put f.name z m)) fs)
      (get-put f.name g.name z m ∙ if_false _ _ names)
    ∙ ap (λ es. complaints id m g ++ es) (complaints-put id f z m fs all)

module _ {H : Type 0} where
  abbrev Told : HeaderState H → HeaderState H → List CodecErrorInfo → Type 0
  Told t s es = (t.id ≡ s.id) × (t.errors ≡ s.errors ++ es)

  cut_pos :
      (f : Field) (n : ℕ) (s : HeaderState H)
      → Told
          (cut_below f (cut_above f (pos n, s))).1
          s
          (reports s.id f.name (messages f.kind (some (pos n))))
  unfolding cut_above cut_below is_above is_below record_error
  cut_pos f n s = elim (Bool-cases (ltb (maximum f.kind) n)) [
    | inl more ↦ rw more (refl, refl)
    | inr fits ↦ rw fits (refl, sym (append-nil s.errors))
  ]

  cut_neg :
      (f : Field) (n : ℕ) (s : HeaderState H) (kind : FieldKind)
      → f.kind ≡ kind
      → Told
          (cut_below f (cut_above f (negsuc n, s))).1
          s
          (reports s.id f.name (messages kind (some (negsuc n))))
  unfolding cut_above cut_below is_above is_below record_error minimum_text
  cut_neg f n s (u_int w) k = rw (k) (refl, refl)
  cut_neg f n s int8 k = elim (Bool-cases (ltb 127 n)) [
    | inl less ↦ rw (k, less) (refl, refl)
    | inr fits ↦ rw (k, fits) (refl, sym (append-nil s.errors))
  ]

  cut_errors :
      (f : Field) (s : HeaderState H) (o : Option ℤ)
      → Dict.get f.name s.node_values ≡ o
      → Told
          (cut_below f (cut_above f (get_value f s))).1
          s
          (reports s.id f.name (messages f.kind o))
  unfolding get_value record_error
  cut_errors f s none e =
      let t = record_error f.name (text "Not Found") s in
      let (i, es) = cut_pos f 0 t in
      let fits : messages f.kind (some (pos 0)) ≡ [] = if_false _ _ (zero_fits f.kind) in
      rw (e, get_value)
        (i, es ∙ ap (λ ts. t.errors ++ reports s.id f.name ts) fits ∙ append-nil t.errors)
  cut_errors f s (some (pos n)) e = rw (e, get_value) (cut_pos f n s)
  cut_errors f s (some (negsuc n)) e = rw (e, get_value) (cut_neg f n s f.kind refl)

  encode_field_errors :
      (f : Field) (s : HeaderState H) → Told (encode_field f s) s (complaints s.id s.node_values f)
  unfolding encode_field put_value
  encode_field_errors f s = cut_errors f s (Dict.get f.name s.node_values) refl

  encodes_errors :
      (fs : List Field) (s : HeaderState H)
      → AllNamed fs
      → (each encode_field fs s).errors ≡ s.errors ++ gather (complaints s.id s.node_values) fs
  unfolding each
  encodes_errors [] s apart = sym (append-nil s.errors)
  encodes_errors (f ∷ fs) s (all, apart) =
      let t = encode_field f s in
      let (i, es) = encode_field_errors f s in
      let (d, h, m) = encode_field_lem f s in
      let z = value_for s.node_values f in
      encodes_errors fs t apart
      ∙ ap (λ e. e ++ gather (complaints t.id t.node_values) fs) es
      ∙ append_assoc s.errors (complaints s.id s.node_values f) _
      ∙ ap (λ es'. s.errors ++ (complaints s.id s.node_values f ++ es'))
          (ap (λ x. gather (complaints x t.node_values) fs) i
            ∙ ap (λ x. gather (complaints s.id x) fs) m
            ∙ complaints-put s.id f z s.node_values fs all)

  -- Where the fields of a header have different names, `encode` adds to the
  -- errors, field after field, that a value is missing, or above the field's maximum, or below its
  -- minimum, and nothing else.
  pub encode_fields-errors :
      (fs : List Field) (s : HeaderState H)
      → AllNamed fs
      → (encode_fields fs s).errors ≡ s.errors ++ gather (complaints s.id s.node_values) fs
  unfolding encode_fields
  encode_fields-errors fs s apart = encodes_errors fs s apart
