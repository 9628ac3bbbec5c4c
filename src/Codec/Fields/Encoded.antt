-- ===== src/Codec/Fields/Encoded.antt =====
-- The packet after `encode` of BaseHeader.ts, field by field.
use mathlib.Core.Path.{subst}
use netkitty.Base.{ℕ, ◌+◌, ◌≡◌, ◌≤◌, ◌⊎◌, false, if◌then◌else◌, if_false}
use netkitty.Base.{Bool-cases, inl, inr, arith, refl, sym, ap, ◌∙◌, Option, none, some}
use netkitty.Base.{List, [], ◌∷◌, length, take, drop, All, append-nil}
use netkitty.Base.Int.{ℤ, pos, negsuc}
use netkitty.Base.Text.{Text, text_eq}
use netkitty.Base.Lists.{each}
use netkitty.Base.Dict
use netkitty.Base.Dict.{text_key, get-put}
use netkitty.Codec.Header.{CodecData, Header, write_bytes, trim, logical_length}
use netkitty.Codec.Header.Writes.{Holds, write_bytes-Holds, write_bytes-start_pos, trim-Holds}
use netkitty.Codec.Header.Padding.{write_over, over, length-write_over}
use netkitty.Codec.Fields.{
  FieldKind, u_int, int8, Field, HeaderState, width, byte_length, number_to_buffer, maximum,
  is_above, is_below, minimum, get_value, cut_above, cut_below, put_value, encode_field,
  encode_fields,
}
use netkitty.Codec.Fields.Values.{clamped, length-number_to_buffer}
use netkitty.Codec.Fields.Windows.{Apart, window-over, window-written}

-- A field of one, two or four octets.
abbrev pub IsFixed : Field → Type 0
IsFixed f = byte_length f.kind ≡ width f.kind

-- Two fields with different names and no octet in common.
abbrev pub IsApart : Field → Field → Type 0
IsApart f g =
    (text_eq f.name g.name ≡ false)
    × ((f.offset + width f.kind ≤ g.offset) ⊎ (g.offset + width g.kind ≤ f.offset))

abbrev pub AllApart : List Field → Type 0
AllApart [] = Unit
AllApart (f ∷ fs) = All (IsApart f) fs × AllApart fs

-- The value that the encoder gives a field of an instance.
abbrev pub value_for : List (Text × ℤ) → Field → ℤ
value_for m f = clamped f.kind (Dict.get f.name m)

abbrev pub bytes_for : List (Text × ℤ) → Field → List ℕ
bytes_for m f = number_to_buffer (width f.kind) (value_for m f)

-- What the two tests make of a value, and of 0 for a missing one.
tested : FieldKind → ℤ → ℤ
tested kind z =
    let z' = if is_above z (maximum kind) then pos (maximum kind) else z in
    if is_below kind z' then minimum kind else z'

or_zero : Option ℤ → ℤ
or_zero none = pos 0
or_zero (some z) = z

tested-clamped : (kind : FieldKind) (o : Option ℤ) → tested kind (or_zero o) ≡ clamped kind o
unfolding tested or_zero is_above is_below minimum
tested-clamped (u_int n) none = ground arith
tested-clamped int8 none = ground arith
tested-clamped (u_int n) (some (pos x)) = ground arith
tested-clamped int8 (some (pos x)) = ground arith
tested-clamped (u_int n) (some (negsuc x)) = refl
tested-clamped int8 (some (negsuc x)) = ground arith

module _ {H : Type 0} where
  -- Only the errors differ.
  abbrev Same : HeaderState H → HeaderState H → Type 0
  Same t s = (t.codec_data ≡ s.codec_data) × (t.header ≡ s.header) × (t.node_values ≡ s.node_values)

  get_value_lem :
      (f : Field) (s : HeaderState H) (o : Option ℤ)
      → Dict.get f.name s.node_values ≡ o
      → ((get_value f s).0 ≡ or_zero o) × Same (get_value f s).1 s
  unfolding get_value or_zero
  get_value_lem f s none e = rw (e, get_value) (refl, (refl, refl, refl))
  get_value_lem f s (some z) e = rw (e, get_value) (refl, (refl, refl, refl))

  cut_above_lem :
      (f : Field) (z : ℤ) (s : HeaderState H)
      → ((cut_above f (z, s)).0 ≡ (if is_above z (maximum f.kind) then pos (maximum f.kind) else z))
        × Same (cut_above f (z, s)).1 s
  unfolding cut_above
  cut_above_lem f z s = elim (Bool-cases (is_above z (maximum f.kind))) [
    | inl more ↦ rw more (refl, (refl, refl, refl))
    | inr fits ↦ rw fits (refl, (refl, refl, refl))
  ]

  cut_below_lem :
      (f : Field) (z : ℤ) (s : HeaderState H)
      → ((cut_below f (z, s)).0 ≡ (if is_below f.kind z then minimum f.kind else z))
        × Same (cut_below f (z, s)).1 s
  unfolding cut_below
  cut_below_lem f z s = elim (Bool-cases (is_below f.kind z)) [
    | inl less ↦ rw less (refl, (refl, refl, refl))
    | inr fits ↦ rw fits (refl, (refl, refl, refl))
  ]

  Same-trans : (t u s : HeaderState H) → Same u t → Same t s → Same u s
  Same-trans t u s (a, b, c) (a', b', c') = (a ∙ a', b ∙ b', c ∙ c')

  cut : Field → HeaderState H → ℤ × HeaderState H
  cut f s = cut_below f (cut_above f (get_value f s))

  cut_lem :
      (f : Field) (s : HeaderState H)
      → ((cut f s).0 ≡ value_for s.node_values f) × Same (cut f s).1 s
  unfolding cut tested
  cut_lem f s =
      let g = get_value f s in
      let (g0, g1) = get_value_lem f s (Dict.get f.name s.node_values) refl in
      let (a0, a1) = cut_above_lem f g.0 g.1 in
      let a = cut_above f g in
      let (b0, b1) = cut_below_lem f a.0 a.1 in
      (
        b0
            ∙ ap (λ z. if is_below f.kind z then minimum f.kind else z) a0
            ∙ ap (tested f.kind) g0
            ∙ tested-clamped f.kind (Dict.get f.name s.node_values),
        Same-trans a.1 (cut f s).1 s b1 (Same-trans g.1 a.1 s a1 g1),
      )

  -- What `encode` does for a field.
  pub encode_field_lem :
      (f : Field) (s : HeaderState H)
      → let w = write_bytes f.offset (bytes_for s.node_values f) s.codec_data s.header in
        ((encode_field f s).codec_data ≡ w.0)
        × ((encode_field f s).header ≡ w.1)
        × ((encode_field f s).node_values
            ≡ Dict.put f.name (value_for s.node_values f) s.node_values)
  unfolding encode_field put_value cut
  encode_field_lem f s =
      let (e, (d, h, m)) = cut_lem f s in
      let w : ℤ → CodecData H → Header → CodecData H × Header =
        λ z d h. write_bytes f.offset (number_to_buffer (width f.kind) z) d h in
      let same : w (cut f s).0 (cut f s).1.codec_data (cut f s).1.header
          ≡ w (value_for s.node_values f) s.codec_data s.header =
        rw (e, d, h) refl in
      (ap (λ p. p.0) same, ap (λ p. p.1) same, rw (e, m) refl)

-- The writes of a header's fields.
unfoldable pub written : List Field → List (Text × ℤ) → List (ℕ × List ℕ)
written [] m = []
written (f ∷ fs) m = (f.offset, bytes_for m f) ∷ written fs (Dict.put f.name (value_for m f) m)

-- A field of a packet whose header starts at `start`.
abbrev pub seen : ℕ → List ℕ → Field → List ℕ
seen start v f = take (width f.kind) (drop (start + f.offset) v)

pub All-zip :
    {A : Type 0} (P Q R : A → Type 0)
    → ((x : A) → P x → Q x → R x)
    → (xs : List A) → All P xs
    → All Q xs
    → All R xs
All-zip P Q R f [] p q = tt
All-zip P Q R f (x ∷ xs) (p, ps) (q, qs) = (f x p q, All-zip P Q R f xs ps qs)

written-Apart :
    (start : ℕ) (f : Field) (fs : List Field) (m : List (Text × ℤ))
    → All (IsApart f) fs
    → All (λ w. Apart (start + f.offset) (width f.kind) (start + w.0) (length w.1)) (written fs m)
unfolding written
written-Apart start f [] m all = tt
written-Apart start f (g ∷ fs) m ((names, apart), all) = (
  subst (λ l. Apart (start + f.offset) (width f.kind) (start + g.offset) l)
      (sym (length-number_to_buffer (width g.kind) (value_for m g)))
      (elim apart [ inl before ↦ inl (omega arith) | inr behind ↦ inr (omega arith) ]),
  written-Apart start f fs (Dict.put g.name (value_for m g) m) all,
)

pub value_for-put :
    (f g : Field) (z : ℤ) (m : List (Text × ℤ))
    → IsApart f g
    → value_for (Dict.put f.name z m) g ≡ value_for m g
value_for-put f g z m (names, apart) =
    ap (clamped g.kind) (get-put f.name g.name z m ∙ if_false _ _ names)

-- Each field shows the octets of the value that the instance had for it at first.
written_seen :
    (start : ℕ) (fs : List Field) (m : List (Text × ℤ)) (v : List ℕ)
    → AllApart fs
    → All (λ f. seen start (over start (written fs m) v) f ≡ bytes_for m f) fs
unfolding written
written_seen start [] m v apart = tt
written_seen start (f ∷ fs) m v (apart, rest) =
    let z = value_for m f in
    let m' = Dict.put f.name z m in
    let long = length-number_to_buffer (width f.kind) z in
    let v' = write_over (start + f.offset) (bytes_for m f) v in
    (
      window-over start (start + f.offset) (width f.kind) (written fs m') v'
            (omega (arith, long, length-write_over (start + f.offset) (bytes_for m f) v))
            (written-Apart start f fs m' apart)
          ∙ window-written (start + f.offset) (width f.kind) (bytes_for m f) v long,
      All-zip (IsApart f) _ _
          (λ g p e. e ∙ ap (number_to_buffer (width g.kind)) (value_for-put f g z m p)) fs apart
          (written_seen start fs m' v' rest),
    )

module _ {H : Type 0} where
  pub encodes-Holds :
      (fs : List Field) (k : ℕ) (v : List ℕ) (s : HeaderState H)
      → Holds s.codec_data v k
      → (j : ℕ) × Holds
          (each encode_field fs s).codec_data
          (over s.header.start_pos (written fs s.node_values) v)
          j
  unfolding each written
  encodes-Holds [] k v s hd = (k, hd)
  encodes-Holds (f ∷ fs) k v s hd =
      let (d, h, m) = encode_field_lem f s in
      let bytes = bytes_for s.node_values f in
      let v' = write_over (s.header.start_pos + f.offset) bytes v in
      let (j, w) = write_bytes-Holds f.offset k bytes v s.codec_data s.header hd in
      let rest = encodes-Holds fs j v' (encode_field f s) (subst (λ c. Holds c v' j) (sym d) w) in
      let same : over (encode_field f s).header.start_pos
            (written fs (encode_field f s).node_values) v'
          ≡ over s.header.start_pos
              (written fs (Dict.put f.name (value_for s.node_values f) s.node_values)) v' =
        rw (m, h, write_bytes-start_pos f.offset bytes s.codec_data s.header) refl in
      (
        rest.0,
        subst (λ p. Holds (each encode_field fs (encode_field f s)).codec_data p rest.0) same
            rest.1,
      )

  -- The packet after `encode`, in which each field shows the octets of its value.
  pub encode_fields-Holds :
      (fs : List Field) (k : ℕ) (v : List ℕ) (s : HeaderState H)
      → Holds s.codec_data v k
      → AllApart fs
      → (p : List ℕ) × Holds (encode_fields fs s).codec_data p 0
        × All (λ f. seen s.header.start_pos p f ≡ bytes_for s.node_values f) fs
  unfolding encode_fields trim logical_length
  encode_fields-Holds fs k v s hd apart =
      let p = over s.header.start_pos (written fs s.node_values) v in
      let (j, held) = encodes-Holds fs k v s hd in
      let t = each encode_field fs s in
      let whole = trim-Holds j p t.codec_data held in
      (
        p,
        record { padded = whole ∙ sym (append-nil p); measured = ap length whole },
        written_seen s.header.start_pos fs s.node_values v apart,
      )
