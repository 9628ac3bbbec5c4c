-- ===== src/Codec/Header/Writes.antt =====
-- Reads and writes of a header against the packet as a plain sequence of bytes, which knows
-- nothing of headroom.
use netkitty.Base.{ℕ, ◌+◌, ◌-◌, ◌≡◌, ◌≤◌, ltb, min, max}
use netkitty.Base.{Bool, true, Bool-cases, inl, inr, arith, sym, ap, refl, ◌∙◌}
use mathlib.Core.Path.{subst}
use netkitty.Base.{List, [], ◌∷◌, ◌++◌, length, take, drop, replicate, append_assoc}
use netkitty.Base.{ltb→lt}
use netkitty.Codec.Header.{
  CodecData, Header, logical_length, grown, expand, read_end, changed_length, track, read_raw,
  read_bytes, fill, write_bytes, trim, trimmed,
}
use netkitty.Codec.Header.Padding.{
  write_over, over, reach, zeros_eq, zeros_split, fill_padded, headroom, length-write_over,
  length-padded, length-fill, grown_padded, trimmed_padded, take_seen,
}

-- The buffer holds the packet `v` and `k` zero bytes of headroom behind it.
pub record Holds {H : Type 0} (d : CodecData H) (v : List ℕ) (k : ℕ) : Type 0 where
  pub padded : d.packet ≡ v ++ replicate k 0
  pub measured : logical_length d ≡ length v

module _ {H : Type 0} where
  logical_length-same :
      (d : CodecData H) (p : List ℕ)
      → length p ≡ length d.packet
      → logical_length (record d { packet = p }) ≡ logical_length d
  unfolding logical_length
  logical_length-same d p h = ground (arith)

  expand_padded :
      (end k : ℕ) (v : List ℕ) (d : CodecData H)
      → Holds d v k
      → (expand end d).packet ≡ v ++ replicate (headroom end (length v) k) 0
  unfolding expand
  expand_padded end k v d h =
      ap (λ n. grown end n d.packet) h.measured
      ∙ ap (grown end (length v)) h.padded
      ∙ grown_padded end k v

  -- What a write into a buffer that is long enough leaves.
  filled-Holds :
      (o k : ℕ) (bytes v : List ℕ) (d : CodecData H)
      → d.packet ≡ v ++ replicate k 0
      → logical_length d ≡ max (o + length bytes) (length v)
      → o + length bytes ≤ length v + k
      → Holds
          (record d { packet = fill o bytes d.packet })
          (write_over o bytes v)
          (k - (o + length bytes - length v))
  filled-Holds o k bytes v d p m h = record {
    padded = ap (fill o bytes) p ∙ fill_padded o k bytes v h;
    measured =
        logical_length-same d _
          (length-fill o bytes d.packet (omega (arith, ap length p, length-padded v k)))
        ∙ m
        ∙ sym (length-write_over o bytes v);
  }

  -- After a write the buffer holds the padded write.
  pub write_bytes-Holds :
      (o k : ℕ) (bytes v : List ℕ) (d : CodecData H) (h : Header)
      → Holds d v k
      → (j : ℕ) × Holds (write_bytes o bytes d h).0 (write_over (h.start_pos + o) bytes v) j
  unfolding write_bytes read_raw
  write_bytes-Holds o k bytes v d h hd =
      elim (Bool-cases (ltb (logical_length d) (h.start_pos + o + length bytes))) [
        | inl more ↦ rw more (
          _,
          filled-Holds (h.start_pos + o) (headroom (h.start_pos + o + length bytes) (length v) k)
              bytes v (expand (h.start_pos + o + length bytes) d) (expand_padded _ k v d hd)
              (ground (arith, hd.measured)) (ground (arith)),
        )
        | inr fits ↦ rw fits (
          _,
          filled-Holds (h.start_pos + o) k bytes v d hd.padded (ground (arith, hd.measured))
              (ground (arith, hd.measured)),
        )
      ]

  pub write_bytes-start_pos :
      (o : ℕ) (bytes : List ℕ) (d : CodecData H) (h : Header)
      → (write_bytes o bytes d h).1.start_pos ≡ h.start_pos
  unfolding write_bytes read_raw track changed_length
  write_bytes-start_pos o bytes d h = ground (arith)

  write_bytes-header_length :
      (o : ℕ) (bytes : List ℕ) (d : CodecData H) (h : Header)
      → (write_bytes o bytes d h).1.header_length ≡ max h.header_length (o + length bytes)
  unfolding write_bytes read_raw read_end track changed_length
  write_bytes-header_length o bytes d h = ground (arith)

  pub trim-Holds : (k : ℕ) (v : List ℕ) (d : CodecData H) → Holds d v k → (trim d).packet ≡ v
  unfolding trim logical_length
  trim-Holds k v d h =
      ap (trimmed d.packet_length) h.padded
      ∙ trimmed_padded k v d.packet_length
          (λ e. (ground (arith, h.measured, ap length h.padded, length-padded v k)))
          (λ n e. ground (arith, h.measured))

  -- The writes of a header's fields, one after another.
  abbrev pub write_all : List (ℕ × List ℕ) → CodecData H → Header → CodecData H × Header
  write_all [] d h = (d, h)
  write_all ((o, bytes) ∷ ws) d h = let r = write_bytes o bytes d h in write_all ws r.0 r.1

  write_all-Holds :
      (ws : List (ℕ × List ℕ)) (k : ℕ) (v : List ℕ) (d : CodecData H) (h : Header)
      → Holds d v k
      → (j : ℕ) × Holds (write_all ws d h).0 (over h.start_pos ws v) j
  write_all-Holds [] k v d h hd = (k, hd)
  write_all-Holds ((o, bytes) ∷ ws) k v d h hd =
      let (j, w) = write_bytes-Holds o k bytes v d h hd in
      let r = write_bytes o bytes d h in
      let rest = write_all-Holds ws j _ r.0 r.1 w in
      (
        rest.0,
        subst
            (λ s.
              Holds (write_all ws r.0 r.1).0 (over s ws (write_over (h.start_pos + o) bytes v))
                rest.0)
            (write_bytes-start_pos o bytes d h) rest.1,
      )

  write_all-header_length :
      (ws : List (ℕ × List ℕ)) (d : CodecData H) (h : Header)
      → (write_all ws d h).1.header_length ≡ reach ws h.header_length
  write_all-header_length [] d h = refl
  write_all-header_length ((o, bytes) ∷ ws) d h =
      let r = write_bytes o bytes d h in
      write_all-header_length ws r.0 r.1 ∙ ap (reach ws) (write_bytes-header_length o bytes d h)

  pub read_raw-start_pos :
      (o n : ℕ) (expanding change : Bool) (d : CodecData H) (h : Header)
      → (read_raw o n expanding change d h).0.1.start_pos ≡ h.start_pos
  unfolding read_raw track changed_length
  read_raw-start_pos o n expanding change d h = ground (arith)

  read_view :
      (s m n k : ℕ) (v : List ℕ) (d : CodecData H)
      → Holds d v k
      → m ≡ min n (length v - s)
      → take m (drop s d.packet) ≡ take n (drop s v)
  read_view s m n k v d hd e = ap (λ p. take m (drop s p)) hd.padded ∙ take_seen s m n k v e

  longer-Holds :
      (m k : ℕ) (v : List ℕ) (d : CodecData H)
      → m ≤ k
      → d.packet ≡ v ++ replicate k 0
      → logical_length d ≡ length v + m
      → Holds d (v ++ replicate m 0) (k - m)
  longer-Holds m k v d h p e = record {
    padded =
        p
        ∙ ap (λ t. v ++ t) (zeros_eq k (m + (k - m)) (omega arith) ∙ zeros_split m (k - m))
        ∙ sym (append_assoc v (replicate m 0) (replicate (k - m) 0));
    measured = e ∙ sym (length-padded v m);
  }

  -- An expanding read makes the packet longer with zeros, if it has to, and answers the window.
  pub read_raw-Holds :
      (o n k : ℕ) (v : List ℕ) (d : CodecData H) (h : Header)
      → Holds d v k
      → let s = h.start_pos + o in
        let v' = v ++ replicate (s + n - length v) 0 in
        (j : ℕ) × Holds (read_raw o n true true d h).0.0 v' j
        × ((read_raw o n true true d h).1 ≡ take n (drop s v'))
  unfolding read_raw read_end
  read_raw-Holds o n k v d h hd =
      let s = h.start_pos + o in
      let m = s + n - length v in
      elim (Bool-cases (ltb (logical_length d) (s + n))) [
        | inl more ↦ rw more (
            let held =
              longer-Holds m (headroom (s + n) (length v) k) v (expand (s + n) d)
                (ground (arith, ltb→lt (logical_length d) (s + n) more, hd.measured))
                (expand_padded (s + n) k v d hd)
                (ground (arith, ltb→lt (logical_length d) (s + n) more, hd.measured)) in
            (
              _,
              held,
              read_view s (s + n - s) n _ (v ++ replicate m 0) (expand (s + n) d) held
                  (ground (arith, length-padded v m, hd.measured)),
            ))
        | inr fits ↦ rw fits (
            let held =
              longer-Holds m k v d (ground (arith, hd.measured)) hd.padded
                (ground (arith, hd.measured)) in
            (
              _,
              held,
              read_view s (s + n - s) n _ (v ++ replicate m 0) d held
                  (ground (arith, length-padded v m, hd.measured)),
            ))
      ]

  -- However the buffer grows, the packet that the writes of a header leave after the end of
  -- `encode` is that of the same writes into a plain sequence of bytes, in which a gap is filled
  -- with zeros; and the header is as long as the farthest write reaches.
  pub trim-write_all :
      (ws : List (ℕ × List ℕ)) (k : ℕ) (v : List ℕ) (d : CodecData H) (h : Header)
      → Holds d v k
      → ((trim (write_all ws d h).0).packet ≡ over h.start_pos ws v)
        × ((write_all ws d h).1.header_length ≡ reach ws h.header_length)
  trim-write_all ws k v d h hd =
      let (j, w) = write_all-Holds ws k v d h hd in
      (trim-Holds j _ _ w, write_all-header_length ws d h)

  -- A read answers the bytes of the packet at its place, as many as there are, and nothing of the
  -- headroom.
  pub read_bytes-Holds :
      (o n k : ℕ) (dry : Bool) (v : List ℕ) (d : CodecData H) (h : Header)
      → Holds d v k
      → (read_bytes o n dry d h).1 ≡ take n (drop (h.start_pos + o) v)
  unfolding read_bytes read_raw read_end
  read_bytes-Holds o n k dry v d h hd =
      let s = h.start_pos + o in
      elim (Bool-cases (ltb (logical_length d) (s + n))) [
        | inl past ↦ rw past (
            read_view s (logical_length d - s) n k v d hd
              (ground (arith, hd.measured, ltb→lt (logical_length d) (s + n) past)))
        | inr inside ↦ rw inside (read_view s (s + n - s) n k v d hd (ground (arith, hd.measured)))
      ]
