-- ===== src/Pcap/Reader/Whole.antt =====
-- PcapReader.ts: the chunks of a source are the whole of it, and what the parser makes of them.
use netkitty.Base.{ℕ, zero, suc, ◌+◌, ◌-◌, ◌≤◌, ◌<◌, ◌≡◌, refl, ap, sym, ◌∙◌, false, Option}
use netkitty.Base.{
  none, some, List, [], ◌∷◌, ◌++◌, flatten, length, take, drop, leb, Bool-cases, inl, inr, arith,
}
use netkitty.Base.{length-take, length-drop, drop-add, leb→le}
use Prim.Native.String.{String}
use netkitty.PcapCore.Format.{Event}
use netkitty.PcapCore.Parser.Machine.{
  Parser, new_parser, returns, run, step, step_in, write, write_all,
}
use netkitty.PcapCore.Parser.Machine.Seen.{seen}
use netkitty.PcapCore.Parser.Machine.Chunks.{write_all-flatten}
use netkitty.PcapCore.Parser.Classic.{detect_format}
use netkitty.Pcap.Reader.{chunk_size_of, chunks_of, parse_source, read_buffer, straight_read}

leb-false→lt : {a b : ℕ} → leb a b ≡ false → b < a
leb-false→lt h = ground arith

nothing_left : (xs : List ℕ) → length xs ≡ 0 → xs ≡ []
nothing_left [] h = refl
nothing_left (x ∷ xs) h = absurd (omega arith)

take_rest : (n : ℕ) (xs : List ℕ) → take n xs ++ drop (length (take n xs)) xs ≡ xs
take_rest zero xs = refl
take_rest (suc n) [] = refl
take_rest (suc n) (x ∷ xs) = ap (λ t. x ∷ t) (take_rest n xs)

-- A chunk and what is behind it.
next_drop :
    (size offset : ℕ) (bytes : List ℕ)
    → take size (drop offset bytes) ++ drop (offset + length (take size (drop offset bytes))) bytes
      ≡ drop offset bytes
next_drop size offset bytes =
    let rest = drop offset bytes in
    ap (λ t. take size rest ++ t) (drop-add offset (length (take size rest)) bytes)
    ∙ take_rest size rest

straight_read-flatten :
    (fuel size offset : ℕ) (bytes : List ℕ)
    → 1 ≤ size
    → length bytes - offset ≤ fuel
    → flatten (straight_read fuel size bytes offset) ≡ drop offset bytes
unfolding straight_read read_buffer
straight_read-flatten zero size offset bytes h k =
    sym (nothing_left (drop offset bytes) (omega (arith, length-drop offset bytes)))
straight_read-flatten (suc fuel) size offset bytes h k =
    elim (Bool-cases (leb (length bytes) offset)) [
      | inl y ↦
          rw (y, straight_read)
            (sym (
              nothing_left (drop offset bytes)
                (omega (arith, length-drop offset bytes, leb→le (length bytes) offset y))))
      | inr f ↦
          let chunk = take size (drop offset bytes) in
          let long : 1 ≤ length chunk = omega (
            arith,
            length-take size (drop offset bytes),
            length-drop offset bytes,
            leb-false→lt f,
          ) in
          rw (f, straight_read)
            (ap (λ t. chunk ++ t)
                (straight_read-flatten fuel size (offset + length chunk) bytes h
                  (omega (arith, long, k)))
              ∙ next_drop size offset bytes)
    ]

chunk_size_of-pos : (size : Option ℕ) → 1 ≤ chunk_size_of size
unfolding chunk_size_of
chunk_size_of-pos none = omega arith
chunk_size_of-pos (some zero) = omega arith
chunk_size_of-pos (some (suc n)) = omega arith

chunks_of-flatten : (size : Option ℕ) (bytes : List ℕ) → flatten (chunks_of size bytes) ≡ bytes
unfolding chunks_of
chunks_of-flatten size bytes =
    straight_read-flatten (length bytes) (chunk_size_of size) 0 bytes (chunk_size_of-pos size)
      (omega arith)

module _ (base64 : List ℕ → String) where
  empty_write : write base64 new_parser [] ≡ returns new_parser []
  unfolding write run step step_in detect_format
  empty_write = refl

  in_one_write :
      (chunks : List (List ℕ)) (q : Parser) (es : List Event)
      → write_all base64 new_parser chunks ≡ returns q es
      → seen (write base64 new_parser (flatten chunks)) ≡ seen (returns q es)
  unfolding write_all
  in_one_write [] q es h = ap seen (empty_write ∙ h)
  in_one_write (chunk ∷ chunks) q es h = write_all-flatten base64 new_parser chunk chunks h

  -- With every chunk size, the chunks that the reader reads are together the whole source, and when
  -- the parser throws on none of them, it reports the events and is left as after one write of the
  -- whole source, but for the buffer that a parser in the error state never reads.
  pub parse_source-write :
      (size : Option ℕ) (bytes : List ℕ) (q : Parser) (es : List Event)
      → parse_source base64 size bytes ≡ returns q es
      → (flatten (chunks_of size bytes) ≡ bytes)
        × (seen (write base64 new_parser bytes) ≡ seen (returns q es))
  unfolding parse_source
  parse_source-write size bytes q es h =
      let whole = chunks_of-flatten size bytes in
      (
        whole,
        ap (λ d. seen (write base64 new_parser d)) (sym whole)
            ∙ in_one_write (chunks_of size bytes) q es h,
      )
