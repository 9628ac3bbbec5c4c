-- ===== src/Analysis/IndexBuilder/Chunks.antt =====
-- PcapIndexBuilder.ts: how the capture is cut into chunks does not matter to the index.
use netkitty.Base.{
  ℕ, ◌+◌, ◌++◌, ◌≡◌, refl, ap, sym, ◌∙◌, Option, none, some, List, [], ◌∷◌, append_assoc,
}
use netkitty.Base.{length, append-nil, flatten, Option-cases, inl, inr}
use Prim.Native.String.{String}
use netkitty.PcapCore.Format.{
  Event, on_end, on_error, on_global_header, on_packet, on_packet_data, on_packet_header,
  on_section_header,
}
use netkitty.PcapCore.Parser.Machine.{
  Parser, Written, emit_before, new_parser, returns, spins, throws, write, write_all,
}
use netkitty.PcapCore.Parser.Machine.Seen.{returns_injective, seen}
use netkitty.PcapCore.Parser.Machine.Chunks.{write_all-eq-returns, write_all-flatten}
use netkitty.Analysis.Layer.{Layer}
use netkitty.Analysis.FrameIndexer.{Indexer}
use netkitty.Analysis.IndexBuilder.{
  Build, Feed, PendingFrame, absorb, build, collect, drain, drained, feed_chunk, feed_chunks,
  fresh_build, index_frame, on_event,
}

collect-append : (es fs : List Event) (f : Feed) → collect (es ++ fs) f ≡ collect fs (collect es f)
unfolding collect
collect-append [] fs f = refl
collect-append (e ∷ es) fs f = collect-append es fs (on_event e f)

abbrev behind : List PendingFrame → Feed → Feed
behind before f = record f { pending = before ++ f.pending }

on_event-behind :
    (e : Event) (before : List PendingFrame) (f : Feed)
    → on_event e (behind before f) ≡ behind before (on_event e f)
unfolding on_event
on_event-behind (on_global_header h) before f = refl
on_event-behind (on_section_header h) before f = refl
on_event-behind (on_packet_header h) before f = refl
on_event-behind (on_packet_data d) before f = refl
on_event-behind (on_packet info) before f =
    ap (λ p. record f { pending = p })
      (append_assoc before f.pending (record { info = info; frame = f.last_data } ∷ []))
on_event-behind on_end before f = refl
on_event-behind (on_error e) before f = refl

collect-behind :
    (es : List Event) (before : List PendingFrame) (f : Feed)
    → collect es (behind before f) ≡ behind before (collect es f)
unfolding collect
collect-behind [] before f = refl
collect-behind (e ∷ es) before f =
    ap (collect es) (on_event-behind e before f) ∙ collect-behind es before (on_event e f)

-- The index and the count that a build comes to.
pub index_of : Option (Build) → Option (Indexer × ℕ)
index_of none = none
index_of (some b) = some (b.indexer, b.count)

module _ (base64 : List ℕ → String) (decode : List ℕ → Option (List Layer)) where
  then_drain : List PendingFrame → Option (Indexer × ℕ) → Option (Indexer × ℕ)
  then_drain ys none = none
  then_drain ys (some r) = drain base64 decode ys r.0 r.1

  drain-append :
      (xs ys : List PendingFrame) (s : Indexer) (n : ℕ)
      → drain base64 decode (xs ++ ys) s n ≡ then_drain ys (drain base64 decode xs s n)
  unfolding drain then_drain
  drain-append [] ys s n = refl
  drain-append (x ∷ xs) ys s n = elim (Option-cases (index_frame base64 decode x s)) [
    | inl e ↦ rw (drain, e) refl
    | inr (r, e) ↦ rw (drain, e) (drain-append xs ys r.0 (n + 1))
  ]

  -- The frames that a list of events adds.
  frames_of : List ℕ → List Event → List PendingFrame
  frames_of last es = (collect es (record { last_data = last; pending = [] })).pending

  frames_of-append :
      (last : List ℕ) (es fs : List Event)
      → frames_of last (es ++ fs)
        ≡ frames_of last es
          ++ frames_of (collect es (record { last_data = last; pending = [] })).last_data fs
  unfolding frames_of
  frames_of-append last es fs =
      let f = collect es (record { last_data = last; pending = [] }) in
      let split : f ≡ behind f.pending (record { last_data = f.last_data; pending = [] }) =
        ap (λ p. record f { pending = p }) (sym (append-nil f.pending)) in
      ap (λ g. g.pending)
        (collect-append es fs _
          ∙ ap (collect fs) split
          ∙ collect-behind fs f.pending (record { last_data = f.last_data; pending = [] }))

  after_chunk : (chunks : List (List ℕ)) → Option (Build) → Option (Build)
  after_chunk chunks none = none
  after_chunk chunks (some c) = feed_chunks base64 decode c chunks

  feed_chunks-after :
      (b : Build) (chunk : List ℕ) (chunks : List (List ℕ))
      → feed_chunks base64 decode b (chunk ∷ chunks)
        ≡ after_chunk chunks (feed_chunk base64 decode b chunk)
  unfolding feed_chunks after_chunk
  feed_chunks-after b chunk chunks = refl

  one_chunk :
      (p : Parser) (x : List ℕ) (w : Written) (q : Parser) (es : List Event)
      → write base64 p x ≡ w
      → seen w ≡ seen (returns q es)
      → (r : Parser) × (write_all base64 p (x ∷ []) ≡ returns r es)
  unfolding seen write_all emit_before
  one_chunk p x (returns r fs) q es e h =
      let same = (returns_injective h).1 in
      (r, rw (e, write_all) (ap (returns r) (append-nil fs ∙ same)))
  one_chunk p x (throws r fs) q es e h = cc
  one_chunk p x spins q es e h = cc

  -- A drain that fails, fails the build; one that succeeds leaves it with what was drained.
  drained-index :
      (b : Build) (p : Parser) (f : Feed) (n : ℕ) (chunks : List (List ℕ)) (es : List PendingFrame)
      (r : Option (Indexer × ℕ))
      → ((c : Build)
          → c.parser ≡ p
          → c.last_data ≡ f.last_data
          → index_of (feed_chunks base64 decode c chunks)
            ≡ drain base64 decode es c.indexer c.count)
      → index_of (after_chunk chunks (drained base64 decode b p f n r)) ≡ then_drain es r
  unfolding drained after_chunk then_drain index_of
  drained-index b p f n chunks es none h = refl
  drained-index b p f n chunks es (some done) h = h _ refl refl

  feed_chunks-drain :
      (chunks : List (List ℕ)) (b : Build) (q : Parser) (es : List Event)
      → write_all base64 b.parser chunks ≡ returns q es
      → index_of (feed_chunks base64 decode b chunks)
        ≡ drain base64 decode (frames_of b.last_data es) b.indexer b.count
  unfolding feed_chunks write_all frames_of collect drain index_of absorb feed_chunk
  feed_chunks-drain [] b q es h = let none_left = (returns_injective h).1 in rw (← none_left) refl
  feed_chunks-drain (chunk ∷ chunks) b q es h =
      let (p, es', fs, one, rest, all) = write_all-eq-returns base64 b.parser chunk chunks h in
      let f = collect es' (record { last_data = b.last_data; pending = [] }) in
      let later : (c : Build)
          → c.parser ≡ p
          → c.last_data ≡ f.last_data
          → index_of (feed_chunks base64 decode c chunks)
            ≡ drain base64 decode (frames_of f.last_data fs) c.indexer c.count =
        λ c hp hl.
          feed_chunks-drain chunks c q fs (ap (λ p'. write_all base64 p' chunks) hp ∙ rest)
          ∙ ap (λ l. drain base64 decode (frames_of l fs) c.indexer c.count) hl in
      ap index_of (feed_chunks-after b chunk chunks)
      ∙ ap (λ w. index_of (after_chunk chunks (absorb base64 decode b (length chunk) w))) one
      ∙ drained-index b p f (length chunk) chunks (frames_of f.last_data fs)
          (drain base64 decode f.pending b.indexer b.count) later
      ∙ sym (drain-append f.pending (frames_of f.last_data fs) b.indexer b.count)
      ∙ ap (λ xs. drain base64 decode xs b.indexer b.count)
          (sym (frames_of-append b.last_data es' fs) ∙ ap (frames_of b.last_data) (sym all))

  -- However a capture is cut into chunks, if the parser throws on none of them then the build comes
  -- to the same index and the same count as on the whole capture in one chunk.
  pub build-flatten :
      (s : Indexer) (chunk : List ℕ) (chunks : List (List ℕ)) (q : Parser) (es : List Event)
      → write_all base64 new_parser (chunk ∷ chunks) ≡ returns q es
      → index_of (build base64 decode s (chunk ∷ chunks))
        ≡ index_of (build base64 decode s (flatten (chunk ∷ chunks) ∷ []))
  unfolding build
  build-flatten s chunk chunks q es h =
      let whole =
        one_chunk new_parser (flatten (chunk ∷ chunks)) _ q es refl
          (write_all-flatten base64 new_parser chunk chunks h) in
      feed_chunks-drain (chunk ∷ chunks) (fresh_build s) q es h
      ∙ sym (feed_chunks-drain (flatten (chunk ∷ chunks) ∷ []) (fresh_build s) whole.0 es whole.1)
