-- ===== src/Analysis/Scans/Totals.antt =====
-- BuiltinScans.ts: the packets of the conversations against the records that are scanned.
use mathlib.Core.Option
use netkitty.Base.{
  ℕ, ◌+◌, ◌≡◌, refl, sym, ap, ◌∙◌, arith, Bool, true, false, Option, none, some, List, [],
}
use netkitty.Base.{◌∷◌, if◌then◌else◌, ◌==◌, ==_iff, Bool-cases, inl, inr}
use netkitty.Base.Text.{Text}
use netkitty.Base.Dict.{number_key, get, get-put, sum, sum-put, weight_of}
use netkitty.Analysis.Store.{FrameIndexRecord, Store}
use netkitty.Analysis.Conversations.{ConversationSummary}
use netkitty.Analysis.Scans.{
  Hashes, records, new_summary, count_record, resolve, scan_conversation, scan_conversations, known,
  compute_conversations,
}

packets_of_entry : Option ConversationSummary → ℕ
packets_of_entry none = 0
packets_of_entry (some v) = v.packets

pub total_of : List ConversationSummary → ℕ
total_of [] = 0
total_of (v ∷ vs) = v.packets + total_of vs

is_some : {A : Type 0} → Option A → Bool
is_some none = false
is_some (some a) = true

known_total : (m : Hashes) → total_of (known m) ≡ sum packets_of_entry m
unfolding known total_of sum packets_of_entry
known_total [] = refl
known_total ((h, none) ∷ m) = omega (arith, known_total m)
known_total ((h, some v) ∷ m) = ap (λ n. v.packets + n) (known_total m)

module _ (key_of : ℕ → Option Text) where
  -- The records whose hash has a key.
  pub keyed : List FrameIndexRecord → ℕ
  unfolding is_some
  keyed [] = 0
  keyed (r ∷ rs) = (if is_some (key_of r.conversation_hash) then 1 else 0) + keyed rs

  -- A hash has a conversation exactly where it has a key.
  IsKeyed : Hashes → Type 0
  IsKeyed m =
      (h : ℕ) (o : Option ConversationSummary) → get h m ≡ some o → is_some o ≡ is_some (key_of h)

  resolve-is_some :
      (old : Option (Option ConversationSummary)) (r : FrameIndexRecord)
      → ((o : Option ConversationSummary)
          → old ≡ some o
          → is_some o ≡ is_some (key_of r.conversation_hash))
      → is_some (resolve key_of old r) ≡ is_some (key_of r.conversation_hash)
  unfolding resolve is_some
  resolve-is_some none r h = go (key_of r.conversation_hash)
    where
      go :
          (k : Option Text)
          → is_some (Option.map (λ key. count_record r (new_summary key r)) k) ≡ is_some k
      go none = refl
      go (some key) = refl
  resolve-is_some (some none) r h = h none refl
  resolve-is_some (some (some v)) r h = h (some v) refl

  resolve_packets :
      (old : Option (Option ConversationSummary)) (r : FrameIndexRecord)
      → ((o : Option ConversationSummary)
          → old ≡ some o
          → is_some o ≡ is_some (key_of r.conversation_hash))
      → packets_of_entry (resolve key_of old r)
        ≡ weight_of packets_of_entry old + (if is_some (key_of r.conversation_hash) then 1 else 0)
  unfolding resolve is_some packets_of_entry weight_of count_record new_summary
  resolve_packets none r h = go (key_of r.conversation_hash)
    where
      go :
          (k : Option Text)
          → packets_of_entry (Option.map (λ key. count_record r (new_summary key r)) k)
            ≡ 0 + (if is_some k then 1 else 0)
      go none = refl
      go (some key) = refl
  resolve_packets (some none) r h = rw⁻¹ (h none refl) refl
  resolve_packets (some (some v)) r h = rw⁻¹ (h (some v) refl) refl

  scan-IsKeyed :
      (m : Hashes) (r : FrameIndexRecord) → IsKeyed m → IsKeyed (scan_conversation key_of m r)
  unfolding scan_conversation IsKeyed
  scan-IsKeyed m r inside h o found =
      let hash = r.conversation_hash in
      let after = get-put hash h (resolve key_of (get hash m) r) m in
      elim (Bool-cases (hash == h)) [
        | inl same ↦
            let key : hash ≡ h = (==_iff hash h).0 same in
            let is : resolve key_of (get hash m) r ≡ o = ground (arith, after, found, same) in
            ap is_some (sym is)
            ∙ resolve-is_some (get hash m) r (inside hash)
            ∙ ap (λ i. is_some (key_of i)) key
        | inr other ↦ inside h o (ground (arith, after, found, other))
      ]

  scan_total :
      (m : Hashes) (rs : List FrameIndexRecord)
      → IsKeyed m
      → sum packets_of_entry (scan_conversations key_of m rs) ≡ sum packets_of_entry m + keyed rs
  unfolding scan_conversations keyed scan_conversation IsKeyed
  scan_total m [] v = omega arith
  scan_total m (r ∷ rs) v =
      let h = r.conversation_hash in
      let rest = scan_total (scan_conversation key_of m r) rs (scan-IsKeyed m r v) in
      let step = sum-put packets_of_entry h (resolve key_of (get h m) r) m in
      let new = resolve_packets (get h m) r (v h) in omega (arith, rest, step, new)

  no_hashes-IsKeyed : IsKeyed []
  unfolding IsKeyed get
  no_hashes-IsKeyed h o found = absurd (ground arith)

  -- The packets of the conversations that the scan of the columns gives are together as many as
  -- there are records whose hash has a key.
  pub compute_conversations_total :
      (s : Store) → total_of (compute_conversations key_of s) ≡ keyed (records s)
  unfolding compute_conversations sum
  compute_conversations_total s = omega (
    arith,
    known_total (scan_conversations key_of [] (records s)),
    scan_total [] (records s) no_hashes-IsKeyed,
  )
