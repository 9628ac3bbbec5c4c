-- ===== src/Codec/Handlers.antt =====
-- The order in which the handlers of a packet run: packages/codec/src/lib/SortPostHandlers.ts and
-- ProcessPacketPostHandlers.ts. The array of a packet has a hole for a header without handlers;
-- `map` keeps holes and `flat` leaves them out.
pub mod Order
use netkitty.Base.{ℕ, ◌+◌, ◌*◌, ◌≤◌, ◌<◌, zero, suc, ltb, if◌then◌else◌, Bool, true, false, max}
use netkitty.Base.{Option, none, some, List, [], ◌∷◌, ◌++◌}
use netkitty.Base.Sort.{sort}
use netkitty.Codec.Header.{PostHandlerItem}

-- `while (priority > 1) { priority /= 10; factor *= 10 }`: the priority is above 1 after some
-- rounds when it is above as many tens multiplied, which is `scale`.
unfoldable pub factor_loop : ℕ → ℕ → ℕ → ℕ → ℕ
factor_loop zero priority scale factor = factor
factor_loop (suc fuel) priority scale factor =
    let rest = factor_loop fuel priority (scale * 10) (factor * 10) in
    if ltb scale priority then rest else factor

unfoldable pub factor_of : ℕ → ℕ
unfolding factor_loop
factor_of priority = factor_loop priority priority 1 10

module _ {H : Type 0} where
  abbrev pub runs_first : PostHandlerItem H → PostHandlerItem H → Bool
  runs_first a b = ltb a.priority b.priority

  abbrev pub runs_last : PostHandlerItem H → PostHandlerItem H → Bool
  runs_last a b = ltb b.priority a.priority

  unfoldable pub sort_post_handlers : List (PostHandlerItem H) → List (PostHandlerItem H)
  unfolding sort
  sort_post_handlers items = sort runs_first items

  -- `handlerItem.priority = index + 1`
  unfoldable pub number_items : ℕ → List (PostHandlerItem H) → List (PostHandlerItem H)
  number_items index [] = []
  number_items index (x ∷ xs) = record x { priority = index + 1 } ∷ number_items (index + 1) xs

  -- The factor that `indexFactor` has been raised to.
  unfoldable pub raise_factor : ℕ → List (PostHandlerItem H) → ℕ
  unfolding factor_of
  raise_factor factor [] = factor
  raise_factor factor (x ∷ xs) = raise_factor (max factor (factor_of x.priority)) xs

  -- The first `map`.
  unfoldable pub number_headers :
      List (Option (List (PostHandlerItem H))) → List (Option (List (PostHandlerItem H)))
  unfolding number_items sort_post_handlers
  number_headers [] = []
  number_headers (none ∷ hs) = none ∷ number_headers hs
  number_headers (some items ∷ hs) =
      some (number_items 0 (sort_post_handlers items)) ∷ number_headers hs

  unfoldable pub index_factor : ℕ → List (Option (List (PostHandlerItem H))) → ℕ
  unfolding raise_factor
  index_factor factor [] = factor
  index_factor factor (none ∷ hs) = index_factor factor hs
  index_factor factor (some items ∷ hs) = index_factor (raise_factor factor items) hs

  unfoldable pub add_base : ℕ → List (PostHandlerItem H) → List (PostHandlerItem H)
  add_base base [] = []
  add_base base (x ∷ xs) = record x { priority = base + x.priority } ∷ add_base base xs

  -- The second `map`.
  unfoldable pub place_headers :
      ℕ
      → Bool
      → ℕ
      → List (Option (List (PostHandlerItem H)))
      → List (Option (List (PostHandlerItem H)))
  unfolding sort add_base
  place_headers factor asc index [] = []
  place_headers factor asc index (none ∷ hs) = none ∷ place_headers factor asc (index + 1) hs
  place_headers factor asc index (some items ∷ hs) =
      some (sort (if asc then runs_first else runs_last) (add_base ((index + 1) * factor) items))
      ∷ place_headers factor asc (index + 1) hs

  unfoldable pub process_packet_post_handlers :
      Bool → List (Option (List (PostHandlerItem H))) → List (Option (List (PostHandlerItem H)))
  unfolding number_headers index_factor place_headers
  process_packet_post_handlers asc hs =
      let numbered = number_headers hs in place_headers (index_factor 10 numbered) asc 0 numbered

  -- `flat()`
  unfoldable pub flat : List (Option (List (PostHandlerItem H))) → List (PostHandlerItem H)
  flat [] = []
  flat (none ∷ hs) = flat hs
  flat (some items ∷ hs) = items ++ flat hs

  -- `reverse()`
  unfoldable pub reverse_headers :
      List (Option (List (PostHandlerItem H))) → List (Option (List (PostHandlerItem H)))
  reverse_headers [] = []
  reverse_headers (x ∷ hs) = reverse_headers hs ++ (x ∷ [])

  unfoldable pub process_packet_encode_post_handlers :
      List (Option (List (PostHandlerItem H))) → List (PostHandlerItem H)
  unfolding process_packet_post_handlers flat reverse_headers
  process_packet_encode_post_handlers hs =
      flat (reverse_headers (process_packet_post_handlers true hs))

  unfoldable pub process_packet_decode_post_handlers :
      List (Option (List (PostHandlerItem H))) → List (PostHandlerItem H)
  unfolding process_packet_post_handlers flat
  process_packet_decode_post_handlers hs = flat (process_packet_post_handlers true hs)
