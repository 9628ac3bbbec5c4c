-- ===== src/Codec/Handlers/Order.antt =====
-- The order that the handlers of a packet run in, stated without the numbers in between.
use netkitty.Base.{ℕ, ◌+◌, ◌*◌, ◌≡◌, ◌<◌, true, arith}
use netkitty.Base.{
  Option, none, some, List, [], ◌∷◌, ◌++◌, refl, ap, sym, ◌∙◌, append_assoc, append-nil, map,
}
use netkitty.Base.{All, ◌≤◌, ◌==◌, ltb, false}
use netkitty.Base.Sort.{sort, insert, keep, IsSorted, keep-sort, sort-IsSorted}
use netkitty.Codec.Header.{PostHandlerItem}
use netkitty.Codec.Handlers.{
  sort_post_handlers, runs_first, number_items, number_headers, index_factor, add_base,
  place_headers, process_packet_post_handlers, flat, reverse_headers,
  process_packet_encode_post_handlers, process_packet_decode_post_handlers,
}

module _ {H : Type 0} where
  -- The closures of a list of handlers.
  abbrev pub closures : List (PostHandlerItem H) → List H
  closures items = map (λ x. x.handler) items

  -- The closures of one header in ascending priority.
  abbrev pub of_header : Option (List (PostHandlerItem H)) → List H
  of_header none = []
  of_header (some items) = closures (sort_post_handlers items)

  abbrev items_of : Option (List (PostHandlerItem H)) → List (PostHandlerItem H)
  items_of none = []
  items_of (some items) = items

  -- Header after header, from the outermost.
  abbrev pub outward_in : List (Option (List (PostHandlerItem H))) → List H
  outward_in [] = []
  outward_in (x ∷ hs) = of_header x ++ outward_in hs

  -- Header after header, from the innermost.
  abbrev pub inward_out : List (Option (List (PostHandlerItem H))) → List H
  inward_out [] = []
  inward_out (x ∷ hs) = inward_out hs ++ of_header x

  -- Priorities grow along the list and are above a bound.
  abbrev Growing : ℕ → List (PostHandlerItem H) → Type 0
  Growing n [] = Unit {0}
  Growing n (x ∷ xs) = (n < x.priority) × Growing x.priority xs

  number_items-Growing : (n : ℕ) (xs : List (PostHandlerItem H)) → Growing n (number_items n xs)
  unfolding number_items
  number_items-Growing n [] = tt
  number_items-Growing n (x ∷ xs) = (omega arith, number_items-Growing (n + 1) xs)

  add_base-Growing :
      (b n : ℕ) (xs : List (PostHandlerItem H)) → Growing n xs → Growing (b + n) (add_base b xs)
  unfolding add_base
  add_base-Growing b n [] h = tt
  add_base-Growing b n (x ∷ xs) (h, g) = (omega arith, add_base-Growing b x.priority xs g)

  closures-number_items :
      (n : ℕ) (xs : List (PostHandlerItem H)) → closures (number_items n xs) ≡ closures xs
  unfolding number_items
  closures-number_items n [] = refl
  closures-number_items n (x ∷ xs) = ap (λ t. x.handler ∷ t) (closures-number_items (n + 1) xs)

  closures-add_base :
      (b : ℕ) (xs : List (PostHandlerItem H)) → closures (add_base b xs) ≡ closures xs
  unfolding add_base
  closures-add_base b [] = refl
  closures-add_base b (x ∷ xs) = ap (λ t. x.handler ∷ t) (closures-add_base b xs)

  -- A list that is in order stays as it is.
  sort-Growing : (n : ℕ) (xs : List (PostHandlerItem H)) → Growing n xs → sort runs_first xs ≡ xs
  unfolding sort
  sort-Growing n [] g = refl
  sort-Growing n (x ∷ xs) (h, g) =
      ap (insert runs_first x) (sort-Growing x.priority xs g) ∙ insert_least x xs g
    where
      insert_least :
          (x : PostHandlerItem H) (xs : List (PostHandlerItem H))
          → Growing x.priority xs
          → insert runs_first x xs ≡ x ∷ xs
      insert_least x [] g = refl
      insert_least x (y ∷ ys) g = ground (arith, g.0)

  closures-append :
      (xs ys : List (PostHandlerItem H)) → closures (xs ++ ys) ≡ closures xs ++ closures ys
  closures-append [] ys = refl
  closures-append (x ∷ xs) ys = ap (λ t. x.handler ∷ t) (closures-append xs ys)

  -- What a header's handlers have become before they are put together.
  placed_header :
      (b : ℕ) (items : List (PostHandlerItem H))
      → closures (sort runs_first (add_base b (number_items 0 (sort_post_handlers items))))
        ≡ closures (sort_post_handlers items)
  placed_header b items =
      ap closures (
        sort-Growing (b + 0) _
          (add_base-Growing b 0 _ (number_items-Growing 0 (sort_post_handlers items))))
      ∙ closures-add_base b _
      ∙ closures-number_items 0 (sort_post_handlers items)

  flat-place :
      (factor index : ℕ) (hs : List (Option (List (PostHandlerItem H))))
      → closures (flat (place_headers factor true index (number_headers hs))) ≡ outward_in hs
  unfolding flat place_headers number_headers
  flat-place factor index [] = refl
  flat-place factor index (none ∷ hs) = flat-place factor (index + 1) hs
  flat-place factor index (some items ∷ hs) =
      let b = (index + 1) * factor in
      closures-append (sort runs_first (add_base b (number_items 0 (sort_post_handlers items)))) _
      ∙ ap (λ t. t ++ closures (flat (place_headers factor true (index + 1) (number_headers hs))))
          (placed_header b items)
      ∙ ap (λ t. closures (sort_post_handlers items) ++ t) (flat-place factor (index + 1) hs)

  flat-append :
      (xs ys : List (Option (List (PostHandlerItem H)))) → flat (xs ++ ys) ≡ flat xs ++ flat ys
  unfolding flat
  flat-append [] ys = refl
  flat-append (none ∷ xs) ys = flat-append xs ys
  flat-append (some x ∷ xs) ys =
      ap (λ t. x ++ t) (flat-append xs ys) ∙ sym (append_assoc x (flat xs) (flat ys))

  flat-one : (x : Option (List (PostHandlerItem H))) → flat (x ∷ []) ≡ items_of x
  unfolding flat
  flat-one none = refl
  flat-one (some items) = append-nil items

  flat-last :
      (xs : List (Option (List (PostHandlerItem H)))) (x : Option (List (PostHandlerItem H)))
      → closures (flat (xs ++ x ∷ [])) ≡ closures (flat xs) ++ closures (items_of x)
  flat-last xs x =
      ap closures (flat-append xs (x ∷ []) ∙ ap (λ t. flat xs ++ t) (flat-one x))
      ∙ closures-append (flat xs) (items_of x)

  flat-reverse-place :
      (factor index : ℕ) (hs : List (Option (List (PostHandlerItem H))))
      → closures (flat (reverse_headers (place_headers factor true index (number_headers hs))))
        ≡ inward_out hs
  unfolding flat place_headers number_headers reverse_headers
  flat-reverse-place factor index [] = refl
  flat-reverse-place factor index (none ∷ hs) =
      flat-last (reverse_headers (place_headers factor true (index + 1) (number_headers hs))) none
      ∙ ap (λ t. t ++ []) (flat-reverse-place factor (index + 1) hs)
  flat-reverse-place factor index (some items ∷ hs) =
      let b = (index + 1) * factor in
      let items' = sort runs_first (add_base b (number_items 0 (sort_post_handlers items))) in
      flat-last (reverse_headers (place_headers factor true (index + 1) (number_headers hs)))
        (some items')
      ∙ ap (λ t. t ++ closures items') (flat-reverse-place factor (index + 1) hs)
      ∙ ap (λ t. inward_out hs ++ t) (placed_header b items)

  -- Priorities do not fall along the list.
  abbrev pub IsAscending : List (PostHandlerItem H) → Type 0
  IsAscending [] = Unit {0}
  IsAscending (x ∷ xs) = All (λ y. x.priority ≤ y.priority) xs × IsAscending xs

  abbrev pub of_priority : ℕ → List (PostHandlerItem H) → List (PostHandlerItem H)
  of_priority n xs = keep (λ y. y.priority == n) xs

  -- The handlers in ascending priority, those of one priority in the order of their registration.
  pub record IsRanked (items xs : List (PostHandlerItem H)) : Type 0 where
    pub ascending : IsAscending xs
    pub stable : (n : ℕ) → of_priority n xs ≡ of_priority n items

  -- Each header's handlers are ranked.
  abbrev pub AllRanked :
      List (Option (List (PostHandlerItem H))) → List (List (PostHandlerItem H)) → Type 0
  AllRanked [] [] = Unit {0}
  AllRanked [] (r ∷ rs) = ⊥
  AllRanked (h ∷ hs) [] = ⊥
  AllRanked (none ∷ hs) (r ∷ rs) = (r ≡ []) × AllRanked hs rs
  AllRanked (some items ∷ hs) (r ∷ rs) = IsRanked items r × AllRanked hs rs

  -- Header after header, from the outermost, and from the innermost.
  abbrev pub outward : List (List (PostHandlerItem H)) → List H
  outward [] = []
  outward (r ∷ rs) = closures r ++ outward rs

  abbrev pub inward : List (List (PostHandlerItem H)) → List H
  inward [] = []
  inward (r ∷ rs) = inward rs ++ closures r

  abbrev ranked : List (Option (List (PostHandlerItem H))) → List (List (PostHandlerItem H))
  ranked [] = []
  ranked (none ∷ hs) = [] ∷ ranked hs
  ranked (some items ∷ hs) = sort_post_handlers items ∷ ranked hs

  not_below :
      (n : ℕ) (xs : List (PostHandlerItem H))
      → All (λ y. ltb y.priority n ≡ false) xs
      → All (λ y. n ≤ y.priority) xs
  not_below n [] all = tt
  not_below n (x ∷ xs) (h, all) = (ground (arith, h), not_below n xs all)

  IsSorted-IsAscending : (xs : List (PostHandlerItem H)) → IsSorted runs_first xs → IsAscending xs
  IsSorted-IsAscending [] h = tt
  IsSorted-IsAscending (x ∷ xs) (all, h) = (not_below x.priority xs all, IsSorted-IsAscending xs h)

  ranked-AllRanked : (hs : List (Option (List (PostHandlerItem H)))) → AllRanked hs (ranked hs)
  ranked-AllRanked [] = tt
  ranked-AllRanked (none ∷ hs) = (refl, ranked-AllRanked hs)
  ranked-AllRanked (some items ∷ hs) = (
    record {
      ascending =
          unfold sort_post_handlers in
          IsSorted-IsAscending _ (sort-IsSorted (λ x. x.priority) items);
      stable = λ n. unfold sort_post_handlers in keep-sort (λ x. x.priority) n items;
    },
    ranked-AllRanked hs,
  )

  outward_lem :
      (hs : List (Option (List (PostHandlerItem H)))) → outward_in hs ≡ outward (ranked hs)
  outward_lem [] = refl
  outward_lem (none ∷ hs) = outward_lem hs
  outward_lem (some items ∷ hs) =
      ap (λ t. closures (sort_post_handlers items) ++ t) (outward_lem hs)

  inward_lem : (hs : List (Option (List (PostHandlerItem H)))) → inward_out hs ≡ inward (ranked hs)
  inward_lem [] = refl
  inward_lem (none ∷ hs) = ap (λ t. t ++ []) (inward_lem hs)
  inward_lem (some items ∷ hs) = ap (λ t. t ++ closures (sort_post_handlers items)) (inward_lem hs)

  -- After decoding, the handlers run header after header from the outermost; after encoding, from
  -- the innermost. In both, those of one header run in ascending priority, and those of one priority
  -- in the order of their registration, whatever the factor between headers is.
  pub process_packet_post_handlers_order :
      (hs : List (Option (List (PostHandlerItem H))))
      → (rs : List (List (PostHandlerItem H))) × AllRanked hs rs
        × (closures (process_packet_decode_post_handlers hs) ≡ outward rs)
        × (closures (process_packet_encode_post_handlers hs) ≡ inward rs)
  unfolding process_packet_decode_post_handlers process_packet_encode_post_handlers
      process_packet_post_handlers
  process_packet_post_handlers_order hs =
      let factor = index_factor 10 (number_headers hs) in
      (
        ranked hs,
        ranked-AllRanked hs,
        flat-place factor 0 hs ∙ outward_lem hs,
        flat-reverse-place factor 0 hs ∙ inward_lem hs,
      )
