-- ===== src/Analysis/Filter.antt =====
-- packages/analysis/src/filter/FilterExpression.ts.
pub mod Match
pub mod Indexed
pub mod Keys
pub mod Columns
pub mod Agree
use netkitty.Base.{
  ℕ, zero, suc, ◌+◌, ◌-◌, ◌≤◌, Bool, true, false, not, ◌&&◌, ◌||◌, Option, none, some,
}
use netkitty.Base.{List, [], ◌∷◌, ◌++◌, map, length, take, drop, ltb, leb, ◌==◌, if◌then◌else◌}
use netkitty.Base.Text.{Text, text, text_eq}
use netkitty.Analysis.Layer.{Value, Layer, value_of, to_text, find_layer}

pub data FilterPredicate : Type 0 where
  protocol : Text → FilterPredicate
  field : (selector value : Text) → FilterPredicate

abbrev pub FilterExpression : Type 0
FilterExpression = List FilterPredicate

-- `indexOf`, `none` for -1.
unfoldable pub index_of : ℕ → Text → Option ℕ
index_of c [] = none
index_of c (d ∷ s) =
    let rest = index_of c s in
    if d == c then some 0 else elim rest [ none ↦ none | some i ↦ some (i + 1) ]

-- `lastIndexOf`
unfoldable pub last_index_of : ℕ → Text → Option ℕ
last_index_of c [] = none
last_index_of c (d ∷ s) = elim (last_index_of c s) [
  | some i ↦ some (i + 1)
  | none ↦ if d == c then some 0 else none
]

-- Whether a text starts with another.
starts_with : Text → Text → Bool
starts_with [] s = true
starts_with (c ∷ p) [] = false
starts_with (c ∷ p) (d ∷ s) = c == d && starts_with p s

-- `split` by a separator of two units. The units so far come in reverse order.
reverse_onto : Text → Text → Text
reverse_onto [] acc = acc
reverse_onto (c ∷ s) acc = reverse_onto s (c ∷ acc)

split_loop : ℕ → Text → Text → List Text
split_loop c acc [] = reverse_onto acc [] ∷ []
split_loop c acc (d ∷ []) = reverse_onto (d ∷ acc) [] ∷ []
split_loop c acc (d ∷ e ∷ s) =
    let next = reverse_onto acc [] ∷ split_loop c [] s in
    let on = split_loop c (d ∷ acc) (e ∷ s) in if d == c && e == c then next else on

-- The position of the first `==`.
index_of_equals : Text → Option ℕ
index_of_equals [] = none
index_of_equals (d ∷ s) =
    let rest = index_of_equals s in
    if starts_with (text "==") (d ∷ s)
    then some 0
    else elim rest [ none ↦ none | some i ↦ some (i + 1) ]

-- The white space and line ends that `trim` takes away.
is_space : ℕ → Bool
is_space c =
    leb 9 c && leb c 13
    || c == 32
    || c == 0xa0
    || c == 0x1680
    || leb 0x2000 c && leb c 0x200a
    || c == 0x2028
    || c == 0x2029
    || c == 0x202f
    || c == 0x205f
    || c == 0x3000
    || c == 0xfeff

trim_start : Text → Text
trim_start [] = []
trim_start (c ∷ s) = if is_space c then trim_start s else c ∷ s

unfoldable pub trim : Text → Text
unfolding trim_start is_space reverse_onto
trim s = reverse_onto (trim_start (reverse_onto (trim_start s) [])) []

is_empty : Text → Bool
is_empty [] = true
is_empty (c ∷ s) = false

-- The last unit of a text that has one.
last_or : ℕ → Text → ℕ
last_or c [] = c
last_or c (d ∷ s) = last_or d s

-- A value in double or in single quotes loses them.
unquote : Text → Text
unquote [] = []
unquote (c ∷ []) = c ∷ []
unquote (c ∷ d ∷ s) =
    let last = last_or d s in
    if c == b'"' && last == b'"' || c == b'\'' && last == b'\''
    then take (length s) (d ∷ s)
    else c ∷ d ∷ s

module _ (lower : Text → Text) where
  -- `toLowerCase` is the parameter.
  parse_predicate : Text → FilterPredicate
  unfolding index_of_equals trim unquote starts_with
  parse_predicate part = elim (index_of_equals part) [
    | none ↦ protocol (lower part)
    | some i ↦ field (lower (trim (take i part))) (unquote (trim (drop (i + 2) part)))
  ]

  parse_parts : List Text → FilterExpression
  parse_parts [] = []
  parse_parts (s ∷ ss) =
      let part = trim s in
      let rest = parse_parts ss in if is_empty part then rest else parse_predicate part ∷ rest

  pub parse_filter : Text → FilterExpression
  unfolding split_loop parse_parts is_empty
  parse_filter input = parse_parts (split_loop b'&' [] input)
