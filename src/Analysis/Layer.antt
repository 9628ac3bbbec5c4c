-- ===== src/Analysis/Layer.antt =====
-- The decoded layers (CodecDecodeResult of packages/codec) as packages/analysis/src reads them.
use netkitty.Base.{
  ℕ, Bool, true, false, not, ◌==◌, Option, none, some, List, [], ◌∷◌, if◌then◌else◌,
}
use netkitty.Base.Text.{Text, text, text_eq, decimal}

-- A field of a layer's data: a number of the codec is a whole number. A field of an object in the
-- data stands under its dotted name, `flags.syn`.
pub data Value : Type 0 where
  undefined null : Value
  number : ℕ → Value
  flag : Bool → Value
  string : Text → Value

pub record Layer : Type 0 where
  pub id : Text
  pub is_protocol : Bool
  pub fields : List (Text × Value)

-- `data[name]`
unfoldable pub field_value : Text → List (Text × Value) → Value
field_value name [] = undefined
field_value name ((key, v) ∷ m) = if text_eq key name then v else field_value name m

abbrev pub value_of : Layer → Text → Value
value_of l name = field_value name l.fields

-- `String(v)`
unfoldable pub to_text : Value → Text
to_text undefined = text "undefined"
to_text null = text "null"
to_text (number n) = decimal n
to_text (flag true) = text "true"
to_text (flag false) = text "false"
to_text (string s) = s

-- `layers.find(l => test(l.id))`
unfoldable pub find_layer : (Text → Bool) → List Layer → Option Layer
find_layer test [] = none
find_layer test (l ∷ ls) = if test l.id then some l else find_layer test ls

-- `Boolean(v)`
unfoldable pub to_bool : Value → Bool
to_bool undefined = false
to_bool null = false
to_bool (number n) = not (n == 0)
to_bool (flag b) = b
to_bool (string []) = false
to_bool (string (c ∷ s)) = true

-- `Number(v)`, `none` for NaN. The number that a text spells is a parameter.
unfoldable pub to_number : (Text → Option ℕ) → Value → Option ℕ
to_number parse undefined = none
to_number parse null = some 0
to_number parse (number n) = some n
to_number parse (flag b) = some (if b then 1 else 0)
to_number parse (string s) = parse s

-- `Number(v) || d`
unfoldable pub number_or : (Text → Option ℕ) → Value → ℕ → ℕ
unfolding to_number
number_or parse v d = elim (to_number parse v) [ none ↦ d | some n ↦ if n == 0 then d else n ]
