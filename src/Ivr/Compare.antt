-- ===== src/Ivr/Compare.antt =====
-- src/esl/ivr.service.ts: `compareValues` compares a channel variable with a value or with another
-- variable, as texts, Booleans, numbers or by length.
pub mod Laws
use next_call.Base.{
  ℕ, ◌==◌, ltb, not, ◌||◌, ◌&&◌, Bool, true, false, Option, none, some, [], ◌∷◌, Bytes, codes,
  text_eq, length, if◌then◌else◌,
}
use next_call.Session.{pure, await, ◌>>=◌, ◌>>◌}
use next_call.Ivr.{NextStep, Ivr, Call, create_process, get_channel_var}
use next_call.Ivr.Steps.{next}

pub data ValueType : Type 0 where
  as_string as_boolean as_number as_length as_other : ValueType

pub data Symbol : Type 0 where
  eq ne gt gth lt lth unknown : Symbol

-- `<` on texts, by their character codes
unfoldable pub text_lt : Bytes → Bytes → Bool
text_lt [] [] = false
text_lt [] (y ∷ b) = true
text_lt (x ∷ a) [] = false
text_lt (x ∷ a) (y ∷ b) = ltb x y || (x == y && text_lt a b)

unfoldable pub is_truthy : Bytes → Bool
is_truthy [] = false
is_truthy (c ∷ r) = true

-- The values that are compared, where `Number` is JavaScript's type of numbers
pub data Value (Number : Type 0) : Type 0 where
  text : Bytes → Value Number
  truth : Bool → Value Number
  numeric : Number → Value Number
  undefined : Value Number

-- `args.logic`; a text that is not set is empty.
pub record CompareArgs : Type 0 where
  pub var_name : Bytes
  pub value_type : ValueType
  pub success : Bytes
  pub fail : Bytes
  pub compare_symbol : Option Symbol
  pub compare_value : Bytes
  pub compare_channel_var : Bytes

-- `String(v)`
unfoldable pub string_of : Option Bytes → Bytes
string_of none = codes "undefined"
string_of (some v) = v

unfoldable pub truth_of : Option Bytes → Bool
truth_of none = false
truth_of (some v) = is_truthy v

-- The numbers of JavaScript: `<`, `===`, `Number(v)`, and the number of a length
module _ {Number : Type 0} (number_lt number_eq : Number → Number → Bool)
    (to_number : Option Bytes → Number) (of_length : ℕ → Number) where
  unfoldable pub value_of : ValueType → Option Bytes → Value Number
  value_of as_string v = text (string_of v)
  value_of as_boolean v = truth (truth_of v)
  value_of as_number v = numeric (to_number v)
  value_of as_length v = numeric (of_length (length (string_of v)))
  value_of as_other v = undefined

  -- What it is compared with: a length is compared with a number.
  unfoldable pub compared_of : ValueType → Bytes → Value Number
  compared_of as_length v = numeric (to_number (some v))
  compared_of as_string v = text v
  compared_of as_boolean v = truth (is_truthy v)
  compared_of as_number v = numeric (to_number (some v))
  compared_of as_other v = undefined

  -- `===`
  unfoldable pub value_eq : Value Number → Value Number → Bool
  value_eq (text a) (text b) = text_eq a b
  value_eq (truth a) (truth b) = if a then b else not b
  value_eq (numeric a) (numeric b) = number_eq a b
  value_eq undefined undefined = true
  value_eq _ _ = false

  -- `<` and `<=`, of values of one type
  unfoldable pub value_lt : Value Number → Value Number → Bool
  value_lt (text a) (text b) = text_lt a b
  value_lt (truth a) (truth b) = not a && b
  value_lt (numeric a) (numeric b) = number_lt a b
  value_lt _ _ = false

  unfoldable pub value_le : Value Number → Value Number → Bool
  value_le (text a) (text b) = not (text_lt b a)
  value_le (truth a) (truth b) = not (not b && a)
  value_le (numeric a) (numeric b) = number_lt a b || number_eq a b
  value_le _ _ = false

  unfoldable pub holds : Symbol → Value Number → Value Number → Bool
  holds eq v c = value_eq v c
  holds ne v c = not (value_eq v c)
  holds gt v c = value_lt c v
  holds gth v c = value_le c v
  holds lt v c = value_lt v c
  holds lth v c = value_le v c
  holds unknown v c = false

  -- The value of another channel variable, where one is named
  unfoldable pub other_value : Bytes → Bytes → Bytes → Ivr Bytes
  other_value uuid value [] = pure value
  other_value uuid value (c ∷ r) = do
    a ← await (get_channel_var uuid (c ∷ r))
    pure (elim a.body as (λ _. Bytes) [ none ↦ [] | some b ↦ b ])

  unfoldable pub compared : CompareArgs → Symbol → Option Bytes → Bytes → Ivr NextStep
  compared args symbol v other =
      if not (is_truthy other) then pure (next (codes "ivr") args.fail) else do
        let res = holds symbol (value_of args.value_type v) (compared_of args.value_type other)
        await (create_process (codes "ivrReturn"))
        pure (next (codes "ivr") (if res then args.success else args.fail))

  unfoldable pub compare_by : Bytes → CompareArgs → Option Symbol → Ivr NextStep
  compare_by uuid args none = pure (next (codes "normal") [])
  compare_by uuid args (some symbol) =
      if not (is_truthy args.var_name && (is_truthy args.success && is_truthy args.fail))
      then pure (next (codes "normal") [])
      else do
        v ← await (get_channel_var uuid args.var_name)
        other ← other_value uuid args.compare_value args.compare_channel_var
        compared args symbol v.body other

  unfoldable pub compare_values : Bytes → CompareArgs → Ivr NextStep
  compare_values uuid args = compare_by uuid args args.compare_symbol
