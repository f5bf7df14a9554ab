-- ===== src/Esl/Value.antt =====
-- The values that an event's headers hold: texts, and the numbers that `parseInt(value, 10)` makes
-- of a `Content-Length`. JavaScript's `undefined` is `none` of an `Option Value`.
pub mod Decimal
use next_call.Base.{
  ℕ, suc, ◌+◌, ◌-◌, ◌*◌, ◌||◌, ◌&&◌, Bool, true, false, Option, none, some, List, [], ◌∷◌, ◌==◌,
  leb, ltb, if◌then◌else◌, length, take, drop, Bytes,
}

-- `neg n` is the number -(n + 1).
pub data Value : Type 0 where
  text : Bytes → Value
  num : ℕ → Value
  neg : ℕ → Value
  nan : Value

-- `if (v)`
unfoldable pub truthy : Value → Bool
truthy (text []) = false
truthy (text (x ∷ xs)) = true
truthy (num n) = ltb 0 n
truthy (neg n) = true
truthy nan = false

abbrev pub truthy_opt : Option Value → Bool
truthy_opt none = false
truthy_opt (some v) = truthy v

-- The white space that `parseInt` and `trim` skip, as far as it is ASCII.
abbrev pub is_space : ℕ → Bool
is_space c = c == 32 || (leb 9 c && leb c 13)

abbrev pub is_digit : ℕ → Bool
is_digit c = leb b'0' c && leb c b'9'

unfoldable pub trim_start : Bytes → Bytes
trim_start [] = []
trim_start (c ∷ s) = if is_space c then trim_start s else c ∷ s

-- The digits at the front of a text, behind the ones already read.
unfoldable pub digits : ℕ → Bytes → ℕ
digits acc [] = acc
digits acc (c ∷ s) = let rest = digits (acc * 10 + (c - 48)) s in if is_digit c then rest else acc

unsigned : Bytes → Option ℕ
unsigned [] = none
unsigned (c ∷ s) = if is_digit c then some (digits 0 (c ∷ s)) else none

abbrev positive : Option ℕ → Value
positive none = nan
positive (some n) = num n

-- `-0` is a number that is falsy and equal to 0.
negative : Option ℕ → Value
negative none = nan
negative (some n) = if ltb 0 n then neg (n - 1) else num 0

signed : Bytes → Value
signed [] = nan
signed (c ∷ s) =
    if c == b'-'
    then negative (unsigned s)
    else if c == b'+'
    then positive (unsigned s)
    else positive (unsigned (c ∷ s))

-- `parseInt(s, 10)`
unfoldable pub parse_int : Bytes → Value
unfolding trim_start digits unsigned negative signed
parse_int s = signed (trim_start s)

-- `b.slice(0, n)` and `b.slice(n)` at a number; a negative bound counts from the end.
unfoldable pub slice_to : Value → Bytes → Bytes
slice_to (num n) b = take n b
slice_to (neg n) b = take (length b - suc n) b
slice_to _ b = []

unfoldable pub slice_from : Value → Bytes → Bytes
slice_from (num n) b = drop n b
slice_from (neg n) b = drop (length b - suc n) b
slice_from _ b = b

-- `length < n`, which is false at NaN
unfoldable pub shorter : ℕ → Value → Bool
shorter l (num n) = ltb l n
shorter l _ = false

-- `n > 0`
unfoldable pub above_zero : Value → Bool
above_zero (num n) = ltb 0 n
above_zero _ = false
