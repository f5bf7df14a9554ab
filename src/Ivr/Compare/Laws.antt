-- ===== src/Ivr/Compare/Laws.antt =====
-- src/esl/ivr.service.ts: the comparisons of `compareValues` are opposites of each other.
use mathlib.Core.Path.{fun_ext}
use next_call.Base.{
  ℕ, ◌≡◌, refl, ap, Bool, true, false, not, Option, some, [], ◌∷◌, Bytes, arith, Bool-cases, inl,
  inr,
}
use next_call.Session.{await, World, Now, ◌>>=◌}
use next_call.Ivr.{IvrData, NextStep, Call, Ivr, get_channel_var}
use next_call.Ivr.Compare.{
  ValueType, as_string, as_boolean, Symbol, eq, ne, gt, gth, lt, lth, unknown, is_truthy,
  CompareArgs, value_of, compared_of, value_eq, value_lt, value_le, holds, other_value, compared,
  compare_by, compare_values,
}

-- The comparison that holds where another does not
unfoldable pub opposite : Symbol → Symbol
opposite eq = ne
opposite ne = eq
opposite gt = lth
opposite lth = gt
opposite lt = gth
opposite gth = lt
opposite unknown = unknown

-- The comparison of a channel variable with a text that is not empty
abbrev pub comparison : Bytes → ValueType → Symbol → ℕ → Bytes → Bytes → Bytes → CompareArgs
comparison name t s x xs yes_go no_go = record {
  var_name = name;
  value_type = t;
  success = yes_go;
  fail = no_go;
  compare_symbol = some s;
  compare_value = x ∷ xs;
  compare_channel_var = [];
}

-- Texts and Booleans are ordered; a number may be none, and compares with nothing.
unfoldable pub is_ordered : ValueType → Bool
is_ordered as_string = true
is_ordered as_boolean = true
is_ordered _ = false

unfoldable pub is_known : Symbol → Bool
is_known unknown = false
is_known _ = true

module _ {Number : Type 0} (number_lt number_eq : Number → Number → Bool)
    (to_number : Option Bytes → Number) (of_length : ℕ → Number) where
  holds-opposite :
      (t : ValueType) (s : Symbol) (v : Option Bytes) (c : Bytes)
      → is_ordered t ≡ true
      → is_known s ≡ true
      → holds number_lt number_eq to_number of_length
          (opposite s)
          (value_of number_lt number_eq to_number of_length t v)
          (compared_of number_lt number_eq to_number of_length t c)
        ≡ not (
            holds number_lt number_eq to_number of_length s
              (value_of number_lt number_eq to_number of_length t v)
              (compared_of number_lt number_eq to_number of_length t c))
  unfolding is_ordered is_known holds opposite value_of compared_of value_eq value_lt value_le
  holds-opposite t s v c h k = ground arith

  compared-exchanged :
      (name : Bytes) (t : ValueType) (s : Symbol) (x : ℕ) (xs yes_go no_go : Bytes)
      (v : Option Bytes)
      → is_ordered t ≡ true
      → is_known s ≡ true
      → compared number_lt number_eq to_number of_length
          (comparison name t (opposite s) x xs no_go yes_go)
          (opposite s)
          v
          (x ∷ xs)
        ≡ compared number_lt number_eq to_number of_length
            (comparison name t s x xs yes_go no_go)
            s
            v
            (x ∷ xs)
  unfolding compared is_truthy
  compared-exchanged name t s x xs yes_go no_go v h k =
      rw (holds-opposite t s v (x ∷ xs) h k)
        (elim (Bool-cases (
          holds number_lt number_eq to_number of_length s
            (value_of number_lt number_eq to_number of_length t v)
            (compared_of number_lt number_eq to_number of_length t (x ∷ xs)))) [
              | inl e ↦ rw e refl
              | inr e ↦ rw e refl
            ])

-- A comparison of a channel variable with a text that is not empty, as texts or as Booleans by one of
-- the six symbols, jumps as the opposite comparison does with its two jumps exchanged.
pub compare_values-exchanged :
    {Number : Type 0} (number_lt number_eq : Number → Number → Bool)
    (to_number : Option Bytes → Number) (of_length : ℕ → Number) (uuid name : Bytes) (t : ValueType)
    (s : Symbol) (x : ℕ) (xs yes_go no_go : Bytes) (w : World IvrData Call) (n : Now IvrData Call)
    → is_ordered t ≡ true
    → is_known s ≡ true
    → (compare_values number_lt number_eq to_number of_length uuid
        (comparison name t (opposite s) x xs no_go yes_go)
        w
        n).0
      ≡ (compare_values number_lt number_eq to_number of_length uuid
          (comparison name t s x xs yes_go no_go)
          w
          n).0
unfolding compare_values compare_by other_value ◌>>=◌
compare_values-exchanged number_lt number_eq to_number of_length uuid name t s x xs yes_go no_go w n
      h k =
    let same =
      ap
        (λ (k : Option Bytes → Ivr NextStep).
          ((await (get_channel_var uuid name) >>= λ v. k v.body) w n).0)
        (fun_ext λ v.
          compared-exchanged number_lt number_eq to_number of_length name t s x xs yes_go no_go v h
            k) in
    elim (Bool-cases (is_truthy name)) [
      | inr a ↦ rw a refl
      | inl a ↦ elim (Bool-cases (is_truthy yes_go)) [
        | inr b ↦ elim (Bool-cases (is_truthy no_go)) [
          | inr c ↦ rw a (rw b (rw c refl))
          | inl c ↦ rw a (rw b (rw c refl))
        ]
        | inl b ↦ elim (Bool-cases (is_truthy no_go)) [
          | inr c ↦ rw a (rw b (rw c refl))
          | inl c ↦ rw a (rw b (rw c same))
        ]
      ]
    ]
