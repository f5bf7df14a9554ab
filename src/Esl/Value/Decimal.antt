-- ===== src/Esl/Value/Decimal.antt =====
-- `String(n)` for the numbers of `Value`, and that `parseInt` reads it back.
use next_call.Base.{
  ℕ, zero, suc, ◌+◌, ◌-◌, ◌*◌, ◌/◌, ◌%◌, ◌<◌, ◌≡◌, refl, sym, ◌∙◌, ap, true, [], ◌∷◌, ltb,
  if◌then◌else◌, Bool-cases, inl, inr, Bytes, arith,
}
use next_call.Esl.Value.{Value, text, num, neg, nan, digits, is_digit, parse_int}

-- The decimal digits of `n` in front of `rest`. A number below the fuel has fewer digits than that.
digits_onto : ℕ → ℕ → Bytes → Bytes
digits_onto zero n rest = rest
digits_onto (suc f) n rest =
    let more = digits_onto f (n / 10) ((48 + n % 10) ∷ rest) in
    if ltb n 10 then (48 + n) ∷ rest else more

unfoldable pub show_nat : ℕ → Bytes
unfolding digits_onto
show_nat n = digits_onto (suc n) n []

unfoldable pub show : Value → Bytes
unfolding show_nat
show (text t) = t
show (num n) = show_nat n
show (neg n) = b'-' ∷ show_nat (suc n)
show nan = b'N' ∷ b'a' ∷ b'N' ∷ []

-- A digit read is a digit more.
digits_step : (n : ℕ) (rest : Bytes) → digits (n / 10) ((48 + n % 10) ∷ rest) ≡ digits n rest
unfolding digits
digits_step n rest =
    let e : n / 10 * 10 + (48 + n % 10 - 48) ≡ n = omega arith in
    let d : is_digit (48 + n % 10) ≡ true = ground arith in rw d (ap (λ m. digits m rest) e)

-- Reading the digits of `n` from 0 reaches `n`, and goes on with what follows.
digits-digits_onto :
    (f n : ℕ) (rest : Bytes) → n < f → digits 0 (digits_onto f n rest) ≡ digits n rest
unfolding digits_onto
digits-digits_onto zero n rest h = elim h [ ]
digits-digits_onto (suc f) n rest h = elim (Bool-cases (ltb n 10)) [
  | inl small ↦ rw small (
      unfold digits in
      let d : is_digit (48 + n) ≡ true = ground arith in
      let e : 0 * 10 + (48 + n - 48) ≡ n = omega arith in rw d (ap (λ m. digits m rest) e))
  | inr large ↦
      rw large
        (digits-digits_onto f (n / 10) ((48 + n % 10) ∷ rest) (ground arith) ∙ digits_step n rest)
]

digits_onto-head :
    (f n : ℕ) (rest : Bytes)
    → n < f
    → (c : ℕ) × (s : Bytes) × (digits_onto f n rest ≡ c ∷ s) × (is_digit c ≡ true)
unfolding digits_onto
digits_onto-head zero n rest h = elim h [ ]
digits_onto-head (suc f) n rest h = elim (Bool-cases (ltb n 10)) [
  | inl small ↦ (48 + n, rest, rw small, ground arith)
  | inr large ↦
      let (c, s, e, d) = digits_onto-head f (n / 10) ((48 + n % 10) ∷ rest) (ground arith) in
      (c, s, rw large e, d)
]

parse_int_digit :
    (c : ℕ) (s : Bytes) → is_digit c ≡ true → parse_int (c ∷ s) ≡ num (digits 0 (c ∷ s))
unfolding parse_int
parse_int_digit c s h = ground arith

-- `parseInt(String(n), 10)` is `n`, at every number.
pub parse_int-show_nat : (n : ℕ) → parse_int (show_nat n) ≡ num n
unfolding show_nat
parse_int-show_nat n =
    let (c, s, e, d) = digits_onto-head (suc n) n [] (omega arith) in
    rw e (parse_int_digit c s d)
    ∙ ap num (ap (digits 0) (sym e) ∙ digits-digits_onto (suc n) n [] (omega arith) ∙ digits_nil n)
  where
    digits_nil : (m : ℕ) → digits m [] ≡ m
    digits_nil m = unfold digits in refl
