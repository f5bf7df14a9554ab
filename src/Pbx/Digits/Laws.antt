-- ===== src/Pbx/Digits/Laws.antt =====
-- src/esl/free-switch-pbx.service.ts: `uuidPlayAndGetDigits` ends, and what it returns.
use next_call.Base.{
  ℕ, zero, suc, ◌+◌, ◌-◌, ◌≤◌, ◌<◌, ◌≡◌, ◌≢◌, ◌⊎◌, inl, inr, refl, Bool, true, false, Option, none,
  some, [], ◌∷◌, Bytes, codes, arith, Bool-cases,
}
use next_call.Base.Integer.{ℤ, pos, negsuc, above_zero, pred, to_nat}
use next_call.Session.{pure, await, World, Now, ok, pending, count, ◌>>=◌}
use next_call.Session.Bounds.{
  AtMost, AtMost-pure, AtMost-bind, AtMost-free, AtMost-first, AtMost-weaken, AtMost-await_counted,
  free_rules,
}
use next_call.Session.Values.{Gives, Gives-then, Gives-pure, Gives-bind, Gives-suspend, value_rules}
use next_call.Pbx.Digits.{
  Command, read, set_var, DigitOptions, Asking, retries, is_input, tip_again, after_read, ask_loop,
  input_keys, set_variable, uuid_play_and_get_digits,
}

unfoldable pub is_read : Command → Bool
is_read (read f) = true
is_read _ = false

to_nat-pred : (t : ℤ) → above_zero t ≡ true → suc (to_nat (pred t)) ≡ to_nat t
unfolding above_zero to_nat pred
to_nat-pred (pos zero) h = ground arith
to_nat-pred (pos (suc n)) h = refl
to_nat-pred (negsuc n) h = ground arith

to_nat-positive : (t : ℤ) → above_zero t ≡ true → 1 ≤ to_nat t
unfolding above_zero to_nat
to_nat-positive (pos n) h = ground arith
to_nat-positive (negsuc n) h = ground arith

retries-positive : (o : Option ℤ) → above_zero (retries o) ≡ true
unfolding retries above_zero
retries-positive o = ground arith

module _ (matches : Bytes → Bytes → Bool) (o : DigitOptions) where
  -- `again` asks fewer times when fewer retries are left.
  after_read-AtMost :
      (k : ℕ) (again : Bytes → ℤ → ℤ → Asking (Option Bytes)) (file : Bytes) (e t : ℤ) (res : Bytes)
      → ((f : Bytes) (e' t' : ℤ)
          → suc (to_nat e' + to_nat t') ≤ to_nat e + to_nat t
          → AtMost is_read k (again f e' t'))
      → above_zero e ≡ true
      → above_zero t ≡ true
      → AtMost is_read k (after_read matches o again file e t res)
  unfolding after_read tip_again is_read
  after_read-AtMost k again file e t res h p q =
      let less_e : suc (to_nat (pred e) + to_nat t) ≤ to_nat e + to_nat t =
        omega (arith, to_nat-pred e p) in
      let less_t : suc (to_nat e + to_nat (pred t)) ≤ to_nat e + to_nat t =
        omega (arith, to_nat-pred t q) in
      search
        (free_rules, λ (f : Bytes). h f e (pred t) less_t, λ (f : Bytes). h f (pred e) t less_e)
        depth 10

  -- With both kinds of retry left the loop asks at most one time less than there are retries.
  ask_loop-AtMost :
      (fuel : ℕ) (file : Bytes) (e t : ℤ) (k : ℕ)
      → to_nat e + to_nat t < fuel
      → to_nat e + to_nat t ≤ suc k
      → AtMost is_read k (ask_loop matches o fuel file e t)
  unfolding ask_loop
  ask_loop-AtMost zero file e t k f h = ground arith
  ask_loop-AtMost (suc n) file e t k f h = elim (Bool-cases (above_zero e)) [
    | inr p ↦ rw p (AtMost-pure none)
    | inl p ↦ elim (Bool-cases (above_zero t)) [
      | inr q ↦ rw p (rw q (AtMost-pure none))
      | inl q ↦ rw p (
          rw q (
            AtMost-weaken (1 + (k - 1)) k _ (omega (arith, to_nat-pred e p, to_nat-pred t q, h)) (
              AtMost-bind 1 (k - 1) _ _ (AtMost-await_counted _) λ a.
                after_read-AtMost (k - 1) (ask_loop matches o n) file e t _
                  (λ g e' t' less.
                    ask_loop-AtMost n g e' t' (k - 1) (omega (arith, less, f))
                      (omega (arith, less, h)))
                  p q)))
    ]
  ]

  input_keys-free : (b : Bool) (r : Option Bytes) → AtMost is_read 0 (input_keys matches o b r)
  unfolding input_keys
  input_keys-free b none = AtMost-pure _
  input_keys-free b (some keys) = search free_rules

  set_variable-free : (keys : Bytes) → AtMost is_read 0 (set_variable matches o keys)
  unfolding set_variable is_read
  set_variable-free keys =
      elim o.var_name
        as (λ v. AtMost is_read 0 (elim v as (λ _. Asking (Unit {0})) [
          | [] ↦ pure tt
          | c ∷ r ↦ await (set_var o.var_name keys) >>= λ _. pure tt
        ])) [ [] ↦ AtMost-pure tt | c ∷ r ↦ search free_rules ]

  -- No keys, or keys that are accepted
  Accepted : Option Bytes → Type 0
  Accepted none = Unit
  Accepted (some b) = is_input matches o b ≡ true

  tip_again-Gives :
      (again : Bytes → ℤ → ℤ → Asking (Option Bytes))
      → ((f : Bytes) (e t : ℤ) → Gives Accepted (again f e t))
      → (file tip : Bytes) (e t : ℤ) → Gives Accepted (tip_again matches o again file tip e t)
  unfolding tip_again
  tip_again-Gives again h file tip e t = search (value_rules, h) depth 8

  after_read-Gives :
      (again : Bytes → ℤ → ℤ → Asking (Option Bytes))
      → ((f : Bytes) (e t : ℤ) → Gives Accepted (again f e t))
      → (file : Bytes) (e t : ℤ) (res : Bytes)
      → Gives Accepted (after_read matches o again file e t res)
  unfolding after_read Accepted
  after_read-Gives again h file e t res =
      search
        (
          value_rules,
          tip_again-Gives again h,
          λ (b : Bytes) (p : is_input matches o b ≡ true).
              Gives-pure {S = Bytes} {C = Command} {P = Accepted} (some b) p,
        )
        depth 8

  input_keys-Gives :
      (r : Option Bytes)
      → Accepted r
      → Gives
          (λ b. (b ≡ codes "_invalid_") ⊎ (is_input matches o b ≡ true))
          (input_keys matches o false r)
  unfolding input_keys Accepted
  input_keys-Gives none p = Gives-pure _ (inl refl)
  input_keys-Gives (some keys) p = Gives-bind _ _ λ l. Gives-bind _ _ λ _. Gives-pure keys (inr p)

  ask_loop-Gives :
      (fuel : ℕ) (file : Bytes) (e t : ℤ) → Gives Accepted (ask_loop matches o fuel file e t)
  unfolding ask_loop Accepted
  ask_loop-Gives zero file e t = Gives-suspend
  ask_loop-Gives (suc n) file e t =
      search (value_rules, after_read-Gives (ask_loop matches o n) (ask_loop-Gives n)) depth 8

module _ (matches : Bytes → Bytes → Bool) (o : DigitOptions) where
  digits-AtMost :
      (fuel k : ℕ) (include_last : Bool)
      → to_nat (retries o.input_err_retry) + to_nat (retries o.input_timeout_retry) < fuel
      → to_nat (retries o.input_err_retry) + to_nat (retries o.input_timeout_retry) ≤ suc k
      → AtMost is_read k (uuid_play_and_get_digits matches o fuel include_last)
  unfolding uuid_play_and_get_digits
  digits-AtMost fuel k include_last f h =
      AtMost-first k _ _ (ask_loop-AtMost matches o fuel o.file _ _ k f h) λ r.
        AtMost-free 0 _ _ (input_keys-free matches o include_last r)
          λ keys. AtMost-free 0 _ _ (set_variable-free matches o keys) λ _. AtMost-pure keys

  digits-Gives :
      (fuel : ℕ)
      → Gives
          (λ b. (b ≡ codes "_invalid_") ⊎ (is_input matches o b ≡ true))
          (uuid_play_and_get_digits matches o fuel false)
  unfolding uuid_play_and_get_digits
  digits-Gives fuel = Gives-then _ _ (ask_loop-Gives matches o fuel o.file _ _) λ r p.
      Gives-then _ _ (input_keys-Gives matches o r p)
        λ keys h. Gives-bind _ _ λ _. Gives-pure keys h

-- Asking for keys, with fuel above the sum of the retries, always ends, and it reads at most one time
-- less than there are retries, of which each kind has at least one.
pub uuid_play_and_get_digits-reads :
    (matches : Bytes → Bytes → Bool) (o : DigitOptions) (fuel : ℕ) (include_last : Bool)
    (w : World Bytes Command) (n : Now Bytes Command)
    → to_nat (retries o.input_err_retry) + to_nat (retries o.input_timeout_retry) < fuel
    → ((uuid_play_and_get_digits matches o fuel include_last w n).0 ≢ pending)
      × (count is_read (uuid_play_and_get_digits matches o fuel include_last w n).1.log + 1
          ≤ to_nat (retries o.input_err_retry)
            + to_nat (retries o.input_timeout_retry)
            + count is_read n.log)
uuid_play_and_get_digits-reads matches o fuel include_last w n h =
    let k = to_nat (retries o.input_err_retry) + to_nat (retries o.input_timeout_retry) - 1 in
    let reads = digits-AtMost matches o fuel k include_last h (omega arith) in
    (
      reads.ends w n,
      omega (arith, reads.at w n, to_nat-positive _ (retries-positive o.input_err_retry)),
    )

-- The text that is returned without the last key of an earlier read is the word for invalid, or keys
-- that match the pattern and are not the word for a timeout.
pub uuid_play_and_get_digits-value :
    (matches : Bytes → Bytes → Bool) (o : DigitOptions) (fuel : ℕ) (keys : Bytes)
    (w : World Bytes Command) (n : Now Bytes Command)
    → (uuid_play_and_get_digits matches o fuel false w n).0 ≡ ok keys
    → (keys ≡ codes "_invalid_") ⊎ (is_input matches o keys ≡ true)
uuid_play_and_get_digits-value matches o fuel keys w n =
    (digits-Gives matches o fuel).gives w n keys
