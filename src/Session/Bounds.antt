-- ===== src/Session/Bounds.antt =====
-- Programs that end, and that make at most a given number of the calls that pass a test: one rule for
-- each way to build a program.
use next_call.Base.{
  ℕ, ◌+◌, ◌≤◌, ◌≡◌, ◌≢◌, refl, Bool, true, false, Option, none, some, Bytes, arith, if◌then◌else◌,
}
use next_call.Session.{
  Program, World, Now, ok, err, pending, pure, raise, get, time, modify, await, tell, try_catch,
  ◌>>=◌, or_raise, count, continue, recover,
}

-- `m` ends, and it makes at most `k` calls that pass `f`, whether it returns or raises.
pub record AtMost {S C A : Type 0} (f : C → Bool) (k : ℕ) (m : Program S C A) : Type 0 where
  pub ends : (w : World S C) (n : Now S C) → (m w n).0 ≢ pending
  pub at : (w : World S C) (n : Now S C) → count f (m w n).1.log ≤ k + count f n.log
  pub grows : (w : World S C) (n : Now S C) → count f n.log ≤ count f (m w n).1.log

module _ {S C : Type 0} {f : C → Bool} {k : ℕ} where
  pub AtMost-pure : {A : Type 0} (a : A) → AtMost {S = S} f k (pure a)
  unfolding pure
  AtMost-pure a = record {
    ends = λ w n. ground arith;
    at = λ w n. omega arith;
    grows = λ w n. omega arith;
  }

  pub AtMost-raise : {A : Type 0} (e : Bytes) → AtMost {S = S} {A = A} f k (raise e)
  unfolding raise
  AtMost-raise e = record {
    ends = λ w n. ground arith;
    at = λ w n. omega arith;
    grows = λ w n. omega arith;
  }

  pub AtMost-get : AtMost {S = S} f k get
  unfolding get
  AtMost-get = record {
    ends = λ w n. ground arith;
    at = λ w n. omega arith;
    grows = λ w n. omega arith;
  }

  pub AtMost-time : AtMost {S = S} f k time
  unfolding time
  AtMost-time = record {
    ends = λ w n. ground arith;
    at = λ w n. omega arith;
    grows = λ w n. omega arith;
  }

  pub AtMost-modify : (g : S → S) → AtMost f k (modify g)
  unfolding modify
  AtMost-modify g = record {
    ends = λ w n. ground arith;
    at = λ w n. omega arith;
    grows = λ w n. omega arith;
  }

  pub AtMost-tell : (c : C) → f c ≡ false → AtMost {S = S} f k (tell c)
  unfolding tell count
  AtMost-tell c p = record {
    ends = λ w n. ground arith;
    at = λ w n. ground arith;
    grows = λ w n. ground arith;
  }

  pub AtMost-await : (c : C) → f c ≡ false → AtMost {S = S} f k (await c)
  unfolding await count
  AtMost-await c p = record {
    ends = λ w n. ground arith;
    at = λ w n. ground arith;
    grows = λ w n. ground arith;
  }

  pub AtMost-if :
      {A : Type 0} (b : Bool) (m m' : Program S C A)
      → AtMost f k m
      → AtMost f k m'
      → AtMost f k (if b then m else m')
  AtMost-if true m m' p p' = p
  AtMost-if false m m' p p' = p'

  pub AtMost-or_raise : {A : Type 0} (e : Bytes) (o : Option A) → AtMost {S = S} f k (or_raise e o)
  AtMost-or_raise e none = AtMost-raise e
  AtMost-or_raise e (some a) = AtMost-pure a

module _ {S C A : Type 0} {f : C → Bool} where
  pub AtMost-weaken : (j k : ℕ) (m : Program S C A) → j ≤ k → AtMost f j m → AtMost f k m
  AtMost-weaken j k m h p = record {
    ends = p.ends;
    at = λ w n. omega (arith, p.at w n);
    grows = p.grows;
  }

module _ {S C A B : Type 0} {f : C → Bool} where
  -- The calls of the two parts add up.
  pub AtMost-bind :
      (j k : ℕ) (m : Program S C A) (g : A → Program S C B)
      → AtMost f j m
      → ((a : A) → AtMost f k (g a))
      → AtMost f (j + k) (m >>= g)
  unfolding ◌>>=◌
  AtMost-bind j k m g p q = record {
    ends = λ w n.
        let (r, n') = m w n in
        elim r as (λ r. r ≢ pending → (continue r g w n').0 ≢ pending) [
          | ok a ↦ λ _. (q a).ends w n'
          | err e ↦ λ _. ground arith
          | pending ↦ λ x. absurd (x refl)
        ]
          (p.ends w n);
    at = λ w n.
        let (r, n') = m w n in
        elim r as (λ r. count f (continue r g w n').1.log ≤ j + k + count f n.log) [
          | ok a ↦ omega (arith, (q a).at w n', p.at w n)
          | err e ↦ omega (arith, p.at w n)
          | pending ↦ omega (arith, p.at w n)
        ];
    grows = λ w n.
        let (r, n') = m w n in
        elim r as (λ r. count f n.log ≤ count f (continue r g w n').1.log) [
          | ok a ↦ omega (arith, (q a).grows w n', p.grows w n)
          | err e ↦ p.grows w n
          | pending ↦ p.grows w n
        ];
  }

  -- A part that makes no such call is free.
  pub AtMost-free :
      (k : ℕ) (m : Program S C A) (g : A → Program S C B)
      → AtMost f 0 m
      → ((a : A) → AtMost f k (g a))
      → AtMost f k (m >>= g)
  AtMost-free k m g p q = AtMost-weaken (0 + k) k (m >>= g) (omega arith) (AtMost-bind 0 k m g p q)

  -- All the calls are made by the first part.
  pub AtMost-first :
      (k : ℕ) (m : Program S C A) (g : A → Program S C B)
      → AtMost f k m
      → ((a : A) → AtMost f 0 (g a))
      → AtMost f k (m >>= g)
  AtMost-first k m g p q = AtMost-weaken (k + 0) k (m >>= g) (omega arith) (AtMost-bind k 0 m g p q)

module _ {S C : Type 0} {f : C → Bool} where
  pub AtMost-await_counted : (c : C) → AtMost {S = S} f 1 (await c)
  unfolding await count
  AtMost-await_counted c = record {
    ends = λ w n. ground arith;
    at = λ w n. ground arith;
    grows = λ w n. ground arith;
  }

  pub AtMost-tell_counted : (c : C) → AtMost {S = S} f 1 (tell c)
  unfolding tell count
  AtMost-tell_counted c = record {
    ends = λ w n. ground arith;
    at = λ w n. ground arith;
    grows = λ w n. ground arith;
  }

module _ {S C A : Type 0} {f : C → Bool} where
  -- A handler that makes no such call
  pub AtMost-try_catch :
      (k : ℕ) (m : Program S C A) (h : Bytes → Program S C A)
      → AtMost f k m
      → ((e : Bytes) → AtMost f 0 (h e))
      → AtMost f k (try_catch m h)
  unfolding try_catch
  AtMost-try_catch k m h p q = record {
    ends = λ w n.
        let (r, n') = m w n in
        elim r as (λ r. r ≢ pending → (recover r h w n').0 ≢ pending) [
          | ok a ↦ λ _. ground arith
          | err e ↦ λ _. (q e).ends w n'
          | pending ↦ λ x. absurd (x refl)
        ]
          (p.ends w n);
    at = λ w n.
        let (r, n') = m w n in
        elim r as (λ r. count f (recover r h w n').1.log ≤ k + count f n.log) [
          | ok a ↦ p.at w n
          | err e ↦ omega (arith, (q e).at w n', p.at w n)
          | pending ↦ p.at w n
        ];
    grows = λ w n.
        let (r, n') = m w n in
        elim r as (λ r. count f n.log ≤ count f (recover r h w n').1.log) [
          | ok a ↦ p.grows w n
          | err e ↦ omega (arith, (q e).grows w n', p.grows w n)
          | pending ↦ p.grows w n
        ];
  }

-- `m` ends with a value, and never with an exception.
pub record Returns {S C A : Type 0} (m : Program S C A) : Type 0 where
  pub value : (w : World S C) (n : Now S C) → (a : A) × ((m w n).0 ≡ ok a)

module _ {S C A : Type 0} where
  pub Returns-pure : (a : A) → Returns {S = S} {C = C} (pure a)
  unfolding pure
  Returns-pure a = record { value = λ w n. (a, refl) }

  pub Returns-try_catch :
      (f : C → Bool) (k : ℕ) (m : Program S C A) (h : Bytes → Program S C A)
      → AtMost f k m
      → ((e : Bytes) → Returns (h e))
      → Returns (try_catch m h)
  unfolding try_catch
  Returns-try_catch f k m h p q = record {
    value = λ w n.
        let (r, n') = m w n in
        elim r as (λ r. r ≢ pending → (a : A) × ((recover r h w n').0 ≡ ok a)) [
          | ok a ↦ λ _. (a, refl)
          | err e ↦ λ _. (q e).value w n'
          | pending ↦ λ x. absurd (x refl)
        ]
          (p.ends w n);
  }

pub ruleset free_rules = (
  AtMost-pure, AtMost-raise, AtMost-get, AtMost-time, AtMost-modify, AtMost-tell, AtMost-await,
  AtMost-if, AtMost-or_raise, AtMost-free,
)
