-- ===== src/Session/Exact.antt =====
-- Programs that make an exact number of the calls that pass a test: one rule for each way to build a
-- program.
use next_call.Base.{Bytes, sym, subst, ℕ, ◌+◌, ◌≡◌, refl, Bool, true, false, arith, if◌then◌else◌}
use next_call.Session.{
  try_catch, recover, World, Now, Program, ok, err, pending, Answer, pure, await, ◌>>=◌, count,
  continue,
}
use next_call.Session.Bounds.{AtMost}

pub ok-injective : {A : Type 0} {a b : A} → ok a ≡ ok b → a ≡ b
ok-injective h = cc

-- Where `m` ends with a value of which `Q` holds, it has made exactly `k` calls that pass `f`.
pub record Makes {S C A : Type 0} (f : C → Bool) (k : ℕ) (Q : A → Type 0) (m : Program S C A)
    : Type 0 where
  pub made :
      (w : World S C) (n : Now S C) (a : A)
      → (m w n).0 ≡ ok a
      → Q a
      → count f (m w n).1.log ≡ k + count f n.log

module _ {S C A : Type 0} {f : C → Bool} {Q : A → Type 0} where
  pub Makes-pure : (a : A) → Makes {S = S} f 0 Q (pure a)
  unfolding pure
  Makes-pure a = record { made = λ w n b h q. omega arith }

  -- a value that is left out
  pub Makes-other : (k : ℕ) (a : A) → (Q a → ⊥) → Makes {S = S} f k Q (pure a)
  unfolding pure
  Makes-other k a p = record { made = λ w n b h q. absurd (p (subst Q (sym (ok-injective h)) q)) }

  pub Makes-if :
      (k : ℕ) (b : Bool) (m m' : Program S C A)
      → Makes f k Q m
      → Makes f k Q m'
      → Makes f k Q (if b then m else m')
  Makes-if k true m m' p p' = p
  Makes-if k false m m' p p' = p'

module _ {S C A B : Type 0} {f : C → Bool} {Q : B → Type 0} where
  pub Makes-silent :
      (k : ℕ) (m : Program S C A) (g : A → Program S C B)
      → AtMost f 0 m
      → ((a : A) → Makes f k Q (g a))
      → Makes f k Q (m >>= g)
  unfolding ◌>>=◌
  Makes-silent k m g p q = record {
    made = λ w n b.
        let (r, n') = m w n in
        elim r
          as (λ r.
            (continue r g w n').0 ≡ ok b
            → Q b
            → count f (continue r g w n').1.log ≡ k + count f n.log) [
              | ok a ↦ λ h x. omega (arith, (q a).made w n' b h x, p.at w n, p.grows w n)
              | err e ↦ λ h x. ground arith
              | pending ↦ λ h x. ground arith
            ];
  }

module _ {S C A : Type 0} {f : C → Bool} {Q : A → Type 0} where
  -- The handler returns a value that is left out.
  pub Makes-try_catch :
      (k : ℕ) (m : Program S C A) (h : Bytes → A)
      → Makes f k Q m
      → ((e : Bytes) → Q (h e) → ⊥)
      → Makes f k Q (try_catch m λ e. pure (h e))
  unfolding try_catch pure
  Makes-try_catch k m h p q = record {
    made = λ w n b.
        let (r, n') = m w n in
        elim r
            as (λ r.
              ((a : A) → r ≡ ok a → Q a → count f n'.log ≡ k + count f n.log)
              → (recover r (λ e. pure (h e)) w n').0 ≡ ok b
              → Q b
              → count f (recover r (λ e. pure (h e)) w n').1.log ≡ k + count f n.log) [
                | ok a ↦ λ c x y. c b x y
                | err e ↦ λ c x y. absurd (q e (subst Q (sym (ok-injective x)) y))
                | pending ↦ λ c x y. ground arith
              ]
          (p.made w n);
  }

module _ {S C A B : Type 0} {f : C → Bool} {Q : B → Type 0} where
  pub Makes-first :
      (k : ℕ) (m : Program S C A) (g : A → Program S C B)
      → Makes f k (λ _. Unit {0}) m
      → ((a : A) → AtMost f 0 (g a))
      → Makes f k Q (m >>= g)
  unfolding ◌>>=◌
  Makes-first k m g p q = record {
    made = λ w n b.
        let (r, n') = m w n in
        elim r
            as (λ r.
              ((a : A) → r ≡ ok a → Unit {0} → count f n'.log ≡ k + count f n.log)
              → (continue r g w n').0 ≡ ok b
              → Q b
              → count f (continue r g w n').1.log ≡ k + count f n.log) [
                | ok a ↦ λ c h x. omega (arith, (q a).at w n', (q a).grows w n', c a refl tt)
                | err e ↦ λ c h x. ground arith
                | pending ↦ λ c h x. ground arith
              ]
          (p.made w n);
  }

module _ {S C : Type 0} {f : C → Bool} {Q : Answer → Type 0} where
  pub Makes-await : (c : C) → f c ≡ true → Makes {S = S} f 1 Q (await c)
  unfolding await count
  Makes-await c p = record { made = λ w n a h q. ground arith }
