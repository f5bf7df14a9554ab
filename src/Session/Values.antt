-- ===== src/Session/Values.antt =====
-- What the value of a program satisfies where it returns one, with a rule for each way to build a
-- program.
use next_call.Base.{◌≡◌, refl, subst, Bool, true, false, if◌then◌else◌, arith, Bytes}
use next_call.Session.{
  World, Now, Program, ok, err, pending, pure, raise, suspend, ◌>>=◌, continue, try_catch, recover,
}

pub record Gives {S C A : Type 0} (P : A → Type 0) (m : Program S C A) : Type 0 where
  pub gives : (w : World S C) (n : Now S C) (a : A) → (m w n).0 ≡ ok a → P a

ok-injective : {A : Type 0} {a b : A} → ok a ≡ ok b → a ≡ b
ok-injective h = cc

module _ {S C A : Type 0} {P : A → Type 0} where
  pub Gives-pure : (a : A) → P a → Gives {S = S} {C = C} P (pure a)
  unfolding pure
  Gives-pure a p = record { gives = λ w n b h. subst P (ok-injective h) p }

  pub Gives-raise : (e : Bytes) → Gives {S = S} {C = C} P (raise e)
  unfolding raise
  Gives-raise e = record { gives = λ w n b h. ground arith }

  pub Gives-suspend : Gives {S = S} {C = C} P suspend
  unfolding suspend
  Gives-suspend = record { gives = λ w n b h. ground arith }

  pub Gives-if :
      (b : Bool) (m m' : Program S C A)
      → (b ≡ true → Gives P m)
      → (b ≡ false → Gives P m')
      → Gives P (if b then m else m')
  Gives-if true m m' p p' = p refl
  Gives-if false m m' p p' = p' refl

module _ {S C A B : Type 0} {P : B → Type 0} where
  pub Gives-bind :
      (m : Program S C A) (g : A → Program S C B) → ((a : A) → Gives P (g a)) → Gives P (m >>= g)
  unfolding ◌>>=◌
  Gives-bind m g q = record {
    gives = λ w n b.
        let (r, n') = m w n in
        elim r as (λ r. (continue r g w n').0 ≡ ok b → P b) [
          | ok a ↦ λ h. (q a).gives w n' b h
          | err e ↦ λ h. ground arith
          | pending ↦ λ h. ground arith
        ];
  }

  -- What the first value satisfies is known of it in the rest.
  pub Gives-then :
      {Q : A → Type 0} (m : Program S C A) (g : A → Program S C B)
      → Gives Q m
      → ((a : A) → Q a → Gives P (g a))
      → Gives P (m >>= g)
  unfolding ◌>>=◌
  Gives-then {Q = Q} m g p q = record {
    gives = λ w n b.
        let (r, n') = m w n in
        elim r as (λ r. ((a : A) → r ≡ ok a → Q a) → (continue r g w n').0 ≡ ok b → P b) [
          | ok a ↦ λ c h. (q a (c a refl)).gives w n' b h
          | err e ↦ λ c h. ground arith
          | pending ↦ λ c h. ground arith
        ]
          (p.gives w n);
  }

module _ {S C A : Type 0} {P : A → Type 0} where
  pub Gives-try_catch :
      (m : Program S C A) (h : Bytes → Program S C A)
      → Gives P m
      → ((e : Bytes) → Gives P (h e))
      → Gives P (try_catch m h)
  unfolding try_catch
  Gives-try_catch m h p q = record {
    gives = λ w n b.
        let (r, n') = m w n in
        elim r as (λ r. ((a : A) → r ≡ ok a → P a) → (recover r h w n').0 ≡ ok b → P b) [
          | ok a ↦ λ c h. c b h
          | err e ↦ λ c k. (q e).gives w n' b k
          | pending ↦ λ c h. ground arith
        ]
          (p.gives w n);
  }

pub ruleset value_rules = (Gives-pure, Gives-raise, Gives-suspend, Gives-if, Gives-bind)
