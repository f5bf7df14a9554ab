-- ===== src/Session/Log.antt =====
-- What the log of the calls is like where a program ends with a value, with a rule for each way to build
-- a program.
use next_call.Session.Values.{Gives}
use next_call.Session.{
  Program, raise, ◌>>=◌, World, continue, Now, await, ok, ◌>>◌, pure, err, answered, pending,
  resolves, rejects, try_catch, get, recover,
}
use next_call.Base.{
  List, Bool, Bytes, if◌then◌else◌, ◌∷◌, arith, ◌≡◌, true, false, subst, sym, refl, ◌⊎◌, inr, inl,
}

-- Where `m` ends with a value, its calls satisfy `P`.
pub record Leaves {S C A : Type 0} (P : List C → Type 0) (m : Program S C A) : Type 0 where
  pub leaves : (w : World S C) (n : Now S C) (a : A) → (m w n).0 ≡ ok a → P (m w n).1.log

module _ {S C A : Type 0} {P : List C → Type 0} where
  pub Leaves-raise : (e : Bytes) → Leaves {S = S} {A = A} P (raise e)
  unfolding raise
  Leaves-raise e = record { leaves = λ w n b h. ground arith }

  pub Leaves-if :
      (b : Bool) (m m' : Program S C A) → Leaves P m → Leaves P m' → Leaves P (if b then m else m')
  Leaves-if true m m' p p' = p
  Leaves-if false m m' p p' = p'

module _ {S C A B : Type 0} {P : List C → Type 0} where
  pub Leaves-bind :
      (m : Program S C A) (g : A → Program S C B) → ((a : A) → Leaves P (g a)) → Leaves P (m >>= g)
  unfolding ◌>>=◌
  Leaves-bind m g q = record {
    leaves = λ w n b.
        let (r, n') = m w n in
        elim r as (λ r. (continue r g w n').0 ≡ ok b → P (continue r g w n').1.log) [
          | ok a ↦ λ h. (q a).leaves w n' b h
          | err e ↦ λ h. ground arith
          | pending ↦ λ h. ground arith
        ];
  }

module _ {S C A B : Type 0} {P : List C → Type 0} where
  -- The value is only looked at.
  pub Leaves-value : (m : Program S C A) (f : A → B) → Leaves P m → Leaves P (m >>= λ a. pure (f a))
  unfolding ◌>>=◌
  Leaves-value m f p = record {
    leaves = λ w n b.
        let (r, n') = m w n in
        elim r
            as (λ r.
              ((a : A) → r ≡ ok a → P n'.log)
              → (continue r (λ a. pure (f a)) w n').0 ≡ ok b
              → P (continue r (λ a. pure (f a)) w n').1.log) [
                | ok a ↦ λ c h. c a refl
                | err e ↦ λ c h. ground arith
                | pending ↦ λ c h. ground arith
              ]
          (p.leaves w n);
  }

module _ {S C B : Type 0} where
  pub Leaves-last :
      (c : C) (b : B) (P Q : List C → Type 0)
      → ((l : List C) → Q l → P (c ∷ l))
      → (w : World S C) (n : Now S C) (a : B) → Q n.log
      → ((await c >> pure b) w n).0 ≡ ok a
      → P ((await c >> pure b) w n).1.log
  unfolding ◌>>=◌
  Leaves-last c b P Q p w n a q =
      let n' : Now S C = record { state = w.meanwhile (c ∷ n.log) n.state; log = c ∷ n.log } in
      elim (w.reply (c ∷ n.log))
        as (λ r.
          (continue (answered r n').0 (λ _. pure b) w (answered r n').1).0 ≡ ok a
          → P (continue (answered r n').0 (λ _. pure b) w (answered r n').1).1.log) [
            | resolves x ↦ λ h. p n.log q
            | rejects e ↦ λ h. ground arith
          ]

module _ {S C B : Type 0} {P : List C → Type 0} where
  -- A program that ends with two calls and a value
  pub Leaves-last_two :
      (c c' : C) (b : B)
      → ((l : List C) → P (c' ∷ c ∷ l))
      → Leaves {S = S} P (await c >> (await c' >> pure b))
  unfolding ◌>>=◌
  Leaves-last_two c c' b p = record {
    leaves = λ w n a.
        let n' : Now S C = record { state = w.meanwhile (c ∷ n.log) n.state; log = c ∷ n.log } in
        elim (w.reply (c ∷ n.log))
          as (λ r.
            (continue (answered r n').0 (λ _. await c' >> pure b) w (answered r n').1).0 ≡ ok a
            → P (continue (answered r n').0 (λ _. await c' >> pure b) w (answered r n').1).1.log) [
              | resolves x ↦ λ h.
                  Leaves-last c' b P (λ l. (m : List C) × (l ≡ c ∷ m))
                    (λ l (m, e). subst (λ l. P (c' ∷ l)) (sym e) (p m)) w n' a (n.log, refl) h
              | rejects e ↦ λ h. ground arith
            ];
  }

-- Where `m` ends with an exception, its calls satisfy `P`.
pub record Fails {S C A : Type 0} (P : List C → Type 0) (m : Program S C A) : Type 0 where
  pub fails : (w : World S C) (n : Now S C) (e : Bytes) → (m w n).0 ≡ err e → P (m w n).1.log

module _ {S C A : Type 0} {P : List C → Type 0} where
  -- The exceptions are those of the handler.
  pub Fails-try_catch :
      (m : Program S C A) (h : Bytes → Program S C A)
      → ((e : Bytes) → Fails P (h e))
      → Fails P (try_catch m h)
  unfolding try_catch
  Fails-try_catch m h q = record {
    fails = λ w n x.
        let (r, n') = m w n in
        elim r as (λ r. (recover r h w n').0 ≡ err x → P (recover r h w n').1.log) [
          | ok a ↦ λ k. ground arith
          | err e ↦ λ k. (q e).fails w n' x k
          | pending ↦ λ k. ground arith
        ];
  }

  -- A handler that makes one call and throws
  pub Fails-last :
      (c : C) (e : Bytes)
      → ((l : List C) → P (c ∷ l))
      → Fails {S = S} {A = A} P (await c >> raise e)
  unfolding ◌>>=◌
  Fails-last c e p = record {
    fails = λ w n x.
        let n' : Now S C = record { state = w.meanwhile (c ∷ n.log) n.state; log = c ∷ n.log } in
        elim (w.reply (c ∷ n.log))
          as (λ r.
            (continue {B = A} (answered r n').0 (λ _. raise e) w (answered r n').1).0 ≡ err x
            → P (continue {B = A} (answered r n').0 (λ _. raise e) w (answered r n').1).1.log) [
              | resolves a ↦ λ h. p n.log
              | rejects y ↦ λ h. p n.log
            ];
  }

module _ {S C A B : Type 0} {P : List C → Type 0} where
  -- What follows throws nothing for the values that come.
  pub Fails-then :
      (Q : A → Type 0) (m : Program S C A) (g : A → Program S C B)
      → Gives Q m
      → Fails P m
      → ((a : A) → Q a → Fails (λ _. ⊥) (g a))
      → Fails P (m >>= g)
  unfolding ◌>>=◌
  Fails-then Q m g t p q = record {
    fails = λ w n x.
        let (r, n') = m w n in
        elim r
            as (λ r.
              ((a : A) → r ≡ ok a → Q a)
              → ((e : Bytes) → r ≡ err e → P n'.log)
              → (continue r g w n').0 ≡ err x
              → P (continue r g w n').1.log) [
                | ok a ↦ λ c d h. absurd ((q a (c a refl)).fails w n' x h)
                | err e ↦ λ c d h. d e refl
                | pending ↦ λ c d h. ground arith
              ]
          (t.gives w n) (p.fails w n);
  }

module _ {S C B : Type 0} {P : List C → Type 0} where
  pub Fails-get :
      (f : S → Program S C B) (w : World S C) (n : Now S C) (e : Bytes)
      → Fails P (f n.state)
      → ((get >>= f) w n).0 ≡ err e
      → P ((get >>= f) w n).1.log
  unfolding ◌>>=◌
  Fails-get f w n e p h = p.fails w n e h

module _ {S C A : Type 0} {P : List C → Type 0} where
  pub Fails-pure : (a : A) → Fails {S = S} P (pure a)
  unfolding pure
  Fails-pure a = record { fails = λ w n e h. ground arith }

module _ {S C A B : Type 0} {P : List C → Type 0} where
  -- Of a method whose value only chooses how it ends: an exception is that of the method, or of the end.
  pub Fails-or :
      (Q : A → Type 0) (R : Bytes → Type 0) (m : Program S C A) (g : A → Program S C B)
      → Gives Q m
      → Fails P m
      → ((a : A) → Q a → (w : World S C) (n : Now S C) (e : Bytes) → (g a w n).0 ≡ err e → R e)
      → (w : World S C) (n : Now S C) (e : Bytes) → ((m >>= g) w n).0 ≡ err e
      → P ((m >>= g) w n).1.log ⊎ R e
  unfolding ◌>>=◌
  Fails-or Q R m g t p q w n x =
      let (r, n') = m w n in
      elim r
          as (λ r.
            ((a : A) → r ≡ ok a → Q a)
            → ((e : Bytes) → r ≡ err e → P n'.log)
            → (continue r g w n').0 ≡ err x
            → P (continue r g w n').1.log ⊎ R x) [
              | ok a ↦ λ c d h. inr (q a (c a refl) w n' x h)
              | err e ↦ λ c d h. inl (d e refl)
              | pending ↦ λ c d h. ground arith
            ]
        (t.gives w n) (p.fails w n)
