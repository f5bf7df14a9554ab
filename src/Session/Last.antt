-- ===== src/Session/Last.antt =====
-- What the last of the calls of a kind was answered, where a program ends with a value.
use next_call.Base.{
  Bool, List, ◌≡◌, if◌then◌else◌, Bytes, true, false, subst, ◌∷◌, sym, arith, ◌∙◌, refl, ap,
}
use next_call.Session.{
  World, Program, ◌>>=◌, try_catch, Answer, Now, pure, continue, ok, await, recover, err, resolves,
  answered, rejects, pending,
}
use next_call.Session.Exact.{ok-injective}

-- The last call that passes `f` resolved to a success.
pub data LastSucceeds {S C : Type 0} (w : World S C) (f : C → Bool) : List C → Type 0 where
  this_call :
      (c : C) (l : List C) (a : Answer)
      → f c ≡ true
      → w.reply (c ∷ l) ≡ resolves a
      → a.success ≡ true
      → LastSucceeds w f (c ∷ l)
  other_call : (c : C) (l : List C) → f c ≡ false → LastSucceeds w f l → LastSucceeds w f (c ∷ l)

-- Where `m` ends with a value of which `Q` holds, the last such call succeeded.
pub record Confirms {S C A : Type 0} (f : C → Bool) (Q : A → Type 0) (m : Program S C A)
    : Type 0 where
  pub confirms :
      (w : World S C) (n : Now S C) (a : A)
      → (m w n).0 ≡ ok a
      → Q a
      → LastSucceeds w f (m w n).1.log

-- `m` ends with such a call, and gives its answer.
pub record EndsWith {S C : Type 0} (f : C → Bool) (m : Program S C Answer) : Type 0 where
  pub ends_with :
      (w : World S C) (n : Now S C) (a : Answer)
      → (m w n).0 ≡ ok a
      → a.success ≡ true
      → LastSucceeds w f (m w n).1.log

-- `m` makes no such call.
pub record Spares {S C A : Type 0} (f : C → Bool) (m : Program S C A) : Type 0 where
  pub spares :
      (w : World S C) (n : Now S C) → LastSucceeds w f n.log → LastSucceeds w f (m w n).1.log

module _ {S C : Type 0} {f : C → Bool} where
  pub EndsWith-await : (c : C) → f c ≡ true → EndsWith {S = S} f (await c)
  unfolding ◌>>=◌
  EndsWith-await c p = record {
    ends_with = λ w n a.
        elim (w.reply (c ∷ n.log))
            as (λ r.
              w.reply (c ∷ n.log) ≡ r
              → (answered r (record { state = w.meanwhile (c ∷ n.log) n.state; log = c ∷ n.log })).0
                ≡ ok a
              → a.success ≡ true
              → LastSucceeds w f
                  (answered r
                    (record { state = w.meanwhile (c ∷ n.log) n.state; log = c ∷ n.log })).1.log) [
                      | resolves x ↦
                          λ q h s. this_call c n.log a p (q ∙ ap resolves (ok-injective h)) s
                      | rejects e ↦ λ q h s. ground arith
                    ]
          refl;
  }

  pub Spares-await : (c : C) → f c ≡ false → Spares {S = S} f (await c)
  unfolding ◌>>=◌
  Spares-await c p = record {
    spares = λ w n h.
        elim (w.reply (c ∷ n.log))
          as (λ r.
            LastSucceeds w f
              (answered r
                (record { state = w.meanwhile (c ∷ n.log) n.state; log = c ∷ n.log })).1.log) [
                  | resolves x ↦ other_call c n.log p h
                  | rejects e ↦ other_call c n.log p h
                ];
  }

module _ {S C A : Type 0} {f : C → Bool} where
  pub EndsWith-bind :
      (m : Program S C A) (g : A → Program S C Answer)
      → ((a : A) → EndsWith f (g a))
      → EndsWith f (m >>= g)
  unfolding ◌>>=◌
  EndsWith-bind m g q = record {
    ends_with = λ w n b.
        let (r, n') = m w n in
        elim r
          as (λ r.
            (continue r g w n').0 ≡ ok b
            → b.success ≡ true
            → LastSucceeds w f (continue r g w n').1.log) [
              | ok a ↦ λ h s. (q a).ends_with w n' b h s
              | err e ↦ λ h s. ground arith
              | pending ↦ λ h s. ground arith
            ];
  }

  pub Spares-pure : (a : A) → Spares {S = S} f (pure a)
  unfolding ◌>>=◌
  Spares-pure a = record { spares = λ w n h. h }

module _ {S C A B : Type 0} {f : C → Bool} where
  pub Spares-bind :
      (m : Program S C A) (g : A → Program S C B)
      → Spares f m
      → ((a : A) → Spares f (g a))
      → Spares f (m >>= g)
  unfolding ◌>>=◌
  Spares-bind m g p q = record {
    spares = λ w n h.
        let (r, n') = m w n in
        elim r as (λ r. LastSucceeds w f n'.log → LastSucceeds w f (continue r g w n').1.log) [
          | ok a ↦ λ k. (q a).spares w n' k
          | err e ↦ λ k. k
          | pending ↦ λ k. k
        ]
          (p.spares w n h);
  }

module _ {S C A B : Type 0} {f : C → Bool} {Q : B → Type 0} where
  pub Confirms-bind :
      (m : Program S C A) (g : A → Program S C B)
      → ((a : A) → Confirms f Q (g a))
      → Confirms f Q (m >>= g)
  unfolding ◌>>=◌
  Confirms-bind m g q = record {
    confirms = λ w n b.
        let (r, n') = m w n in
        elim r
          as (λ r.
            (continue r g w n').0 ≡ ok b → Q b → LastSucceeds w f (continue r g w n').1.log) [
              | ok a ↦ λ h s. (q a).confirms w n' b h s
              | err e ↦ λ h s. ground arith
              | pending ↦ λ h s. ground arith
            ];
  }

module _ {S C A : Type 0} {f : C → Bool} {Q : A → Type 0} where
  -- The answer of the call chooses what comes after it.
  pub Confirms-after :
      (m : Program S C Answer) (g h : Answer → Program S C A)
      → EndsWith f m
      → ((a : Answer) → Spares f (g a))
      → ((a : Answer) → Confirms f Q (h a))
      → Confirms f Q (m >>= λ a. if a.success then g a else h a)
  unfolding ◌>>=◌
  Confirms-after m g h p q t = record {
    confirms = λ w n b.
        let (r, n') = m w n in
        let k : Answer → Program S C A = λ a. if a.success then g a else h a in
        elim r
            as (λ r.
              ((a : Answer) → r ≡ ok a → a.success ≡ true → LastSucceeds w f n'.log)
              → (continue r k w n').0 ≡ ok b
              → Q b
              → LastSucceeds w f (continue r k w n').1.log) [
                | ok a ↦ λ c.
                    elim a.success
                        as (λ s.
                          (a.success ≡ s)
                          → ((if s then g a else h a) w n').0 ≡ ok b
                          → Q b
                          → LastSucceeds w f ((if s then g a else h a) w n').1.log) [
                            | true ↦ λ e x y. (q a).spares w n' (c a refl e)
                            | false ↦ λ e x y. (t a).confirms w n' b x y
                          ]
                      refl
                | err e ↦ λ c x y. ground arith
                | pending ↦ λ c x y. ground arith
              ]
          (p.ends_with w n);
  }

  pub Confirms-other : (a : A) → (Q a → ⊥) → Confirms {S = S} f Q (pure a)
  unfolding ◌>>=◌
  Confirms-other a p = record {
    confirms = λ w n b h q. absurd (p (subst Q (sym (ok-injective h)) q));
  }

  pub Confirms-if :
      (b : Bool) (m m' : Program S C A)
      → Confirms f Q m
      → Confirms f Q m'
      → Confirms f Q (if b then m else m')
  Confirms-if true m m' p p' = p
  Confirms-if false m m' p p' = p'

  -- The handler returns a value that is left out.
  pub Confirms-try_catch :
      (m : Program S C A) (h : Bytes → A)
      → Confirms f Q m
      → ((e : Bytes) → Q (h e) → ⊥)
      → Confirms f Q (try_catch m λ e. pure (h e))
  unfolding try_catch ◌>>=◌
  Confirms-try_catch m h p q = record {
    confirms = λ w n b.
        let (r, n') = m w n in
        elim r
            as (λ r.
              ((a : A) → r ≡ ok a → Q a → LastSucceeds w f n'.log)
              → (recover r (λ e. pure (h e)) w n').0 ≡ ok b
              → Q b
              → LastSucceeds w f (recover r (λ e. pure (h e)) w n').1.log) [
                | ok a ↦ λ c x y. c b x y
                | err e ↦ λ c x y. absurd (q e (subst Q (sym (ok-injective x)) y))
                | pending ↦ λ c x y. ground arith
              ]
          (p.confirms w n);
  }
