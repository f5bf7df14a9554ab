-- ===== src/Ivr/Action/Rules.antt =====
-- src/esl/ivr.service.ts: programs that start a limited number of steps, one rule for each way to
-- build a program.
use next_call.Base.{
  ℕ, suc, ◌+◌, ◌-◌, ◌≤◌, ◌≡◌, ◌≢◌, refl, ◌∙◌, List, ◌∷◌, Bool, true, false, Bytes, arith,
  if◌then◌else◌, Option, some, none,
}
use next_call.Session.{
  World, Now, Answer, ok, err, pending, pure, raise, get, time, modify, await, ◌>>=◌, count,
  continue, answered, resolves, rejects, tell, or_raise,
}
use next_call.Ivr.{IvrData, Call, last_app, Ivr}
use next_call.Ivr.Action.{set_main, increase_deep}

-- Handlers of other events that leave the depth of the menu alone
pub record IsQuiet (w : World IvrData Call) : Type 0 where
  pub deep : (l : List Call) (d : IvrData) → (w.meanwhile l d).ivr_current_deep ≡ d.ivr_current_deep
  pub max : (l : List Call) (d : IvrData) → (w.meanwhile l d).ivr_max_deep ≡ d.ivr_max_deep

unfoldable pub is_action : Call → Bool
is_action (last_app n o) = true
is_action _ = false

-- How many steps may still run
unfoldable pub left : IvrData → ℕ
left d = d.ivr_max_deep - d.ivr_current_deep

-- From data with `j` steps left, `m` ends, and it starts at most `i` steps.
pub record Spends {A : Type 0} (i j : ℕ) (m : Ivr A) : Type 0 where
  pub ends :
      (w : World IvrData Call) (n : Now IvrData Call)
      → IsQuiet w
      → left n.state ≡ j
      → (m w n).0 ≢ pending
  pub at :
      (w : World IvrData Call) (n : Now IvrData Call)
      → IsQuiet w
      → left n.state ≡ j
      → count is_action (m w n).1.log ≤ i + count is_action n.log

-- A step that ends, starts no step itself, and leaves the depth alone
pub record IsStep {A : Type 0} (m : Ivr A) : Type 0 where
  pub ends : (w : World IvrData Call) (n : Now IvrData Call) → IsQuiet w → (m w n).0 ≢ pending
  pub same :
      (w : World IvrData Call) (n : Now IvrData Call)
      → IsQuiet w
      → left (m w n).1.state ≡ left n.state
  pub none_started :
      (w : World IvrData Call) (n : Now IvrData Call)
      → IsQuiet w
      → count is_action (m w n).1.log ≡ count is_action n.log

-- The data and the calls while a call is answered
abbrev pub after_await : World IvrData Call → Now IvrData Call → Call → Now IvrData Call
after_await w n c = record { state = w.meanwhile (c ∷ n.log) n.state; log = c ∷ n.log }

pub left-after_await :
    (w : World IvrData Call) (n : Now IvrData Call) (c : Call)
    → IsQuiet w
    → left (after_await w n c).state ≡ left n.state
unfolding left
left-after_await w n c u = rw (u.deep (c ∷ n.log) n.state) (rw (u.max (c ∷ n.log) n.state) refl)

pub IsStep-await : (c : Call) → is_action c ≡ false → IsStep (await c)
unfolding ◌>>=◌ count
IsStep-await c p = record {
  ends = λ w n u.
      elim (w.reply (c ∷ n.log)) as (λ r. (answered r (after_await w n c)).0 ≢ pending) [
        | resolves a ↦ ground arith
        | rejects e ↦ ground arith
      ];
  same = λ w n u.
      elim (w.reply (c ∷ n.log))
        as (λ r. left (answered r (after_await w n c)).1.state ≡ left n.state) [
          | resolves a ↦ left-after_await w n c u
          | rejects e ↦ left-after_await w n c u
        ];
  none_started = λ w n u.
      elim (w.reply (c ∷ n.log))
        as (λ r. count is_action (answered r (after_await w n c)).1.log ≡ count is_action n.log) [
          | resolves a ↦ ground (arith, p)
          | rejects e ↦ ground (arith, p)
        ];
}

pub IsStep-set_main : (ivr : Bytes) → IsStep (modify (set_main ivr))
unfolding ◌>>=◌ set_main left
IsStep-set_main ivr = record {
  ends = λ w n u. ground arith;
  same = λ w n u. refl;
  none_started = λ w n u. refl;
}

module _ {A : Type 0} where
  pub Spends-pure : (i j : ℕ) (a : A) → Spends i j (pure a)
  unfolding ◌>>=◌
  Spends-pure i j a = record { ends = λ w n q h. ground arith; at = λ w n q h. omega arith }

  pub Spends-raise : (i j : ℕ) (e : Bytes) → Spends {A = A} i j (raise e)
  unfolding ◌>>=◌
  Spends-raise i j e = record { ends = λ w n q h. ground arith; at = λ w n q h. omega arith }

  pub Spends-if :
      (i j : ℕ) (b : Bool) (m m' : Ivr A)
      → Spends i j m
      → Spends i j m'
      → Spends i j (if b then m else m')
  Spends-if i j true m m' p p' = p
  Spends-if i j false m m' p p' = p'

module _ {A B : Type 0} where
  pub Spends-step :
      (i j : ℕ) (m : Ivr A) (g : A → Ivr B)
      → IsStep m
      → ((a : A) → Spends i j (g a))
      → Spends i j (m >>= g)
  unfolding ◌>>=◌
  Spends-step i j m g p q = record {
    ends = λ w n u h.
        let (r, n') = m w n in
        elim r as (λ r. r ≢ pending → (continue r g w n').0 ≢ pending) [
          | ok a ↦ λ _. (q a).ends w n' u (p.same w n u ∙ h)
          | err e ↦ λ _. ground arith
          | pending ↦ λ x. absurd (x refl)
        ]
          (p.ends w n u);
    at = λ w n u h.
        let (r, n') = m w n in
        elim r as (λ r. count is_action (continue r g w n').1.log ≤ i + count is_action n.log) [
          | ok a ↦ omega (arith, (q a).at w n' u (p.same w n u ∙ h), p.none_started w n u)
          | err e ↦ omega (arith, p.none_started w n u)
          | pending ↦ omega (arith, p.none_started w n u)
        ];
  }

module _ {B : Type 0} where
  -- the data that is read has `j` steps left
  pub Spends-get :
      (i j : ℕ) (g : IvrData → Ivr B)
      → ((d : IvrData) → left d ≡ j → Spends i j (g d))
      → Spends i j (get >>= g)
  unfolding ◌>>=◌
  Spends-get i j g q = record {
    ends = λ w n u h. (q n.state h).ends w n u h;
    at = λ w n u h. (q n.state h).at w n u h;
  }

  pub Spends-start :
      (i j : ℕ) (ivr : Bytes) (o : ℕ) (g : Answer → Ivr B)
      → ((a : Answer) → Spends i j (g a))
      → Spends (suc i) j (await (last_app ivr o) >>= g)
  unfolding ◌>>=◌ is_action count
  Spends-start i j ivr o g q = record {
    ends = λ w n u h.
        let n' = after_await w n (last_app ivr o) in
        elim (w.reply (last_app ivr o ∷ n.log))
          as (λ r. (continue (answered r n').0 g w (answered r n').1).0 ≢ pending) [
            | resolves a ↦ (q a).ends w n' u (left-after_await w n (last_app ivr o) u ∙ h)
            | rejects e ↦ ground arith
          ];
    at = λ w n u h.
        let n' = after_await w n (last_app ivr o) in
        elim (w.reply (last_app ivr o ∷ n.log))
          as (λ r.
            count is_action (continue (answered r n').0 g w (answered r n').1).1.log
            ≤ suc i + count is_action n.log) [
              | resolves a ↦
                  omega (arith, (q a).at w n' u (left-after_await w n (last_app ivr o) u ∙ h))
              | rejects e ↦ omega arith
            ];
  }

  pub Spends-increase :
      (i j : ℕ) (g : Unit {0} → Ivr B)
      → Spends i j (g tt)
      → Spends i (suc j) (modify increase_deep >>= g)
  unfolding ◌>>=◌ increase_deep left
  Spends-increase i j g q = record {
    ends = λ w n u h. q.ends w _ u (omega (arith, h));
    at = λ w n u h. q.at w _ u (omega (arith, h));
  }

pub IsStep-pure : {A : Type 0} (a : A) → IsStep (pure a)
unfolding ◌>>=◌
IsStep-pure a = record {
  ends = λ w n u. ground arith;
  same = λ w n u. refl;
  none_started = λ w n u. refl;
}

pub IsStep-time : IsStep time
unfolding ◌>>=◌
IsStep-time = record {
  ends = λ w n u. ground arith;
  same = λ w n u. refl;
  none_started = λ w n u. refl;
}

pub IsStep-get : IsStep get
unfolding ◌>>=◌
IsStep-get = record {
  ends = λ w n u. ground arith;
  same = λ w n u. refl;
  none_started = λ w n u. refl;
}

pub IsStep-raise : {A : Type 0} (e : Bytes) → IsStep {A = A} (raise e)
unfolding ◌>>=◌
IsStep-raise e = record {
  ends = λ w n u. ground arith;
  same = λ w n u. refl;
  none_started = λ w n u. refl;
}

pub IsStep-or_raise : {A : Type 0} (e : Bytes) (o : Option A) → IsStep (or_raise e o)
IsStep-or_raise e none = IsStep-raise e
IsStep-or_raise e (some a) = IsStep-pure a

-- A message, and a change of the data that leaves the depth alone
pub IsStep-tell : (c : Call) → is_action c ≡ false → IsStep (tell c)
unfolding ◌>>=◌ count
IsStep-tell c p = record {
  ends = λ w n u. ground arith;
  same = λ w n u. refl;
  none_started = λ w n u. ground (arith, p);
}

pub IsStep-modify :
    (f : IvrData → IvrData) → ((d : IvrData) → left (f d) ≡ left d) → IsStep (modify f)
unfolding ◌>>=◌
IsStep-modify f h = record {
  ends = λ w n u. ground arith;
  same = λ w n u. h n.state;
  none_started = λ w n u. refl;
}

pub IsStep-if :
    {A : Type 0} (b : Bool) (m m' : Ivr A) → IsStep m → IsStep m' → IsStep (if b then m else m')
IsStep-if true m m' p p' = p
IsStep-if false m m' p p' = p'

module _ {A B : Type 0} where
  pub IsStep-bind :
      (m : Ivr A) (g : A → Ivr B) → IsStep m → ((a : A) → IsStep (g a)) → IsStep (m >>= g)
  unfolding ◌>>=◌
  IsStep-bind m g p q = record {
    ends = λ w n u.
        let (r, n') = m w n in
        elim r as (λ r. r ≢ pending → (continue r g w n').0 ≢ pending) [
          | ok a ↦ λ _. (q a).ends w n' u
          | err e ↦ λ _. ground arith
          | pending ↦ λ x. absurd (x refl)
        ]
          (p.ends w n u);
    same = λ w n u.
        let (r, n') = m w n in
        elim r as (λ r. left (continue r g w n').1.state ≡ left n.state) [
          | ok a ↦ (q a).same w n' u ∙ p.same w n u
          | err e ↦ p.same w n u
          | pending ↦ p.same w n u
        ];
    none_started = λ w n u.
        let (r, n') = m w n in
        elim r as (λ r. count is_action (continue r g w n').1.log ≡ count is_action n.log) [
          | ok a ↦ (q a).none_started w n' u ∙ p.none_started w n u
          | err e ↦ p.none_started w n u
          | pending ↦ p.none_started w n u
        ];
  }

pub ruleset step_rules = (
  IsStep-pure, IsStep-raise, IsStep-or_raise, IsStep-time, IsStep-get, IsStep-await, IsStep-tell,
  IsStep-if, IsStep-bind,
)
