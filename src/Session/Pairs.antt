-- ===== src/Session/Pairs.antt =====
-- Programs in which each call that passes one test goes with a call that passes another: one rule for
-- each way to build a program.
use next_call.Base.{ℕ, ◌+◌, ◌≤◌, Bool, true, false, Option, Bytes, arith, if◌then◌else◌}
use next_call.Session.{
  World, Now, Program, ok, err, pending, get, modify, pure, or_raise, try_catch, ◌>>=◌, count,
  continue, recover,
}
use next_call.Session.Bounds.{AtMost, AtMost-get, AtMost-modify, AtMost-pure, AtMost-or_raise}

-- `m` makes no more new calls that pass `f` than new calls that pass `g`.
pub record Backs {S C A : Type 0} (f g : C → Bool) (m : Program S C A) : Type 0 where
  pub backs :
      (w : World S C) (n : Now S C)
      → count f (m w n).1.log + count g n.log ≤ count g (m w n).1.log + count f n.log

module _ {S C A : Type 0} {f g : C → Bool} where
  -- A program that makes no call that passes `f`
  pub Backs-free : (k : ℕ) (m : Program S C A) → AtMost f 0 m → AtMost g k m → Backs f g m
  Backs-free k m p q = record { backs = λ w n. omega (arith, p.at w n, q.grows w n) }

  pub Backs-if :
      (b : Bool) (m m' : Program S C A)
      → Backs f g m
      → Backs f g m'
      → Backs f g (if b then m else m')
  Backs-if true m m' p p' = p
  Backs-if false m m' p p' = p'

  pub Backs-try_catch :
      (m : Program S C A) (h : Bytes → Program S C A)
      → Backs f g m
      → ((e : Bytes) → Backs f g (h e))
      → Backs f g (try_catch m h)
  unfolding try_catch
  Backs-try_catch m h p q = record {
    backs = λ w n.
        let (r, n') = m w n in
        elim r
          as (λ r.
            count f (recover r h w n').1.log + count g n.log
            ≤ count g (recover r h w n').1.log + count f n.log) [
              | ok a ↦ p.backs w n
              | err e ↦ omega (arith, (q e).backs w n', p.backs w n)
              | pending ↦ p.backs w n
            ];
  }

module _ {S C A B : Type 0} {f g : C → Bool} where
  pub Backs-bind :
      (m : Program S C A) (k : A → Program S C B)
      → Backs f g m
      → ((a : A) → Backs f g (k a))
      → Backs f g (m >>= k)
  unfolding ◌>>=◌
  Backs-bind m k p q = record {
    backs = λ w n.
        let (r, n') = m w n in
        elim r
          as (λ r.
            count f (continue r k w n').1.log + count g n.log
            ≤ count g (continue r k w n').1.log + count f n.log) [
              | ok a ↦ omega (arith, (q a).backs w n', p.backs w n)
              | err e ↦ p.backs w n
              | pending ↦ p.backs w n
            ];
  }

module _ {S C : Type 0} {f g : C → Bool} where
  pub Backs-get : Backs {S = S} f g get
  Backs-get = Backs-free 0 _ AtMost-get AtMost-get

  pub Backs-modify : (h : S → S) → Backs f g (modify h)
  Backs-modify h = Backs-free 0 _ (AtMost-modify h) (AtMost-modify h)

  pub Backs-pure : {A : Type 0} (a : A) → Backs {S = S} f g (pure a)
  Backs-pure a = Backs-free 0 _ (AtMost-pure a) (AtMost-pure a)

  pub Backs-or_raise : {A : Type 0} (e : Bytes) (o : Option A) → Backs {S = S} f g (or_raise e o)
  Backs-or_raise e o = Backs-free 0 _ (AtMost-or_raise e o) (AtMost-or_raise e o)

pub ruleset pair_rules = (Backs-get, Backs-modify, Backs-pure, Backs-or_raise, Backs-if, Backs-bind)
