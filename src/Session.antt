-- ===== src/Session.antt =====
-- An `async` method of a service: it reads and writes the service's data, and awaits calls of other
-- services one after the other. Each call is answered by a world that sees all the calls so far, and
-- that may change the data while the call is awaited, as the handlers of other events do.
pub mod Bounds
pub mod Exact
pub mod Values
pub mod Pairs
pub mod Log
pub mod Last
use next_call.Base.{
  ℕ, ◌+◌, Bool, true, false, Option, none, some, List, [], ◌∷◌, Bytes, if◌then◌else◌, ◌≢◌,
}

-- What an awaited call resolves to: a text, a number, and a success flag, of which its caller reads
-- what it expects.
pub record Answer : Type 0 where
  pub body : Option Bytes
  pub success : Bool
  pub id : ℕ

pub data Reply : Type 0 where
  resolves : Answer → Reply
  rejects : Bytes → Reply

pub record World (S C : Type 0) : Type 0 where
  pub reply : List C → Reply
  pub meanwhile : List C → S → S
  -- the time after these calls, `new Date().getTime()`
  pub clock : List C → ℕ

-- How a method ends: with a value, or with an exception, which is a rejected promise. A loop that
-- has used up the fuel of the model is `pending`.
pub data Result (A : Type 0) : Type 0 where
  ok : A → Result A
  err : Bytes → Result A
  pending : Result A

-- The data, and the calls so far, the last one first.
pub record Now (S C : Type 0) : Type 0 where
  pub state : S
  pub log : List C

abbrev pub Program : Type 0 → Type 0 → Type 0 → Type 0
Program S C A = World S C → Now S C → Result A × Now S C

module _ {S C A : Type 0} where
  pub pure : A → Program S C A
  pure a w n = (ok a, n)

  pub raise : Bytes → Program S C A
  raise e w n = (err e, n)

  -- a loop without fuel
  pub suspend : Program S C A
  suspend w n = (pending, n)

abbrev pub answered : {S C : Type 0} → Reply → Now S C → Result Answer × Now S C
answered (resolves a) n = (ok a, n)
answered (rejects e) n = (err e, n)

module _ {S C : Type 0} where
  pub get : Program S C S
  get w n = (ok n.state, n)

  pub time : Program S C ℕ
  time w n = (ok (w.clock n.log), n)

  pub modify : (S → S) → Program S C (Unit {0})
  modify f w n = (ok tt, record n { state = f n.state })

  -- `await` of a call
  pub await : C → Program S C Answer
  await c w n =
      answered (w.reply (c ∷ n.log))
        (record { state = w.meanwhile (c ∷ n.log) n.state; log = c ∷ n.log })

  -- A call that is not awaited, and whose promise is not looked at: a message that is emitted.
  pub tell : C → Program S C (Unit {0})
  tell c w n = (ok tt, record n { log = c ∷ n.log })

abbrev pub first_error : {A : Type 0} → Reply → Result A → Result A
first_error (resolves a) r = r
first_error (rejects e) r = err e

module _ {S C : Type 0} where
  -- `await Promise.all` of calls: all of them are made, and it rejects if one of them rejects.
  unfoldable pub together : List C → Program S C (Unit {0})
  together [] w n = (ok tt, n)
  together (c ∷ cs) w n =
      let (r, n') =
        together cs w (record { state = w.meanwhile (c ∷ n.log) n.state; log = c ∷ n.log }) in
      (first_error (w.reply (c ∷ n.log)) r, n')

module _ {S C A : Type 0} where
  abbrev pub recover : Result A → (Bytes → Program S C A) → Program S C A
  recover (ok a) h w n = (ok a, n)
  recover (err e) h w n = h e w n
  recover pending h w n = (pending, n)

  -- `try { m } catch (ex) { h(ex) }`
  unfoldable pub try_catch : Program S C A → (Bytes → Program S C A) → Program S C A
  try_catch m h w n = let (r, n') = m w n in recover r h w n'

module _ {S C A B : Type 0} where
  abbrev pub continue : Result A → (A → Program S C B) → Program S C B
  continue (ok a) f w n = f a w n
  continue (err e) f w n = (err e, n)
  continue pending f w n = (pending, n)

  infixl 5 ◌>>=◌ ◌>>◌
  -- Opening this opens the programs of one step too.
  unfoldable pub ◌>>=◌ : Program S C A → (A → Program S C B) → Program S C B
  unfolding pure raise suspend get time modify await tell
  ◌>>=◌ m f w n = let (r, n') = m w n in continue r f w n'

  abbrev pub ◌>>◌ : Program S C A → Program S C B → Program S C B
  m >> k = m >>= λ _. k

-- The value, or a TypeError where a property of `undefined` is read.
abbrev pub or_raise : {S C A : Type 0} → Bytes → Option A → Program S C A
or_raise e none = raise e
or_raise e (some a) = pure a

-- How many of the calls pass a test.
unfoldable pub count : {C : Type 0} → (C → Bool) → List C → ℕ
count f [] = 0
count f (c ∷ l) = (if f c then 1 else 0) + count f l
