-- ===== src/Pbx/Digits.antt =====
-- src/esl/free-switch-pbx.service.ts: `uuidPlayAndGetDigits` asks for keys until they fit a pattern, and
-- gives up after so many wrong inputs or so many timeouts. The loop runs on fuel.
pub mod Laws
use next_call.Base.{
  ℕ, zero, suc, ◌++◌, not, ◌&&◌, Bool, true, false, Option, none, some, List, [], ◌∷◌, Bytes, codes,
  text_eq, text_or, if◌then◌else◌,
}
use next_call.Base.Integer.{ℤ, pos, above_zero, pred}
use next_call.Session.{Program, Answer, pure, suspend, get, modify, await, ◌>>=◌, ◌>>◌}

-- The commands that it awaits, on the call's channel.
pub data Command : Type 0 where
  read : Bytes → Command
  playback : Bytes → Command
  set_var : Bytes → Bytes → Command

-- `uuidPlayAndGetDigitsOptions`; a text that is not set is empty.
pub record DigitOptions : Type 0 where
  pub file : Bytes
  pub regexp : Bytes
  pub var_name : Bytes
  pub input_err_file : Bytes
  pub input_err_retry : Option ℤ
  pub input_timeout_file : Bytes
  pub input_timeout_retry : Option ℤ
  pub input_when_invalid_tip : Bool

-- A program of the service; its state is `lastInputKey`.
abbrev pub Asking : Type 0 → Type 0
Asking A = Program Bytes Command A

-- `input_err_retry < 1 ? 3 : input_err_retry`, with its default
unfoldable pub retries : Option ℤ → ℤ
retries none = pos 3
retries (some z) = if above_zero z then z else pos 3

-- `matches r s` is `new RegExp(r).test(s)`.
module _ (matches : Bytes → Bytes → Bool) (o : DigitOptions) where
  -- Keys that are accepted
  unfoldable pub is_input : Bytes → Bool
  is_input [] = false
  is_input (c ∷ r) =
      not (text_eq (c ∷ r) (codes "timeout")) && matches (text_or o.regexp (codes "\\d+")) (c ∷ r)

  -- The next round after a wrong input, with what is left of the retries: the tip is played before it,
  -- or in place of the first file.
  unfoldable pub tip_again :
      (Bytes → ℤ → ℤ → Asking (Option Bytes)) → Bytes → Bytes → ℤ → ℤ → Asking (Option Bytes)
  tip_again again file tip e t =
      if not o.input_when_invalid_tip && (above_zero e && above_zero t)
      then (do await (playback tip); again file e t)
      else again tip e t

  unfoldable pub after_read :
      (Bytes → ℤ → ℤ → Asking (Option Bytes)) → Bytes → ℤ → ℤ → Bytes → Asking (Option Bytes)
  after_read again file e t res =
      if is_input res
      then pure (some res)
      else if text_eq res (codes "hangup")
      then pure none
      else if text_eq res (codes "timeout")
      then tip_again again file (text_or o.input_timeout_file (codes "demo/timeout.wav")) e (pred t)
      else tip_again again file (text_or o.input_err_file (codes "demo/inputerror.wav")) (pred e) t

  unfoldable pub ask_loop : ℕ → Bytes → ℤ → ℤ → Asking (Option Bytes)
  ask_loop zero file e t = suspend
  ask_loop (suc k) file e t = if not (above_zero e && above_zero t) then pure none else do
    a ← await (read file)
    after_read (ask_loop k) file e t (elim a.body as (λ _. Bytes) [ none ↦ [] | some b ↦ b ])

  unfoldable pub last_key : Bytes → Bytes
  last_key [] = []
  last_key (c ∷ []) = c ∷ []
  last_key (c ∷ d ∷ r) = last_key (d ∷ r)

  -- The keys as they are returned, `_invalid_` where there are none; `lastInputKey` is the last of them.
  unfoldable pub input_keys : Bool → Option Bytes → Asking Bytes
  input_keys include_last none = pure (codes "_invalid_")
  input_keys include_last (some keys) = do
    before ← get
    let all = if include_last then before ++ keys else keys
    modify (λ l. elim all as (λ _. Bytes) [ [] ↦ l | c ∷ r ↦ last_key all ])
    pure all

  unfoldable pub set_variable : Bytes → Asking (Unit {0})
  set_variable keys = elim o.var_name [
    | [] ↦ pure tt
    | c ∷ r ↦ do await (set_var o.var_name keys); pure tt
  ]

  unfoldable pub uuid_play_and_get_digits : ℕ → Bool → Asking Bytes
  uuid_play_and_get_digits fuel include_last = do
    res ← ask_loop fuel o.file (retries o.input_err_retry) (retries o.input_timeout_retry)
    keys ← input_keys include_last res
    set_variable keys
    pure keys
