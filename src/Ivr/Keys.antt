-- ===== src/Ivr/Keys.antt =====
-- src/esl/ivr.service.ts: `playback` plays a file, and reads keys if the step says so; `recordKeys`
-- stores the keys of a caller in a channel variable.
pub mod Laws
use next_call.Base.{
  ℕ, ◌++◌, Bool, true, false, Option, none, some, [], ◌∷◌, Bytes, codes, text_eq, not, ◌&&◌, ◌||◌,
  if◌then◌else◌,
}
use next_call.Session.{Answer, pure, await, ◌>>=◌, ◌>>◌}
use next_call.Ivr.{
  NextStep, Call, create_process, get_channel_var, set_var, playback, play_and_get_digits,
  get_ivr_input, Ivr,
}
use next_call.Ivr.Steps.{next}

abbrev pub body_of : Answer → Bytes
body_of a = elim a.body as (λ _. Bytes) [ none ↦ [] | some b ↦ b ]

-- `ActionPlaybackArgs`; a text that is not set is empty.
pub record PlaybackArgs : Type 0 where
  pub input : Bool
  pub file : Bytes
  pub file_from_var : Bytes
  pub done_go : Bytes
  pub error_go : Bytes

-- The file of the step, or that which a channel variable names
unfoldable pub text_or_var : Bytes → Bytes → Bytes → Ivr Bytes
text_or_var uuid file [] = pure file
text_or_var uuid file (c ∷ r) = do a ← await (get_channel_var uuid (c ∷ r)); pure (body_of a)

-- `read_input` is the jump in the database's answer, its number, a comma and its ordinal.
module _ (read_input : Answer → Option Bytes) where
  -- After the keys: `_invalid_` are those of a caller who pressed nothing that fits.
  unfoldable pub after_input : PlaybackArgs → Bytes → Bytes → Ivr NextStep
  after_input args ivr_number keys =
      if text_eq keys [] || text_eq keys (codes "_invalid_")
      then pure (next (codes "ivr") args.error_go)
      else do
        a ← await (get_ivr_input ivr_number keys)
        pure (
            next (codes "ivr")
              (elim (read_input a) as (λ _. Bytes) [ none ↦ args.error_go | some go ↦ go ]))

  unfoldable pub playback_action : PlaybackArgs → Bytes → Bytes → Bytes → Ivr NextStep
  playback_action args ivr_number call_id uuid = do
    file ← text_or_var uuid args.file args.file_from_var
    if not args.input
        then (do await (playback file); pure (next (codes "ivr") args.done_go))
        else do
          a ← await (play_and_get_digits call_id file false)
          await (create_process (codes "input"))
          after_input args ivr_number (body_of a)

pub record RecordArgs : Type 0 where
  pub file : Bytes
  pub file_from_var : Bytes
  pub play_bee : Bool
  pub include_last : Bool
  pub need_encrypt : Bool
  pub var_name : Bytes

unfoldable pub own_file : RecordArgs → Bytes
own_file args =
    if not (text_eq args.file [])
    then args.file
    else if args.play_bee
    then codes "ivr/8000/bee.wav"
    else codes "ivr/8000/silence.wav"

-- `encrypt` is `encryptText` with the tenant's number for a password.
module _ (encrypt : Bytes → Bytes) where
  unfoldable pub recorded : RecordArgs → Bytes → Bytes
  recorded args keys = if args.need_encrypt then codes "jm00000001" ++ encrypt keys else keys

  unfoldable pub record_keys : RecordArgs → Bytes → Ivr NextStep
  record_keys args uuid = do
    file ← text_or_var uuid (own_file args) args.file_from_var
    a ← await (play_and_get_digits uuid file args.include_last)
    await (create_process (codes "recordDigits"))
    await (set_var uuid args.var_name (recorded args (body_of a)))
    pure (next (codes "ivr") [])
