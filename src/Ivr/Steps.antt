-- ===== src/Ivr/Steps.antt =====
-- src/esl/ivr.service.ts: the steps that wait, that set a channel variable, and that look a number up
-- in the black list, and the name of a step.
pub mod Laws
use next_call.Base.{
  ℕ, ◌*◌, Bool, false, ◌&&◌, not, Option, none, some, [], ◌∷◌, Bytes, codes, text_eq, if◌then◌else◌,
}
use next_call.Session.{pure, await, ◌>>=◌, ◌>>◌}
use next_call.Ivr.{NextStep, create_process, get_channel_var, set_var, wait, is_black_number, Ivr}

abbrev pub next : Bytes → Bytes → NextStep
next t a = record { next_type = t; next_args = a }

unfoldable pub wait_amoment : ℕ → Ivr NextStep
wait_amoment seconds = do
  await (create_process (codes "ivrReturn"))
  await (wait (seconds * 1000))
  pure (next (codes "normal") [])

-- A channel variable that is not set reads as `_undef_`.
unfoldable pub defined_value : Option Bytes → Bytes
defined_value none = []
defined_value (some v) = if text_eq v (codes "_undef_") then [] else v

-- `channelVarName` or else `varValue`
unfoldable pub value_to_set : Bytes → Bytes → Bytes → Ivr Bytes
value_to_set uuid value [] = pure value
value_to_set uuid value (c ∷ r) = do
  a ← await (get_channel_var uuid (c ∷ r))
  pure (defined_value a.body)

unfoldable pub set_channel_var : Bytes → Bytes → Bytes → Bytes → Bytes → Ivr NextStep
set_channel_var uuid var_name var_value channel_var_name done_go = do
  v ← value_to_set uuid var_value channel_var_name
  await (set_var uuid var_name v)
  pure (next (codes "ivr") done_go)

-- The number that is looked up: the callee of a call that goes out, and the caller otherwise; a number
-- that is not there is empty.
unfoldable pub check_number : Bytes → Bytes → Bytes → Bytes
check_number router_line caller called =
    if text_eq router_line (codes "呼入") && not (text_eq caller [])
    then caller
    else if text_eq router_line (codes "呼出") && not (text_eq called [])
    then called
    else caller

unfoldable pub look_up : Bool → Bytes → Ivr Bool
look_up use_black_list checked =
    if not use_black_list
    then pure false
    else do a ← await (is_black_number checked); pure a.success

unfoldable pub black_list_action : Bytes → Bytes → Bytes → Bytes → Bool → Ivr NextStep
black_list_action uuid router_line caller called use_black_list = do
  b ← look_up use_black_list (check_number router_line caller called)
  await (create_process (codes "blackListCheck"))
  await (set_var uuid (codes "isBlackNumber") (if b then codes "true" else codes "false"))
  pure (next (codes "ivr") [])
