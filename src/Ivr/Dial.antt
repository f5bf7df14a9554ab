-- ===== src/Ivr/Dial.antt =====
-- src/esl/ivr.service.ts: the step of `doneAction` that dials a number, inside or outside.
pub mod Laws
use next_call.Base.{
  ℕ, ◌++◌, ltb, length, Bool, true, false, Option, none, some, [], ◌∷◌, Bytes, codes, text_eq,
  text_or, if◌then◌else◌,
}
use next_call.Session.{Answer, pure, await, ◌>>=◌}
use next_call.Ivr.{NextStep, Call, get_channel_var, Ivr}
use next_call.Ivr.Steps.{next}
use next_call.Ivr.Keys.{text_or_var}

-- `args.pbx` and `args.logic.dial`, as they are printed; a text that is not set is empty.
pub record DialArgs : Type 0 where
  pub number : Bytes
  pub var_name : Bytes
  pub dial : Bytes
  pub fail_done : Bytes
  pub ringing_time : Bytes
  pub is_last_service : Bytes

-- The way that the step says, or else by the length of the number
unfoldable pub dial_way : DialArgs → Bytes → Bytes
dial_way args n =
    text_or args.dial (if ltb 4 (length n) then codes "dialout" else codes "diallocal")

unfoldable pub dialout_args : DialArgs → Bytes → Bytes
dialout_args args n =
    codes "dialNumber="
    ++ (n
        ++ (codes ";ringingTime="
            ++ (text_or args.ringing_time (codes "30")
                ++ (codes ";isLastService="
                    ++ (args.is_last_service
                        ++ (codes ";failDone=" ++ text_or args.fail_done (codes "null")))))))

unfoldable pub dial_step : DialArgs → Bytes → NextStep
dial_step args n =
    if text_eq (dial_way args n) (codes "diallocal")
    then next (codes "diallocal") n
    else if text_eq (dial_way args n) (codes "dialout")
    then next (codes "dialout") (dialout_args args n)
    else next (codes "normal") []

unfoldable pub dial_action : DialArgs → Bytes → Ivr NextStep
dial_action args uuid = do n ← text_or_var uuid args.number args.var_name; pure (dial_step args n)
