-- ===== src/Ivr/Menu/Laws.antt =====
-- src/esl/ivr.service.ts: how deep a menu runs with the steps of `doneAction`.
use next_call.Ivr.Action.Laws.{ivr_action-bound}
use next_call.Ivr.Survey.Laws.{satisfaction-IsStep}
use next_call.Ivr.Steps.Laws.{wait_amoment-IsStep, set_channel_var-IsStep, black_list_action-IsStep}
use next_call.Ivr.WebApi.Laws.{web_api-IsStep}
use next_call.Ivr.Schedule.Laws.{check_date_time-IsStep}
use next_call.Ivr.Dial.Laws.{dial_action-IsStep}
use next_call.Ivr.{IvrData, Call}
use next_call.Ivr.Keys.Laws.{playback_action-IsStep, record_keys-IsStep}
use next_call.Session.{World, Now, pending, count}
use next_call.Base.{Bool, ℕ, Option, Bytes, none, some, ◌<◌, ◌≢◌, ◌∷◌, [], ◌≤◌, ◌+◌}
use next_call.Ivr.Action.Rules.{is_action, IsStep, step_rules, IsQuiet, left, IsStep-pure}
use next_call.Ivr.Menu.{
  dial, play, record_digits, check_time, ask_web, wait_seconds, hang_up, publish, compare,
  set_variable, send_redis, survey_caller, check_black_list, last_service, other, Outside, CallData,
  choose_action, menu, MenuAction, done_action, Args, play, record_digits,
}
use next_call.Ivr.Compare.{compare_values, compare_by, compared, CompareArgs, other_value}

other_value-IsStep :
    {Number : Type 0} (number_lt number_eq : Number → Number → Bool)
    (to_js_number : Option Bytes → Number) (of_length : ℕ → Number) (uuid value name : Bytes)
    → IsStep (other_value number_lt number_eq to_js_number of_length uuid value name)
unfolding other_value is_action
other_value-IsStep number_lt number_eq to_js_number of_length uuid value [] = IsStep-pure value
other_value-IsStep number_lt number_eq to_js_number of_length uuid value (c ∷ r) =
    search step_rules depth 8

compare_values-IsStep :
    {Number : Type 0} (number_lt number_eq : Number → Number → Bool)
    (to_js_number : Option Bytes → Number) (of_length : ℕ → Number) (uuid : Bytes)
    (args : CompareArgs)
    → IsStep (compare_values number_lt number_eq to_js_number of_length uuid args)
unfolding compare_values compare_by compared is_action
compare_values-IsStep number_lt number_eq to_js_number of_length uuid args =
    elim args.compare_symbol
      as (λ s. IsStep (compare_by number_lt number_eq to_js_number of_length uuid args s)) [
        | none ↦ search step_rules depth 4
        | some c ↦ search (step_rules, other_value-IsStep) depth 14
      ]

module _ (o : Outside) (call : CallData) where
  choose_action-IsStep :
      (a : MenuAction) (args : Args) (ivr : Bytes) → IsStep (choose_action o call a args ivr)
  unfolding choose_action
  choose_action-IsStep play args ivr = playback_action-IsStep _ _ _ _ _
  choose_action-IsStep record_digits args ivr = record_keys-IsStep _ _ _
  choose_action-IsStep dial args ivr = dial_action-IsStep _ _
  choose_action-IsStep check_time args ivr = check_date_time-IsStep _ _ _ _
  choose_action-IsStep ask_web args ivr = web_api-IsStep _ _ _ _ _
  choose_action-IsStep wait_seconds args ivr = wait_amoment-IsStep _
  choose_action-IsStep compare args ivr = compare_values-IsStep _ _ _ _ _ _
  choose_action-IsStep set_variable args ivr = set_channel_var-IsStep _ _ _ _ _
  choose_action-IsStep survey_caller args ivr = satisfaction-IsStep _ _
  choose_action-IsStep check_black_list args ivr = black_list_action-IsStep _ _ _ _ _
  choose_action-IsStep hang_up args ivr = IsStep-pure _
  choose_action-IsStep publish args ivr = IsStep-pure _
  choose_action-IsStep send_redis args ivr = IsStep-pure _
  choose_action-IsStep last_service args ivr = IsStep-pure _
  choose_action-IsStep other args ivr = IsStep-pure _

  -- A menu always ends, and it runs at most as many steps as its depth has left, whatever the steps jump
  -- to and whatever calls are rejected: with fuel above that number, and while handlers of other events
  -- leave the depth alone.
  pub menu-bound :
      (fuel : ℕ) (ivr : Bytes) (ordinal : ℕ) (w : World IvrData Call) (n : Now IvrData Call)
      → IsQuiet w
      → left n.state < fuel
      → ((menu o call fuel ivr ordinal w n).0 ≢ pending)
        × (count is_action (menu o call fuel ivr ordinal w n).1.log
            ≤ left n.state + count is_action n.log)
  unfolding menu done_action
  menu-bound fuel ivr ordinal w n u h =
      ivr_action-bound o.read_doc o.to_number (done_action o call) fuel ivr ordinal w n
        (λ ivr' doc. choose_action-IsStep _ _ _) u h
