-- ===== src/Ivr/Menu.antt =====
-- src/esl/ivr.service.ts: `doneAction` chooses the step of a record, and with it the interpreter is
-- whole.
pub mod Laws
use next_call.Ivr.Steps.{wait_amoment, next, set_channel_var, black_list_action}
use next_call.Ivr.Survey.{SurveyArgs, satisfaction}
use next_call.Ivr.Compare.{CompareArgs, compare_values}
use next_call.Session.{Answer, pure}
use next_call.Ivr.Action.{ivr_action}
use next_call.Base.Integer.{ℤ}
use next_call.Ivr.Schedule.{Moment, Schedule, check_date_time}
use next_call.Ivr.Dial.{DialArgs, dial_action}
use next_call.Ivr.{Ivr, ActionDoc, NextStep}
use next_call.Base.{Bool, ℕ, Bytes, Option, if◌then◌else◌, ◌==◌, codes, []}
use next_call.Ivr.WebApi.{Ids, WebArgs, Http, web_api}
use next_call.Ivr.Keys.{PlaybackArgs, RecordArgs, playback_action, record_keys}

-- `args` of a record, as each step takes it
pub record Args : Type 0 where
  pub playing : PlaybackArgs
  pub keys : RecordArgs
  pub dialing : DialArgs
  pub schedule : Schedule
  pub seconds : ℕ
  pub web : WebArgs
  pub comparing : CompareArgs
  pub var_name : Bytes
  pub var_value : Bytes
  pub channel_var_name : Bytes
  pub done_go : Bytes
  pub survey : SurveyArgs

-- What the steps read of the call: its run data, the channel, and the tenant's options.
pub record CallData : Type 0 where
  pub ids : Ids
  pub uuid : Bytes
  pub router_line : Bytes
  pub called : Bytes
  pub use_black_list : Bool

-- The cases of the switch, with `other` for its default
pub data MenuAction : Type 0 where
  play record_digits dial check_time ask_web wait_seconds hang_up publish compare set_variable
        send_redis survey_caller check_black_list last_service other :
      MenuAction

unfoldable pub action_of : ℕ → MenuAction
action_of n =
    if n == 1
    then play
    else if n == 4
    then record_digits
    else if n == 6
    then dial
    else if n == 9
    then check_time
    else if n == 14
    then ask_web
    else if n == 16
    then wait_seconds
    else if n == 18
    then hang_up
    else if n == 19
    then publish
    else if n == 20
    then compare
    else if n == 21
    then set_variable
    else if n == 22
    then send_redis
    else if n == 23
    then survey_caller
    else if n == 24
    then check_black_list
    else if n == 25
    then last_service
    else other

-- What the steps need of JavaScript, of the configuration, and of the answers of the database and of
-- the web: `Date`, `Number` with its order, the readers of the answers, and the encryption of keys.
pub record Outside : Type 1 where
  pub Number : Type 0
  pub number_lt : Number → Number → Bool
  pub number_eq : Number → Number → Bool
  pub to_js_number : Option Bytes → Number
  pub of_length : ℕ → Number
  pub to_number : Option Bytes → ℕ
  pub parse : Bytes → Option ℕ
  pub moment : ℕ → Moment
  pub zone : ℤ
  pub read_input : Answer → Option Bytes
  pub read_http : Answer → Http
  pub base_url : Bytes
  pub encrypt : Bytes → Bytes
  pub read_doc : Answer → Option ActionDoc
  pub read_args : Bytes → Args

module _ (o : Outside) (call : CallData) where
  open o use {
    number_lt, number_eq, to_js_number, of_length, to_number, parse, moment, zone, read_input,
    read_http, base_url, encrypt, read_doc, read_args,
  }
  open call use {ids, uuid, router_line, called, use_black_list}

  unfoldable pub choose_action : MenuAction → Args → Bytes → Ivr NextStep
  choose_action play args ivr_number =
      playback_action read_input args.playing ivr_number ids.call_id uuid
  choose_action record_digits args ivr_number = record_keys encrypt args.keys uuid
  choose_action dial args ivr_number = dial_action args.dialing uuid
  choose_action check_time args ivr_number = check_date_time parse moment zone args.schedule
  choose_action ask_web args ivr_number = web_api read_http base_url args.web ids uuid
  choose_action wait_seconds args ivr_number = wait_amoment args.seconds
  choose_action hang_up args ivr_number = pure (next (codes "normal") [])
  choose_action publish args ivr_number = pure (next (codes "todo") [])
  choose_action compare args ivr_number =
      compare_values number_lt number_eq to_js_number of_length uuid args.comparing
  choose_action set_variable args ivr_number =
      set_channel_var uuid args.var_name args.var_value args.channel_var_name args.done_go
  choose_action send_redis args ivr_number = pure (next (codes "todo") [])
  choose_action survey_caller args ivr_number = satisfaction args.survey uuid
  choose_action check_black_list args ivr_number =
      black_list_action uuid router_line ids.caller called use_black_list
  choose_action last_service args ivr_number = pure (next (codes "todo") [])
  choose_action other args ivr_number = pure (next (codes "normal") [])

  unfoldable pub done_action : Bytes → ActionDoc → Ivr NextStep
  done_action ivr_number doc =
      choose_action (action_of doc.action_type) (read_args doc.args) ivr_number

  -- `ivrAction` with the steps above
  unfoldable pub menu : ℕ → Bytes → ℕ → Ivr NextStep
  menu fuel ivr_number ordinal = ivr_action read_doc to_number done_action fuel ivr_number ordinal
