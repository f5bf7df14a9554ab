-- ===== src/Tests/Steps.antt =====
-- The theorems on whole voice menus, at concrete records.
use next_call.Ivr.Menu.Laws.{menu-bound}
use next_call.Ivr.Schedule.Laws.{IsWorkTime, work_day_and_time-IsWorkTime}
use next_call.Session.{pending, ok, count}
use next_call.Base.Integer.{pos}
use next_call.Ivr.Compare.{as_string, eq}
use next_call.Tests.Menus.{calm, menu_now, calm-IsQuiet}
use next_call.Ivr.WebApi.Laws.{no_response, web_api-no_response}
use next_call.Ivr.Action.Rules.{left, is_action}
use next_call.Base.{
  ℕ, codes, false, some, ◌∷◌, [], ltb, length, true, ◌==◌, ◌≡◌, ◌≢◌, ◌↔◌, none, refl, ◌≤◌, ◌+◌,
  arith,
}
use next_call.Ivr.Menu.{Args, CallData, menu, Outside}
use next_call.Ivr.WebApi.{WebArgs, Ids, web_api}
use next_call.Ivr.Schedule.{Schedule, Moment, work_day_and_time}

abbrev schedule : Schedule
schedule = record {
  not_work_times = codes "10-01 08:30_10-07 18:30" ∷ [];
  times = codes "08:30-17:30" ∷ [];
  weeks = 1 ∷ 2 ∷ [];
  dates = [];
  done_go = codes "2,1";
  error_go = codes "3,1";
}

abbrev web : WebArgs
web = record {
  method = codes "post";
  url = codes "/orders";
  data_of = [];
  channel_var_data = (codes "level", codes "customer_level") ∷ [];
  error_go = codes "9,1";
  reset_var = codes "1=a,2=b";
  var_name = codes "order";
  success = some (codes "2,1");
  fail = some (codes "3,1");
}

abbrev caller : Ids
caller = record { tenant_id = codes "1"; call_id = codes "c1"; caller = codes "1000" }

abbrev step_args : Args
step_args = record {
  playing = record {
    input = false;
    file = codes "hello.wav";
    file_from_var = [];
    done_go = codes "2,1";
    error_go = [];
  };
  keys = record {
    file = [];
    file_from_var = [];
    play_bee = true;
    include_last = false;
    need_encrypt = false;
    var_name = codes "pin";
  };
  dialing = record {
    number = codes "1001";
    var_name = [];
    dial = [];
    fail_done = [];
    ringing_time = [];
    is_last_service = [];
  };
  schedule = schedule;
  seconds = 1;
  web = web;
  comparing = record {
    var_name = codes "level";
    value_type = as_string;
    success = codes "2,1";
    fail = codes "3,1";
    compare_symbol = some eq;
    compare_value = codes "5";
    compare_channel_var = [];
  };
  var_name = codes "x";
  var_value = codes "1";
  channel_var_name = [];
  done_go = [];
  survey = record {
    hangup = false;
    s_type = codes "queue";
    queue_number = codes "6001";
    regexp = codes "1|2|3";
    file = codes "rate.wav";
    very_play = [];
  };
}

abbrev call : CallData
call = record {
  ids = caller;
  uuid = codes "u1";
  router_line = [];
  called = codes "5";
  use_black_list = false;
}

abbrev noon : Moment
noon = record { millis = 720; year = 2024; month = 5; date = 6; week = 1 }

-- All records of the menu have the same type.
abbrev outside : ℕ → Outside
outside t = record {
  Number = ℕ;
  number_lt = ltb;
  number_eq = ◌==◌;
  to_js_number = λ v. 0;
  of_length = λ n. n;
  to_number = λ v. 0;
  parse = λ t. some (length t);
  moment = λ t. noon;
  zone = pos 0;
  read_input = λ a. none;
  read_http = λ a. no_response (codes "ETIMEDOUT");
  base_url = codes "http://localhost";
  encrypt = λ k. k;
  read_doc = λ a. some (record { action_type = t; args = [] });
  read_args = λ b. step_args;
}

menu-bound_example :
    ((menu (outside 16) call 3 (codes "5") 1 calm menu_now).0 ≢ pending)
    × (count is_action (menu (outside 16) call 3 (codes "5") 1 calm menu_now).1.log
        ≤ left menu_now.state + count is_action menu_now.log)
unfolding left
menu-bound_example =
    menu-bound (outside 16) call 3 (codes "5") 1 calm menu_now calm-IsQuiet (omega arith)

work_day_and_time-IsWorkTime_example :
    (work_day_and_time (λ t. some (length t)) noon schedule ≡ true)
    ↔ IsWorkTime (λ t. some (length t)) noon schedule
work_day_and_time-IsWorkTime_example =
    work_day_and_time-IsWorkTime (λ t. some (length t)) noon schedule

web_api-no_response_example :
    (web_api
      (λ a. no_response (codes "ETIMEDOUT"))
      (codes "http://localhost")
      web
      caller
      (codes "u1")
      calm
      menu_now).0
    ≢ ok (record { next_type = codes "ivr"; next_args = codes "9,1" })
web_api-no_response_example =
    web_api-no_response (λ a. no_response (codes "ETIMEDOUT")) (codes "http://localhost") web caller
      (codes "u1") (codes "ETIMEDOUT") calm menu_now
      (record { next_type = codes "ivr"; next_args = codes "9,1" }) (λ a. refl)
