-- ===== src/Tests/Waiting.antt =====
-- The theorems on the call-centre queue, at a call that waits.
use next_call.Session.Last.{LastSucceeds}
use next_call.Base.{
  length, ◌⊎◌, ◌∷◌, List, suc, ◌+◌, ◌≤◌, ◌≡◌, ◌≢◌, refl, Bool, true, false, Option, none, some, [],
  Bytes, codes, arith,
}
use next_call.Base.Integer.{pos, to_nat}
use next_call.Session.{try_catch, ◌>>=◌, Answer, World, Now, ok, pending, resolves, rejects, count}
use next_call.Ccqueue.{Leg, Queue, QueueData, Call}
use next_call.Ccqueue.Tips.{all_busy_tip}
use next_call.Ccqueue.Tips.Laws.{is_read, tip_retries, all_busy_tip-reads}
use next_call.Ccqueue.Hangup.{caller_hangup_on_waiting}
use next_call.Ccqueue.Hangup.Laws.{is_hangup_event, caller_hangup_on_waiting-events}
use next_call.Ccqueue.Dial.{
  dial_steps, choose_login, by_phone, new_leg, announce, ring, connect, after_connect, Agent,
  dial_queue_member,
}
use next_call.Ccqueue.Dial.Laws.{
  bridging, originating, announcing, is_step, dial_queue_member-success,
}
use next_call.Ccqueue.Ending.{
  by_agent, caller_hangs_up, agent_hangs_up, agent_calls_done, answered_call, handle_all,
}
use next_call.Ccqueue.Ending.Laws.{handle_all-reports}
use next_call.Ccqueue.Agents.{Found, on_find_queue_member}
use next_call.Ccqueue.Agents.Backed.{on_find_queue_member-once}

abbrev leg : Leg
leg = record {
  conn_id = codes "c";
  call_id = codes "u1";
  caller = codes "100";
  tenant = codes "8";
  sip_call_id = codes "s";
}

abbrev sales : Queue
sales = record {
  queue_number = codes "900";
  queue_name = codes "sales";
  max_wait_time = 60;
  ring_time_out = codes "20";
  queue_timeout_file = [];
  enter_tip_file = [];
  moh_sound = [];
  members = codes "1001" ∷ [];
  abt_file = [];
  abt_input_timeout_file = [];
  abt_input_err_file = [];
  abt_key_time_out = none;
  abt_timeout_retry = some (pos 1);
  abt_input_err_retry = none;
}

abbrev waiting : QueueData
waiting = record {
  queue = some sales;
  priority = 3;
  vip_level = 0;
  add_in_queue_job_times = 0;
  try_call_agent_times = 0;
  find_queue_member_exec = false;
  is_caller_hangup = false;
  queue_answered = false;
  queue_done = false;
  is_done_timeout_tip = false;
  is_done_busy_tip = false;
  queue_job = some 7;
  origination_uuid = none;
  agent_id = [];
  agent_end_state = [];
  queue_music_file = codes "music";
  start_time = 0;
  ring_time = 0;
  answer_time = 0;
  bull_queue = true;
}

abbrev now : Now QueueData Call
now = record { state = waiting; log = [] }

-- Each call resolves to the key 5, with success.
abbrev pressed : Answer
pressed = record { body = some (codes "5"); success = true; id = 8 }

abbrev willing : World QueueData Call
willing = record { reply = λ l. resolves pressed; meanwhile = λ l d. d; clock = λ l. 0 }

abbrev failing : World QueueData Call
failing = record { reply = λ l. rejects (codes "down"); meanwhile = λ l d. d; clock = λ l. 0 }

abbrev agent : Agent
agent = record {
  account_code = codes "1001";
  agent_id = codes "a1";
  phone_number = [];
  phone_login = false;
}

abbrev find : Bytes → Option Found
find t = some (record { success = true; agent = some agent })

all_busy_tip-reads_example :
    ((r : Option Bool) × ((all_busy_tip 3 leg sales willing now).0 ≡ ok r))
    × (count is_read (all_busy_tip 3 leg sales willing now).1.log
        ≤ 1 + tip_retries sales + count is_read now.log)
unfolding tip_retries to_nat
all_busy_tip-reads_example = all_busy_tip-reads 3 leg sales willing now (omega arith)

caller_hangup_on_waiting-events_example :
    count is_hangup_event (caller_hangup_on_waiting leg failing now).1.log
    ≡ suc (count is_hangup_event now.log)
caller_hangup_on_waiting-events_example = caller_hangup_on_waiting-events leg failing now

dial_queue_member-success_example :
    (count (is_step bridging) (dial_queue_member leg agent willing now).1.log
      ≡ 1 + count (is_step bridging) now.log)
    × LastSucceeds willing (is_step bridging) (dial_queue_member leg agent willing now).1.log
unfolding dial_queue_member try_catch dial_steps ◌>>=◌ choose_login by_phone new_leg announce ring
    connect after_connect
dial_queue_member-success_example =
    dial_queue_member-success leg agent (record { success = true; reason = none }) willing now refl
      refl

on_find_queue_member-once_example :
    (count (is_step originating) (on_find_queue_member find leg 7 [] willing now).1.log
      ≤ 1 + count (is_step originating) now.log)
    × (count (is_step announcing) (on_find_queue_member find leg 7 [] willing now).1.log
        ≤ 1 + count (is_step announcing) now.log)
    × (count (is_step announcing) (on_find_queue_member find leg 7 [] willing now).1.log
          + count (is_step bridging) now.log
        ≤ count (is_step bridging) (on_find_queue_member find leg 7 [] willing now).1.log
          + count (is_step announcing) now.log)
    × ((on_find_queue_member find leg 7 [] willing now).0 ≢ pending)
on_find_queue_member-once_example = on_find_queue_member-once find leg 7 [] willing now

abbrev taken : List Call → Answer
taken l = pressed

handle_all-reports_example :
    (length
        (handle_all true
          (caller_hangs_up ∷ agent_hangs_up ∷ agent_calls_done ∷ [])
          answered_call).reports
      ≤ 1)
    × (((handle_all true
            (caller_hangs_up ∷ agent_hangs_up ∷ agent_calls_done ∷ [])
            answered_call).goto_satisfaction
          ≡ false)
        ⊎ ((handle_all true
              (caller_hangs_up ∷ agent_hangs_up ∷ agent_calls_done ∷ [])
              answered_call).reports
            ≡ by_agent ∷ []))
handle_all-reports_example =
    handle_all-reports true (caller_hangs_up ∷ agent_hangs_up ∷ agent_calls_done ∷ [])
