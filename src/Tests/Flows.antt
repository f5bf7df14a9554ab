-- ===== src/Tests/Flows.antt =====
-- The theorems on how a call is dialled, at concrete calls and events.
use next_call.Flow.Local.Laws.{is_ivr, diallocal-ends}
use next_call.Flow.Local.{diallocal, dial_type, dial_ivr, wait_for_answer, after_ivr}
use next_call.Ivr.{NextStep}
use next_call.Flow.Extension.Laws.{dial_extension_idle}
use next_call.Records.Extensions.{idle, waiting}
use next_call.Flow.{FlowData, FlowCall, fired, has_at, set_agent_state}
use next_call.Flow.Extension.{
  dial_extension, ring_extension, FoundExtension, end_dial, goto_fail_done, can_call,
}
use next_call.Flow.Dialout.{DialoutArgs}
use next_call.Session.{Now, World, Answer, try_catch, resolves, rejects, ◌>>=◌, count}
use next_call.Flow.Bridge.{
  b_leg_answers, by_callee, bridge_a_call, b_leg_hangs_up, run_bridge, BridgeEvent, leg_registered,
  bridge_steps, leg_event, caller_gone,
}
use next_call.Flow.Bridge.Registrations.{steps-IsReported, steps_fired, told, registrations}
use next_call.Flow.Bridge.Laws.{IsReported}
use next_call.Base.{
  List, codes, [], Option, text_eq, ◌≡◌, some, Elem, true, none, ◌∷◌, refl, All, ◌≤◌, ◌+◌,
}

abbrev bridge_events : List BridgeEvent
bridge_events =
    leg_registered
    ∷ leg_event 0 (b_leg_answers (fired (codes "1") []))
    ∷ leg_registered
    ∷ caller_gone (fired (codes "1") [])
    ∷ []

steps-IsReported_example :
    All IsReported (bridge_steps bridge_events [])
    × (told (bridge_steps bridge_events []) ≤ registrations bridge_events)
steps-IsReported_example = steps-IsReported bridge_events

abbrev fired_events : List BridgeEvent
fired_events =
    leg_registered
    ∷ leg_event 0 (b_leg_answers (fired (codes "1") []))
    ∷ leg_event 0
        (b_leg_hangs_up (fired (codes "1") ((codes "Hangup-Cause", codes "NORMAL_CLEARING") ∷ [])))
    ∷ []

steps_fired_example :
    All (λ l. (l.closed ≡ []) × (Elem by_callee l.hangups → ⊥)) (bridge_steps fired_events [])
steps_fired_example = steps_fired fired_events (
  tt,
  (
    (codes "1", [], refl),
    ((codes "1", (codes "Hangup-Cause", codes "NORMAL_CLEARING") ∷ [], refl), tt),
  ),
)

abbrev call : Now FlowData FlowCall
call = record {
  state = record {
    call_id = codes "c1";
    caller = codes "1000";
    router_line = [];
    is_answered = true;
    hangup_by = [];
    cdr_uid = 0;
    b_leg_id = [];
  };
  log = [];
}

-- Every call is answered.
abbrev kind : World FlowData FlowCall
kind = record {
  reply = λ l. resolves (record { body = some (codes "ivr"); success = true; id = 1 });
  meanwhile = λ l d. d;
  clock = λ l. 0;
}

-- Every call is rejected.
abbrev down : World FlowData FlowCall
down = record { reply = λ l. rejects (codes "down"); meanwhile = λ l d. d; clock = λ l. 0 }

abbrev plain : DialoutArgs
plain = record { timeout = []; caller_name = []; ringback = [] }

abbrev free : Answer → Option FoundExtension
free a = some (record { state = waiting })

dial_extension_idle_example :
    (l : List FlowCall) × ((dial_extension free (codes "1001") none kind call).1.log
      ≡ set_agent_state (codes "1001") idle ∷ set_agent_state (codes "1000") idle ∷ l)
unfolding dial_extension ring_extension end_dial goto_fail_done can_call bridge_a_call run_bridge
    try_catch text_eq codes ◌>>=◌
dial_extension_idle_example =
    dial_extension_idle free (codes "1001") kind call
      (record { answered = true; error = codes "ivr" }) refl

-- Each menu leads to the number 5, which is a menu.
abbrev endless : Answer → NextStep
endless a = record { next_type = codes "diallocal"; next_args = codes "5" }

diallocal-ends_example :
    2 + count is_ivr call.log
    ≤ count is_ivr
        (diallocal free
          (λ a. some (record { local_type = codes "ivr" }))
          endless
          (λ a. none)
          2
          (codes "5")
          kind
          call).1.log
unfolding diallocal dial_type dial_ivr wait_for_answer after_ivr has_at codes text_eq ◌>>=◌
diallocal-ends_example =
    diallocal-ends free (λ a. some (record { local_type = codes "ivr" })) endless (λ a. none) 2
      (codes "5") kind call refl
