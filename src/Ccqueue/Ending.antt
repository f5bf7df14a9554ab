-- ===== src/Ccqueue/Ending.antt =====
-- src/esl/ccqueue.service.ts: the end of `dialQueue`, after an agent answered. The handlers
-- `onAgentHangup`, `onCallerHangup` and `onDisconnect` share the flag `doneOver` and the promise that
-- ends the method. Each handler is cut where it awaits a call, and the events are the resumptions.
pub mod Laws
use next_call.Base.{
  ℕ, ltb, not, ◌&&◌, Bool, true, false, Option, none, some, List, [], ◌∷◌, if◌then◌else◌,
}

-- Who a hang-up is reported to be by
pub data By : Type 0 where
  by_agent by_user : By

-- The promise is settled once.
pub data Settlement : Type 0 where
  open_still resolved rejected : Settlement

-- Where `onAgentHangup` is: not called yet, at `doneAfter`, at the calls that report the hang-up, with
-- `isCallerHangup` as it was read before them, or done
pub data AgentStage : Type 0 where
  listening ending : AgentStage
  reporting : Bool → AgentStage
  finished : AgentStage

pub record Ending : Type 0 where
  pub done_over : Bool
  pub is_caller_hangup : Bool
  pub caller_hangup : Bool
  pub goto_satisfaction : Bool
  pub agent_stage : AgentStage
  pub caller_listening : Bool
  pub caller_reporting : Bool
  pub disconnect_listening : Bool
  pub lingering : Bool
  pub reports : List By
  pub settlement : Settlement

unfoldable pub answered_call : Ending
answered_call = record {
  done_over = false;
  is_caller_hangup = false;
  caller_hangup = false;
  goto_satisfaction = false;
  agent_stage = listening;
  caller_listening = true;
  caller_reporting = false;
  disconnect_listening = true;
  lingering = false;
  reports = [];
  settlement = open_still;
}

-- `resolve` and `reject`, of which the first call counts
unfoldable pub settle : Settlement → Settlement → Settlement
settle open_still s = s
settle resolved s = resolved
settle rejected s = rejected

-- What `onDisconnect` gets as its first parameter: the text of the connection, which `addConnLisenter`
-- puts first and which has no `getHeader`; or a notice, as the code reads it, whether it is for this
-- call, and its linger time.
pub data Heard : Type 0 where
  a_connection : Heard
  a_notice : Bool → ℕ → Heard

pub data EndEvent : Type 0 where
  agent_hangs_up : EndEvent
  -- the calls that `onAgentHangup` awaits are answered, or one is rejected
  agent_calls_done : EndEvent
  agent_calls_rejected : EndEvent
  caller_hangs_up : EndEvent
  -- those that `onCallerHangup` awaits
  caller_calls_done : EndEvent
  caller_calls_rejected : EndEvent
  disconnected : Heard → EndEvent
  linger_over : EndEvent

unfoldable pub on_agent_hangup : AgentStage → Ending → Ending
on_agent_hangup listening e = record e { agent_stage = ending }
on_agent_hangup _ e = e

-- `transfer` is `queueOption.transferStatic`.
unfoldable pub agent_goes_on : Bool → AgentStage → Ending → Ending
agent_goes_on transfer ending e =
    if not e.done_over
    then record e {
      done_over = true;
      agent_stage = reporting e.is_caller_hangup;
      reports = by_agent ∷ e.reports;
    }
    else record e { agent_stage = finished; settlement = settle e.settlement resolved }
agent_goes_on transfer (reporting hung_up) e = record e {
  agent_stage = finished;
  goto_satisfaction = not hung_up && transfer;
  settlement = settle e.settlement resolved;
}
agent_goes_on transfer _ e = e

unfoldable pub agent_fails : AgentStage → Ending → Ending
agent_fails ending e = record e {
  agent_stage = finished;
  settlement = settle e.settlement rejected;
}
agent_fails (reporting hung_up) e = record e {
  agent_stage = finished;
  settlement = settle e.settlement rejected;
}
agent_fails _ e = e

unfoldable pub on_caller_hangup : Ending → Ending
on_caller_hangup e =
    if not e.caller_listening
    then e
    else if e.done_over
    then record e { caller_listening = false; is_caller_hangup = true }
    else record e {
      caller_listening = false;
      is_caller_hangup = true;
      done_over = true;
      caller_hangup = true;
      caller_reporting = true;
      reports = by_user ∷ e.reports;
    }

unfoldable pub caller_fails : Ending → Ending
caller_fails e =
    if not e.caller_reporting
    then e
    else record e { caller_reporting = false; settlement = settle e.settlement rejected }

-- The listener hears one notice, also one for another call. A TypeError is caught and rejects.
unfoldable pub on_disconnect : Heard → Ending → Ending
on_disconnect a_connection e =
    if not e.disconnect_listening
    then e
    else record e { disconnect_listening = false; settlement = settle e.settlement rejected }
on_disconnect (a_notice own linger) e =
    if not e.disconnect_listening
    then e
    else if own && not e.done_over
    then record e { disconnect_listening = false; done_over = true; lingering = ltb 0 linger }
    else record e { disconnect_listening = false }

unfoldable pub end_linger : Ending → Ending
end_linger e =
    if not e.lingering
    then e
    else record e { lingering = false; settlement = settle e.settlement resolved }

unfoldable pub handle : Bool → EndEvent → Ending → Ending
handle transfer agent_hangs_up e = on_agent_hangup e.agent_stage e
handle transfer agent_calls_done e = agent_goes_on transfer e.agent_stage e
handle transfer agent_calls_rejected e = agent_fails e.agent_stage e
handle transfer caller_hangs_up e = on_caller_hangup e
handle transfer caller_calls_done e = record e { caller_reporting = false }
handle transfer caller_calls_rejected e = caller_fails e
handle transfer (disconnected heard) e = on_disconnect heard e
handle transfer linger_over e = end_linger e

unfoldable pub handle_all : Bool → List EndEvent → Ending → Ending
handle_all transfer [] e = e
handle_all transfer (v ∷ l) e = handle_all transfer l (handle transfer v e)
