-- ===== src/Flow/Extension.antt =====
-- src/esl/flow-base.service.ts: `dialExtension` calls the telephone of an agent.
pub mod Laws
use next_call.Flow.Bridge.{BridgeResult, text_of, bridge_a_call}
use next_call.Session.{Answer, pure, raise, ◌>>◌, ◌>>=◌, await, tell, get, or_raise, modify}
use next_call.Flow.{
  FlowData, Param, FlowCall, Flow, type_error, a_leg, set_agent_state, run_ivr_action, last_app,
  create_process, set_mutil_var, header_of, set_last_call_id, get_exten, send_message,
}
use next_call.Base.{
  Bytes, Bool, List, Option, ℕ, true, codes, false, ◌∷◌, if◌then◌else◌, [], some, ◌==◌, text_eq,
  none, ◌++◌,
}
use next_call.Records.Extensions.{
  ExtensionState, waiting, busy, idle, rest, dialout, ringing, inthecall,
}

-- What it reads of the extension: `null` is `none`.
pub record FoundExtension : Type 0 where
  pub state : ExtensionState

-- `args.failDone` for a menu: its number and its first step
pub record FailDone : Type 0 where
  pub goto_ivr : Bytes
  pub goto_ivr_act_id : ℕ

-- `canCallState.indexOf(agentState) > -1`
unfoldable pub can_call : ExtensionState → Bool
can_call waiting = true
can_call busy = true
can_call idle = true
can_call rest = true
can_call _ = false

pub record ExtensionResult : Type 0 where
  pub answered : Bool
  pub error : Bytes

abbrev pub ringing_settings : List (Bytes × Bytes)
ringing_settings = (codes "call_timeout", codes "60") ∷ (codes "ringback", codes "${us-ring}") ∷ []

-- A call that is awaited if the test holds
abbrev pub await_if : Bool → FlowCall → Flow (Unit {0})
await_if b c = if b then (do await c; pure tt) else pure tt

-- Both telephones are set idle when the bridge has ended.
unfoldable pub end_dial : FlowData → Bytes → BridgeResult → Flow ExtensionResult
end_dial d number r = do
  await (set_agent_state d.caller idle)
  await (set_agent_state number idle)
  pure (record { answered = r.success; error = r.cause })

unfoldable pub goto_fail_done : Option FailDone → ExtensionResult → Flow ExtensionResult
goto_fail_done none r = pure r
goto_fail_done (some f) r = if r.answered then pure r else do
  await (run_ivr_action f.goto_ivr (if f.goto_ivr_act_id == 0 then 1 else f.goto_ivr_act_id))
  pure r

-- `find` is the row in the answer. An extension that cannot be called is called all the same.
module _ (find : Answer → Option FoundExtension) where
  unfoldable pub ring_extension : FlowData → Bytes → Flow BridgeResult
  ring_extension d number = do
    tell (last_app (codes "extension"))
    await (set_mutil_var ringing_settings)
    await (set_last_call_id number)
    a ← await (get_exten number)
    e ← or_raise type_error (find a)
    await_if (text_eq d.router_line (codes "本地")) (set_agent_state d.caller dialout)
    if can_call e.state
        then (do await (set_agent_state number ringing); pure tt)
        else (do await (set_agent_state d.caller idle); pure tt)
    tell (send_message number)
    bridge_a_call (codes "user/" ++ number)

  unfoldable pub dial_extension : Bytes → Option FailDone → Flow ExtensionResult
  dial_extension number fail_done = do
    d ← get
    b ← ring_extension d number
    r ← end_dial d number b
    goto_fail_done fail_done r

-- The callbacks. `onAnswer` takes a connection and gets an object in its place; `onHangup` takes the
-- connection first and an object second, and gets one object only.
module _ (set_answered : Param → Flow (Unit {0})) where
  unfoldable pub on_extension_answer : Bytes → List Param → Flow (Unit {0})
  on_extension_answer number [] = raise type_error
  on_extension_answer number (p ∷ ps) = do
    d ← get
    if d.is_answered then pure tt else set_answered p
    await (create_process (codes "answer"))
    await (set_agent_state d.caller inthecall)
    await (set_agent_state number inthecall)
    pure tt

unfoldable pub on_extension_hangup : List Param → Flow (Unit {0})
on_extension_hangup (p ∷ a_leg b_leg evt by ∷ ps) = do
  disposition ← or_raise type_error (header_of (some evt) (codes "variable_endpoint_disposition"))
  if text_eq (text_of disposition) (codes "BLIND_TRANSFER")
      then pure tt
      else (if text_eq by (codes "callee")
          then modify (λ d. record d { hangup_by = by })
          else pure tt)
  await (create_process (codes "hangup"))
  pure tt
on_extension_hangup _ = raise type_error
