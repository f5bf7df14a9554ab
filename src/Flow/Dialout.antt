-- ===== src/Flow/Dialout.antt =====
-- src/esl/flow-base.service.ts: `dialout` calls a number outside through the gateway of the tenant.
pub mod Laws
use next_call.Records.Extensions.{idle, inthecall}
use next_call.Session.{
  Answer, pure, ◌>>◌, ◌>>=◌, await, raise, get, try_catch, or_raise, tell, modify,
}
use next_call.Flow.{
  FlowData, FlowCall, Flow, Param, set_agent_state, a_leg, update_called, get_tenant_info, set_var,
  set_mutil_var, type_error, add_conn_lisenter, create_process, header_of, get_dial_gate_way,
  set_b_leg_cgr, last_app, wait, has_at, first_param,
}
use next_call.Flow.Bridge.{BridgeResult, bridge_a_call}
use next_call.Base.{
  Bytes, List, text_or, codes, if◌then◌else◌, ◌∷◌, text_eq, [], ◌++◌, false, true, some,
}

-- `args`; a text that is not set is empty.
pub record DialoutArgs : Type 0 where
  pub timeout : Bytes
  pub caller_name : Bytes
  pub ringback : Bytes

unfoldable pub dial_settings : DialoutArgs → List (Bytes × Bytes)
dial_settings args =
    let timeout = text_or args.timeout (codes "30") in
    (codes "call_timeout", timeout)
      ∷ (codes "bridge_answer_timeout", timeout)
      ∷ (if text_eq args.caller_name []
          then []
          else (codes "effective_caller_id_name", args.caller_name) ∷ [])
    ++ (if text_eq args.ringback [] then [] else (codes "ringback", args.ringback) ∷ [])

-- How the body of the `try` ends: with a result, or with `return Promise.reject`, which its `catch` does
-- not see.
pub data DialoutOutcome : Type 0 where
  returned : BridgeResult → DialoutOutcome
  returned_rejection : Bytes → DialoutOutcome

abbrev pub idle_caller : FlowData → FlowCall
idle_caller d = set_agent_state d.caller idle

-- What the caller of `dialout` gets
abbrev pub outcome : DialoutOutcome → Flow BridgeResult
outcome (returned r) = pure r
outcome (returned_rejection e) = raise e

module _ (gate_way_of : Answer → Bytes) where
  unfoldable pub dial_gate_way : FlowData → Bytes → DialoutArgs → Bytes → Flow DialoutOutcome
  dial_gate_way d number args gateway =
      if text_eq gateway []
      then (do
        await (idle_caller d)
        pure (
            returned
              (record { success = false; cause = codes "DON'T HAVE A GATEWAY"; b_leg_id = [] })))
      else do
        await (set_mutil_var (dial_settings args))
        tell (add_conn_lisenter (codes "esl::event::CHANNEL_HANGUP::" ++ d.call_id))
        r ←
            bridge_a_call
              (set_b_leg_cgr 30 ++ (codes "sofia/external/" ++ (number ++ (codes "@" ++ gateway))))
        await (wait 500)
        pure (returned r)

  unfoldable pub try_dialout : FlowData → Bytes → DialoutArgs → Flow DialoutOutcome
  try_dialout d number args = do
    await (update_called number)
    await get_tenant_info
    tell (create_process (codes "dialout"))
    g ← await get_dial_gate_way
    await (last_app (codes "dialOut"))
    if has_at number
        then pure (returned_rejection (codes "Can't Dial Other Tenand!"))
        else dial_gate_way d number args (gate_way_of g)

  unfoldable pub dialout : Bytes → DialoutArgs → Flow BridgeResult
  dialout number args = do
    d ← get
    o ← try_catch (try_dialout d number args) λ e. do await (idle_caller d); raise e
    outcome o

-- The listener for the hang-up of the caller: `evt.getBody` comes first.
unfoldable pub on_dialout_caller_hangup : List Param → Flow (Unit {0})
on_dialout_caller_hangup ps =
    try_catch
      (do
        d ← get
        or_raise type_error (header_of (first_param ps) [])
        await (last_app (codes "Dialout Caller Hangup"))
        await (idle_caller d)
        pure tt)
      λ e. pure tt

-- The callbacks that `bridgeACall` gets. A function that takes the connection first is called with one
-- object only, and takes it apart where there is none.
unfoldable pub on_dialout_answer : List Param → Flow (Unit {0})
on_dialout_answer (p ∷ a_leg b_leg evt by ∷ ps) =
    try_catch
      (do
        d ← get
        await (set_var b_leg (codes "hangup_after_bridge") (codes "false"))
        modify (λ x. record x { is_answered = true })
        await (create_process (codes "answer"))
        tell (set_agent_state d.caller inthecall))
      λ e. pure tt
on_dialout_answer _ = raise type_error

unfoldable pub on_dialout_hangup : List Param → Flow (Unit {0})
on_dialout_hangup (a_leg b_leg evt by ∷ ps) =
    try_catch
      (do
        or_raise type_error (header_of (some evt) (codes "Hangup-Cause"))
        await (create_process (codes "hangup"))
        pure tt)
      λ e. pure tt
on_dialout_hangup _ = raise type_error
