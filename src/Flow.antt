-- ===== src/Flow.antt =====
-- src/esl/flow-base.service.ts: how a call is dialled. This file has the data that the methods share,
-- and the calls that they make of the other services. Bridge is the second leg of a call, Dialout a
-- call that goes out, Extension one to an agent, and Local one to a number of the tenant.
pub mod Bridge
pub mod Dialout
pub mod Extension
pub mod Local
use next_call.Esl.Value.Decimal.{show_nat}
use next_call.Base.Assoc.{lookup}
use next_call.Records.Extensions.{ExtensionState}
use next_call.Session.{Program}
use next_call.Base.{
  Bytes, List, Option, ℕ, Bool, codes, ◌∷◌, none, some, [], ◌++◌, false, if◌then◌else◌, ◌==◌, true,
}

-- What the methods read of the run data and of the channel: the call, its caller, the kind of its route,
-- whether it is answered, and who hung up.
pub record FlowData : Type 0 where
  pub call_id : Bytes
  pub caller : Bytes
  pub router_line : Bytes
  pub is_answered : Bool
  pub hangup_by : Bytes
  -- the variables `cdrUid` and `BLegId` of `bridgeACall`
  pub cdr_uid : ℕ
  pub b_leg_id : Bytes

pub data FlowCall : Type 0 where
  update_called : Bytes → FlowCall
  last_app : Bytes → FlowCall
  create_process : Bytes → FlowCall
  get_tenant_info : FlowCall
  get_dial_gate_way : FlowCall
  set_mutil_var : List (Bytes × Bytes) → FlowCall
  set_var : Bytes → Bytes → Bytes → FlowCall
  set_agent_state : Bytes → ExtensionState → FlowCall
  set_last_call_id : Bytes → FlowCall
  get_exten : Bytes → FlowCall
  send_message : Bytes → FlowCall
  add_conn_lisenter : Bytes → FlowCall
  remove_conn_lisenter : Bytes → FlowCall
  add_bleg : Bytes → FlowCall
  filter : Bytes → FlowCall
  create_b_leg_cdr : FlowCall
  bridge : Bytes → FlowCall
  cdr_b_leg_hangup : ℕ → Bytes → FlowCall
  wait : ℕ → FlowCall
  get_local_by_number : Bytes → FlowCall
  channel_answer : FlowCall
  get_ivr_by_number : Bytes → FlowCall
  run_ivr_action : Bytes → ℕ → FlowCall
  ccqueue_dial : Bytes → FlowCall

abbrev pub Flow : Type 0 → Type 0
Flow A = Program FlowData FlowCall A

-- A value that JavaScript passes to a callback: a text, an event with its headers, or the object that
-- `bridgeACall` gives to its callbacks.
pub data Param : Type 0 where
  a_text : Bytes → Param
  an_event : List (Bytes × Bytes) → Param
  a_leg : Bytes → Param → Bytes → Param

abbrev pub type_error : Bytes
type_error = codes "TypeError"

-- `addConnLisenter` calls a listener with the connection first and the event second.
abbrev pub fired : Bytes → List (Bytes × Bytes) → List Param
fired conn_id headers = a_text conn_id ∷ an_event headers ∷ []

-- A parameter of a callback; what is not passed is `undefined`.
abbrev pub first_param : List Param → Option Param
first_param [] = none
first_param (p ∷ ps) = some p

-- `evt.getHeader(name)`, which only an event has; `none` is a TypeError.
unfoldable pub header_of : Option Param → Bytes → Option (Option Bytes)
header_of (some (an_event headers)) name = some (lookup name headers)
header_of _ name = none

-- `setBLegCgr`
unfoldable pub set_b_leg_cgr : ℕ → Bytes
set_b_leg_cgr timeout =
    codes "{hangup_after_bridge=false,bridge_answer_timeout=" ++ (show_nat timeout ++ codes "}")

-- `/@/.test(number)`
unfoldable pub has_at : Bytes → Bool
has_at [] = false
has_at (c ∷ s) = let rest = has_at s in if c == b'@' then true else rest
