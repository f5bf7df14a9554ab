-- ===== src/Runtime/State.antt =====
-- The state of the runtime data: what is kept of each call, by connection id.
use next_call.Base.{ℕ, Bool, false, Option, none, some, List, [], Bytes, codes}
use next_call.Esl.Value.{Value, text}
use next_call.Esl.Event.{Event, get_header}

-- `IChannelData`
pub record ChannelData : Type 0 where
  pub fs_name : Option Value
  pub core_uuid : Option Value
  pub call_direction : Option Value
  pub caller_id : Option Value
  pub caller_name : Option Value
  pub callee_id : Option Value
  pub callee_name : Option Value
  pub destination_number : Option Value
  pub sip_call_id : Option Value
  pub channel_name : Option Value
  pub use_context : Option Value
  pub call_type : Option Value
  pub originate_call : Option Value
  pub originate_tenant : Option Value
  pub originate_callee : Option Value
  pub transfer_source : Option Value
  pub transfer_history : Option Value
  pub sip_h_referred_by : Option Value
  pub sip_refer_to : Option Value
  pub max_forwards : Option Value
  pub click_out : Option Value
  pub click_agent : Option Value
  pub ivr_transfer : Option Value

abbrev pub no_channel_data : ChannelData
no_channel_data = record {
  fs_name = none;
  core_uuid = none;
  call_direction = none;
  caller_id = none;
  caller_name = none;
  callee_id = none;
  callee_name = none;
  destination_number = none;
  sip_call_id = none;
  channel_name = none;
  use_context = none;
  call_type = none;
  originate_call = none;
  originate_tenant = none;
  originate_callee = none;
  transfer_source = none;
  transfer_history = none;
  sip_h_referred_by = none;
  sip_refer_to = none;
  max_forwards = none;
  click_out = none;
  click_agent = none;
  ivr_transfer = none;
}

-- The headers that `initData` reads
unfoldable pub channel_data_of : Event → ChannelData
unfolding codes get_header
channel_data_of e = record {
  fs_name = get_header (codes "FreeSWITCH-Switchname") e;
  core_uuid = get_header (codes "Core-UUID") e;
  call_direction = get_header (codes "Call-Direction") e;
  caller_id = get_header (codes "Caller-Caller-ID-Number") e;
  caller_name = get_header (codes "Caller-Caller-ID-Name") e;
  callee_id = get_header (codes "Caller-Callee-ID-Number") e;
  callee_name = get_header (codes "Caller-Callee-ID-Name") e;
  destination_number = get_header (codes "Caller-Destination-Number") e;
  sip_call_id = get_header (codes "variable_sip_call_id") e;
  channel_name = get_header (codes "Caller-Channel-Name") e;
  use_context = get_header (codes "Caller-Context") e;
  call_type = get_header (codes "variable_call_direction") e;
  originate_call = get_header (codes "variable_originate_call") e;
  originate_tenant = get_header (codes "variable_originate_tenant") e;
  originate_callee = get_header (codes "variable_originate_callee") e;
  transfer_source = get_header (codes "variable_transfer_source") e;
  transfer_history = get_header (codes "variable_transfer_history") e;
  sip_h_referred_by = get_header (codes "variable_sip_h_Referred-By") e;
  sip_refer_to = get_header (codes "variable_sip_refer_to") e;
  max_forwards = get_header (codes "variable_max_forwards") e;
  click_out = get_header (codes "variable_click_dialout") e;
  click_agent = get_header (codes "variable_click_agent") e;
  ivr_transfer = get_header (codes "variable_ivr_transfer") e;
}

-- `IRunData`; `isOriginateCall` is a field that nothing sets.
pub record RunData : Type 0 where
  pub call_id : Option Value
  pub ivr_max_deep : ℕ
  pub ivr_current_deep : ℕ
  pub tenant_id : ℕ
  pub caller : Option Value
  pub callee : Option Value
  pub router_line : Option Bytes
  pub answered : Bool
  pub hangup_by : Option Bytes
  pub transfer_call : Bool

abbrev pub new_run_data : RunData
new_run_data = record {
  call_id = some (text []);
  ivr_max_deep = 100;
  ivr_current_deep = 0;
  tenant_id = 0;
  caller = none;
  callee = none;
  router_line = none;
  answered = false;
  hangup_by = none;
  transfer_call = false;
}

-- What a field of the queue data or of the statistics holds.
pub data Datum : Type 0 where
  words : Bytes → Datum
  number : ℕ → Datum
  flag : Bool → Datum
  undefined : Datum
  null : Datum

abbrev pub Object : Type 0
Object = List (Bytes × Datum)

-- The service; connections and bull queues are numbered.
pub record Runtime : Type 0 where
  pub channel_data : List (Bytes × ChannelData)
  pub run_data : List (Bytes × RunData)
  pub statis_data : Object
  pub bleg_ids : List Bytes
  pub bleg_users : List Bytes
  pub connections : List (Bytes × ℕ)
  pub conn_events : List (Bytes × Event)
  pub bull_queues : List (Bytes × ℕ)
  pub pbx_queues : List (Bytes × Object)

abbrev pub new_runtime : Runtime
new_runtime = record {
  channel_data = [];
  run_data = [];
  statis_data = [];
  bleg_ids = [];
  bleg_users = [];
  connections = [];
  conn_events = [];
  bull_queues = [];
  pbx_queues = [];
}
