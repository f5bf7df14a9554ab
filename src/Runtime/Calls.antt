-- ===== src/Runtime/Calls.antt =====
-- The operations on the runtime data.
use next_call.Base.Assoc.{lookup, insert, assign}
use next_call.Base.Index.{index_of}
use next_call.Base.{
  ℕ, ◌+◌, ◌&&◌, Bool, true, false, Option, none, some, List, [], ◌∷◌, ◌++◌, Bytes, codes, text_eq,
  if◌then◌else◌, get_elem?,
}
use next_call.Esl.Value.{Value, text, truthy_opt}
use next_call.Esl.Event.{Event, get_header}
use next_call.Runtime.State.{
  ChannelData, no_channel_data, channel_data_of, RunData, new_run_data, Datum, words, number, flag,
  undefined, null, Object, Runtime,
}

-- `getRouterLine`, on the keys of its table
unfoldable pub get_router_line : Option Value → Option Bytes
unfolding codes
get_router_line (some (text t)) =
    if text_eq t (codes "calllocal")
    then some (codes "本地")
    else (if text_eq t (codes "callin")
        then some (codes "呼入")
        else (if text_eq t (codes "callout") then some (codes "呼出") else none))
get_router_line _ = none

unfoldable pub is_some {ℓ} : {A : Type ℓ} → Option A → Bool
is_some none = false
is_some (some a) = true

-- `setCalled` asks the map of all run data for a call named `isOriginateCall`.
unfoldable pub set_called : ChannelData → List (Bytes × RunData) → Option Value
unfolding codes is_some
set_called channel runs =
    if is_some (lookup (codes "isOriginateCall") runs)
    then channel.originate_callee
    else channel.destination_number

unfoldable pub set_caller : ChannelData → Option Value
set_caller channel = channel.caller_id

unfoldable pub channel_data_from : Option Event → ChannelData
unfolding channel_data_of
channel_data_from none = no_channel_data
channel_data_from (some e) = channel_data_of e

unfoldable pub run_data_from : Option Event → RunData
unfolding get_header codes
run_data_from none = new_run_data
run_data_from (some e) = record new_run_data {
  tenant_id = 1;
  call_id = get_header (codes "Unique-ID") e;
}

abbrev pub store_event {ℓ} : {A : Type ℓ} → Bytes → Option A → List (Bytes × A) → List (Bytes × A)
store_event conn_id none m = m
store_event conn_id (some e) m = insert conn_id e m

-- The event that `initData` goes by: the connection's own on an outbound one.
abbrev pub event_for : Bool → Option Event → Option Event → Option Event
event_for true info conn_event = conn_event
event_for false info conn_event = info

-- The run data of a call, with the routing line, the two numbers and the blind transfer
unfoldable pub run_data_for : ChannelData → List (Bytes × RunData) → RunData → RunData
unfolding get_router_line set_called set_caller
run_data_for channel runs run = record run {
  router_line = get_router_line channel.call_type;
  caller = set_caller channel;
  callee = set_called channel runs;
  transfer_call = truthy_opt channel.sip_h_referred_by && truthy_opt channel.sip_refer_to;
}

-- `initData`; the connection is numbered `conn`, is inbound or not, and has an event of its own.
unfoldable pub init_data : ℕ → Bool → Option Event → Bytes → Option Event → Runtime → Runtime
unfolding run_data_for
init_data conn is_inbound info conn_id conn_event r =
    let event = event_for is_inbound info conn_event in
    let channel = channel_data_from event in
    let run = run_data_from event in
    let runs = insert conn_id run r.run_data in
    record r {
      connections = insert conn_id conn r.connections;
      channel_data = insert conn_id channel r.channel_data;
      run_data = insert conn_id (run_data_for channel runs run) runs;
      conn_events = store_event conn_id event r.conn_events;
    }

abbrev pub get_channel_data : Bytes → Runtime → Option ChannelData
get_channel_data conn_id r = lookup conn_id r.channel_data

unfoldable pub get_run_data : Bytes → Runtime → Option RunData
get_run_data conn_id r = lookup conn_id r.run_data

-- A setter that writes into the run data of a call; `none` is the TypeError of an unknown call.
unfoldable pub change_run_data : Bytes → (RunData → RunData) → Runtime → Option Runtime
unfolding get_run_data
change_run_data conn_id f r = elim (get_run_data conn_id r) [
  | none ↦ none
  | some run ↦ some (record r { run_data = insert conn_id (f run) r.run_data })
]

unfoldable pub set_answered : Bytes → Runtime → Option Runtime
unfolding change_run_data
set_answered conn_id = change_run_data conn_id (λ run. record run { answered = true })

unfoldable pub increase_ivr_current_deep : Bytes → ℕ → Runtime → Option Runtime
unfolding change_run_data
increase_ivr_current_deep conn_id amount =
    change_run_data conn_id (λ run. record run { ivr_current_deep = run.ivr_current_deep + amount })

unfoldable pub set_hangup_by : Bytes → Bytes → Runtime → Option Runtime
unfolding change_run_data
set_hangup_by conn_id hangup_by =
    change_run_data conn_id (λ run. record run { hangup_by = some hangup_by })

-- `addBleg`
unfoldable pub add_bleg : Bytes → Bytes → Runtime → Runtime
add_bleg uuid user r = record r {
  bleg_ids = r.bleg_ids ++ uuid ∷ [];
  bleg_users = r.bleg_users ++ user ∷ [];
}

-- `getLegIdByNumber`; `none` is an id that is not there.
unfoldable pub get_leg_id_by_number : Bytes → Runtime → Option Bytes
unfolding index_of
get_leg_id_by_number dialled r = elim (index_of r.bleg_users dialled) [
  | none ↦ some []
  | some i ↦ get_elem? r.bleg_ids i
]

-- `setStatisData` writes the fields of the data into the map itself.
unfoldable pub set_statis_data : Object → Runtime → Runtime
unfolding assign
set_statis_data given r = record r { statis_data = assign r.statis_data given }

unfoldable pub get_statis_data : Bytes → Runtime → Option Datum
get_statis_data conn_id r = lookup conn_id r.statis_data

unfoldable pub set_bull_queue : Bytes → ℕ → Runtime → Runtime
set_bull_queue conn_id queue r = record r { bull_queues = insert conn_id queue r.bull_queues }

unfoldable pub get_bull_queue : Bytes → Runtime → Option ℕ
get_bull_queue conn_id r = lookup conn_id r.bull_queues

-- The object that `initQueueData` stores
unfoldable pub new_queue_data : Object
unfolding codes
new_queue_data =
    (codes "cgrReqType", words [])
    ∷ (codes "originationUuid", words [])
    ∷ (codes "hangupBySystem", words [])
    ∷ (codes "agentId", number 0)
    ∷ (codes "startTime", number 0)
    ∷ (codes "ringTime", number 0)
    ∷ (codes "answerTime", number 0)
    ∷ (codes "queueJob", undefined)
    ∷ (codes "queueMusicFile", words [])
    ∷ (codes "queueAnswered", flag false)
    ∷ (codes "queueDone", flag false)
    ∷ (codes "vipLevel", number 0)
    ∷ (codes "maxLevel", number 0)
    ∷ (codes "priority", number 0)
    ∷ (codes "queue", null)
    ∷ (codes "findQueueMemberExec", flag false)
    ∷ (codes "isCallerHangup", flag false)
    ∷ (codes "agentEndState", words [])
    ∷ (codes "tryCallAgentTimes", number 0)
    ∷ (codes "addInQueueJobTimes", number 0)
    ∷ (codes "isDoneBusyTip", flag false)
    ∷ (codes "isDoneTimeoutTip", flag false)
    ∷ []

unfoldable pub init_queue_data : Bytes → Runtime → Runtime
unfolding new_queue_data
init_queue_data conn_id r = record r { pbx_queues = insert conn_id new_queue_data r.pbx_queues }

unfoldable pub get_queue_data : Bytes → Runtime → Option Object
get_queue_data conn_id r = lookup conn_id r.pbx_queues

abbrev pub or_no_fields : Option Object → Object
or_no_fields none = []
or_no_fields (some o) = o

-- `setQueueData`; nothing is assigned from data that is not there.
unfoldable pub set_queue_data : Bytes → Object → Runtime → Runtime
unfolding assign get_queue_data
set_queue_data conn_id given r = record r {
  pbx_queues =
      insert conn_id (assign (assign [] (or_no_fields (get_queue_data conn_id r))) given)
        r.pbx_queues;
}
