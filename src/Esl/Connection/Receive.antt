-- ===== src/Esl/Connection/Receive.antt =====
-- `_onEvent`, and the listeners that the connection itself registers.
use next_call.Base.Assoc.{lookup}
use next_call.Base.{
  ℕ, Bool, true, false, Option, none, some, List, [], ◌∷◌, ◌++◌, Bytes, codes, text_eq,
  if◌then◌else◌,
}
use next_call.Esl.Value.{Value, text, truthy}
use next_call.Esl.Value.Decimal.{show}
use next_call.Esl.Event.{Fields, Event, get_header}
use next_call.Esl.Connection.State.{
  Connection, Callback, user, auth_done, ready, send_job, job_done, req_events, emit, send,
}
use next_call.Esl.Connection.Commands.{
  names, contains, subscribe, auth, send_job_command, filter_delete,
}

-- The name under which an event is emitted; a UUID that is missing is empty.
pub data Topic : Type 0 where
  auth_request command_reply log_data disconnect_notice api_response : Topic
  channel_data : Bytes → Topic
  named : Bytes → Bytes → Topic
  raw : Bytes → Topic

unfoldable pub colons : Bytes → Bytes
colons [] = []
colons (x ∷ s) = codes "::" ++ (x ∷ s)

unfoldable pub topic_name : Topic → Bytes
topic_name auth_request = codes "esl::event::auth::request"
topic_name command_reply = codes "esl::event::command::reply"
topic_name log_data = codes "esl::event::logdata"
topic_name disconnect_notice = codes "esl::event::disconnect::notice"
topic_name api_response = codes "esl::event::api::response"
topic_name (channel_data uuid) = codes "esl::event::CHANNEL_DATA" ++ colons uuid
topic_name (named name uuid) = codes "esl::event::" ++ (name ++ colons uuid)
topic_name (raw type) = codes "esl::event::raw::" ++ type

-- A missing header prints as `null` or `undefined`.
unfoldable pub printed : Bytes → Option Value → Bytes
printed missing none = missing
printed missing (some v) = show v

-- `a || b` at headers
unfoldable pub or_header : Option Value → Option Value → Option Value
or_header none v = v
or_header (some u) v = if truthy u then some u else v

unfoldable pub event_uuid : Event → Bytes
event_uuid e =
    elim (or_header (get_header (codes "Job-UUID") e)
      (or_header (get_header (codes "Unique-ID") e) (get_header (codes "Core-UUID") e))) [
        | none ↦ []
        | some v ↦ if truthy v then show v else []
      ]

unfoldable pub is_value : Option Value → Bytes → Bool
is_value (some (text t)) s = text_eq t s
is_value _ s = false

-- The switch of `_onEvent`.
unfoldable pub topic_of : Bool → Event → Fields → Topic
topic_of inbound e headers =
    let type = lookup (codes "Content-Type") headers in
    if is_value type (codes "auth/request")
    then auth_request
    else if is_value type (codes "command/reply")
    then (if is_value (lookup (codes "Event-Name") headers) (codes "CHANNEL_DATA")
        then (if inbound then command_reply else channel_data (event_uuid e))
        else command_reply)
    else if is_value type (codes "log/data")
    then log_data
    else if is_value type (codes "text/disconnect-notice")
    then disconnect_notice
    else if is_value type (codes "api/response")
    then api_response
    else if is_value type (codes "text/event-json")
    then named (printed (codes "null") (get_header (codes "Event-Name") e)) (event_uuid e)
    else if is_value type (codes "text/event-plain")
    then named (printed (codes "null") (get_header (codes "Event-Name") e)) (event_uuid e)
    else if is_value type (codes "text/event-xml")
    then named (printed (codes "null") (get_header (codes "Event-Name") e)) (event_uuid e)
    else raw (printed (codes "undefined") type)

unfoldable pub call_user : Option ℕ → Event → Connection → Connection
call_user none e c = c
call_user (some f) e c = record c { calls = c.calls ++ (f, e) ∷ [] }

-- The reply to `auth`.
unfoldable pub auth_replied : Event → Connection → Connection
auth_replied e c =
    if is_value (get_header (codes "Modesl-Reply-OK") e) (codes "accepted")
    then emit (codes "esl::ready") (
        emit (codes "esl::event::auth::success")
          (subscribe (names req_events) (user none) (record c { authed = true })))
    else emit (codes "esl::event::auth::fail") (record c { authed = false })

-- A callback, called with the event of its reply.
unfoldable pub run_callback : Callback → Event → Connection → Connection
run_callback (user f) e c = call_user f e c
run_callback auth_done e c = auth_replied e c
run_callback ready e c = emit (codes "esl::ready") c
run_callback (send_job line job cb) e c = send_job_command line job cb c
run_callback (job_done f evt) e c = call_user (some f) evt c

-- The listener of `command::reply`.
unfoldable pub reply_from : List Callback → Event → Connection → Connection
reply_from [] e c = c
reply_from (cb ∷ rest) e c =
    run_callback cb e (record c { cmd_callbacks = rest; answered = c.answered ++ cb ∷ [] })

unfoldable pub on_command_reply : Event → Connection → Connection
on_command_reply e c = reply_from c.cmd_callbacks e c

-- The listener of `api::response`.
unfoldable pub response_from : List (Option ℕ) → Event → Connection → Connection
response_from [] e c = c
response_from (cb ∷ rest) e c = call_user cb e (record c { api_callbacks = rest })

unfoldable pub on_api_response : Event → Connection → Connection
on_api_response e c = response_from c.api_callbacks e c

-- The listener that `server` registers once for the channel's data.
unfoldable pub on_channel_data : Event → Connection → Connection
on_channel_data e c =
    if c.awaiting_data
    then subscribe (names req_events) ready (record c { awaiting_data = false })
    else c

-- The listeners that `bgapi` registers once for a job, in the order of their registration.
unfoldable pub waiting_for : Bytes → List (Bytes × ℕ) → List ℕ
waiting_for job [] = []
waiting_for job ((j, f) ∷ rest) =
    let later = waiting_for job rest in if text_eq j job then f ∷ later else later

unfoldable pub without_job : Bytes → List (Bytes × ℕ) → List (Bytes × ℕ)
without_job job [] = []
without_job job ((j, f) ∷ rest) =
    let later = without_job job rest in if text_eq j job then later else (j, f) ∷ later

unfoldable pub finish_jobs : Bytes → List ℕ → Event → Connection → Connection
finish_jobs job [] e c = c
finish_jobs job (f ∷ fs) e c = finish_jobs job fs e (
    if c.using_filters
    then filter_delete (codes "Job-UUID") job (job_done f e) c
    else call_user (some f) e c)

unfoldable pub on_job : Bytes → Event → Connection → Connection
on_job job e c =
    finish_jobs job (waiting_for job c.job_listeners) e
      (record c { job_listeners = without_job job c.job_listeners })

unfoldable pub complete_with : Option (Option ℕ) → Event → Connection → Connection
complete_with none e c = c
complete_with (some cb) e c = call_user cb e c

-- The UUID of the message that an event completes.
unfoldable pub completed_uuid : Event → Bytes
completed_uuid e =
    printed (codes "null")
      (or_header (get_header (codes "Application-UUID") e) (get_header (codes "Event-UUID") e))

-- The handler of `CHANNEL_EXECUTE_COMPLETE`; a callback stays registered after it was called.
unfoldable pub on_execute_complete : Bytes → Event → Connection → Connection
on_execute_complete uuid e c =
    if contains c.execute_handlers uuid
    then complete_with (lookup (completed_uuid e) c.execute_callbacks) e c
    else c

-- The connection's own listeners of a topic.
unfoldable pub dispatch : Topic → Event → Connection → Connection
dispatch auth_request e c = auth c
dispatch command_reply e c = on_command_reply e c
dispatch api_response e c = on_api_response e c
dispatch (channel_data uuid) e c = on_channel_data e c
dispatch (named name uuid) e c =
    if text_eq name (codes "BACKGROUND_JOB")
    then on_job uuid e c
    else if text_eq name (codes "CHANNEL_EXECUTE_COMPLETE")
    then on_execute_complete uuid e c
    else if text_eq name (codes "CHANNEL_DATA")
    then on_channel_data e c
    else c
dispatch _ e c = c

unfoldable pub keep_data : Topic → Event → Connection → Connection
keep_data (channel_data uuid) e c = record c { channel_data = some e }
keep_data _ e c = c

-- `_onEvent`
unfoldable pub on_event : Event → Fields → Connection → Connection
on_event e headers c =
    let topic = topic_of c.inbound e headers in
    dispatch topic e (emit (topic_name topic) (keep_data topic e c))

-- `server`, without the socket's own listeners
unfoldable pub server : Connection → Connection
server c =
    send (codes "connect") [] (record (emit (codes "esl::connect") (record c { inbound = false })) {
      connecting = false;
      awaiting_data = true;
    })

-- `client`, and `_onConnect` once the socket is open
unfoldable pub client : Bytes → Connection → Connection
client password c = record c { inbound = true; password = password }

unfoldable pub on_connect : Connection → Connection
on_connect c = record (emit (codes "esl::connect") c) { connecting = false }
