-- ===== src/Esl/Connection/State.antt =====
-- The state of a connection, and `send`, `sendRecv`, `api`.
use next_call.Base.{ℕ, Bool, true, false, Option, none, List, [], ◌∷◌, ◌++◌, Bytes, codes}
use next_call.Esl.Value.Decimal.{show}
use next_call.Esl.Event.{Fields, Event}

-- The functions that wait for a reply: the program's own closures, and a caller's function, which
-- stands under a number and is `none` where the caller gives none.
pub data Callback : Type 0 where
  user : Option ℕ → Callback
  auth_done : Callback
  ready : Callback
  send_job : Bytes → Bytes → Option ℕ → Callback
  job_done : ℕ → Event → Callback

-- `asked` and `answered` are history: the callbacks queued and called for command replies, and
-- `calls` are the calls of callers' functions. `written` is what the socket was given.
pub record Connection : Type 0 where
  pub exec_async : Bool
  pub exec_lock : Bool
  pub connecting : Bool
  pub authed : Bool
  pub inbound : Bool
  pub using_filters : Bool
  pub awaiting_data : Bool
  pub password : Bytes
  pub channel_data : Option Event
  pub cmd_callbacks : List Callback
  pub api_callbacks : List (Option ℕ)
  pub execute_callbacks : List (Bytes × Option ℕ)
  pub execute_handlers : List Bytes
  pub job_listeners : List (Bytes × ℕ)
  pub listening_events : List Bytes
  pub written : Bytes
  pub emitted : List Bytes
  pub calls : List (ℕ × Event)
  pub asked : List Callback
  pub answered : List Callback

-- The constructor.
abbrev pub new_connection : Connection
new_connection = record {
  exec_async = false;
  exec_lock = false;
  connecting = true;
  authed = false;
  inbound = false;
  using_filters = false;
  awaiting_data = false;
  password = [];
  channel_data = none;
  cmd_callbacks = [];
  api_callbacks = [];
  execute_callbacks = [];
  execute_handlers = [];
  job_listeners = [];
  listening_events = [];
  written = [];
  emitted = [];
  calls = [];
  asked = [];
  answered = [];
}

abbrev pub req_events : List Bytes
req_events = codes "BACKGROUND_JOB" ∷ codes "CHANNEL_EXECUTE_COMPLETE" ∷ []

-- `this.emit(topic, …)`, as far as a caller's listeners see it
unfoldable pub emit : Bytes → Connection → Connection
emit topic c = record c { emitted = c.emitted ++ topic ∷ [] }

-- One `key: value` line for each argument.
unfoldable pub arg_lines : Fields → Bytes
arg_lines [] = []
arg_lines ((k, v) ∷ m) = k ++ (b':' ∷ b' ' ∷ (show v ++ (b'\n' ∷ arg_lines m)))

-- What `send` writes.
unfoldable pub message_bytes : Bytes → Fields → Bytes
message_bytes command args = command ++ (b'\n' ∷ (arg_lines args ++ (b'\n' ∷ [])))

unfoldable pub send : Bytes → Fields → Connection → Connection
send command args c = record c { written = c.written ++ message_bytes command args }

unfoldable pub send_recv : Bytes → Fields → Callback → Connection → Connection
send_recv command args cb c =
    send command args
      (record c { cmd_callbacks = c.cmd_callbacks ++ cb ∷ []; asked = c.asked ++ cb ∷ [] })

-- `args ? ' ' + args : ''`, the arguments being joined by blanks already
unfoldable pub spaced : Bytes → Bytes
spaced [] = []
spaced (x ∷ s) = b' ' ∷ x ∷ s

-- `args.join(' ')`
unfoldable pub join_spaces : List Bytes → Bytes
join_spaces [] = []
join_spaces (p ∷ []) = p
join_spaces (p ∷ q ∷ ps) = p ++ (b' ' ∷ join_spaces (q ∷ ps))

unfoldable pub api : Bytes → List Bytes → Option ℕ → Connection → Connection
api command args cb c =
    send (codes "api " ++ (command ++ spaced (join_spaces args))) []
      (record c { api_callbacks = c.api_callbacks ++ cb ∷ [] })
