-- ===== src/Esl/Connection/Commands.antt =====
-- The commands that are built from `send`, `sendRecv` and `api`. A UUID that the source draws is an
-- argument.
use next_call.Base.Assoc.{insert}
use next_call.Base.{
  ℕ, Bool, true, false, ◌&&◌, ◌||◌, Option, none, some, List, [], ◌∷◌, ◌++◌, ◌+◌, Bytes, codes,
  text_eq, text_or, if◌then◌else◌, leb, ◌==◌,
}
use next_call.Esl.Value.{Value, text}
use next_call.Esl.Value.Decimal.{show}
use next_call.Esl.Event.{Fields, Event, get_header, add_header, serialize, new_typed, add_body}
use next_call.Esl.Connection.State.{
  Connection, Callback, user, auth_done, send_job, req_events, send, send_recv, api, join_spaces,
}

-- `filter`
unfoldable pub filter : Bytes → Bytes → Callback → Connection → Connection
filter header value cb c =
    send_recv (codes "filter " ++ (header ++ (b' ' ∷ value))) [] cb
      (record c { using_filters = true })

-- `filterDelete`; a value that is left out is empty.
unfoldable pub filter_delete : Bytes → Bytes → Callback → Connection → Connection
filter_delete header value cb =
    send_recv (codes "filter delete " ++ (header ++ elim value [ [] ↦ [] | x ∷ s ↦ b' ' ∷ x ∷ s ]))
      [] cb

-- The events to subscribe to, as a caller may give them.
pub data Wanted : Type 0 where
  everything : Wanted
  words : Bytes → Wanted
  names : List Bytes → Wanted

unfoldable pub to_lower : Bytes → Bytes
to_lower [] = []
to_lower (c ∷ s) = (if leb b'A' c && leb c b'Z' then c + 32 else c) ∷ to_lower s

unfoldable pub is_all : Bytes → Bool
is_all s = text_eq (to_lower s) (codes "all")

unfoldable pub contains : List Bytes → Bytes → Bool
contains [] a = false
contains (x ∷ xs) a = text_eq x a || contains xs a

-- The loop over the required events.
unfoldable pub add_required : List Bytes → List Bytes → List Bytes
add_required [] listening = listening
add_required (r ∷ rs) listening =
    add_required rs (if contains listening r then listening else listening ++ r ∷ [])

-- `events.split(' ')`
unfoldable pub split_spaces : Bytes → List Bytes
split_spaces [] = [] ∷ []
split_spaces (c ∷ s) =
    let rest = split_spaces s in
    if c == b' ' then [] ∷ rest else elim rest [ [] ↦ (c ∷ []) ∷ [] | p ∷ ps ↦ (c ∷ p) ∷ ps ]

unfoldable pub listening : Wanted → List Bytes
listening everything = codes "all" ∷ []
listening (words []) = codes "all" ∷ []
listening (words (x ∷ s)) =
    if is_all (x ∷ s) then codes "all" ∷ [] else add_required req_events (split_spaces (x ∷ s))
listening (names (x ∷ [])) = if is_all x then codes "all" ∷ [] else add_required req_events (x ∷ [])
listening (names xs) = add_required req_events xs

unfoldable pub known_type : Bytes → Bytes
known_type type =
    if text_eq type (codes "plain") || text_eq type (codes "xml") || text_eq type (codes "json")
    then type
    else codes "plain"

-- `events`
unfoldable pub events : Bytes → Wanted → Callback → Connection → Connection
events type wanted cb c =
    let now = listening wanted in
    send_recv (codes "event " ++ (known_type type ++ (b' ' ∷ join_spaces now))) [] cb
      (record c { listening_events = now })

-- `subscribe`
unfoldable pub subscribe : Wanted → Callback → Connection → Connection
subscribe wanted cb = events (codes "json") wanted cb

-- `sendApiCommand` once the filter, where one is used, has been set
unfoldable pub send_job_command : Bytes → Bytes → Option ℕ → Connection → Connection
send_job_command line job cb c =
    let listened : Connection = elim cb [
      | some f ↦ record c { job_listeners = c.job_listeners ++ (job, f) ∷ [] }
      | none ↦ if c.using_filters then filter_delete (codes "Job-UUID") job (user none) c else c
    ] in
    send_recv line ((codes "Job-UUID", text job) ∷ []) (user none) listened

-- `bgapi`; `fresh` is the UUID that is drawn where no job is given.
unfoldable pub bgapi : Bytes → List Bytes → Bytes → Option ℕ → Bytes → Connection → Connection
bgapi command args job cb fresh c =
    let job' = text_or job fresh in
    let line = codes "bgapi " ++ (command ++ (b' ' ∷ join_spaces args)) in
    if c.using_filters
    then filter (codes "Job-UUID") job' (send_job line job' cb) c
    else send_job_command line job' cb c

-- `_doExec`; `drawn` is the UUID of the message.
unfoldable pub do_exec : Bytes → Bytes → Fields → Option ℕ → Bytes → Connection → Connection
do_exec uuid cmd args cb drawn c =
    let called = insert (codes "call-command") (text cmd) args in
    let async =
      if c.exec_async then insert (codes "async") (text (codes "true")) called else called in
    let locked =
      if c.exec_lock then insert (codes "event-lock") (text (codes "true")) async else async in
    let marked = insert (codes "Event-UUID") (text drawn) locked in
    send (codes "sendmsg " ++ uuid) marked (record c {
      execute_callbacks = insert drawn cb c.execute_callbacks;
      execute_handlers =
          if contains c.execute_handlers uuid
          then c.execute_handlers
          else c.execute_handlers ++ uuid ∷ [];
    })

abbrev pub header_text : Option Value → Bytes
header_text none = []
header_text (some v) = show v

-- The channel that `execute` names: outbound its own, and `none` is the `TypeError` before the
-- channel's data has come.
unfoldable pub execute_uuid : Bytes → Bytes → Connection → Option Bytes
execute_uuid uuid fresh c = if c.inbound then some (text_or uuid fresh) else elim c.channel_data [
  | none ↦ none
  | some info ↦ some (header_text (get_header (codes "Unique-ID") info))
]

-- `execute`
unfoldable pub execute :
    Bytes → Bytes → Bytes → Option ℕ → Bytes → Bytes → Connection → Option Connection
execute app arg uuid cb fresh drawn c = elim (execute_uuid uuid fresh c) [
  | none ↦ none
  | some target ↦ some (
      do_exec target (codes "execute")
        ((codes "execute-app-name", text app) ∷ (codes "execute-app-arg", text arg) ∷ []) cb drawn
        c)
]

-- `executeAsync`
unfoldable pub execute_async :
    Bytes → Bytes → Bytes → Option ℕ → Bytes → Bytes → Connection → Option Connection
execute_async app arg uuid cb fresh drawn c =
    elim (execute app arg uuid cb fresh drawn (record c { exec_async = true })) [
      | none ↦ none
      | some c' ↦ some (record c' { exec_async = c.exec_async })
    ]

unfoldable pub set_async_execute : Bool → Connection → Connection
set_async_execute value c = record c { exec_async = value }

unfoldable pub set_event_lock : Bool → Connection → Connection
set_event_lock value c = record c { exec_lock = value }

-- `disconnect`, without the end of the socket itself
unfoldable pub disconnect : Connection → Connection
disconnect = send (codes "exit") []

-- `auth`, as the listener of `auth::request` calls it: with an event, which is no callback.
unfoldable pub auth : Connection → Connection
auth c = send_recv (codes "auth " ++ c.password) [] auth_done c

-- `originate`
pub record Originate : Type 0 where
  pub profile : Bytes
  pub gateway : Bytes
  pub number : Bytes
  pub app : Bytes
  pub sync : Bool

unfoldable pub originate_arg : Originate → Bytes
originate_arg o =
    codes "sofia/"
    ++ (o.profile
        ++ (b'/'
            ∷ (o.number
                ++ (b'@' ∷ (o.gateway ++ elim o.app [ [] ↦ [] | x ∷ s ↦ codes " &" ++ (x ∷ s) ])))))

unfoldable pub originate : Originate → Option ℕ → Bytes → Connection → Connection
originate o cb fresh c =
    if o.sync
    then api (codes "originate") (originate_arg o ∷ []) cb c
    else bgapi (codes "originate") (originate_arg o ∷ []) [] cb fresh c

abbrev pub sent_event : Bytes → Option (Event × Option Bytes) → Option Bytes
sent_event name none = none
sent_event name (some (e, none)) = none
sent_event name (some (e, some serialized)) =
    some (codes "sendevent " ++ (name ++ (b'\n' ∷ serialized)))

-- `sendEvent`; the plain format that it asks for makes no use of `JSON.stringify`. `none` is the
-- exception at a body that is no text.
unfoldable pub send_event : (Fields → Bytes) → Event → Callback → Connection → Option Connection
send_event stringify e cb c =
    elim (sent_event (header_text (get_header (codes "Event-Name") e))
      (serialize stringify none e)) [ none ↦ none | some line ↦ some (send_recv line [] cb c) ]

pub record Message : Type 0 where
  pub to : Bytes
  pub from : Bytes
  pub profile : Bytes
  pub body : Bytes
  pub subject : Bytes
  pub session_id : Bytes
  pub msg_type : Bytes
  pub delivery_confirmation : Bytes

-- The event that `message` builds.
unfoldable pub message_event : Message → Event
message_event m =
    let e1 = add_header (codes "dest_proto") (text (codes "sip")) (
      add_header (codes "proto") (text (codes "sip"))
        (new_typed (codes "custom") (codes "SMS::SEND_MESSAGE"))) in
    let e2 = add_header (codes "to") (text m.to) (
      add_header (codes "from_full") (text (codes "sip:" ++ m.from))
        (add_header (codes "from") (text m.from) e1)) in
    let e3 =
      add_header (codes "subject") (text m.subject)
        (add_header (codes "sip_profile") (text m.profile) e2) in
    let e4 =
      add_header (codes "sip_h_X-message-type") (text m.msg_type)
        (add_header (codes "sip_h_X-session-id") (text m.session_id) e3) in
    let e5 : Event = elim m.delivery_confirmation [
      | [] ↦ e4
      | x ∷ s ↦ add_header (codes "blocking") (text (codes "true")) e4
    ] in
    add_body m.body (
      add_header (codes "Content-Type") (text (codes "text/plain"))
        (add_header (codes "type") (text (codes "text/plain")) e5))

unfoldable pub message : (Fields → Bytes) → Message → Callback → Connection → Option Connection
message stringify m cb = send_event stringify (message_event m) cb
