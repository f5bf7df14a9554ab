-- ===== src/Esl/Connection/Replies.antt =====
-- The sequences of operations and events of a connection, and the order of its replies.
use next_call.Base.{ℕ, ◌≡◌, refl, Bool, Option, some, List, ◌++◌, Bytes}
use next_call.Esl.Event.{Fields, Event}
use next_call.Esl.Connection.State.{Connection, user, new_connection, emit, send_recv, api}
use next_call.Esl.Connection.Commands.{
  Wanted, filter, filter_delete, events, bgapi, execute, execute_async, set_async_execute,
  set_event_lock, disconnect, originate, Originate, message, Message,
}
use next_call.Esl.Connection.Receive.{on_event, server, client, on_connect}
use next_call.Esl.Connection.Fifo.{
  IsFifo, send_recv-IsFifo, api-IsFifo, bgapi-IsFifo, events-IsFifo, filter-IsFifo,
  filter_delete-IsFifo, originate-IsFifo, execute-IsFifo, send-IsFifo, on_event-IsFifo,
  execute_async-IsFifo, message-IsFifo, server-IsFifo,
}

-- One operation of the connection, with a caller's own function or none, or one event received.
pub data Step : Connection → Connection → Type 0 where
  command :
      (c : Connection) (x : Bytes) (m : Fields) (f : Option ℕ) → Step c (send_recv x m (user f) c)
  api_command : (c : Connection) (x : Bytes) (a : List Bytes) (f : Option ℕ) → Step c (api x a f c)
  job :
      (c : Connection) (x : Bytes) (a : List Bytes) (j : Bytes) (f : Option ℕ) (u : Bytes)
      → Step c (bgapi x a j f u c)
  subscription :
      (c : Connection) (t : Bytes) (w : Wanted) (f : Option ℕ) → Step c (events t w (user f) c)
  set_filter : (c : Connection) (x y : Bytes) (f : Option ℕ) → Step c (filter x y (user f) c)
  drop_filter :
      (c : Connection) (x y : Bytes) (f : Option ℕ) → Step c (filter_delete x y (user f) c)
  origination :
      (c : Connection) (o : Originate) (f : Option ℕ) (u : Bytes) → Step c (originate o f u c)
  execution :
      (c c' : Connection) (x a u : Bytes) (cb : Option ℕ) (f d : Bytes)
      → execute x a u cb f d c ≡ some c'
      → Step c c'
  close : (c : Connection) → Step c (disconnect c)
  async_execution :
      (c c' : Connection) (x a u : Bytes) (cb : Option ℕ) (f d : Bytes)
      → execute_async x a u cb f d c ≡ some c'
      → Step c c'
  sip_message :
      (c c' : Connection) (stringify : Fields → Bytes) (m : Message) (f : Option ℕ)
      → message stringify m (user f) c ≡ some c'
      → Step c c'
  set_async : (c : Connection) (b : Bool) → Step c (set_async_execute b c)
  set_lock : (c : Connection) (b : Bool) → Step c (set_event_lock b c)
  serve : (c : Connection) → Step c (server c)
  dial : (c : Connection) (password : Bytes) → Step c (client password c)
  connected : (c : Connection) → Step c (on_connect c)
  receive : (c : Connection) (e : Event) (m : Fields) → Step c (on_event e m c)

pub data Reach (s : Connection) : Connection → Type 0 where
  here : Reach s s
  next : {c d : Connection} → Reach s c → Step c d → Reach s d

Step-IsFifo : {c d : Connection} → Step c d → IsFifo c → IsFifo d
Step-IsFifo (command c x m f) h = send_recv-IsFifo c x m _ h
Step-IsFifo (api_command c x a f) h = api-IsFifo c x a f h
Step-IsFifo (job c x a j f u) h = bgapi-IsFifo c x a j f u h
Step-IsFifo (subscription c t w f) h = events-IsFifo c t w _ h
Step-IsFifo (set_filter c x y f) h = filter-IsFifo c x y _ h
Step-IsFifo (drop_filter c x y f) h = filter_delete-IsFifo c x y _ h
Step-IsFifo (origination c o f u) h = originate-IsFifo c o f u h
Step-IsFifo (execution c c' x a u cb f d e) h = execute-IsFifo c c' x a u cb f d e h
Step-IsFifo (close c) h = unfold disconnect in send-IsFifo c _ _ h
Step-IsFifo (async_execution c c' x a u cb f d e) h = execute_async-IsFifo c c' x a u cb f d e h
Step-IsFifo (sip_message c c' s m f e) h = message-IsFifo c c' s m _ e h
Step-IsFifo (set_async c b) h = unfold set_async_execute in record { order = h.order }
Step-IsFifo (set_lock c b) h = unfold set_event_lock in record { order = h.order }
Step-IsFifo (serve c) h = server-IsFifo c h
Step-IsFifo (dial c password) h = unfold client in record { order = h.order }
Step-IsFifo (connected c) h = unfold on_connect emit in record { order = h.order }
Step-IsFifo (receive c e m) h = on_event-IsFifo c e m h

Reach-IsFifo : {s c : Connection} → IsFifo s → Reach s c → IsFifo c
Reach-IsFifo h here = h
Reach-IsFifo h (next r st) = Step-IsFifo st (Reach-IsFifo h r)

-- Whatever a connection sends and receives after it was made, the callbacks that were called for
-- command replies and then those that wait are the callbacks queued, in the order of the commands.
pub replies_in_order :
    {c : Connection} → Reach new_connection c → c.asked ≡ c.answered ++ c.cmd_callbacks
replies_in_order r = (Reach-IsFifo (record { order = refl }) r).order
