-- ===== src/Esl/Connection/Fifo.antt =====
-- Replies answer commands in the order in which the commands were queued.
use next_call.Base.{
  ℕ, ◌≡◌, ◌∙◌, sym, ap, Bool, true, false, Option, none, some, List, [], ◌∷◌, ◌++◌, Bytes, codes,
  append_assoc, Option-cases, subst, inl, inr, if◌then◌else◌,
}
use mathlib.Core.Option.{some-injective}
use next_call.Esl.Event.{Fields, Event, get_header, serialize}
use next_call.Esl.Connection.State.{
  Connection, Callback, user, auth_done, ready, send_job, job_done, emit, send, send_recv, api,
}
use next_call.Esl.Connection.Commands.{
  Wanted, filter, filter_delete, events, subscribe, send_job_command, bgapi, do_exec, execute,
  execute_uuid, auth, originate, Originate, execute_async, message, Message, message_event,
  send_event, sent_event, header_text,
}
use next_call.Esl.Connection.Receive.{
  Topic, auth_request, command_reply, log_data, disconnect_notice, api_response, channel_data,
  named, raw, call_user, auth_replied, run_callback, reply_from, on_command_reply, response_from,
  on_api_response, on_channel_data, finish_jobs, on_job, complete_with, on_execute_complete,
  dispatch, keep_data, on_event, server,
}

-- The callbacks queued so far are those answered so far and then those that wait.
pub record IsFifo (c : Connection) : Type 0 where
  pub order : c.asked ≡ c.answered ++ c.cmd_callbacks

Fifo-if : (b : Bool) {c d : Connection} → IsFifo c → IsFifo d → IsFifo (if b then c else d)
Fifo-if true h k = h
Fifo-if false h k = k

module _ (c : Connection) where
  pub emit-IsFifo : (x : Bytes) → IsFifo c → IsFifo (emit x c)
  unfolding emit
  emit-IsFifo x h = record { order = h.order }

  pub send-IsFifo : (x : Bytes) (m : Fields) → IsFifo c → IsFifo (send x m c)
  unfolding send
  send-IsFifo x m h = record { order = h.order }

  pub api-IsFifo : (x : Bytes) (a : List Bytes) (cb : Option ℕ) → IsFifo c → IsFifo (api x a cb c)
  unfolding api send
  api-IsFifo x a cb h = record { order = h.order }

  pub send_recv-IsFifo :
      (x : Bytes) (m : Fields) (cb : Callback) → IsFifo c → IsFifo (send_recv x m cb c)
  unfolding send_recv send
  send_recv-IsFifo x m cb h = record {
    order = ap (λ l. l ++ cb ∷ []) h.order ∙ append_assoc c.answered c.cmd_callbacks (cb ∷ []);
  }

module _ (c : Connection) where
  pub filter-IsFifo : (x y : Bytes) (cb : Callback) → IsFifo c → IsFifo (filter x y cb c)
  unfolding filter
  filter-IsFifo x y cb h = send_recv-IsFifo _ _ _ cb (record { order = h.order })

  pub filter_delete-IsFifo :
      (x y : Bytes) (cb : Callback) → IsFifo c → IsFifo (filter_delete x y cb c)
  unfolding filter_delete
  filter_delete-IsFifo x y cb h = send_recv-IsFifo _ _ _ cb h

  subscribe-IsFifo : (w : Wanted) (cb : Callback) → IsFifo c → IsFifo (subscribe w cb c)
  unfolding subscribe events
  subscribe-IsFifo w cb h = send_recv-IsFifo _ _ _ cb (record { order = h.order })

  pub events-IsFifo : (t : Bytes) (w : Wanted) (cb : Callback) → IsFifo c → IsFifo (events t w cb c)
  unfolding events
  events-IsFifo t w cb h = send_recv-IsFifo _ _ _ cb (record { order = h.order })

  send_job_command-IsFifo :
      (l j : Bytes) (cb : Option ℕ) → IsFifo c → IsFifo (send_job_command l j cb c)
  unfolding send_job_command
  send_job_command-IsFifo l j (some f) h = send_recv-IsFifo _ _ _ _ (record { order = h.order })
  send_job_command-IsFifo l j none h =
      send_recv-IsFifo _ _ _ _ (Fifo-if _ (filter_delete-IsFifo _ j (user none) h) h)

module _ (c : Connection) where
  pub bgapi-IsFifo :
      (x : Bytes) (args : List Bytes) (j : Bytes) (cb : Option ℕ) (u : Bytes)
      → IsFifo c
      → IsFifo (bgapi x args j cb u c)
  unfolding bgapi
  bgapi-IsFifo x args j cb u h =
      Fifo-if _ (filter-IsFifo c _ _ _ h) (send_job_command-IsFifo c _ _ cb h)

  do_exec-IsFifo :
      (u x : Bytes) (m : Fields) (cb : Option ℕ) (d : Bytes)
      → IsFifo c
      → IsFifo (do_exec u x m cb d c)
  unfolding do_exec
  do_exec-IsFifo u x m cb d h = send-IsFifo _ _ _ (record { order = h.order })

  auth-IsFifo : IsFifo c → IsFifo (auth c)
  unfolding auth
  auth-IsFifo h = send_recv-IsFifo c _ _ auth_done h

  call_user-IsFifo : (cb : Option ℕ) (e : Event) → IsFifo c → IsFifo (call_user cb e c)
  unfolding call_user
  call_user-IsFifo none e h = h
  call_user-IsFifo (some f) e h = record { order = h.order }

  auth_replied-IsFifo : (e : Event) → IsFifo c → IsFifo (auth_replied e c)
  unfolding auth_replied
  auth_replied-IsFifo e h =
      Fifo-if _
        (emit-IsFifo _ _
          (emit-IsFifo _ _ (subscribe-IsFifo _ _ (user none) (record { order = h.order }))))
        (emit-IsFifo _ _ (record { order = h.order }))

module _ (c : Connection) where
  pub originate-IsFifo :
      (o : Originate) (cb : Option ℕ) (u : Bytes) → IsFifo c → IsFifo (originate o cb u c)
  unfolding originate
  originate-IsFifo o cb u h = Fifo-if _ (api-IsFifo c _ _ cb h) (bgapi-IsFifo c _ _ [] cb u h)

  run_callback-IsFifo : (cb : Callback) (e : Event) → IsFifo c → IsFifo (run_callback cb e c)
  unfolding run_callback
  run_callback-IsFifo (user f) e h = call_user-IsFifo c f e h
  run_callback-IsFifo auth_done e h = auth_replied-IsFifo c e h
  run_callback-IsFifo ready e h = emit-IsFifo c _ h
  run_callback-IsFifo (send_job l j cb) e h = send_job_command-IsFifo c l j cb h
  run_callback-IsFifo (job_done f evt) e h = call_user-IsFifo c (some f) evt h

  on_channel_data-IsFifo : (e : Event) → IsFifo c → IsFifo (on_channel_data e c)
  unfolding on_channel_data
  on_channel_data-IsFifo e h = Fifo-if _ (subscribe-IsFifo _ _ ready (record { order = h.order })) h

  complete_with-IsFifo :
      (o : Option (Option ℕ)) (e : Event) → IsFifo c → IsFifo (complete_with o e c)
  unfolding complete_with
  complete_with-IsFifo none e h = h
  complete_with-IsFifo (some cb) e h = call_user-IsFifo c cb e h

  on_execute_complete-IsFifo :
      (u : Bytes) (e : Event) → IsFifo c → IsFifo (on_execute_complete u e c)
  unfolding on_execute_complete
  on_execute_complete-IsFifo u e h = Fifo-if _ (complete_with-IsFifo _ e h) h

reply_from-IsFifo :
    (q : List Callback) (c : Connection) (e : Event)
    → c.asked ≡ c.answered ++ q
    → IsFifo c
    → IsFifo (reply_from q e c)
unfolding reply_from
reply_from-IsFifo [] c e h k = k
reply_from-IsFifo (cb ∷ q) c e h k =
    run_callback-IsFifo _ cb e (record { order = h ∙ sym (append_assoc c.answered (cb ∷ []) q) })

response_from-IsFifo :
    (q : List (Option ℕ)) (c : Connection) (e : Event) → IsFifo c → IsFifo (response_from q e c)
unfolding response_from
response_from-IsFifo [] c e h = h
response_from-IsFifo (f ∷ q) c e h = call_user-IsFifo _ f e (record { order = h.order })

finish_jobs-IsFifo :
    (j : Bytes) (fs : List ℕ) (c : Connection) (e : Event)
    → IsFifo c
    → IsFifo (finish_jobs j fs e c)
unfolding finish_jobs
finish_jobs-IsFifo j [] c e h = h
finish_jobs-IsFifo j (f ∷ fs) c e h =
    finish_jobs-IsFifo j fs _ e
      (Fifo-if _ (filter_delete-IsFifo c _ j (job_done f e) h) (call_user-IsFifo c (some f) e h))

dispatch-IsFifo : (t : Topic) (c : Connection) (e : Event) → IsFifo c → IsFifo (dispatch t e c)
unfolding dispatch on_command_reply on_api_response on_job
dispatch-IsFifo auth_request c e h = auth-IsFifo c h
dispatch-IsFifo command_reply c e h = reply_from-IsFifo c.cmd_callbacks c e h.order h
dispatch-IsFifo api_response c e h = response_from-IsFifo c.api_callbacks c e h
dispatch-IsFifo (channel_data u) c e h = on_channel_data-IsFifo c e h
dispatch-IsFifo (named n u) c e h =
    Fifo-if _ (finish_jobs-IsFifo u _ _ e (record { order = h.order }))
      (Fifo-if _ (on_execute_complete-IsFifo c u e h) (Fifo-if _ (on_channel_data-IsFifo c e h) h))
dispatch-IsFifo log_data c e h = h
dispatch-IsFifo disconnect_notice c e h = h
dispatch-IsFifo (raw t) c e h = h

keep_data-IsFifo : (t : Topic) (c : Connection) (e : Event) → IsFifo c → IsFifo (keep_data t e c)
unfolding keep_data
keep_data-IsFifo (channel_data u) c e h = record { order = h.order }
keep_data-IsFifo _ c e h = h

pub on_event-IsFifo : (c : Connection) (e : Event) (m : Fields) → IsFifo c → IsFifo (on_event e m c)
unfolding on_event
on_event-IsFifo c e m h = dispatch-IsFifo _ _ e (emit-IsFifo _ _ (keep_data-IsFifo _ c e h))

pub execute-IsFifo :
    (c c' : Connection) (x a u : Bytes) (cb : Option ℕ) (f d : Bytes)
    → execute x a u cb f d c ≡ some c'
    → IsFifo c
    → IsFifo c'
unfolding execute
execute-IsFifo c c' x a u cb f d e h = elim (Option-cases (execute_uuid u f c)) [
  | inl n ↦ cc (rw (n, execute) at e)
  | inr (target, n) ↦
      subst IsFifo (some-injective _ _ (rw (n, execute) at e)) (do_exec-IsFifo c target _ _ cb d h)
]

pub execute_async-IsFifo :
    (c c' : Connection) (x a u : Bytes) (cb : Option ℕ) (f d : Bytes)
    → execute_async x a u cb f d c ≡ some c'
    → IsFifo c
    → IsFifo c'
unfolding execute_async
execute_async-IsFifo c c' x a u cb f d e h =
    elim (Option-cases (execute x a u cb f d (record c { exec_async = true }))) [
      | inl n ↦ cc (rw (n, execute_async) at e)
      | inr (b, n) ↦
          let before = execute-IsFifo _ b x a u cb f d n (record { order = h.order }) in
          subst IsFifo (some-injective _ _ (rw (n, execute_async) at e))
            (record { order = before.order })
    ]

pub message-IsFifo :
    (c c' : Connection) (stringify : Fields → Bytes) (m : Message) (cb : Callback)
    → message stringify m cb c ≡ some c'
    → IsFifo c
    → IsFifo c'
unfolding message send_event
message-IsFifo c c' stringify m cb e h =
    elim (Option-cases (
      sent_event (header_text (get_header (codes "Event-Name") (message_event m)))
        (serialize stringify none (message_event m)))) [
          | inl n ↦ cc (rw (n, send_event) at e)
          | inr (line, n) ↦
              subst IsFifo (some-injective _ _ (rw (n, send_event) at e))
                (send_recv-IsFifo c line [] cb h)
        ]

pub server-IsFifo : (c : Connection) → IsFifo c → IsFifo (server c)
unfolding server emit
server-IsFifo c h = send-IsFifo _ _ _ (record { order = h.order })
