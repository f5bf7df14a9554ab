-- ===== src/Tests/Connections.antt =====
-- The theorems on a connection, at concrete commands and events.
use next_call.Base.Assoc.{insert}
use next_call.Esl.Connection.Show.{
  parse_table, parse_rows, split_text, text_pieces, add_values, table_rows,
}
use next_call.Base.{
  ℕ, ◌≡◌, refl, ◌+◌, none, some, [], ◌∷◌, ◌++◌, codes, text_eq, length, split, starts_with,
}
use next_call.Esl.Value.{Value, text}
use next_call.Esl.Event.{Event, Fields, new_event}
use next_call.Esl.Parser.{index_of_header_end}
use next_call.Esl.Connection.{
  Connection, Callback, user, new_connection, message_bytes, api, send_recv, on_event, do_exec,
  on_execute_complete, completed_uuid, events, words, contains, req_events,
}
use next_call.Esl.Connection.Wire.{index-message_bytes}
use next_call.Esl.Connection.Replies.{here, next, command, api_command, receive, replies_in_order}

abbrev reply : Fields
reply = (codes "Content-Type", text (codes "command/reply")) ∷ []

-- Two commands, and the reply to the first.
abbrev after_reply : Connection
after_reply = on_event (new_event reply none) reply (
    api (codes "status") [] (some 1)
      (send_recv (codes "noevents") [] (user (some 0)) new_connection))

replies_in_order_example : after_reply.asked ≡ after_reply.answered ++ after_reply.cmd_callbacks
replies_in_order_example = replies_in_order (
    next
      (next (next here (command new_connection (codes "noevents") [] (some 0))) (
        api_command (send_recv (codes "noevents") [] (user (some 0)) new_connection)
          (codes "status") [] (some 1)))
      (receive
        (api (codes "status") [] (some 1)
          (send_recv (codes "noevents") [] (user (some 0)) new_connection))
        (new_event reply none) reply))

-- The reply has called the first callback; the other command waits for its own kind of reply.
waiting : (after_reply.answered ≡ user (some 0) ∷ []) × (after_reply.api_callbacks ≡ some 1 ∷ [])
unfolding on_event api send_recv new_event codes text_eq next_call.Esl.Connection.dispatch
    next_call.Esl.Connection.topic_of next_call.Esl.Connection.is_value
    next_call.Esl.Connection.on_command_reply next_call.Esl.Connection.reply_from
    next_call.Esl.Connection.emit next_call.Esl.Connection.keep_data next_call.Esl.Connection.send
    next_call.Esl.Connection.run_callback next_call.Esl.Connection.call_user
waiting = (refl, refl)

abbrev lock_args : Fields
lock_args = (codes "event-lock", text (codes "true")) ∷ []

index-message_bytes_example :
    (i : ℕ) × (index_of_header_end (message_bytes (codes "go") lock_args) ≡ some i)
    × (i + 2 ≡ length (message_bytes (codes "go") lock_args))
unfolding codes next_call.Esl.Value.Decimal.show
index-message_bytes_example =
    index-message_bytes (codes "go") lock_args (refl, (refl, tt))
      (
        (refl, (refl, (refl, (refl, (refl, (refl, (refl, (refl, (refl, (refl, tt)))))))))),
        (refl, (refl, (refl, (refl, tt)))),
        tt,
      )

abbrev completion : Event
completion = new_event ((codes "Application-UUID", text (codes "u-1")) ∷ []) none

-- A table of two columns and two rows, with commas
parsed_lines :
    parse_table {J = ℕ} (codes ",") (split b'\n' (codes "uuid,name\n1,a\n2,b"))
    ≡ table_rows 2 (
        ((codes "uuid", codes "1") ∷ (codes "name", codes "a") ∷ [])
        ∷ ((codes "uuid", codes "2") ∷ (codes "name", codes "b") ∷ [])
        ∷ [])
unfolding parse_table parse_rows split_text text_pieces split add_values insert codes starts_with
    text_eq
parsed_lines = refl
