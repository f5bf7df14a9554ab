-- ===== src/Tests/Chats.antt =====
-- The theorems on the chat, at concrete users and messages.
use next_call.Chat.Laws.{send_private_message-rows, IsUnsent, happen-IsUnsent}
use next_call.Records.Memory.{memory}
use next_call.Chat.{
  Messages, Chat, Client, send_private_message, PrivateMessage, message_row, sended, new_message,
  happen, connects, reads, removes,
}
use next_call.Base.{List, ℕ, ◌≡◌, none, some, ◌∷◌, ◌≤◌, arith, [], codes, suc, All, ◌+◌, ◌≢◌, refl}

-- The number of a new message is above all others.
above : List PrivateMessage → ℕ
above [] = 0
above (r ∷ l) = suc r.id + above l

above-All : (n : ℕ) (l : List PrivateMessage) → above l ≤ n → All (λ r. r.id ≢ n) l
unfolding above
above-All n [] h = tt
above-All n (r ∷ l) h = ((λ e. absurd (omega (arith, h, e))), above-All n l (omega (arith, h)))

abbrev in_memory : Messages
in_memory = record {
  repository = memory PrivateMessage;
  next_id = above;
  fresh = λ t. above-All (above t) t (omega arith);
}

abbrev all_offline : Chat in_memory
all_offline = record { user_socket = λ u. none; table = []; emitted = [] }

abbrev ann : Client
ann = record { socket = 11; user = 1 }

abbrev bob_online : Chat in_memory
bob_online = record {
  user_socket = λ u. some (record { socket = 12; user = 2 });
  table = [];
  emitted = [];
}

send_private_message-rows_example :
    (bob_online.user_socket 2 ≡ none
      → ((send_private_message in_memory 1 2 (codes "hi") bob_online).table
          ≡ message_row in_memory 0 1 2 (codes "hi") ∷ [])
        × ((send_private_message in_memory 1 2 (codes "hi") bob_online).emitted ≡ []))
    × ((c : Client)
        → bob_online.user_socket 2 ≡ some c
        → ((send_private_message in_memory 1 2 (codes "hi") bob_online).table
            ≡ record (message_row in_memory 0 1 2 (codes "hi")) { status = sended } ∷ [])
          × ((send_private_message in_memory 1 2 (codes "hi") bob_online).emitted
              ≡ (c.socket, new_message (message_row in_memory 0 1 2 (codes "hi"))) ∷ []))
unfolding above
send_private_message-rows_example = send_private_message-rows in_memory 1 2 (codes "hi") bob_online

happen-IsUnsent_example : IsUnsent in_memory 0 (
    happen in_memory
      (connects ann ∷ reads 1 2 ∷ removes 5 ∷ [])
      (send_private_message in_memory 1 2 (codes "hi") all_offline))
unfolding above
happen-IsUnsent_example =
    happen-IsUnsent in_memory (connects ann ∷ reads 1 2 ∷ removes 5 ∷ []) 1 2 (codes "hi")
      all_offline refl (tt, (tt, ((λ e. ground (arith, e)), tt)))
