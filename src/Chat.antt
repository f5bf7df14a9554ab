-- ===== src/Chat.antt =====
-- src/chat/chat.service.ts and src/chat/events.gateway.ts: the sockets of the users who are connected,
-- and the private messages, which src/private-message/private-message.service.ts keeps in a table, and
-- src/private-message/private-message.controller.ts changes and removes.
pub mod Laws
use next_call.Records.{Repository, update_one, create}
use next_call.Base.{
  ℕ, Bool, true, Bytes, All, Option, false, ◌≢◌, List, if◌then◌else◌, some, none, ◌==◌, ◌∷◌, ◌&&◌,
  [],
}

-- A socket with the user that its token names
pub record Client : Type 0 where
  pub socket : ℕ
  pub user : ℕ

-- `MessageStatus`, of which nothing here sets RECALL
pub data Status : Type 0 where
  unsend sended recall readed : Status

unfoldable pub is_sended : Status → Bool
is_sended sended = true
is_sended _ = false

pub record PrivateMessage : Type 0 where
  pub id : ℕ
  pub send_id : ℕ
  pub recv_id : ℕ
  pub content : Bytes
  pub status : Status

-- What is emitted: `cmd` 0 for a welcome, 3 for a message and 7 for the notice that a friend has read.
pub data Notice : Type 0 where
  welcome : Notice
  new_message : PrivateMessage → Notice
  friend_read : ℕ → Notice

-- `isClientAliveNow` returns true, whatever the time of the last heartbeat is.
unfoldable pub is_client_alive_now : ℕ → Bool
is_client_alive_now last_active = true

-- The messages are rows of a table whose next number is new.
pub record Messages : Type 1 where
  pub repository : Repository PrivateMessage
  pub next_id : Repository.Table repository → ℕ
  pub fresh :
      (t : Repository.Table repository) → All (λ r. r.id ≢ next_id t) (Repository.rows repository t)

module _ (m : Messages) where
  open m use {repository, next_id}
  open repository use {Table}

  -- `userSocket`, the table, and what was emitted to which socket, the last first
  pub record Chat : Type 0 where
    pub user_socket : ℕ → Option Client
    pub table : Table
    pub emitted : List (ℕ × Notice)

  unfoldable pub set_socket : ℕ → Option Client → (ℕ → Option Client) → ℕ → Option Client
  set_socket user c sockets u = if u == user then c else sockets u

  -- `handleConnection`, with a token that can be read
  unfoldable pub handle_connection : Client → Chat → Chat
  handle_connection c s = record s {
    user_socket = set_socket c.user (some c) s.user_socket;
    emitted = (c.socket, welcome) ∷ s.emitted;
  }

  unfoldable pub handle_disconnect : Client → Chat → Chat
  handle_disconnect c s = record s { user_socket = set_socket c.user none s.user_socket }

  -- `client.emit`, if the user has a socket
  unfoldable pub emit_to : Option Client → Notice → Chat → Chat
  emit_to none x s = s
  emit_to (some c) x s = record s { emitted = (c.socket, x) ∷ s.emitted }

  unfoldable pub has_number : ℕ → PrivateMessage → Bool
  has_number id r = r.id == id

  -- `update(id, { status: SENDED })`
  unfoldable pub set_sended : ℕ → Table → Table
  set_sended id t = (update_one repository (has_number id) (λ r. record r { status = sended }) t).1

  unfoldable pub message_row : ℕ → ℕ → ℕ → Bytes → PrivateMessage
  message_row id sender to content = record {
    id = id;
    send_id = sender;
    recv_id = to;
    content = content;
    status = unsend;
  }

  unfoldable pub deliver : Option Client → PrivateMessage → Chat → Chat
  deliver none r s = s
  deliver (some c) r s = record s {
    table = set_sended r.id s.table;
    emitted = (c.socket, new_message r) ∷ s.emitted;
  }

  unfoldable pub send_private_message : ℕ → ℕ → Bytes → Chat → Chat
  send_private_message sender to content s =
      let r = message_row (next_id s.table) sender to content in
      deliver (s.user_socket to) r (record s { table = create repository r s.table })

  -- The test of `{ sendId, recvId: friendId, status: SENDED }`
  unfoldable pub is_delivered : ℕ → ℕ → PrivateMessage → Bool
  is_delivered sender friend r = r.send_id == sender && (r.recv_id == friend && is_sended r.status)

  unfoldable pub read_private_message : ℕ → ℕ → Chat → Chat
  read_private_message sender friend s =
      emit_to (s.user_socket sender) (friend_read friend) (record s {
        table =
            (update_one repository (is_delivered sender friend) (λ r. record r { status = readed })
              s.table).1;
      })

  -- `update(id, dto)` of a request to change a message: what the request gives is written over the row,
  -- whose number it is asked for by.
  unfoldable pub change_message : ℕ → (PrivateMessage → PrivateMessage) → Chat → Chat
  change_message id f s = record s { table = (update_one repository (has_number id) f s.table).1 }

  -- `delete(id)` of a request to remove a message
  unfoldable pub remove_message : ℕ → Chat → Chat
  remove_message id s = record s { table = repository.remove (has_number id) s.table }

  -- `create(dto)` of a request to store a message. A request that gives the number of a row, which `save`
  -- then writes over, is one to change it.
  unfoldable pub store_message : PrivateMessage → Chat → Chat
  store_message r s = record s {
    table = create repository (record r { id = next_id s.table }) s.table;
  }

  -- What the users do
  pub data ChatEvent : Type 0 where
    connects disconnects : Client → ChatEvent
    sends : ℕ → ℕ → Bytes → ChatEvent
    reads : ℕ → ℕ → ChatEvent
    changes : ℕ → (PrivateMessage → PrivateMessage) → ChatEvent
    removes : ℕ → ChatEvent
    stores : PrivateMessage → ChatEvent

  unfoldable pub happens : ChatEvent → Chat → Chat
  happens (connects c) s = handle_connection c s
  happens (disconnects c) s = handle_disconnect c s
  happens (sends sender to content) s = send_private_message sender to content s
  happens (reads sender friend) s = read_private_message sender friend s
  happens (changes id f) s = change_message id f s
  happens (removes id) s = remove_message id s
  happens (stores r) s = store_message r s

  unfoldable pub happen : List ChatEvent → Chat → Chat
  happen [] s = s
  happen (e ∷ es) s = happen es (happens e s)
