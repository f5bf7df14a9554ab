-- ===== src/Chat/Laws.antt =====
-- src/chat/chat.service.ts: who has a socket, and which messages are delivered and read.
use next_call.Base.{
  ◌≡◌, ℕ, none, Bytes, arith, ◌++◌, ◌∷◌, [], some, refl, Any, Option-cases, List, ◌∙◌, Option, inl,
  ap, subst, All, map, sym, ◌≢◌, if◌then◌else◌, Any-left, ==_iff, inr, Bool-cases, map-Any, ◌==◌,
  Any-weaken, false, keep, Any-right, not, here, there,
}
use next_call.Records.{update_one, create}
use next_call.Chat.{
  Messages, handle_disconnect, send_private_message, handle_connection, deliver, set_socket,
  set_sended, Client, Chat, message_row, sended, new_message, has_number, emit_to,
  read_private_message, unsend, is_delivered, PrivateMessage, Notice, friend_read, readed,
  is_sended, happen, happens, ChatEvent, connects, disconnects, sends, reads, change_message,
  remove_message, changes, removes, store_message, stores,
}

module _ (m : Messages) where
  open m use {repository, next_id}
  open repository use {Table, rows}

  -- A user who has connected again has no socket once the first connection ends.
  pub reconnected :
      (c c' : Client) (s : Chat m)
      → c.user ≡ c'.user
      → (handle_disconnect m c (handle_connection m c' (handle_connection m c s))).user_socket
          c'.user
        ≡ none
  unfolding handle_disconnect handle_connection set_socket
  reconnected c c' s h = ground (arith, h)

  -- A change of the row with a new number changes that row only.
  change_new :
      (l : List PrivateMessage) (r : PrivateMessage)
      → All (λ x. x.id ≢ r.id) l
      → map (λ x. if has_number m r.id x then record x { status = sended } else x) (l ++ r ∷ [])
        ≡ l ++ record r { status = sended } ∷ []
  unfolding has_number
  change_new [] r h = rw ((==_iff r.id r.id).1 refl) refl
  change_new (x ∷ l) r (p, h) = elim (Bool-cases (x.id == r.id)) [
    | inl e ↦ absurd (p ((==_iff x.id r.id).0 e))
    | inr e ↦ rw e (ap (◌∷◌ x) (change_new l r h))
  ]

  -- A message to a user without a socket is stored as not sent, and nothing is emitted. One to a user
  -- with a socket is stored as sent and emitted to that socket once. No other message is changed.
  pub send_private_message-rows :
      (sender to : ℕ) (content : Bytes) (s : Chat m)
      → let r = message_row m (next_id s.table) sender to content in
        (s.user_socket to ≡ none
          → (rows (send_private_message m sender to content s).table ≡ rows s.table ++ r ∷ [])
            × ((send_private_message m sender to content s).emitted ≡ s.emitted))
        × ((c : Client)
            → s.user_socket to ≡ some c
            → (rows (send_private_message m sender to content s).table
                ≡ rows s.table ++ record r { status = sended } ∷ [])
              × ((send_private_message m sender to content s).emitted
                  ≡ (c.socket, new_message r) ∷ s.emitted))
  unfolding send_private_message deliver set_sended update_one create
  send_private_message-rows sender to content s =
      let r = message_row m (next_id s.table) sender to content in
      (
        λ h. rw h (repository.saved (r ∷ []) s.table, refl),
        λ c h. rw h (
          repository.changed (has_number m r.id) (λ x. record x { status = sended })
                (create repository r s.table)
              ∙ ap (map (λ x. if has_number m r.id x then record x { status = sended } else x))
                  (repository.saved (r ∷ []) s.table)
              ∙ change_new (rows s.table) r (unfold message_row in m.fresh s.table),
          refl,
        ),
      )

  -- The message with this number has not been sent.
  abbrev pub IsUnsent : ℕ → Chat m → Type 0
  IsUnsent id s = Any (λ r. (r.id ≡ id) × (r.status ≡ unsend)) (rows s.table)

  emit_to-table : (o : Option Client) (x : Notice) (s : Chat m) → (emit_to m o x s).table ≡ s.table
  unfolding emit_to
  emit_to-table none x s = refl
  emit_to-table (some c) x s = refl

  sends-IsUnsent :
      (sender to : ℕ) (content : Bytes) (id : ℕ) (s : Chat m)
      → IsUnsent id s
      → IsUnsent id (send_private_message m sender to content s)
  sends-IsUnsent sender to content id s h =
      let (offline, online) = send_private_message-rows sender to content s in
      elim (Option-cases (s.user_socket to)) [
        | inl e ↦ subst (Any _) (sym (offline e).0) (Any-left (rows s.table) _ h)
        | inr (c, e) ↦ subst (Any _) (sym (online c e).0) (Any-left (rows s.table) _ h)
      ]

  not_delivered :
      (sender friend : ℕ) (r : PrivateMessage)
      → r.status ≡ unsend
      → is_delivered m sender friend r ≡ false
  unfolding is_delivered is_sended
  not_delivered sender friend r u = rw u (ground arith)

  reads-IsUnsent :
      (sender friend id : ℕ) (s : Chat m)
      → IsUnsent id s
      → IsUnsent id (read_private_message m sender friend s)
  unfolding read_private_message update_one
  reads-IsUnsent sender friend id s h =
      subst (λ t. Any (λ r. (r.id ≡ id) × (r.status ≡ unsend)) (rows t))
        (sym (emit_to-table (s.user_socket sender) (friend_read friend) _))
        (subst (Any _)
          (sym (
            repository.changed (is_delivered m sender friend) (λ r. record r { status = readed })
              s.table))
          (map-Any _ (rows s.table) (
            Any-weaken (rows s.table) (λ r (e, u). rw (not_delivered sender friend r u) (e, u)) h)))

  -- The event is no request to change or to remove the message with this number.
  abbrev pub Spares : ℕ → ChatEvent m → Type 0
  Spares id (changes k f) = k ≢ id
  Spares id (removes k) = k ≢ id
  Spares id _ = Unit

  other_number : (id k : ℕ) (r : PrivateMessage) → k ≢ id → r.id ≡ id → has_number m k r ≡ false
  unfolding has_number
  other_number id k r h e = ground (arith, h, e)

  changes-IsUnsent :
      (k : ℕ) (f : PrivateMessage → PrivateMessage) (id : ℕ) (s : Chat m)
      → k ≢ id
      → IsUnsent id s
      → IsUnsent id (change_message m k f s)
  unfolding change_message update_one
  changes-IsUnsent k f id s d h =
      subst (Any _) (sym (repository.changed (has_number m k) f s.table)) (
        map-Any _ (rows s.table)
          (Any-weaken (rows s.table) (λ r (e, u). rw (other_number id k r d e) (e, u)) h))

  kept_unsent :
      (k id : ℕ) (l : List PrivateMessage)
      → k ≢ id
      → Any (λ r. (r.id ≡ id) × (r.status ≡ unsend)) l
      → Any (λ r. (r.id ≡ id) × (r.status ≡ unsend)) (keep (λ r. not (has_number m k r)) l)
  kept_unsent k id [] d h = elim h [ ]
  kept_unsent k id (r ∷ l) d (here (e, u)) = rw (other_number id k r d e) (here (e, u))
  kept_unsent k id (r ∷ l) d (there h) =
      let later = kept_unsent k id l d h in
      elim (Bool-cases (has_number m k r)) [ inl e ↦ rw e later | inr e ↦ rw e (there later) ]

  removes-IsUnsent :
      (k id : ℕ) (s : Chat m) → k ≢ id → IsUnsent id s → IsUnsent id (remove_message m k s)
  unfolding remove_message
  removes-IsUnsent k id s d h =
      subst (Any _) (sym (repository.removed (has_number m k) s.table))
        (kept_unsent k id (rows s.table) d h)

  later-IsUnsent :
      (es : List (ChatEvent m)) (id : ℕ) (s : Chat m)
      → All (Spares id) es
      → IsUnsent id s
      → IsUnsent id (happen m es s)
  unfolding happen happens handle_connection handle_disconnect store_message create
  later-IsUnsent [] id s q h = h
  later-IsUnsent (connects c ∷ es) id s (q, qs) h = later-IsUnsent es id _ qs h
  later-IsUnsent (disconnects c ∷ es) id s (q, qs) h = later-IsUnsent es id _ qs h
  later-IsUnsent (sends sender to content ∷ es) id s (q, qs) h =
      later-IsUnsent es id _ qs (sends-IsUnsent sender to content id s h)
  later-IsUnsent (reads sender friend ∷ es) id s (q, qs) h =
      later-IsUnsent es id _ qs (reads-IsUnsent sender friend id s h)
  later-IsUnsent (changes k f ∷ es) id s (q, qs) h =
      later-IsUnsent es id _ qs (changes-IsUnsent k f id s q h)
  later-IsUnsent (removes k ∷ es) id s (q, qs) h =
      later-IsUnsent es id _ qs (removes-IsUnsent k id s q h)
  later-IsUnsent (stores r ∷ es) id s (q, qs) h =
      later-IsUnsent es id _ qs
        (subst (Any _) (sym (repository.saved _ s.table)) (Any-left (rows s.table) _ h))

  -- A message to a user without a socket stays in the table as not sent, whoever connects, disconnects,
  -- sends, stores or reads afterwards, if no request changes or removes this message: it never becomes read.
  pub happen-IsUnsent :
      (es : List (ChatEvent m)) (sender to : ℕ) (content : Bytes) (s : Chat m)
      → s.user_socket to ≡ none
      → All (Spares (next_id s.table)) es
      → IsUnsent (next_id s.table) (happen m es (send_private_message m sender to content s))
  unfolding message_row
  happen-IsUnsent es sender to content s h q = later-IsUnsent es (next_id s.table) _ q (
      subst (Any _) (sym ((send_private_message-rows sender to content s).0 h).0)
        (Any-right (rows s.table) _ (here (refl, refl))))
