-- ===== src/Esl/Connection/Executions.antt =====
-- A message that is executed, and the event that completes it; the events subscribed to.
use next_call.Base.Assoc.{lookup-insert}
use next_call.Base.{
  ℕ, ◌≡◌, refl, Bool, true, false, ◌||◌, some, List, [], ◌∷◌, ◌++◌, ◌⊎◌, inl, inr, Bytes, arith,
  if◌then◌else◌, codes, text_eq_refl, All,
}
use next_call.Esl.Event.{Fields, Event}
use next_call.Esl.Connection.State.{Connection, Callback, req_events, send, send_recv}
use next_call.Esl.Connection.Commands.{
  Wanted, everything, words, names, contains, add_required, listening, is_all, split_spaces,
  do_exec, events,
}
use next_call.Esl.Connection.Receive.{call_user, complete_with, completed_uuid, on_execute_complete}

contains_append :
    (l m : List Bytes) (a : Bytes) → contains (l ++ m) a ≡ (contains l a || contains m a)
unfolding contains
contains_append [] m a = refl
contains_append (x ∷ l) m a = ground (arith, contains_append l m a)

contains_last : (l : List Bytes) (a : Bytes) → contains (l ++ a ∷ []) a ≡ true
contains_last l a =
    rw (contains_append l (a ∷ []) a) (unfold contains in ground (arith, text_eq_refl a))

-- If an event names the id that was drawn for a message which `_doExec` has just sent with a
-- caller's function, then the handler of completions calls that function once, with that event.
pub complete-do_exec :
    (c : Connection) (uuid cmd : Bytes) (args : Fields) (f : ℕ) (drawn : Bytes) (e : Event)
    → completed_uuid e ≡ drawn
    → (on_execute_complete uuid e (do_exec uuid cmd args (some f) drawn c)).calls
      ≡ c.calls ++ (f, e) ∷ []
unfolding on_execute_complete do_exec send
complete-do_exec c uuid cmd args f drawn e h =
    let handler : contains
          (if contains c.execute_handlers uuid
            then c.execute_handlers
            else c.execute_handlers ++ uuid ∷ [])
          uuid
        ≡ true =
      ground (arith, contains_last c.execute_handlers uuid) in
    rw (handler, h, lookup-insert, text_eq_refl drawn) (unfold complete_with call_user in refl)

add_required_keeps :
    (rs l : List Bytes) (a : Bytes) → contains l a ≡ true → contains (add_required rs l) a ≡ true
unfolding add_required
add_required_keeps [] l a h = h
add_required_keeps (r ∷ rs) l a h =
    add_required_keeps rs _ a (ground (arith, contains_append l (r ∷ []) a))

add_required-All : (rs l : List Bytes) → All (λ r. contains (add_required rs l) r ≡ true) rs
unfolding add_required
add_required-All [] l = tt
add_required-All (r ∷ rs) l =
    (add_required_keeps rs _ r (ground (arith, contains_last l r)), add_required-All rs _)

abbrev Covers : List Bytes → Type 0
Covers l = (l ≡ codes "all" ∷ []) ⊎ All (λ r. contains l r ≡ true) req_events

Covers-if : (b : Bool) (l m : List Bytes) → Covers l → Covers m → Covers (if b then l else m)
Covers-if true l m h k = h
Covers-if false l m h k = k

listening-Covers : (w : Wanted) → Covers (listening w)
unfolding listening
listening-Covers everything = inl refl
listening-Covers (words []) = inl refl
listening-Covers (words (x ∷ s)) =
    Covers-if (is_all (x ∷ s)) _ _ (inl refl)
      (inr (add_required-All req_events (split_spaces (x ∷ s))))
listening-Covers (names []) = inr (add_required-All req_events [])
listening-Covers (names (x ∷ [])) =
    Covers-if (is_all x) _ _ (inl refl) (inr (add_required-All req_events (x ∷ [])))
listening-Covers (names (x ∷ y ∷ xs)) = inr (add_required-All req_events (x ∷ y ∷ xs))

-- Whatever a caller subscribes to, the connection goes on hearing of all events, or at least of the
-- two that it needs itself.
pub events_required :
    (type : Bytes) (w : Wanted) (cb : Callback) (c : Connection)
    → ((events type w cb c).listening_events ≡ codes "all" ∷ [])
      ⊎ All (λ r. contains (events type w cb c).listening_events r ≡ true) req_events
unfolding events send_recv send
events_required type w cb c = listening-Covers w
