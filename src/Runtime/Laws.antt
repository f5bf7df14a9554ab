-- ===== src/Runtime/Laws.antt =====
-- What the runtime data gives back of what was stored.
use next_call.Base.Assoc.{
  lookup, insert, assign, HasOwnKeys, first_of, lookup-insert, lookup-assign, lookup_nil,
}
use next_call.Base.Index.{
  index_of_found_append, index_of_missing_append, index_of, index_of_bound, index_of_new,
  get_elem?-append_lt, get_elem?-last,
}
use next_call.Base.{
  ℕ, ◌+◌, ◌≡◌, refl, sym, ap, ◌∙◌, subst, true, false, Option, none, some, List, [], ◌∷◌, ◌++◌,
  Bytes, codes, text_eq, text_eq_refl, text_eq_iff, if◌then◌else◌, length, length-append, arith,
  Option-cases, Bool-cases, inl, inr,
}
use next_call.Esl.Event.{Event, get_header}
use next_call.Runtime.State.{ChannelData, channel_data_of, RunData, Runtime, Object}
use next_call.Runtime.Calls.{
  add_bleg, get_leg_id_by_number, set_queue_data, get_queue_data, or_no_fields, set_statis_data,
  get_statis_data, is_some, init_data, run_data_for, channel_data_from, run_data_from, set_caller,
  set_called, get_run_data,
}

-- The two arrays of the called legs are as long as one another.
abbrev pub IsPaired : Runtime → Type 0
IsPaired r = length r.bleg_ids ≡ length r.bleg_users

add_bleg-IsPaired : (uuid user : Bytes) (r : Runtime) → IsPaired r → IsPaired (add_bleg uuid user r)
unfolding add_bleg
add_bleg-IsPaired uuid user r h =
    length-append r.bleg_ids (uuid ∷ [])
    ∙ (ap (λ n. n + 1) h ∙ sym (length-append r.bleg_users (user ∷ [])))

-- If the two arrays of legs are as long as one another, then after a leg is added a number finds
-- what it found before if it was there, else the new leg if it is its number, else the empty text.
pub get_leg_id_by_number-add_bleg :
    (uuid user number : Bytes) (r : Runtime)
    → IsPaired r
    → get_leg_id_by_number number (add_bleg uuid user r) ≡ (
        if is_some (index_of r.bleg_users number)
        then get_leg_id_by_number number r
        else (if text_eq user number then some uuid else some []))
unfolding get_leg_id_by_number add_bleg is_some
get_leg_id_by_number-add_bleg uuid user number r h =
    elim (Option-cases (index_of r.bleg_users number)) [
      | inl n ↦ elim (Bool-cases (text_eq user number)) [
        | inl e ↦
            let same : user ≡ number = (text_eq_iff user number).0 e in
            let new : index_of (r.bleg_users ++ user ∷ []) number ≡ some (length r.bleg_users) =
              subst (λ x. index_of (r.bleg_users ++ x ∷ []) number ≡ some (length r.bleg_users))
                (sym same) (index_of_new r.bleg_users number n) in
            rw (n, e, new, get_leg_id_by_number, ← h) (get_elem?-last r.bleg_ids uuid)
        | inr e ↦
            rw (n, e, index_of_missing_append r.bleg_users user number n e, get_leg_id_by_number)
              refl
      ]
      | inr (i, n) ↦
          rw (n, index_of_found_append r.bleg_users (user ∷ []) number i n, get_leg_id_by_number)
            (get_elem?-append_lt r.bleg_ids (uuid ∷ []) i
              (omega (arith, h, index_of_bound r.bleg_users number i n)))
    ]

first_of-none {ℓ} : {A : Type ℓ} (o : Option A) → first_of o none ≡ o
first_of-none none = refl
first_of-none (some a) = refl

-- If no key stands twice in the data given or in the data there, then each field of a call's queue
-- data is the one given, or else the one there before; the data of another call stays.
pub get_queue_data-set_queue_data :
    (conn_id other field : Bytes) (given : Object) (r : Runtime)
    → HasOwnKeys given
    → HasOwnKeys (or_no_fields (get_queue_data conn_id r))
    → (lookup field (or_no_fields (get_queue_data conn_id (set_queue_data conn_id given r)))
        ≡ first_of (lookup field given) (lookup field (or_no_fields (get_queue_data conn_id r))))
      × (text_eq conn_id other ≡ false
          → get_queue_data other (set_queue_data conn_id given r) ≡ get_queue_data other r)
unfolding get_queue_data set_queue_data
get_queue_data-set_queue_data conn_id other field given r h k = (
  rw (lookup-insert, text_eq_refl conn_id)
      (lookup-assign given (assign [] (or_no_fields (get_queue_data conn_id r))) field h
        ∙ ap (first_of (lookup field given)) (
            lookup-assign (or_no_fields (get_queue_data conn_id r)) [] field k
            ∙ rw lookup_nil (first_of-none _))),
  λ d. rw (lookup-insert, d) refl,
)

-- If no key stands twice in the statistics given and none is the call's id, storing them changes
-- nothing of what is read for that call.
pub get_statis_data-set_statis_data :
    (conn_id : Bytes) (given : Object) (r : Runtime)
    → HasOwnKeys given
    → lookup conn_id given ≡ none
    → get_statis_data conn_id (set_statis_data given r) ≡ get_statis_data conn_id r
unfolding get_statis_data set_statis_data
get_statis_data-set_statis_data conn_id given r h k =
    lookup-assign given r.statis_data conn_id h ∙ rw k refl

is_some_insert {ℓ} :
    {A : Type ℓ} (k j : Bytes) (v : A) (m : List (Bytes × A))
    → text_eq k j ≡ false
    → lookup j m ≡ none
    → lookup j (insert k v m) ≡ none
is_some_insert k j v m h n = lookup-insert k j v m ∙ rw h n

set_called_nobody :
    (channel : ChannelData) (runs : List (Bytes × RunData))
    → lookup (codes "isOriginateCall") runs ≡ none
    → set_called channel runs ≡ channel.destination_number
unfolding set_called is_some
set_called_nobody channel runs h = rw h refl

-- On an inbound connection, under an id other than `isOriginateCall` and with no run data under
-- that name, `initData` stores the caller, the called number and the id that the event's headers
-- give, the called number from `Caller-Destination-Number`; the run data under another id stays.
pub init_data-numbers :
    (conn : ℕ) (info : Option Event) (conn_id other : Bytes) (e : Event) (r : Runtime)
    → text_eq conn_id (codes "isOriginateCall") ≡ false
    → get_run_data (codes "isOriginateCall") r ≡ none
    → text_eq conn_id other ≡ false
    → (run : RunData) × (get_run_data conn_id (init_data conn true info conn_id (some e) r)
        ≡ some run)
      × (run.caller ≡ get_header (codes "Caller-Caller-ID-Number") e)
      × (run.callee ≡ get_header (codes "Caller-Destination-Number") e)
      × (run.call_id ≡ get_header (codes "Unique-ID") e)
      × (get_run_data other (init_data conn true info conn_id (some e) r) ≡ get_run_data other r)
unfolding get_run_data init_data run_data_for set_caller channel_data_from channel_data_of
    run_data_from
init_data-numbers conn info conn_id other e r h n d =
    let nobody =
      is_some_insert conn_id (codes "isOriginateCall") (run_data_from (some e)) r.run_data h n in
    (
      run_data_for (channel_data_from (some e)) (insert conn_id (run_data_from (some e)) r.run_data)
          (run_data_from (some e)),
      rw (lookup-insert, text_eq_refl conn_id) refl,
      refl,
      set_called_nobody (channel_data_from (some e)) _ nobody,
      refl,
      rw (lookup-insert, d, lookup-insert, d) refl,
    )
