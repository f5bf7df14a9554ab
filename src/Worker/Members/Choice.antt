-- ===== src/Worker/Members/Choice.antt =====
-- Which agent a strategy chooses.
use next_call.Worker.Members.Rotation.{TurnOrder, rotated-TurnOrder}
use next_call.Base.{
  ◌≡◌, refl, true, false, Option, none, some, List, [], ◌∷◌, Bytes, Bool-cases, Option-cases, inl,
  inr, ◌⊎◌,
}
use next_call.Esl.Connection.{contains}
use next_call.Worker.Members.{
  Extension, cycle_find, defined, unlocked, top_down_strategy, rotated, first_agent,
  round_robin_strategy,
}

-- The first member that the lookup finds, among those that are not locked: every member before it
-- is locked or is not found.
pub data IsFirst (check : Bytes → Option Extension) (locked : List Bytes) (e : Extension)
    : List Bytes → Type 0 where
  here :
      {m : Bytes} {ms : List Bytes}
      → contains locked m ≡ false
      → check m ≡ some e
      → IsFirst check locked e (m ∷ ms)
  skip :
      {m : Bytes} {ms : List Bytes}
      → (contains locked m ≡ true) ⊎ (check m ≡ none)
      → IsFirst check locked e ms
      → IsFirst check locked e (m ∷ ms)

-- No member is both unlocked and found.
pub data NoneFree (check : Bytes → Option Extension) (locked : List Bytes)
    : List Bytes → Type 0 where
  done : NoneFree check locked []
  more :
      {m : Bytes} {ms : List Bytes}
      → (contains locked m ≡ true) ⊎ (check m ≡ none)
      → NoneFree check locked ms
      → NoneFree check locked (m ∷ ms)

abbrev pub Chosen : (Bytes → Option Extension) → List Bytes → List Bytes → Option Extension → Type 0
Chosen check locked ms none = NoneFree check locked ms
Chosen check locked ms (some e) = IsFirst check locked e ms

module _ (check : Bytes → Option Extension) (locked : List Bytes) where
  choose : List Bytes → Option Extension
  choose ms = cycle_find check (defined (unlocked locked ms))

  choose-locked :
      (m : Bytes) (ms : List Bytes) → contains locked m ≡ true → choose (m ∷ ms) ≡ choose ms
  unfolding choose unlocked
  choose-locked m ms h = rw h

  choose_missing :
      (m : Bytes) (ms : List Bytes)
      → contains locked m ≡ false
      → check m ≡ none
      → choose (m ∷ ms) ≡ choose ms
  unfolding choose unlocked defined cycle_find
  choose_missing m ms h k = rw h (rw (k, cycle_find))

  choose_found :
      (m : Bytes) (ms : List Bytes) (e : Extension)
      → contains locked m ≡ false
      → check m ≡ some e
      → choose (m ∷ ms) ≡ some e
  unfolding choose unlocked defined cycle_find
  choose_found m ms e h k = rw h (rw (k, cycle_find))

  skip_one :
      (m : Bytes) (ms : List Bytes) (o : Option Extension)
      → (contains locked m ≡ true) ⊎ (check m ≡ none)
      → Chosen check locked ms o
      → Chosen check locked (m ∷ ms) o
  skip_one m ms none w h = more w h
  skip_one m ms (some e) w h = skip w h

  choose_nil : choose [] ≡ none
  unfolding choose unlocked defined cycle_find
  choose_nil = refl

  choose-Chosen : (ms : List Bytes) → Chosen check locked ms (choose ms)
  choose-Chosen [] = rw choose_nil done
  choose-Chosen (m ∷ ms) = elim (Bool-cases (contains locked m)) [
    | inl l ↦ rw (choose-locked m ms l) (skip_one m ms _ (inl l) (choose-Chosen ms))
    | inr u ↦ elim (Option-cases (check m)) [
      | inl n ↦ rw (choose_missing m ms u n) (skip_one m ms _ (inr n) (choose-Chosen ms))
      | inr (e, s) ↦ rw (choose_found m ms e u s) (here u s)
    ]
  ]

-- The top-down strategy chooses the extension of the first member, in the order of the queue, who
-- is not locked and for whom the lookup finds one, and nobody only if there is no such member.
pub top_down_strategy-Chosen :
    (check : Bytes → Option Extension) (locked members : List Bytes)
    → Chosen check locked members (top_down_strategy check locked members)
unfolding top_down_strategy choose
top_down_strategy-Chosen check locked members = choose-Chosen check locked members

-- The round-robin strategy chooses the extension of the first such member in the order of their turns,
-- which begins behind the member called last, and nobody only if there is no such member.
pub round_robin_strategy-Chosen :
    (check : Bytes → Option Extension) (finds locked members : List Bytes)
    → (order : List Bytes) × TurnOrder finds members order
      × Chosen check locked order (round_robin_strategy check finds locked members)
unfolding round_robin_strategy choose
round_robin_strategy-Chosen check finds locked members =
    let order = rotated (first_agent finds) members in
    (order, rotated-TurnOrder finds members, choose-Chosen check locked order)
