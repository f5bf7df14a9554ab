-- ===== src/Worker/Members.antt =====
-- The strategies that choose an agent: `randomStrategy`, `topDownStrategy`, `roundRobinStrategy`,
-- with `cycleFind`, `shuffle`, `getLockedMembers` and the key of `lockMember`.
pub mod Choice
pub mod Shuffle
pub mod Rotation
use next_call.Base.{
  ℕ, zero, suc, ◌+◌, ◌-◌, Bool, true, false, not, Option, none, some, List, [], ◌∷◌, ◌++◌, Bytes,
  codes, text_eq, if◌then◌else◌, length, take, drop, keep, get_elem?,
}
use next_call.Esl.Value.Decimal.{show_nat}
use next_call.Esl.Connection.{contains}
use next_call.Base.Index.{index_of}
use next_call.Worker.Registry.{split_colons}

-- The fields of an extension that the search uses; `checkAgentCanDail` is a parameter, which reads
-- the database.
pub record Extension : Type 0 where
  pub account_code : Bytes
  pub agent_id : ℕ
  pub phone_login : Bytes
  pub phone_number : Bytes
  pub login_type : Bytes

last_piece : List Bytes → Bytes
last_piece [] = []
last_piece (p ∷ []) = p
last_piece (p ∷ q ∷ ps) = last_piece (q ∷ ps)

unfoldable pub lock_key : ℕ → Bytes → Bytes
lock_key tenant member =
    codes "esl::queue::member::locked::" ++ (show_nat tenant ++ (b':' ∷ b':' ∷ member))

unfoldable pub key_member : Bytes → Bytes
unfolding last_piece split_colons
key_member key = last_piece (split_colons key)

-- `getLockedMembers`, on the keys that redis returns
unfoldable pub get_locked_members : List Bytes → List Bytes
unfolding key_member
get_locked_members [] = []
get_locked_members (key ∷ keys) = key_member key ∷ get_locked_members keys

unfoldable pub unlocked : List Bytes → List Bytes → List Bytes
unlocked locked members = keep (λ x. not (contains locked x)) members

-- The text `${members[i]}` of an element, which may be undefined.
abbrev pub member_text : Option Bytes → Bytes
member_text none = codes "undefined"
member_text (some m) = m

module _ (check_agent_can_dail : Bytes → Option Extension) where
  -- `cycleFind`; its loop ends at the first extension found.
  unfoldable pub cycle_find : List (Option Bytes) → Option Extension
  cycle_find [] = none
  cycle_find (m ∷ ms) = elim (check_agent_can_dail (member_text m)) [
    | some e ↦ some e
    | none ↦ cycle_find ms
  ]

unfoldable pub defined : List Bytes → List (Option Bytes)
defined [] = []
defined (m ∷ ms) = some m ∷ defined ms

unfoldable pub top_down_strategy :
    (Bytes → Option Extension) → List Bytes → List Bytes → Option Extension
unfolding cycle_find defined unlocked
top_down_strategy check locked members = cycle_find check (defined (unlocked locked members))

-- The members after the agent that was called last, then the others: the agents of the queue come
-- sorted by their last call, and the number of the first one is given.
unfoldable pub rotated : Option Bytes → List Bytes → List Bytes
unfolding index_of
rotated none members = members
rotated (some agent) members = elim (index_of members agent) [
  | none ↦ members
  | some i ↦ drop (i + 1) members ++ take (i + 1) members
]

-- `finds[0].agentNumber`, where it is there and not empty
unfoldable pub first_agent : List Bytes → Option Bytes
first_agent [] = none
first_agent ([] ∷ rest) = none
first_agent ((c ∷ s) ∷ rest) = some (c ∷ s)

unfoldable pub round_robin_strategy :
    (Bytes → Option Extension) → List Bytes → List Bytes → List Bytes → Option Extension
unfolding cycle_find defined unlocked rotated first_agent
round_robin_strategy check finds locked members =
    cycle_find check (defined (unlocked locked (rotated (first_agent finds) members)))

-- A value of `Math.random() * n`: its whole part, and if it has no other.
pub record Draw : Type 0 where
  pub whole : ℕ
  pub exact : Bool

-- `copyArray[randomIndex]`: an array has no element at an index that is no whole number.
unfoldable pub element_at : Draw → List Bytes → Option Bytes
element_at d xs = if d.exact then get_elem? xs d.whole else none

-- `copyArray.splice(randomIndex, 1)`, which drops the fraction
unfoldable pub splice : ℕ → List Bytes → List Bytes
splice i [] = []
splice zero (x ∷ xs) = xs
splice (suc i) (x ∷ xs) = x ∷ splice i xs

-- `shuffle`: `draw n` is the value that is drawn while `n` elements are left. Each round removes
-- one element, so the rounds are the elements.
shuffle_loop : (ℕ → Draw) → ℕ → List Bytes → List (Option Bytes)
unfolding element_at splice
shuffle_loop draw zero copy = []
shuffle_loop draw (suc n) copy =
    element_at (draw (suc n)) copy ∷ shuffle_loop draw n (splice (draw (suc n)).whole copy)

unfoldable pub shuffle : (ℕ → Draw) → List Bytes → List (Option Bytes)
unfolding shuffle_loop
shuffle draw original = shuffle_loop draw (length original) original

unfoldable pub random_strategy :
    (Bytes → Option Extension) → (ℕ → Draw) → List Bytes → List Bytes → Option Extension
unfolding cycle_find shuffle unlocked
random_strategy check draw locked members =
    cycle_find check (shuffle draw (unlocked locked members))
