-- ===== src/Pbx/Replies.antt =====
-- src/esl/free-switch-pbx.service.ts: how each command reads the text that the switch answers.
pub mod Laws
use next_call.Base.{
  ℕ, ◌*◌, ◌==◌, ltb, leb, ◌&&◌, ◌||◌, Bool, true, false, Option, none, some, List, [], ◌∷◌, Bytes,
  codes, starts_with, if◌then◌else◌,
}

-- `\s` of a regular expression, for the characters of ASCII
unfoldable pub is_space : ℕ → Bool
is_space c = c == 32 || (leb 9 c && leb c 13)

unfoldable pub take_word : Bytes → Bytes
take_word [] = []
take_word (c ∷ r) = let w = take_word r in if is_space c then [] else c ∷ w

unfoldable pub skip_spaces : Bytes → Bytes
skip_spaces [] = []
skip_spaces (c ∷ r) = let t = skip_spaces r in if is_space c then t else c ∷ r

-- `body.split(/\s+/)[1]`: nothing where the text has no space
unfoldable pub second_word : Bytes → Option Bytes
second_word [] = none
second_word (c ∷ r) =
    let t = second_word r in if is_space c then some (take_word (skip_spaces r)) else t

-- `/^\+OK/.test(body)`
unfoldable pub is_ok : Bytes → Bool
is_ok b = starts_with b (codes "+OK")

-- What the promise of a command resolves to: a success with the word after `+OK`, or a failure with the
-- word after `-ERR`; or it is rejected.
pub data Outcome : Type 0 where
  succeeds : Option Bytes → Outcome
  fails : Option Bytes → Outcome
  rejected : Option Bytes → Outcome

-- `originate` and `uuidBridge`
unfoldable pub resolved_outcome : Bytes → Outcome
resolved_outcome b = if is_ok b then succeeds (second_word b) else fails (second_word b)

-- `uuidBroadcast`, `uuidSetvar` and `uuidSetMutilVar`
unfoldable pub checked_outcome : Bytes → Outcome
checked_outcome b = if is_ok b then succeeds none else rejected (second_word b)

-- `uuidBreak`, which the switch answers with an error also where it worked
unfoldable pub break_outcome : Bytes → Outcome
break_outcome b = succeeds (some b)

-- `uuidKill`; `none` is a connection whose socket is closed, which sends nothing.
unfoldable pub kill_outcome : Option Bytes → Outcome
kill_outcome none = succeeds (some (codes "Socket is null!"))
kill_outcome (some b) = if is_ok b then succeeds (some b) else rejected (some b)

-- `uuidTryKill`
unfoldable pub try_kill_outcome : Option Bytes → Outcome
try_kill_outcome b = succeeds none

-- `createUuid`
unfoldable pub create_uuid_outcome : Bytes → Outcome
create_uuid_outcome [] = rejected (some [])
create_uuid_outcome (c ∷ r) = succeeds (some (c ∷ r))

-- `wait`: a time of nothing is three seconds.
unfoldable pub wait_time : ℕ → ℕ
wait_time ms = if leb ms 0 then 3 * 1000 else ms
