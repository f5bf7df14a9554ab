-- ===== src/Ccqueue/Dial/AgentState.antt =====
-- src/esl/ccqueue.service.ts: the state that `dialQueueMember` leaves an agent in.
use next_call.Base.{ℕ, ◌≡◌, Option, none, some, List, [], ◌∷◌, Bytes, codes, text_eq, if◌then◌else◌}
use next_call.Session.{Reply, rejects, Answer, World, Now, Result, ok, resolves}
use next_call.Ccqueue.{originate, QueueData, Call, set_agent_state}
use next_call.Ccqueue.Dial.{DialResult}

-- The state that an agent was given last
unfoldable pub agent_state : Bytes → List Call → Option Bytes
agent_state i [] = none
agent_state i (set_agent_state a s ∷ l) =
    let before = agent_state i l in if text_eq a i then some s else before
agent_state i (c ∷ l) = agent_state i l

-- A world in which every call is resolved
abbrev pub resolving :
    (List Call → Answer)
    → (List Call → QueueData → QueueData)
    → (List Call → ℕ)
    → World QueueData Call
resolving answer meanwhile clock = record {
  reply = λ l. resolves (answer l);
  meanwhile = meanwhile;
  clock = clock;
}

-- The dial ended with a result, and the agent is in a call or idle as it says.
unfoldable pub Settled : Bytes → Result DialResult × Now QueueData Call → Type 0
Settled i x =
    (d : DialResult) × (x.0 ≡ ok d)
    × (agent_state i x.1.log ≡ some (if d.success then codes "inthecall" else codes "idle"))

-- A world in which every call is resolved but the origination
unfoldable pub refuse : Bytes → (List Call → Answer) → List Call → Reply
refuse e answer [] = resolves (answer [])
refuse e answer (originate c d x u ∷ l) = rejects e
refuse e answer (c ∷ l) = resolves (answer (c ∷ l))

abbrev pub refusing :
    Bytes
    → (List Call → Answer)
    → (List Call → QueueData → QueueData)
    → (List Call → ℕ)
    → World QueueData Call
refusing e answer meanwhile clock = record {
  reply = refuse e answer;
  meanwhile = meanwhile;
  clock = clock;
}
