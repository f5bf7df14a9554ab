-- ===== src/Ccqueue/Agents.antt =====
-- src/esl/ccqueue.service.ts: `onFindQueueMember` and `onFindQueueMemberByRedisPub`, which hear that
-- the search for an agent is done.
pub mod Laws
pub mod Backed
use next_call.Base.{ℕ, not, Bool, true, [], ◌∷◌, Option, none, Bytes, codes, if◌then◌else◌}
use next_call.Session.{pure, get, modify, await, tell, try_catch, ◌>>=◌, ◌>>◌, or_raise}
use next_call.Ccqueue.{Leg, QueueData, Queued, try_kill, create_cdr, after_bridge, queue_of}
use next_call.Ccqueue.Jobs.{start_find_member_job, is_job}
use next_call.Ccqueue.Dial.{Agent, dial_queue_member}

-- What the worker publishes.
pub record Found : Type 0 where
  pub success : Bool
  pub agent : Option Agent

-- `data.success ? data.data : null`
unfoldable pub agent_info : Found → Option Agent
agent_info f = if f.success then f.agent else none

-- The bridge stands. `d` is the data as it was before the agent was called.
unfoldable pub bridged : QueueData → Agent → Queued (Unit {0})
bridged d a = do
  modify (λ x. record x { queue_answered = true })
  if not a.phone_login
      then pure tt
      else do await (create_cdr d.origination_uuid a.phone_number); pure tt
  tell (after_bridge a.account_code)

unfoldable pub call_agent : Leg → QueueData → Agent → Queued (Unit {0})
call_agent leg d a = do
  modify (λ x. record x { agent_id = a.agent_id })
  r ← dial_queue_member leg a
  if not r.success then start_find_member_job leg else bridged d a

unfoldable pub try_kill_call : Leg → Queued (Unit {0})
try_kill_call leg = do await (try_kill leg.conn_id leg.call_id); pure tt

-- An agent with no account is an error, which ends the call. A caller who has hung up is not called.
unfoldable pub found_agent : Leg → QueueData → Agent → Queued (Unit {0})
found_agent leg d a =
    if d.is_caller_hangup
    then pure tt
    else elim a.account_code [ [] ↦ try_kill_call leg | c ∷ r ↦ call_agent leg d a ]

-- `parse` reads the published text, `JSON.parse`, which fails with `none`.
module _ (parse : Bytes → Option Found) where
  unfoldable pub done_search : Leg → QueueData → Bytes → Queued (Unit {0})
  done_search leg d text = do
    f ← or_raise (codes "SyntaxError") (parse text)
    queue_of d
    modify (λ x. record x { find_queue_member_exec = true })
    a ← or_raise (codes "TypeError: agentInfo is null") (agent_info f)
    found_agent leg d a

  unfoldable pub on_find_queue_member : Leg → ℕ → Bytes → Queued (Unit {0})
  on_find_queue_member leg job text = do
    d ← get
    try_catch (if is_job d.queue_job job then done_search leg d text else pure tt)
        (λ _. if d.is_caller_hangup then try_kill_call leg else pure tt)

  -- `queueJob?.id` is both sides of the test, so it holds also where there is no job.
  unfoldable pub on_find_queue_member_by_redis_pub : Leg → Bytes → Queued (Unit {0})
  on_find_queue_member_by_redis_pub leg text = do
    d ← get
    try_catch (done_search leg d text)
        (λ _. if d.is_caller_hangup then try_kill_call leg else pure tt)
