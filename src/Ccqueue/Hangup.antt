-- ===== src/Ccqueue/Hangup.antt =====
-- src/esl/ccqueue.service.ts: the caller hangs up, `onCallerHangupHandle`, while the call waits,
-- `callerHangupOnWaiting`, or after an agent answered, `callerHangupAnswered`.
pub mod Laws
use next_call.Base.{
  List, [], ◌∷◌, ◌++◌, Bool, true, false, Option, none, some, Bytes, codes, text_eq, if◌then◌else◌,
}
use next_call.Session.{pure, raise, get, modify, await, tell, together, try_catch, ◌>>=◌, ◌>>◌}
use next_call.Ccqueue.{
  Leg, QueueData, Queued, Call, job_state, remove_job, wait, set_agent_state,
  hangup_agent_statistic, hangup_queue_statistic, try_kill, set_statis_hangup,
  caller_hangup_when_wait, queue_of,
}
use next_call.Ccqueue.Jobs.{stop_find_agent_job}

-- `jobState === 'active'`
unfoldable pub is_active : Option Bytes → Bool
is_active none = false
is_active (some b) = text_eq b (codes "active")

-- The job of the search is stopped by its worker, or taken out of the queue.
unfoldable pub end_job : Leg → QueueData → Queued (Unit {0})
end_job leg d = elim d.queue_job [
  | none ↦ pure tt
  | some job ↦ do
    s ← await (job_state job)
    if is_active s.body then stop_find_agent_job leg job else do await (remove_job job); pure tt
]

-- The tasks of `callerHangupOnWaiting`, which run together. `uuidTryKill` is given no connection, so
-- the agent's channel stands in its place.
unfoldable pub hangup_tasks : QueueData → List Call
hangup_tasks d =
    hangup_queue_statistic (codes "ring")
    ∷ hangup_agent_statistic d.origination_uuid (codes "ring")
    ∷ set_agent_state [] (codes "idle")
    ∷ elim d.origination_uuid [
      | none ↦ []
      | some u ↦ try_kill u (codes "Caller Is Hangup Yet!" ++ u) ∷ []
    ]

unfoldable pub caller_hangup_on_waiting : Leg → Queued (Unit {0})
caller_hangup_on_waiting leg = do
  d ← get
  try_catch
      (do
        queue_of d
        end_job leg d
        await (wait 3000)
        together (hangup_tasks d)
        tell caller_hangup_when_wait)
      (λ e. do tell caller_hangup_when_wait; raise e)

unfoldable pub on_caller_hangup_handle : Leg → Queued (Unit {0})
on_caller_hangup_handle leg =
    try_catch
      (do
        d ← get
        queue_of d
        modify (λ x. record x { is_caller_hangup = true })
        if d.queue_answered then pure tt else caller_hangup_on_waiting leg)
      (λ _. pure tt)

unfoldable pub caller_hangup_answered : Leg → Queued (Unit {0})
caller_hangup_answered leg = do
  d ← get
  queue_of d
  if d.queue_done then pure tt else do
    modify (λ x. record x { queue_done = true })
    tell set_statis_hangup
    await (hangup_agent_statistic d.origination_uuid (codes "user"))
    await (hangup_queue_statistic (codes "user"))
    pure tt
