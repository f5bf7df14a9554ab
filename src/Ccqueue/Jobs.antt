-- ===== src/Ccqueue/Jobs.antt =====
-- src/esl/ccqueue.service.ts: the search for an agent is a job of a Bull queue. `startFindMemberJob`
-- adds it, `onJobFail` hears that it failed, `stopFindAgentJob` asks the worker to stop it, and
-- `enterEmptyQueue` ends the call where no agent is signed in.
pub mod Laws
use next_call.Base.{
  ℕ, ◌+◌, ◌-◌, ◌*◌, ◌==◌, Bool, false, not, ◌&&◌, Option, none, some, Bytes, codes, if◌then◌else◌,
  ltb,
}
use next_call.Session.{pure, raise, get, modify, await, try_catch, ◌>>=◌, ◌>>◌}
use next_call.Ccqueue.{Leg, Queued, add_job, stop_find_agent, playback, wait, kill, queue_of}
use next_call.Ccqueue.Tips.{dial_queue_time_out, play_queue_music}

-- A call that did not find an agent moves up by one, but not past 1, the first priority of Bull.
unfoldable pub new_priority : ℕ → ℕ
new_priority p = if ltb 1 p then p - 1 else 1

-- The priority of the job's options, `newPriority < 1 ? 1 : newPriority`
unfoldable pub job_priority : ℕ → ℕ
job_priority p = if ltb p 1 then 1 else p

unfoldable pub start_find_member_job : Leg → Queued (Unit {0})
start_find_member_job leg =
    try_catch
      (do
        d ← get
        q ← queue_of d
        let p = new_priority d.priority
        modify (λ x. record x { priority = p; find_queue_member_exec = false })
        if not d.bull_queue then pure tt else do
          job ← await (
              add_job ((q.max_wait_time + 1) * 1000) (job_priority p)
                ((q.max_wait_time + 1) * 3 * 1000))
          modify (λ x. record x {
            is_done_timeout_tip = false;
            is_done_busy_tip = false;
            queue_job = some job.id;
          })
          modify (λ x. record x { add_in_queue_job_times = d.add_in_queue_job_times + 1 }))
      (λ _. pure tt)

-- The error of a failed job: `undefined`, or whether it says `eslSendStop` and `maxTimeOut`.
pub record JobError : Type 0 where
  pub esl_send_stop : Bool
  pub max_time_out : Bool

-- `jobId === queueJob?.id`
unfoldable pub is_job : Option ℕ → ℕ → Bool
is_job none i = false
is_job (some j) i = i == j

-- `parse` reads the text of the error, `JSON.parse`, which fails with `none`.
module _ (parse : Bytes → Option (Option JobError)) where
  unfoldable pub timed_out_error : Option JobError → Bool
  timed_out_error none = false
  timed_out_error (some e) = not e.esl_send_stop && e.max_time_out

  unfoldable pub search_again : ℕ → Leg → Queued (Unit {0})
  search_again fuel leg = do
    wait_on ← dial_queue_time_out fuel leg
    if not wait_on then pure tt else do play_queue_music leg; start_find_member_job leg

  unfoldable pub on_job_fail : ℕ → Leg → ℕ → Bytes → Queued (Unit {0})
  on_job_fail fuel leg job e =
      try_catch
        (do
          d ← get
          if not (is_job d.queue_job job) then pure tt else elim (parse e) [
            | none ↦ raise (codes "SyntaxError")
            | some x ↦ if timed_out_error x then search_again fuel leg else pure tt
          ])
        (λ _. pure tt)

unfoldable pub stop_find_agent_job : Leg → ℕ → Queued (Unit {0})
stop_find_agent_job leg job = do await (stop_find_agent job); pure tt

-- `uuidKill(callId, 'NORMAL_CLEARING')`: the connection is left out, so the call's id stands for it.
unfoldable pub enter_empty_queue : Leg → Queued (Unit {0})
enter_empty_queue leg = do
  await (playback leg.conn_id leg.call_id (codes "ivr/8000/ivr-thank_you_for_calling.wav"))
  await (wait 500)
  await (kill leg.call_id (codes "NORMAL_CLEARING"))
  pure tt
