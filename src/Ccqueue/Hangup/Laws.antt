-- ===== src/Ccqueue/Hangup/Laws.antt =====
-- src/esl/ccqueue.service.ts: a caller who hangs up while he waits is announced, whatever fails.
use next_call.Base.{suc, ◌≡◌, Bool, true, false, arith}
use next_call.Session.{World, Now, together, try_catch, ◌>>=◌, count}
use next_call.Ccqueue.{Leg, QueueData, Call, caller_hangup_when_wait}
use next_call.Ccqueue.Jobs.{stop_find_agent_job}
use next_call.Ccqueue.Hangup.{caller_hangup_on_waiting, end_job, hangup_tasks}

unfoldable pub is_hangup_event : Call → Bool
is_hangup_event caller_hangup_when_wait = true
is_hangup_event _ = false

-- The event that a caller hung up while he waited is sent exactly once, whatever calls are rejected.
pub caller_hangup_on_waiting-events :
    (leg : Leg) (w : World QueueData Call) (n : Now QueueData Call)
    → count is_hangup_event (caller_hangup_on_waiting leg w n).1.log
      ≡ suc (count is_hangup_event n.log)
unfolding caller_hangup_on_waiting end_job hangup_tasks stop_find_agent_job together try_catch ◌>>=◌
    is_hangup_event count
caller_hangup_on_waiting-events leg w n = ground arith
