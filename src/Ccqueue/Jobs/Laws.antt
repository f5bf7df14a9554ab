-- ===== src/Ccqueue/Jobs/Laws.antt =====
-- src/esl/ccqueue.service.ts: the jobs that search for an agent.
use next_call.Base.{
  ℕ, zero, suc, ◌+◌, ◌-◌, ◌*◌, ◌≡◌, ◌<◌, Bool, false, ◌||◌, arith, if◌then◌else◌, ltb,
}
use next_call.Session.{World, Now, ok, try_catch, ◌>>=◌, count}
use next_call.Session.Bounds.{AtMost, AtMost-try_catch, AtMost-pure, free_rules}
use next_call.Ccqueue.{Leg, QueueData, Call, add_job}
use next_call.Ccqueue.Jobs.{start_find_member_job, new_priority, job_priority}

-- A job that Bull would not take as it is meant: a priority below 1, or a job that Bull ends before the
-- worker's own time is over.
unfoldable pub is_bad_job : Call → Bool
is_bad_job (add_job t p j) = ltb p 1 || ltb j t
is_bad_job _ = false

job_priority-positive : (p : ℕ) → ltb (job_priority p) 1 ≡ false
unfolding job_priority
job_priority-positive p = ground arith

good_job :
    (t p : ℕ) → is_bad_job (add_job ((t + 1) * 1000) (job_priority p) ((t + 1) * 3 * 1000)) ≡ false
unfolding is_bad_job job_priority
good_job t p = ground arith

start_find_member_job-AtMost : (leg : Leg) → AtMost is_bad_job 0 (start_find_member_job leg)
unfolding start_find_member_job is_bad_job
start_find_member_job-AtMost leg =
    AtMost-try_catch 0 _ _ (search (free_rules, good_job) depth 12) (λ e. AtMost-pure tt)

start_find_member_job-ok :
    (leg : Leg) (w : World QueueData Call) (n : Now QueueData Call)
    → (start_find_member_job leg w n).0 ≡ ok tt
unfolding start_find_member_job try_catch ◌>>=◌
start_find_member_job-ok leg w n = ground arith

-- Searching for an agent again never rejects, and each job that it adds has a priority of at least 1
-- and a limit in Bull that is not below the limit that the worker keeps itself.
pub start_find_member_job-jobs :
    (leg : Leg) (w : World QueueData Call) (n : Now QueueData Call)
    → ((start_find_member_job leg w n).0 ≡ ok tt)
      × (count is_bad_job (start_find_member_job leg w n).1.log ≡ count is_bad_job n.log)
start_find_member_job-jobs leg w n =
    let jobs = start_find_member_job-AtMost leg in
    (start_find_member_job-ok leg w n, omega (arith, jobs.at w n, jobs.grows w n))

-- The priority after `n` searches, each of which failed
unfoldable pub priority_after : ℕ → ℕ → ℕ
priority_after zero p = p
priority_after (suc n) p = new_priority (priority_after n p)

-- A call that waits moves up by one place with each search, until it has the first place, 1, and it stays there.
pub priority_after-eq : (n p : ℕ) → 0 < p → priority_after n p ≡ (if ltb n p then p - n else 1)
unfolding priority_after new_priority
priority_after-eq zero p h = ground arith
priority_after-eq (suc n) p h = ground (arith, priority_after-eq n p h)
