-- ===== src/Ccqueue/Agents/Laws.antt =====
-- src/esl/ccqueue.service.ts: what an agent who was found leads to.
use next_call.Base.{ℕ, ◌≡◌, refl, [], ◌∷◌, false, Option, arith, Bytes}
use next_call.Session.Bounds.{
  AtMost-weaken, AtMost, AtMost-first, AtMost-free, AtMost-tell_counted, AtMost-if,
  AtMost-try_catch, AtMost-pure, AtMost-modify, AtMost-get, free_rules,
}
use next_call.Ccqueue.{Leg, QueueData}
use next_call.Ccqueue.Jobs.{start_find_member_job}
use next_call.Ccqueue.Dial.{Agent}
use next_call.Ccqueue.Dial.Laws.{
  Step, originating, announcing, is_step, is_announcing, dial_queue_member-quiet,
  dial_queue_member-AtMost,
}
use next_call.Ccqueue.Agents.{
  Found, bridged, call_agent, found_agent, try_kill_call, done_search, on_find_queue_member,
}

module _ (leg : Leg) (s : Step) where
  pub start_find_member_job-free : AtMost (is_step s) 0 (start_find_member_job leg)
  unfolding start_find_member_job is_step
  start_find_member_job-free =
      AtMost-try_catch 0 _ _ (search free_rules depth 12) (λ e. AtMost-pure _)

  pub try_kill_call-free : AtMost (is_step s) 0 (try_kill_call leg)
  unfolding try_kill_call is_step
  try_kill_call-free = search free_rules

  pub bridged-free :
      (d : QueueData) (a : Agent) → is_announcing s ≡ false → AtMost (is_step s) 0 (bridged d a)
  unfolding bridged is_step
  bridged-free d a h = search free_rules depth 10

pub bridged-AtMost : (d : QueueData) (a : Agent) → AtMost (is_step announcing) 1 (bridged d a)
unfolding bridged is_step is_announcing
bridged-AtMost d a = search (free_rules, AtMost-tell_counted) depth 10

module _ (leg : Leg) (d : QueueData) (a : Agent) where
  pub call_agent-announces : AtMost (is_step announcing) 1 (call_agent leg d a)
  unfolding call_agent
  call_agent-announces = AtMost-free 1 _ _ (AtMost-modify _) λ _.
      AtMost-free 1 _ _ (dial_queue_member-quiet leg a) λ r.
        AtMost-if _ _ _
          (AtMost-weaken 0 1 _ (omega arith) (start_find_member_job-free leg announcing))
          (bridged-AtMost d a)

  pub call_agent-originates : AtMost (is_step originating) 1 (call_agent leg d a)
  unfolding call_agent is_announcing
  call_agent-originates = AtMost-free 1 _ _ (AtMost-modify _) λ _.
      AtMost-first 1 _ _ (dial_queue_member-AtMost leg a) λ r.
        AtMost-if _ _ _ (start_find_member_job-free leg originating)
          (bridged-free leg originating d a refl)

  found_agent-AtMost :
      (s : Step)
      → AtMost (is_step s) 1 (call_agent leg d a)
      → AtMost (is_step s) 1 (found_agent leg d a)
  unfolding found_agent
  found_agent-AtMost s h =
      AtMost-if _ _ _ (AtMost-pure tt)
        (elim a.account_code
          as (λ c.
            AtMost (is_step s) 1 (elim c [ [] ↦ try_kill_call leg | c ∷ r ↦ call_agent leg d a ])) [
              | [] ↦ AtMost-weaken 0 1 _ (omega arith) (try_kill_call-free leg s)
              | c ∷ r ↦ h
            ])

done_search-AtMost :
    (s : Step) (parse : Bytes → Option Found) (leg : Leg) (d : QueueData) (text : Bytes)
    → ((a : Agent) → AtMost (is_step s) 1 (call_agent leg d a))
    → AtMost (is_step s) 1 (done_search parse leg d text)
unfolding done_search
done_search-AtMost s parse leg d text h =
    search (free_rules, λ (a : Agent). found_agent-AtMost leg d a s (h a)) depth 10

pub on_find_queue_member-AtMost :
    (s : Step) (parse : Bytes → Option Found) (leg : Leg) (job : ℕ) (text : Bytes)
    → ((d : QueueData) (a : Agent) → AtMost (is_step s) 1 (call_agent leg d a))
    → AtMost (is_step s) 1 (on_find_queue_member parse leg job text)
unfolding on_find_queue_member
on_find_queue_member-AtMost s parse leg job text h = AtMost-free 1 _ _ AtMost-get λ d.
    AtMost-try_catch 1 _ _
      (AtMost-if _ _ _ (done_search-AtMost s parse leg d text (h d)) (AtMost-pure tt))
      (λ e. AtMost-if _ _ _ (try_kill_call-free leg s) (AtMost-pure tt))
