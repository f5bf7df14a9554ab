-- ===== src/Ccqueue/Agents/Backed.antt =====
-- src/esl/ccqueue.service.ts: a caller is announced as answered only when he was bridged.
use next_call.Base.{
  not, ℕ, ◌+◌, ◌≤◌, ◌≡◌, ◌≢◌, refl, true, Option, [], ◌∷◌, Bytes, arith, if◌then◌else◌, Bool-cases,
  inl, inr,
}
use next_call.Session.{World, Now, Result, ok, err, pending, ◌>>=◌, count, continue}
use next_call.Session.Pairs.{
  Backs, Backs-free, Backs-if, Backs-bind, Backs-get, Backs-modify, Backs-pure, Backs-try_catch,
  pair_rules,
}
use next_call.Ccqueue.{Leg, QueueData, Call}
use next_call.Ccqueue.Jobs.{start_find_member_job}
use next_call.Ccqueue.Dial.{Agent, DialResult, dial_queue_member}
use next_call.Ccqueue.Dial.Laws.{
  originating, bridging, announcing, is_step, is_announcing, dial_queue_member-quiet,
  dial_queue_member-bridges, dial_queue_member-success,
}
use next_call.Ccqueue.Agents.{
  Found, bridged, call_agent, found_agent, try_kill_call, done_search, on_find_queue_member,
}
use next_call.Ccqueue.Agents.Laws.{
  start_find_member_job-free, try_kill_call-free, bridged-free, bridged-AtMost,
  on_find_queue_member-AtMost, call_agent-originates, call_agent-announces,
}

start_find_member_job-Backs :
    (leg : Leg) → Backs (is_step announcing) (is_step bridging) (start_find_member_job leg)
start_find_member_job-Backs leg =
    Backs-free 0 _ (start_find_member_job-free leg announcing)
      (start_find_member_job-free leg bridging)

try_kill_call-Backs :
    (leg : Leg) → Backs (is_step announcing) (is_step bridging) (try_kill_call leg)
try_kill_call-Backs leg =
    Backs-free 0 _ (try_kill_call-free leg announcing) (try_kill_call-free leg bridging)

-- Each announcement stands behind a dial of success.
after_dial :
    (leg : Leg) (d : QueueData) (a : Agent) (w : World QueueData Call) (n : Now QueueData Call)
    (r : Result DialResult) (n' : Now QueueData Call)
    → (r ≢ pending)
    → ((x : DialResult)
        → r ≡ ok x
        → x.success ≡ true
        → count (is_step bridging) n'.log ≡ 1 + count (is_step bridging) n.log)
    → count (is_step announcing) n'.log ≤ count (is_step announcing) n.log
    → count (is_step bridging) n.log ≤ count (is_step bridging) n'.log
    → count
          (is_step announcing)
          (continue r
            (λ x. if not x.success then start_find_member_job leg else bridged d a)
            w
            n').1.log
        + count (is_step bridging) n.log
      ≤ count
          (is_step bridging)
          (continue r
            (λ x. if not x.success then start_find_member_job leg else bridged d a)
            w
            n').1.log
        + count (is_step announcing) n.log
unfolding is_announcing
after_dial leg d a w n (err e) n' p s u v = omega (arith, u, v)
after_dial leg d a w n pending n' p s u v = absurd (p refl)
after_dial leg d a w n (ok x) n' p s u v = elim (Bool-cases x.success) [
  | inl y ↦ rw y (
      omega (
        arith,
        s x refl y,
        u,
        (bridged-AtMost d a).at w n',
        (bridged-free leg bridging d a refl).grows w n',
      ))
  | inr y ↦ rw y (omega (arith, (start_find_member_job-Backs leg).backs w n', u, v))
]

dial-Backs :
    (leg : Leg) (d : QueueData) (a : Agent)
    → Backs (is_step announcing) (is_step bridging) (
        dial_queue_member leg a >>= λ r.
        if not r.success then start_find_member_job leg else bridged d a)
unfolding ◌>>=◌
dial-Backs leg d a = record {
  backs = λ w n.
      after_dial leg d a w n (dial_queue_member leg a w n).0 (dial_queue_member leg a w n).1
        ((dial_queue_member-quiet leg a).ends w n)
        (λ x e y. (dial_queue_member-success leg a x w n e y).0)
        (omega (arith, (dial_queue_member-quiet leg a).at w n))
        ((dial_queue_member-bridges leg a).grows w n);
}

call_agent-Backs :
    (leg : Leg) (d : QueueData) (a : Agent)
    → Backs (is_step announcing) (is_step bridging) (call_agent leg d a)
unfolding call_agent
call_agent-Backs leg d a = Backs-bind _ _ (Backs-modify _) λ _. dial-Backs leg d a

found_agent-Backs :
    (leg : Leg) (d : QueueData) (a : Agent)
    → Backs (is_step announcing) (is_step bridging) (found_agent leg d a)
unfolding found_agent
found_agent-Backs leg d a =
    Backs-if _ _ _ (Backs-pure tt)
      (elim a.account_code
        as (λ c.
          Backs (is_step announcing) (is_step bridging)
            (elim c [ [] ↦ try_kill_call leg | c ∷ r ↦ call_agent leg d a ])) [
              | [] ↦ try_kill_call-Backs leg
              | c ∷ r ↦ call_agent-Backs leg d a
            ])

done_search-Backs :
    (parse : Bytes → Option Found) (leg : Leg) (d : QueueData) (text : Bytes)
    → Backs (is_step announcing) (is_step bridging) (done_search parse leg d text)
unfolding done_search
done_search-Backs parse leg d text = search (pair_rules, found_agent-Backs) depth 10

on_find_queue_member-Backs :
    (parse : Bytes → Option Found) (leg : Leg) (job : ℕ) (text : Bytes)
    → Backs (is_step announcing) (is_step bridging) (on_find_queue_member parse leg job text)
unfolding on_find_queue_member
on_find_queue_member-Backs parse leg job text = Backs-bind _ _ Backs-get λ d.
    Backs-try_catch _ _ (Backs-if _ _ _ (done_search-Backs parse leg d text) (Backs-pure tt))
      (λ e. Backs-if _ _ _ (try_kill_call-Backs leg) (Backs-pure tt))

-- One message about a finished search leads to at most one call of an agent and at most one
-- announcement that the caller is answered, which is made no more often than the caller is bridged;
-- and its handler always ends.
pub on_find_queue_member-once :
    (parse : Bytes → Option Found) (leg : Leg) (job : ℕ) (text : Bytes) (w : World QueueData Call)
    (n : Now QueueData Call)
    → (count (is_step originating) (on_find_queue_member parse leg job text w n).1.log
        ≤ 1 + count (is_step originating) n.log)
      × (count (is_step announcing) (on_find_queue_member parse leg job text w n).1.log
          ≤ 1 + count (is_step announcing) n.log)
      × (count (is_step announcing) (on_find_queue_member parse leg job text w n).1.log
            + count (is_step bridging) n.log
          ≤ count (is_step bridging) (on_find_queue_member parse leg job text w n).1.log
            + count (is_step announcing) n.log)
      × ((on_find_queue_member parse leg job text w n).0 ≢ pending)
on_find_queue_member-once parse leg job text w n =
    let calls =
      on_find_queue_member-AtMost originating parse leg job text (call_agent-originates leg) in
    let events =
      on_find_queue_member-AtMost announcing parse leg job text (call_agent-announces leg) in
    (
      calls.at w n,
      events.at w n,
      (on_find_queue_member-Backs parse leg job text).backs w n,
      calls.ends w n,
    )
