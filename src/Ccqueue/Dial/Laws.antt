-- ===== src/Ccqueue/Dial/Laws.antt =====
-- src/esl/ccqueue.service.ts: what the result of `dialQueueMember` says.
use next_call.Session.Last.{
  EndsWith, EndsWith-bind, EndsWith-await, Spares, Spares-bind, Spares-await, Spares-pure, Confirms,
  Confirms-bind, Confirms-after, Confirms-other, Confirms-if, Confirms-try_catch, LastSucceeds,
}
use next_call.Base.{
  arith, refl, Option, if◌then◌else◌, ◌+◌, ◌≡◌, ◌≤◌, Bool, true, false, some, Bytes, codes, none,
}
use next_call.Session.{Answer, World, Now, ok, ◌>>=◌, count, ◌>>◌, await, tell, pure}
use next_call.Session.Bounds.{
  AtMost-weaken, AtMost, AtMost-first, AtMost-free, AtMost-await_counted, AtMost-if,
  AtMost-try_catch, AtMost-pure, Returns-try_catch, Returns-pure, free_rules,
}
use next_call.Session.Exact.{
  Makes-try_catch, Makes, Makes-silent, Makes-first, Makes-await, Makes-if, Makes-other,
}
use next_call.Ccqueue.{
  after_bridge, Leg, Queue, QueueData, Call, bridge, originate, Queued, answer_agent_statistic,
  set_agent_state, answer_call, set_agent_id,
}
use next_call.Ccqueue.Dial.{
  failed, Agent, DialResult, choose_login, new_leg, announce, ring, connect, after_connect,
  not_answered, dial_steps, dial_queue_member,
}

-- The two commands that a dial is about, and the event that the call is answered.
pub data Step : Type 0 where
  originating bridging announcing : Step

unfoldable pub is_originating : Step → Bool
is_originating originating = true
is_originating announcing = false
is_originating bridging = false

unfoldable pub is_bridging : Step → Bool
is_bridging originating = false
is_bridging announcing = false
is_bridging bridging = true

unfoldable pub is_announcing : Step → Bool
is_announcing announcing = true
is_announcing _ = false

unfoldable pub is_step : Step → Call → Bool
is_step s (originate c d a u) = is_originating s
is_step s (bridge c a b) = is_bridging s
is_step s (after_bridge a) = is_announcing s
is_step s _ = false

-- The parts of a dial that send neither.
module _ (leg : Leg) (a : Agent) (s : Step) where
  choose_login-free : AtMost (is_step s) 0 (choose_login a)
  unfolding choose_login is_step
  choose_login-free = search free_rules

  new_leg-free : (d : QueueData) → AtMost (is_step s) 0 (new_leg leg a d)
  unfolding new_leg is_step
  new_leg-free d = search free_rules

  announce-free : (u : Bytes) → AtMost (is_step s) 0 (announce a u)
  unfolding announce is_step
  announce-free u = search free_rules depth 12

  after_connect-free : (u : Bytes) (r : Answer) → AtMost (is_step s) 0 (after_connect a u r)
  unfolding after_connect is_step
  after_connect-free u r = search free_rules depth 12

  not_answered-free : (u : Bytes) (r : Answer) → AtMost (is_step s) 0 (not_answered a u r)
  unfolding not_answered is_step
  not_answered-free u r = search free_rules depth 12

ruleset part_rules = (
  free_rules, choose_login-free, new_leg-free, announce-free, after_connect-free, not_answered-free,
)

not_failed : (o : Option Bytes) → (failed o).success ≡ true → ⊥
not_failed o h = cc

module _ (leg : Leg) (a : Agent) where
  ring-AtMost : (q : Queue) (u : Bytes) → AtMost (is_step originating) 1 (ring leg q a u)
  unfolding ring is_step is_originating
  ring-AtMost q u = search (free_rules, AtMost-await_counted) depth 12

  ring-free :
      (s : Step) (q : Queue) (u : Bytes)
      → is_originating s ≡ false
      → AtMost (is_step s) 0 (ring leg q a u)
  unfolding ring is_step
  ring-free s q u h = search free_rules depth 12

  connect-free :
      (s : Step) (u : Bytes) → is_bridging s ≡ false → AtMost (is_step s) 0 (connect leg a u)
  unfolding connect is_step
  connect-free s u h = search free_rules depth 20

  connect-Makes : (u : Bytes) → Makes (is_step bridging) 1 (λ _. Unit {0}) (connect leg a u)
  unfolding connect is_step is_bridging
  connect-Makes u = search (free_rules, Makes-silent, Makes-await) depth 20

  connect-AtMost : (u : Bytes) → AtMost (is_step bridging) 1 (connect leg a u)
  unfolding connect is_step is_bridging
  connect-AtMost u = search (free_rules, AtMost-await_counted) depth 20

  bridged-AtMost : (u : Bytes) → AtMost (is_step bridging) 1 (connect leg a u >>= after_connect a u)
  bridged-AtMost u = AtMost-first 1 _ _ (connect-AtMost u) (after_connect-free leg a bridging u)

  unanswered-AtMost : (u : Bytes) (r : Answer) → AtMost (is_step bridging) 1 (not_answered a u r)
  unanswered-AtMost u r = AtMost-weaken 0 1 _ (omega arith) (not_answered-free leg a bridging u r)

  rest-AtMost :
      (q : Queue) (u : Bytes)
      → AtMost (is_step originating) 1 (
          ring leg q a u >>= λ r.
          if r.success then connect leg a u >>= after_connect a u else not_answered a u r)
  unfolding is_bridging
  rest-AtMost q u = AtMost-first 1 _ _ (ring-AtMost q u) λ r.
      AtMost-if _ _ _
        (AtMost-free 0 _ _ (connect-free originating u refl)
          (after_connect-free leg a originating u))
        (not_answered-free leg a originating u r)

  dial_steps-AtMost : AtMost (is_step originating) 1 (dial_steps leg a)
  unfolding dial_steps is_step
  dial_steps-AtMost = search (part_rules, rest-AtMost) depth 12

  answered-Makes :
      (u : Bytes)
      → Makes (is_step bridging) 1 (λ r. r.success ≡ true) (connect leg a u >>= after_connect a u)
  answered-Makes u = Makes-first 1 _ _ (connect-Makes u) (after_connect-free leg a bridging u)

  not_answered-Makes :
      (u : Bytes) (r : Answer)
      → Makes (is_step bridging) 1 (λ r. r.success ≡ true) (not_answered a u r)
  unfolding not_answered is_step
  not_answered-Makes u r = search (free_rules, Makes-silent, Makes-other, not_failed) depth 12

  dial_steps-Makes : Makes (is_step bridging) 1 (λ r. r.success ≡ true) (dial_steps leg a)
  unfolding dial_steps is_step is_originating
  dial_steps-Makes =
      search (part_rules, ring-free, Makes-silent, Makes-if, answered-Makes, not_answered-Makes)
        depth 12

  -- The records of an answer
  record_answer : Bytes → Queued DialResult
  record_answer u = do
    await (answer_agent_statistic u)
    await (answer_call a.account_code)
    await (set_agent_id a.agent_id u)
    pure (record { success = true; reason = none })

  drop_agent : Answer → Queued DialResult
  drop_agent r = do tell (set_agent_state a.agent_id (codes "idle")); pure (failed r.body)

  record_answer-Spares : (u : Bytes) → Spares (is_step bridging) (record_answer u)
  unfolding record_answer is_step
  record_answer-Spares u = Spares-bind _ _ (Spares-await _ refl) λ _.
      Spares-bind _ _ (Spares-await _ refl)
        λ _. Spares-bind _ _ (Spares-await _ refl) λ _. Spares-pure _

  drop_agent-Confirms :
      (r : Answer) → Confirms (is_step bridging) (λ r. r.success ≡ true) (drop_agent r)
  unfolding drop_agent
  drop_agent-Confirms r = Confirms-bind _ _ λ _. Confirms-other _ (not_failed r.body)

  connect-EndsWith : (u : Bytes) → EndsWith (is_step bridging) (connect leg a u)
  unfolding connect is_step is_bridging
  connect-EndsWith u = search (EndsWith-bind, EndsWith-await) depth 20

  answered-Confirms :
      (u : Bytes)
      → Confirms (is_step bridging) (λ r. r.success ≡ true) (connect leg a u >>= after_connect a u)
  unfolding after_connect record_answer drop_agent
  answered-Confirms u =
      Confirms-after (connect leg a u) (λ r. record_answer u) drop_agent (connect-EndsWith u)
        (λ r. record_answer-Spares u) drop_agent-Confirms

  not_answered-Confirms :
      (u : Bytes) (r : Answer)
      → Confirms (is_step bridging) (λ r. r.success ≡ true) (not_answered a u r)
  unfolding not_answered
  not_answered-Confirms u r = search (Confirms-bind, Confirms-other, not_failed) depth 12

  dial_steps-Confirms : Confirms (is_step bridging) (λ r. r.success ≡ true) (dial_steps leg a)
  unfolding dial_steps
  dial_steps-Confirms =
      search (Confirms-bind, Confirms-if, answered-Confirms, not_answered-Confirms) depth 12

-- A dial makes no such announcement.
pub dial_queue_member-quiet :
    (leg : Leg) (a : Agent) → AtMost (is_step announcing) 0 (dial_queue_member leg a)
unfolding dial_queue_member dial_steps is_step is_originating is_bridging
dial_queue_member-quiet leg a =
    AtMost-try_catch 0 _ _ (search (part_rules, ring-free, connect-free) depth 14)
      (λ e. AtMost-pure _)

pub dial_queue_member-AtMost :
    (leg : Leg) (a : Agent) → AtMost (is_step originating) 1 (dial_queue_member leg a)
unfolding dial_queue_member
dial_queue_member-AtMost leg a =
    AtMost-try_catch 1 _ _ (dial_steps-AtMost leg a) (λ e. AtMost-pure _)

pub dial_queue_member-bridges :
    (leg : Leg) (a : Agent) → AtMost (is_step bridging) 1 (dial_queue_member leg a)
unfolding dial_queue_member dial_steps is_step is_originating
dial_queue_member-bridges leg a =
    AtMost-try_catch 1 _ _
      (search (part_rules, ring-free, bridged-AtMost, unanswered-AtMost) depth 12)
      (λ e. AtMost-pure _)

-- Calling an agent always ends with a result, whatever calls fail, and the switch is asked to call him
-- at most once.
pub dial_queue_member-ends :
    (leg : Leg) (a : Agent) (w : World QueueData Call) (n : Now QueueData Call)
    → ((r : DialResult) × ((dial_queue_member leg a w n).0 ≡ ok r))
      × (count (is_step originating) (dial_queue_member leg a w n).1.log
          ≤ 1 + count (is_step originating) n.log)
unfolding dial_queue_member
dial_queue_member-ends leg a w n = (
  (Returns-try_catch _ 1 _ _ (dial_steps-AtMost leg a) (λ e. Returns-pure _)).value w n,
  (dial_queue_member-AtMost leg a).at w n,
)

-- A result that says success means that the command which bridges the caller was sent exactly once while
-- the agent was called, and that the switch answered it with a success.
pub dial_queue_member-success :
    (leg : Leg) (a : Agent) (r : DialResult) (w : World QueueData Call) (n : Now QueueData Call)
    → (dial_queue_member leg a w n).0 ≡ ok r
    → r.success ≡ true
    → (count (is_step bridging) (dial_queue_member leg a w n).1.log
        ≡ 1 + count (is_step bridging) n.log)
      × LastSucceeds w (is_step bridging) (dial_queue_member leg a w n).1.log
unfolding dial_queue_member
dial_queue_member-success leg a r w n h s = (
  (Makes-try_catch 1 _ (λ e. failed (some e)) (dial_steps-Makes leg a)
        (λ e. not_failed (some e))).made
      w n r h s,
  (Confirms-try_catch _ (λ e. failed (some e)) (dial_steps-Confirms leg a)
        (λ e. not_failed (some e))).confirms
      w n r h s,
)
