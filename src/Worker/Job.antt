-- ===== src/Worker/Job.antt =====
-- The job of one call in a queue: `doneInComeCall` of `QueueWorkerService`, with the turn that it
-- waits for and the agent that it looks for.
pub mod Turns
pub mod Ends
use next_call.Base.{
  ℕ, zero, suc, ◌+◌, ◌-◌, Bool, true, false, Option, none, some, List, [], ◌∷◌, Bytes, codes,
  text_eq, if◌then◌else◌, ltb, ◌==◌, ◌&&◌, ◌||◌, length,
}
use next_call.Worker.Members.{
  Extension, Draw, round_robin_strategy, top_down_strategy, random_strategy,
}

-- The id and the options of a bull job; an option may be missing.
pub record ActiveJob : Type 0 where
  pub id : ℕ
  pub priority : Option ℕ
  pub timeout : Option ℕ

-- `a && b && a < b`: both are there and not 0, and in order.
unfoldable pub set_and_less : Option ℕ → Option ℕ → Bool
set_and_less none b = false
set_and_less (some zero) b = false
set_and_less (some (suc a)) none = false
set_and_less (some (suc a)) (some b) = ltb (suc a) b

unfoldable pub same_option : Option ℕ → Option ℕ → Bool
same_option none none = true
same_option none (some b) = false
same_option (some a) none = false
same_option (some a) (some b) = a == b

-- The tests on one active job: it goes first by its priority, or by its timeout among equals.
unfoldable pub ahead : ActiveJob → ActiveJob → Bool
ahead mine other =
    if set_and_less other.priority mine.priority
    then true
    else (same_option other.priority mine.priority && set_and_less other.timeout mine.timeout)

-- `isMyTurn` after the loop over the active jobs
unfoldable pub is_my_turn : ActiveJob → List ActiveJob → Bool
is_my_turn mine [] = true
is_my_turn mine (other ∷ active) = if ahead mine other then false else is_my_turn mine active

-- The seconds that this loop waits: one for each job up to the first that goes ahead.
unfoldable pub turn_wait : ActiveJob → List ActiveJob → ℕ
turn_wait mine [] = 0
turn_wait mine (other ∷ active) =
    let rest = turn_wait mine active in if ahead mine other then 1 else 1 + rest

-- What a strategy reads in a round: the database's test of an agent and its order of the agents, the
-- random values, and the members that are locked.
pub record Sight : Type 0 where
  pub check : Bytes → Option Extension
  pub agents : List Bytes
  pub draw : ℕ → Draw
  pub locked : List Bytes

-- The switch over `queue.queueOption.strategy`
unfoldable pub find_member : Bytes → List Bytes → Sight → Option Extension
unfolding codes round_robin_strategy top_down_strategy random_strategy
find_member strategy members s =
    if text_eq strategy (codes "round-robin")
    then round_robin_strategy s.check s.agents s.locked members
    else (if text_eq strategy (codes "top-down")
        then top_down_strategy s.check s.locked members
        else random_strategy s.check s.draw s.locked members)

-- The job, and what it sees in each of its rounds: the job ids of the stop events that have come, the
-- jobs that are active, the clock, and what the strategy of the queue reads of its members.
pub record World : Type 0 where
  pub own : ActiveJob
  pub stops : ℕ → List ℕ
  pub active : ℕ → List ActiveJob
  pub now : ℕ → ℕ
  pub strategy : Bytes
  pub members : List Bytes
  pub sight : ℕ → Sight

-- `eslSendStop`: the listener hears one event only, and compares its job.
unfoldable pub stop_sent : World → ℕ → Bool
stop_sent world round = elim (world.stops round) [ [] ↦ false | id ∷ later ↦ id == world.own.id ]

unfoldable pub found_in : World → ℕ → Option Extension
found_in world round = find_member world.strategy world.members (world.sight round)

-- How the search ends: the next round, if the timeout has passed, and the agent.
pub record End : Type 0 where
  pub round : ℕ
  pub timed_out : Bool
  pub found : Option Extension

-- `data && data.accountCode`
unfoldable pub has_account : Option Extension → Bool
has_account none = false
has_account (some e) = if length e.account_code == 0 then false else true

module _ (world : World) where
  -- The first loop: the round after it. It has `fuel` rounds at most.
  unfoldable pub wait_turn : ℕ → ℕ → Option ℕ
  wait_turn zero round = none
  wait_turn (suc fuel) round =
      let rest = wait_turn fuel (suc round) in
      if stop_sent world round
      then some round
      else (if is_my_turn world.own (world.active round) then some (suc round) else rest)

  -- The second loop; `now - startTime` is no less than 0, since the clock does not go back.
  unfoldable pub find_agent : ℕ → ℕ → ℕ → ℕ → Option End
  find_agent start timeout zero round = none
  find_agent start timeout (suc fuel) round =
      let rest = find_agent start timeout fuel (suc round) in
      if stop_sent world round
      then some (record { round = round; timed_out = false; found = none })
      else (if ltb timeout (world.now round - start)
          then some (record { round = suc round; timed_out = true; found = none })
          else (if has_account (found_in world round)
              then some
                  (record { round = suc round; timed_out = false; found = found_in world round })
              else rest))

-- The promise of the job: rejected with the two flags, or resolved with the data.
pub data Outcome : Type 0 where
  rejected : Bool → Bool → Outcome
  resolved : Option Extension → Outcome

-- The outcome, and the agent that was locked and published on the way.
pub record Done : Type 0 where
  pub outcome : Outcome
  pub published : Option Extension

-- The last test, in a round where the stop may have come
unfoldable pub finish : World → End → Done
finish world end =
    let stop = stop_sent world end.round in
    record {
      outcome = if (stop || end.timed_out) then rejected stop end.timed_out else resolved end.found;
      published = end.found;
    }

unfoldable pub searched : World → Option End → Option Done
searched world none = none
searched world (some end) = some (finish world end)

unfoldable pub search : World → ℕ → ℕ → ℕ → Option ℕ → Option Done
search world start timeout fuel none = none
search world start timeout fuel (some round) =
    searched world (find_agent world start timeout fuel round)

-- `Array.isArray(members) && members.length > 0`
unfoldable pub when_members {ℓ} : {A : Type ℓ} → List Bytes → A → A → A
when_members [] none_there there = none_there
when_members (m ∷ ms) none_there there = there

-- The whole job, with `fuel` rounds for each loop. A queue without members has nothing to do.
unfoldable pub done_in_come_call : World → ℕ → ℕ → ℕ → Option Done
done_in_come_call world start timeout fuel =
    when_members world.members
      (some (finish world (record { round = 0; timed_out = false; found = none })))
      (search world start timeout fuel (wait_turn world fuel 0))
