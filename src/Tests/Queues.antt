-- ===== src/Tests/Queues.antt =====
-- The theorems on the queues, at concrete queues, agents and jobs.
use next_call.Base.Index.{index_of}
use next_call.Base.{
  ℕ, suc, ◌+◌, ◌≡◌, refl, ◌+◌, true, false, Option, none, some, List, [], ◌∷◌, Bytes, codes,
  text_eq, arith, leb, if◌then◌else◌,
}
use next_call.Esl.Value.{num}
use next_call.Worker.Registry.{Queue, init, add, get_queue_by_name, topic_name}
use next_call.Worker.Registry.Laws.{IsParallel, add-get_queue_by_name}
use next_call.Worker.Members.{Extension, Draw, top_down_strategy, round_robin_strategy}
use next_call.Worker.Members.Rotation.{TurnOrder}
use next_call.Worker.Members.Choice.{Chosen, top_down_strategy-Chosen, round_robin_strategy-Chosen}
use next_call.Esl.Connection.{contains}
use next_call.Worker.Job.{
  found_in, find_member, when_members, ActiveJob, World, stop_sent, Done, resolved, is_my_turn,
  wait_turn, done_in_come_call, ahead, set_and_less, same_option, search, searched, find_agent,
  has_account, finish,
}
use next_call.Worker.Job.Turns.{IsRanked, Among, first, later, turns_exclusive, turns_progress}
use next_call.Worker.Job.Ends.{Served, resolved-Served, done_in_come_call_ends}

init-IsParallel : IsParallel init
unfolding index_of
init-IsParallel = record { lengths = refl; named = λ name i h. absurd (ground arith) }

add-get_queue_by_name_example :
    (q : Queue) × ((add (num 1) (codes "900") init).1 ≡ some q)
    × (q.name ≡ topic_name (num 1) (codes "900"))
    × (get_queue_by_name (topic_name (num 1) (codes "900")) (add (num 1) (codes "900") init).0
        ≡ some q)
add-get_queue_by_name_example = add-get_queue_by_name (num 1) (codes "900") init init-IsParallel

abbrev cached_keys : List Bytes
cached_keys = codes "bullQueueCache::esl_q_queue::1::900" ∷ []

abbrev agent : Extension
agent = record {
  account_code = codes "1001";
  agent_id = 1;
  phone_login = [];
  phone_number = [];
  login_type = [];
}

-- Every number is an agent, but for the text "undefined".
abbrev check : Bytes → Option Extension
check [] = none
check (c ∷ s) = if leb c 57 then some agent else none

abbrev members : List Bytes
members = codes "1001" ∷ codes "1002" ∷ codes "1003" ∷ []

abbrev locked : List Bytes
locked = codes "1001" ∷ []

top_down_strategy-Chosen_example :
    Chosen check locked members (top_down_strategy check locked members)
top_down_strategy-Chosen_example = top_down_strategy-Chosen check locked members

round_robin_strategy-Chosen_example :
    (order : List Bytes) × TurnOrder locked members order
    × Chosen check locked order (round_robin_strategy check locked locked members)
round_robin_strategy-Chosen_example = round_robin_strategy-Chosen check locked locked members

abbrev half : ℕ → Draw
half n = record { whole = 0; exact = false }

abbrev job : ℕ → ℕ → ActiveJob
job i p = record { id = i; priority = some (suc p); timeout = some (suc 59) }

ranked : (i p : ℕ) → IsRanked (job i p)
ranked i p = record { p = p; t = 59; priority_is = refl; timeout_is = refl }

turns_exclusive_example :
    ((job 1 0).priority ≡ (job 2 0).priority) × ((job 1 0).timeout ≡ (job 2 0).timeout)
unfolding is_my_turn ahead set_and_less same_option
turns_exclusive_example =
    turns_exclusive (job 1 0) (job 2 0) (job 1 0 ∷ job 2 0 ∷ []) (ranked 1 0) (ranked 2 0) first
      (later first) refl refl

turns_progress_example :
    (k : ActiveJob) × (Among k (job 1 4 ∷ job 2 3 ∷ []))
    × IsRanked k
    × (is_my_turn k (job 1 4 ∷ job 2 3 ∷ []) ≡ true)
turns_progress_example = turns_progress (job 1 4) (job 2 3 ∷ []) (ranked 1 4, (ranked 2 3, tt))

-- The job 1, which nobody stops; in each round the jobs given are active, and one more has passed.
abbrev world : List ActiveJob → Option Extension → World
world jobs found = record {
  own = job 1 4;
  stops = λ r. [];
  active = λ r. jobs;
  now = λ r. 10 + r;
  strategy = codes "top-down";
  members = members;
  sight = λ r. record { check = λ m. found; agents = []; draw = half; locked = [] };
}

done_in_come_call_ends_example :
    (d : Done) × (done_in_come_call (world [] none) 0 8 (suc 2) ≡ some d)
unfolding is_my_turn
done_in_come_call_ends_example =
    done_in_come_call_ends (world [] none) (codes "1001") (codes "1002" ∷ codes "1003" ∷ []) 0 8 2
      refl refl (λ r h. omega arith)

abbrev served : Done
served = record { outcome = resolved (some agent); published = some agent }

resolved-Served_example :
    Served (world [] (some agent)) 0 60 (some agent) × (served.published ≡ some agent)
unfolding is_my_turn done_in_come_call codes search wait_turn stop_sent searched find_agent
    has_account finish when_members found_in find_member text_eq contains
resolved-Served_example =
    resolved-Served (world [] (some agent)) (codes "1001") (codes "1002" ∷ codes "1003" ∷ []) 0 60 3
      served (some agent) refl refl refl
