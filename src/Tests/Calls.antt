-- ===== src/Tests/Calls.antt =====
-- The theorems on the runtime data and the routes of calls, at concrete data.
use next_call.Base.Assoc.{lookup}
use next_call.Base.{
  ◌≡◌, refl, Bool, true, none, some, List, [], ◌∷◌, Bytes, codes, text_eq, starts_with, keep,
  Option, if◌then◌else◌,
}
use next_call.Esl.Value.{text}
use next_call.Esl.Event.{Event, get_header, new_event}
use next_call.Runtime.State.{RunData, new_runtime, Object, number}
use next_call.Runtime.Calls.{init_data, get_run_data}
use next_call.Runtime.Laws.{init_data-numbers}
use next_call.Route.{RouterDoc, Routing, get_route}
use next_call.Route.Rules.{get_route-Answer, Answer, accepts}

abbrev waiting : Object
waiting = (codes "agentId", number 3) ∷ (codes "priority", number 2) ∷ []

abbrev ringing : Event
ringing =
    new_event
      ((codes "Caller-Destination-Number", text (codes "100"))
        ∷ (codes "variable_originate_call", text (codes "true"))
        ∷ (codes "variable_originate_callee", text (codes "1001"))
        ∷ [])
      none

init_data-numbers_example :
    (run : RunData) × (get_run_data
        (codes "c1")
        (init_data 0 true none (codes "c1") (some ringing) new_runtime)
      ≡ some run)
    × (run.caller ≡ get_header (codes "Caller-Caller-ID-Number") ringing)
    × (run.callee ≡ get_header (codes "Caller-Destination-Number") ringing)
    × (run.call_id ≡ get_header (codes "Unique-ID") ringing)
    × (get_run_data (codes "c2") (init_data 0 true none (codes "c1") (some ringing) new_runtime)
        ≡ get_run_data (codes "c2") new_runtime)
unfolding codes text_eq lookup get_run_data
init_data-numbers_example =
    init_data-numbers 0 none (codes "c1") (codes "c2") ringing new_runtime refl refl refl

-- Patterns that are plain digits.
abbrev digits_pattern : Bytes → Bytes → Bool
digits_pattern p s = starts_with s p

abbrev rule : Bytes → Bytes → RouterDoc
rule line start = record {
  caller_group = codes "all";
  router_line = line;
  caller_id = [];
  caller_len = 0;
  called_num = start;
  called_len = 4;
  replace_caller_id = [];
  replace_called_trim = 1;
  replace_called_append = codes "8";
  process_mode = codes "dialpbxlocal";
  processed_fined = codes "pbx";
}

abbrev rules : List RouterDoc
rules = rule (codes "呼出") (codes "1") ∷ rule (codes "本地") (codes "2") ∷ []

-- A bracket that is not closed is refused.
abbrev compiled : Bytes → Option (Bytes → Bool)
compiled p = if text_eq p (codes "(") then none else some (digits_pattern p)

get_route-Answer_example :
    (t : Routing) × (get_route compiled (codes "本地") rules none (some (codes "2001")) ≡ some t)
    × Answer
        (codes "本地")
        none
        (some (codes "2001"))
        (keep (accepts digits_pattern none (some (codes "2001"))) rules)
        t
unfolding codes text_eq
get_route-Answer_example =
    get_route-Answer compiled digits_pattern (codes "本地") rules none (some (codes "2001"))
      ((λ a. (refl, refl)), ((λ a. (refl, refl)), tt))
