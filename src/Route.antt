-- ===== src/Route.antt =====
-- src/esl/free-switch-call-flow.service.ts: the routing rule of a call, `getRoute` and `route`. The
-- rules are the ones that the database returns, in its order.
pub mod Rules
pub mod Effects
use next_call.Base.{
  ℕ, ◌&&◌, not, ◌==◌, Bool, true, false, Option, none, some, List, [], ◌∷◌, ◌++◌, Bytes, codes,
  text_eq, if◌then◌else◌, ltb, length, drop, text_or,
}

-- The fields of a routing rule that the search reads.
pub record RouterDoc : Type 0 where
  pub caller_group : Bytes
  pub router_line : Bytes
  pub caller_id : Bytes
  pub caller_len : ℕ
  pub called_num : Bytes
  pub called_len : ℕ
  pub replace_caller_id : Bytes
  pub replace_called_trim : ℕ
  pub replace_called_append : Bytes
  pub process_mode : Bytes
  pub processed_fined : Bytes

-- `result`; `null` and `undefined` are both `none`.
pub record RouteResult : Type 0 where
  pub process_mode : Bytes
  pub process_defined : Option Bytes
  pub router_line : Bytes
  pub match : Bool
  pub match_fail_error : Bytes

-- The numbers of the call, and the result so far.
pub record Routing : Type 0 where
  pub caller : Option Bytes
  pub called : Option Bytes
  pub result : RouteResult

abbrev pub no_result : RouteResult
no_result = record {
  process_mode = [];
  process_defined = none;
  router_line = [];
  match = false;
  match_fail_error = [];
}

-- `if (n)` of a text that may be undefined
unfoldable pub present : Option Bytes → Bool
present none = false
present (some []) = false
present (some (c ∷ s)) = true

abbrev pub or_empty_text : Option Bytes → Bytes
or_empty_text none = []
or_empty_text (some s) = s

-- `pattern && number && !re.test(number)`
unfoldable pub start_differs : Bytes → Option Bytes → (Bytes → Bool) → Bool
unfolding present
start_differs pattern number test =
    present (some pattern) && present number && not (test (or_empty_text number))

-- `len > 0 && number && number.length !== len`
unfoldable pub length_differs : ℕ → Option Bytes → Bool
unfolding present
length_differs len number =
    ltb 0 len && present number && not (length (or_empty_text number) == len)

unfoldable pub drops_match : Bool → Bool → Bool
drops_match differs match = if differs then false else match

-- The called number against a rule, the match so far given
unfoldable pub match_called : RouterDoc → Option Bytes → (Bytes → Bool) → Bool → Bool
unfolding drops_match start_differs length_differs
match_called doc called re_called match =
    drops_match (length_differs doc.called_len called)
      (drops_match (start_differs doc.called_num called re_called) match)

unfoldable pub match_caller : RouterDoc → Option Bytes → (Bytes → Bool) → Bool → Bool
unfolding drops_match start_differs length_differs
match_caller doc caller re_caller match =
    drops_match (length_differs doc.caller_len caller)
      (drops_match (start_differs doc.caller_id caller re_caller) match)

-- The kind of a rule: the three known lines, or another text.
pub data Line : Type 0 where
  incoming : Line
  outgoing : Line
  local : Line
  unknown : Line

unfoldable pub line_of : Bytes → Line
unfolding codes
line_of l =
    if text_eq l (codes "呼入")
    then incoming
    else (if text_eq l (codes "呼出")
        then outgoing
        else (if text_eq l (codes "本地") then local else unknown))

-- `result.match` after the tests of one rule
unfoldable pub match_line :
    Line → RouterDoc → Option Bytes → Option Bytes → (Bytes → Bool) → (Bytes → Bool) → Bool
unfolding match_called match_caller
match_line incoming doc caller called re_caller re_called =
    match_called doc called re_called (match_caller doc caller re_caller true)
match_line outgoing doc caller called re_caller re_called = match_called doc called re_called true
match_line local doc caller called re_caller re_called = match_called doc called re_called true
match_line unknown doc caller called re_caller re_called = false

unfoldable pub error_of : Line → RouterDoc → Bytes → Bytes
unfolding codes
error_of unknown doc before = codes "未知的routerLine" ++ doc.router_line
error_of _ doc before = before

-- The numbers after a match
unfoldable pub replaced_caller : RouterDoc → Option Bytes → Option Bytes
replaced_caller doc caller =
    if length doc.replace_caller_id == 0 then caller else some doc.replace_caller_id

unfoldable pub trimmed : ℕ → Option Bytes → Option Bytes
trimmed n none = none
trimmed n (some s) = some (drop n s)

-- An undefined number is the text "undefined" behind a prefix.
unfoldable pub prefixed : Bytes → Option Bytes → Option Bytes
unfolding codes
prefixed [] called = called
prefixed (c ∷ s) none = some ((c ∷ s) ++ codes "undefined")
prefixed (c ∷ s) (some called) = some ((c ∷ s) ++ called)

unfoldable pub replaced_called : RouterDoc → Option Bytes → Option Bytes
unfolding trimmed prefixed
replaced_called doc called =
    prefixed doc.replace_called_append (trimmed doc.replace_called_trim called)

unfoldable pub is_dial_mode : Bytes → Bool
unfolding codes
is_dial_mode mode =
    if text_eq mode (codes "dialout")
    then true
    else (if text_eq mode (codes "dialpbxlocal")
        then true
        else text_eq mode (codes "dialoutNewRock"))

-- `processmode` of a rule that matches, and `processdefined`, on the line of the call
unfoldable pub mode_of : RouterDoc → Bytes
unfolding codes is_dial_mode
mode_of doc = if is_dial_mode doc.process_mode then doc.process_mode else codes "diallocal"

unfoldable pub local_defined : Line → RouterDoc → Option Bytes → Option Bytes
unfolding codes
local_defined local doc called = called
local_defined incoming doc called = some (text_or doc.processed_fined (codes "200"))
local_defined _ doc called = some doc.processed_fined

unfoldable pub defined_of : Bytes → RouterDoc → Option Bytes → Option Bytes
unfolding is_dial_mode local_defined line_of
defined_of router_line doc called =
    if is_dial_mode doc.process_mode
    then some doc.processed_fined
    else local_defined (line_of router_line) doc called

-- The rule that matches ends the search.
unfoldable pub matched : Bytes → RouterDoc → Routing → Routing
unfolding replaced_caller replaced_called mode_of defined_of
matched router_line doc s =
    let called = replaced_called doc s.called in
    record {
      caller = replaced_caller doc s.caller;
      called = called;
      result = record {
        process_mode = mode_of doc;
        process_defined = defined_of router_line doc called;
        router_line = doc.router_line;
        match = true;
        match_fail_error = s.result.match_fail_error;
      };
    }

unfoldable pub passed_over : RouterDoc → Routing → Routing
unfolding error_of line_of
passed_over doc s = record s {
  result = record s.result {
    router_line = doc.router_line;
    match = false;
    match_fail_error = error_of (line_of doc.router_line) doc s.result.match_fail_error;
  };
}

-- `new RegExp('^' + pattern)`, a parameter: `none` is a SyntaxError.
module _ (reg_exp : Bytes → Option (Bytes → Bool)) where
  -- The loop over the rules, on the line of the call; `none` is an error.
  unfoldable pub search_rules : Bytes → List RouterDoc → Routing → Option Routing
  unfolding match_line line_of matched passed_over codes
  search_rules router_line [] s = some s
  search_rules router_line (doc ∷ docs) s =
      if text_eq doc.caller_group (codes "all")
      then elim (reg_exp doc.caller_id) [
        | none ↦ none
        | some re_caller ↦ elim (reg_exp doc.called_num) [
          | none ↦ none
          | some re_called ↦
              if match_line (line_of doc.router_line) doc s.caller s.called re_caller re_called
              then some (matched router_line doc s)
              else search_rules router_line docs (passed_over doc s)
        ]
      ]
      else search_rules router_line docs s

-- What follows the loop
unfoldable pub by_default : Routing → Routing
unfolding codes
by_default s =
    if s.result.match
    then s
    else (if text_eq (or_empty_text s.called) (codes "100")
        then record s {
          result = record s.result {
            process_mode = codes "diallocal";
            process_defined = some (codes "200");
          };
        }
        else record s { result = record s.result { match_fail_error = codes "未找到适合的路由!" } })

-- `getRoute`
unfoldable pub get_route :
    (Bytes → Option (Bytes → Bool))
    → Bytes
    → List RouterDoc
    → Option Bytes
    → Option Bytes
    → Option Routing
unfolding search_rules by_default
get_route reg_exp router_line docs caller called =
    elim (search_rules reg_exp router_line docs
      (record { caller = caller; called = called; result = no_result })) [
        | none ↦ none
        | some s ↦ some (by_default s)
      ]

-- What `route` does: it dials for one mode only, and kills the call on an error.
pub data Action : Type 0 where
  dial_local : Option Bytes → Action
  nothing : Action
  kill : Action

unfoldable pub route : Option Routing → Action
unfolding codes
route none = kill
route (some s) =
    if text_eq s.result.process_mode (codes "diallocal")
    then dial_local s.result.process_defined
    else nothing
