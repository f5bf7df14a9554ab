-- ===== src/Ivr.antt =====
-- src/esl/ivr.service.ts: the interpreter of voice menus. This file has its data and the calls that it
-- makes; Action runs the steps of a menu, Compare is the step that compares a channel variable, and
-- Steps are the short ones, Keys are those that play a file and read keys, and Dial is the one that
-- dials a number.
pub mod Action
pub mod Compare
pub mod Steps
pub mod Keys
pub mod Dial
pub mod Schedule
pub mod WebApi
pub mod Survey
pub mod Menu
use next_call.Base.{
  ℕ, Bool, true, false, Option, none, some, List, [], ◌∷◌, Bytes, ◌==◌, if◌then◌else◌,
}
use next_call.Session.{Program}

-- What the interpreter reads and writes of a call's run data, and `mainIvrNumber` of the service.
pub record IvrData : Type 0 where
  pub ivr_current_deep : ℕ
  pub ivr_max_deep : ℕ
  pub main_ivr_number : Bytes
  -- the flag of the survey's step, which the listener for the hang-up sets
  pub is_hangup : Bool

-- A record of a menu: its `actionType`, and its `args` as the database has them, which are read by
-- the step.
pub record ActionDoc : Type 0 where
  pub action_type : ℕ
  pub args : Bytes

-- `TDoneIvrActionResult`; arguments that are not set are empty.
pub record NextStep : Type 0 where
  pub next_type : Bytes
  pub next_args : Bytes

pub data Call : Type 0 where
  get_ivr_action : Bytes → ℕ → Call
  create_process : Bytes → Call
  last_app : Bytes → ℕ → Call
  get_channel_var : Bytes → Bytes → Call
  set_var : Bytes → Bytes → Bytes → Call
  wait : ℕ → Call
  playback : Bytes → Call
  play_and_get_digits : Bytes → Bytes → Bool → Call
  get_ivr_input : Bytes → Bytes → Call
  is_black_number : Bytes → Call
  http_request : Bytes → Bytes → List (Bytes × Option Bytes) → Call
  add_conn_lisenter : Bytes → Call
  remove_conn_lisenter : Bytes → Call
  update_satis_value : Bytes → Bytes → Call
  set_satisfaction : Bytes → Call
  find_satisfaction : Call
  hangup_call : Bytes → Call
  uuid_kill : Bytes → Call

abbrev pub Ivr : Type 0 → Type 0
Ivr A = Program IvrData Call A

-- `s.split(',')[0]`
unfoldable pub first_piece : Bytes → Bytes
first_piece [] = []
first_piece (c ∷ r) = let p = first_piece r in if c == 44 then [] else c ∷ p

-- what follows the first comma
unfoldable pub after_comma : Bytes → Option Bytes
after_comma [] = none
after_comma (c ∷ r) = let p = after_comma r in if c == 44 then some r else p

-- `s.split(',')[1]`
unfoldable pub second_piece : Bytes → Option Bytes
second_piece s = elim (after_comma s) [ none ↦ none | some r ↦ some (first_piece r) ]
