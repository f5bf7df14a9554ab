-- ===== src/Flow/Bridge.antt =====
-- src/esl/flow-base.service.ts: `bridgeACall` connects a call with a second leg. The listeners that it
-- registers for the second leg share the flags `answered` and `doneHangup`; each is cut where it awaits
-- a call, and the events are the resumptions.
pub mod Laws
pub mod Registrations
use next_call.Base.Assoc.{lookup}
use next_call.Flow.{
  Param, Flow, header_of, an_event, first_param, add_conn_lisenter, set_mutil_var, bridge,
  remove_conn_lisenter, cdr_b_leg_hangup, add_bleg, filter, create_b_leg_cdr, type_error, FlowCall,
}
use next_call.Session.{Answer, try_catch, ◌>>◌, modify, pure, tell, ◌>>=◌, await, get, raise}
use next_call.Base.{
  Bool, false, List, true, if◌then◌else◌, ◌+◌, Bytes, Option, ℕ, [], ◌∷◌, not, none, ◌&&◌, some,
  codes, text_eq, ◌++◌, map, suc, zero,
}

-- Who `onHangup` is told has hung up
pub data HangupBy : Type 0 where
  by_caller by_callee : HangupBy

-- The flags, the listener for the hang-up of the second leg where it awaits the record, the records
-- that have been closed, how often `onAnswer` was called, and the calls of `onHangup`.
pub record Legs : Type 0 where
  pub answered : Bool
  pub done_hangup : Bool
  pub closing : Bool
  pub closed : List (Option Bytes)
  pub answers : ℕ
  pub hangups : List HangupBy

unfoldable pub new_legs : Legs
new_legs = record {
  answered = false;
  done_hangup = false;
  closing = false;
  closed = [];
  answers = 0;
  hangups = [];
}

pub data LegEvent : Type 0 where
  caller_hangs_up : List Param → LegEvent
  b_leg_answers : List Param → LegEvent
  -- the records of the answer, if there was one, are written, and `onAnswer` is called
  answer_written : LegEvent
  b_leg_hangs_up : List Param → LegEvent
  -- the record of the hang-up is written, or cannot be
  hangup_written hangup_rejected : LegEvent

-- `onHangup` is called once.
unfoldable pub tell_hangup : HangupBy → Legs → Legs
tell_hangup by l = record l { done_hangup = true; hangups = by ∷ l.hangups }

-- It passes its event on without a look at it.
unfoldable pub on_caller_hangup : Legs → Legs
on_caller_hangup l =
    if not l.answered then (if not l.done_hangup then tell_hangup by_caller l else l) else l

unfoldable pub on_bleg_answer : Legs → Legs
on_bleg_answer l = record l { answered = true }

-- `evt.getHeader` comes first: where that is a TypeError, it is caught, and the listener is done.
unfoldable pub on_belg_hangup : List Param → Legs → Legs
on_belg_hangup ps l = elim (header_of (first_param ps) (codes "Hangup-Cause")) as (λ _. Legs) [
  | none ↦ l
  | some cause ↦ record l { closing = true; closed = cause ∷ l.closed }
]

unfoldable pub belg_hangup_goes_on : Legs → Legs
belg_hangup_goes_on l =
    if not l.closing
    then l
    else if not l.done_hangup && l.answered
    then tell_hangup by_callee (record l { closing = false })
    else record l { closing = false }

unfoldable pub step : LegEvent → Legs → Legs
step (caller_hangs_up ps) l = on_caller_hangup l
step (b_leg_answers ps) l = on_bleg_answer l
step answer_written l = if l.answered then record l { answers = l.answers + 1 } else l
step (b_leg_hangs_up ps) l = on_belg_hangup ps l
step hangup_written l = belg_hangup_goes_on l
step hangup_rejected l = record l { closing = false }

-- The legs that the listener for new legs has registered handlers for, each with flags of its own: since
-- `hasListenOutGoing` is set after two awaits only, there may be several.
pub data BridgeEvent : Type 0 where
  leg_registered : BridgeEvent
  -- all registrations hear the hang-up of the caller
  caller_gone : List Param → BridgeEvent
  -- an event of one leg, for each registration with its number
  leg_event : ℕ → LegEvent → BridgeEvent

unfoldable pub step_at : ℕ → LegEvent → List Legs → List Legs
step_at i e [] = []
step_at zero e (l ∷ ls) = step e l ∷ ls
step_at (suc i) e (l ∷ ls) = l ∷ step_at i e ls

unfoldable pub bridge_step : BridgeEvent → List Legs → List Legs
bridge_step leg_registered ls = ls ++ new_legs ∷ []
bridge_step (caller_gone ps) ls = map (step (caller_hangs_up ps)) ls
bridge_step (leg_event i e) ls = step_at i e ls

unfoldable pub bridge_steps : List BridgeEvent → List Legs → List Legs
bridge_steps [] ls = ls
bridge_steps (e ∷ es) ls = bridge_steps es (bridge_step e ls)

-- What `bridgeACall` resolves to.
pub record BridgeResult : Type 0 where
  pub success : Bool
  pub cause : Bytes
  pub b_leg_id : Bytes

abbrev pub cause_of : Answer → Bytes
cause_of a = elim a.body as (λ _. Bytes) [ none ↦ [] | some b ↦ b ]

-- Until the bridge has ended
unfoldable pub run_bridge : Bytes → Flow BridgeResult
run_bridge dial_str = do
  modify (λ d. record d { cdr_uid = 0; b_leg_id = [] })
  tell (add_conn_lisenter (codes "esl::event::CHANNEL_OUTGOING::**"))
  await (set_mutil_var ((codes "hangup_after_bridge", codes "false") ∷ []))
  b ← await (bridge dial_str)
  d ← get
  if b.success then pure tt else do await (cdr_b_leg_hangup d.cdr_uid (cause_of b)); pure tt
  d' ← get
  pure (record { success = b.success; cause = cause_of b; b_leg_id = d'.b_leg_id })

unfoldable pub bridge_a_call : Bytes → Flow BridgeResult
bridge_a_call dial_str =
    try_catch (run_bridge dial_str)
      λ e. pure (record { success = false; cause = codes "Bridge异常!"; b_leg_id = [] })

abbrev pub text_of : Option Bytes → Bytes
text_of none = []
text_of (some t) = t

-- A call that is made where a callback is given
unfoldable pub tell_if : Option FlowCall → Flow (Unit {0})
tell_if none = pure tt
tell_if (some c) = tell c

-- The listener for new legs, with the call that `onOriginate` makes, if it is given, and with
-- `hasListenOutGoing`, which it returns: it takes the first leg of this call, and remembers the last leg
-- of any call.
unfoldable pub on_out_going : Option FlowCall → Bool → List Param → Flow Bool
on_out_going on_originate has_listen (p ∷ an_event headers ∷ ps) = do
  let b_leg = text_of (lookup (codes "Unique-ID") headers)
  modify (λ d. record d { b_leg_id = b_leg })
  d ← get
  if not (
        text_eq (text_of (lookup (codes "Other-Leg-Unique-ID") headers)) d.call_id
        && not has_listen)
      then pure has_listen
      else do
        tell (remove_conn_lisenter (codes "esl::event::CHANNEL_OUTGOING::**"))
        tell_if on_originate
        tell (add_bleg b_leg)
        await (filter b_leg)
        a ← await create_b_leg_cdr
        modify (λ d. record d { cdr_uid = a.id })
        tell (add_conn_lisenter (codes "esl::event::CHANNEL_HANGUP::" ++ d.call_id))
        tell (add_conn_lisenter (codes "esl::event::CHANNEL_ANSWER::" ++ b_leg))
        tell (add_conn_lisenter (codes "esl::event::CHANNEL_HANGUP::" ++ b_leg))
        pure true
on_out_going on_originate has_listen _ = raise type_error
