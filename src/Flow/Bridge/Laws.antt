-- ===== src/Flow/Bridge/Laws.antt =====
-- src/esl/flow-base.service.ts: what the second leg of a call reports.
use next_call.Flow.{header_of, first_param, fired}
use next_call.Base.{
  length, ◌≤◌, if◌then◌else◌, ◌≡◌, false, Elem, arith, here, there, Bool, Bytes, [], List, Option,
  ◌∷◌, ℕ, codes, refl, none, some, true, ◌+◌,
}
use next_call.Flow.Bridge.{
  Legs, LegEvent, step, by_callee, by_caller, on_caller_hangup, on_bleg_answer, tell_hangup,
  caller_hangs_up, b_leg_answers, b_leg_hangs_up, answer_written, hangup_written, hangup_rejected,
  belg_hangup_goes_on, on_belg_hangup, new_legs, HangupBy,
}

-- `onHangup` is called at most once, and never for the second leg before it has answered.
pub record IsReported (l : Legs) : Type 0 where
  pub at_most_once : length l.hangups ≤ (if l.done_hangup then 1 else 0)
  pub after_answer : l.answered ≡ false → Elem by_callee l.hangups → ⊥

by_caller_callee : by_caller ≡ by_callee → ⊥
by_caller_callee h = ground arith

abbrev legs : Bool → Bool → Bool → List (Option Bytes) → ℕ → List HangupBy → Legs
legs a d c closed answers hangups = record {
  answered = a;
  done_hangup = d;
  closing = c;
  closed = closed;
  answers = answers;
  hangups = hangups;
}

caller-IsReported :
    (a d c : Bool) (closed : List (Option Bytes)) (n : ℕ) (hs : List HangupBy)
    → IsReported (legs a d c closed n hs)
    → IsReported (on_caller_hangup (legs a d c closed n hs))
unfolding on_caller_hangup tell_hangup
caller-IsReported true d c closed n hs h = h
caller-IsReported false true c closed n hs h = h
caller-IsReported false false c closed n hs h = record {
  at_most_once = omega (arith, h.at_most_once);
  after_answer = λ b m. elim m [ here e ↦ by_caller_callee e | there m ↦ h.after_answer b m ];
}

written-IsReported :
    (a d c : Bool) (closed : List (Option Bytes)) (n : ℕ) (hs : List HangupBy)
    → IsReported (legs a d c closed n hs)
    → IsReported (belg_hangup_goes_on (legs a d c closed n hs))
unfolding belg_hangup_goes_on tell_hangup
written-IsReported a d false closed n hs h = h
written-IsReported a true true closed n hs h = record {
  at_most_once = h.at_most_once;
  after_answer = h.after_answer;
}
written-IsReported false false true closed n hs h = record {
  at_most_once = h.at_most_once;
  after_answer = h.after_answer;
}
written-IsReported true false true closed n hs h = record {
  at_most_once = omega (arith, h.at_most_once);
  after_answer = λ b m. ground (arith, b);
}

pub step-IsReported : (e : LegEvent) (l : Legs) → IsReported l → IsReported (step e l)
unfolding step on_bleg_answer on_belg_hangup
step-IsReported (caller_hangs_up ps) l h =
    caller-IsReported l.answered l.done_hangup l.closing l.closed l.answers l.hangups h
step-IsReported (b_leg_answers ps) l h = record {
  at_most_once = h.at_most_once;
  after_answer = λ b m. ground (arith, b);
}
step-IsReported answer_written l h =
    elim l.answered as (λ b. IsReported (if b then record l { answers = l.answers + 1 } else l)) [
      | true ↦ record { at_most_once = h.at_most_once; after_answer = h.after_answer }
      | false ↦ h
    ]
step-IsReported (b_leg_hangs_up ps) l h =
    elim (header_of (first_param ps) (codes "Hangup-Cause"))
      as (λ o. IsReported (elim o as (λ _. Legs) [
        | none ↦ l
        | some cause ↦ record l { closing = true; closed = cause ∷ l.closed }
      ])) [
        | none ↦ h
        | some cause ↦ record { at_most_once = h.at_most_once; after_answer = h.after_answer }
      ]
step-IsReported hangup_written l h =
    written-IsReported l.answered l.done_hangup l.closing l.closed l.answers l.hangups h
step-IsReported hangup_rejected l h = record {
  at_most_once = h.at_most_once;
  after_answer = h.after_answer;
}

pub new_legs-IsReported : IsReported new_legs
unfolding new_legs
new_legs-IsReported = record { at_most_once = omega arith; after_answer = λ b m. elim m [ ] }

-- The listeners are called with the connection as their first parameter.
abbrev pub IsFired : LegEvent → Type 0
IsFired (caller_hangs_up ps) = (c : Bytes) × (h : List (Bytes × Bytes)) × (ps ≡ fired c h)
IsFired (b_leg_answers ps) = (c : Bytes) × (h : List (Bytes × Bytes)) × (ps ≡ fired c h)
IsFired (b_leg_hangs_up ps) = (c : Bytes) × (h : List (Bytes × Bytes)) × (ps ≡ fired c h)
IsFired _ = Unit

pub record IsUnheard (l : Legs) : Type 0 where
  pub not_closing : l.closing ≡ false
  pub none_closed : l.closed ≡ []
  pub not_told : Elem by_callee l.hangups → ⊥

caller-IsUnheard :
    (a d c : Bool) (closed : List (Option Bytes)) (n : ℕ) (hs : List HangupBy)
    → IsUnheard (legs a d c closed n hs)
    → IsUnheard (on_caller_hangup (legs a d c closed n hs))
unfolding on_caller_hangup tell_hangup
caller-IsUnheard true d c closed n hs h = h
caller-IsUnheard false true c closed n hs h = h
caller-IsUnheard false false c closed n hs h = record {
  not_closing = h.not_closing;
  none_closed = h.none_closed;
  not_told = λ m. elim m [ here e ↦ by_caller_callee e | there m ↦ h.not_told m ];
}

written-IsUnheard :
    (a d c : Bool) (closed : List (Option Bytes)) (n : ℕ) (hs : List HangupBy)
    → IsUnheard (legs a d c closed n hs)
    → IsUnheard (belg_hangup_goes_on (legs a d c closed n hs))
unfolding belg_hangup_goes_on
written-IsUnheard a d false closed n hs h = h
written-IsUnheard a d true closed n hs h = absurd (ground (arith, h.not_closing))

pub step-IsUnheard : (e : LegEvent) (l : Legs) → IsFired e → IsUnheard l → IsUnheard (step e l)
unfolding step on_bleg_answer on_belg_hangup header_of
step-IsUnheard (caller_hangs_up ps) l f h =
    caller-IsUnheard l.answered l.done_hangup l.closing l.closed l.answers l.hangups h
step-IsUnheard (b_leg_answers ps) l f h = record {
  not_closing = h.not_closing;
  none_closed = h.none_closed;
  not_told = h.not_told;
}
step-IsUnheard answer_written l f h =
    elim l.answered as (λ b. IsUnheard (if b then record l { answers = l.answers + 1 } else l)) [
      | true ↦ record {
        not_closing = h.not_closing;
        none_closed = h.none_closed;
        not_told = h.not_told;
      }
      | false ↦ h
    ]
step-IsUnheard (b_leg_hangs_up ps) l (c, headers, e) h = rw e h
step-IsUnheard hangup_written l f h =
    written-IsUnheard l.answered l.done_hangup l.closing l.closed l.answers l.hangups h
step-IsUnheard hangup_rejected l f h = record {
  not_closing = refl;
  none_closed = h.none_closed;
  not_told = h.not_told;
}

pub new_legs-IsUnheard : IsUnheard new_legs
unfolding new_legs
new_legs-IsUnheard = record { not_closing = refl; none_closed = refl; not_told = λ m. elim m [ ] }
