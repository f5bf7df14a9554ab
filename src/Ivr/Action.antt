-- ===== src/Ivr/Action.antt =====
-- src/esl/ivr.service.ts: `ivrAction` runs the steps of a menu one after the other, up to a depth that
-- the call's data limits. It runs on fuel.
pub mod Rules
pub mod Laws
use next_call.Base.{
  ℕ, zero, suc, ◌+◌, ◌==◌, ltb, not, Bool, true, false, Option, none, some, [], ◌∷◌, Bytes, codes,
  text_eq, if◌then◌else◌,
}
use next_call.Session.{Answer, pure, raise, suspend, get, modify, await, ◌>>=◌, ◌>>◌}
use next_call.Ivr.{
  IvrData, ActionDoc, NextStep, Call, get_ivr_action, create_process, last_app, Ivr, first_piece,
  second_piece,
}

-- `if (!this.mainIvrNumber) this.mainIvrNumber = ivrNumber`
unfoldable pub set_main : Bytes → IvrData → IvrData
set_main ivr_number d = record d {
  main_ivr_number = elim d.main_ivr_number as (λ _. Bytes) [ [] ↦ ivr_number | c ∷ r ↦ c ∷ r ];
}

-- `increaseIvrCurrentDeep`
unfoldable pub increase_deep : IvrData → IvrData
increase_deep d = record d { ivr_current_deep = d.ivr_current_deep + 1 }

-- `read_doc` is the record in the database's answer, `to_number` is JavaScript's `Number`, with 0 for
-- what is no number, and `done_action` is the step that `doneAction` chooses.
module _ (read_doc : Answer → Option ActionDoc) (to_number : Option Bytes → ℕ)
    (done_action : Bytes → ActionDoc → Ivr NextStep) where
  -- The number and the ordinal of the step that follows
  unfoldable pub goto_ivr : Bytes → ℕ → Bytes → Bytes × ℕ
  goto_ivr ivr_number ordinal [] = (ivr_number, ordinal + 1)
  goto_ivr ivr_number ordinal (c ∷ r) =
      let k = to_number (second_piece (c ∷ r)) in (first_piece (c ∷ r), if k == 0 then 1 else k)

  unfoldable pub next_action : (Bytes → ℕ → Ivr NextStep) → Bytes → ℕ → NextStep → Ivr NextStep
  next_action again ivr_number ordinal s =
      if not (text_eq s.next_type (codes "ivr"))
      then pure s
      else let (n, k) = goto_ivr ivr_number ordinal s.next_args in again n k

  unfoldable pub run_action :
      (Bytes → ℕ → Ivr NextStep) → Bytes → ℕ → Option ActionDoc → Ivr NextStep
  run_action again ivr_number ordinal none =
      pure (record { next_type = codes "normal"; next_args = [] })
  run_action again ivr_number ordinal (some doc) = do
    modify (set_main ivr_number)
    await (create_process (codes "ivrAction"))
    await (last_app ivr_number ordinal)
    modify increase_deep
    s ← done_action ivr_number doc
    next_action again ivr_number ordinal s

  unfoldable pub ivr_action : ℕ → Bytes → ℕ → Ivr NextStep
  ivr_action zero ivr_number ordinal = suspend
  ivr_action (suc k) ivr_number ordinal = do
    d ← get
    if not (ltb d.ivr_current_deep d.ivr_max_deep) then raise (codes "IVR DEEP MAX") else do
      a ← await (get_ivr_action ivr_number ordinal)
      run_action (ivr_action k) ivr_number ordinal (read_doc a)
