-- ===== src/Ivr/Action/Laws.antt =====
-- src/esl/ivr.service.ts: how deep a menu runs.
use next_call.Base.{
  ℕ, zero, suc, ◌+◌, ◌≤◌, ◌<◌, ◌≡◌, ◌≢◌, refl, true, Option, none, some, Bytes, arith, ltb, not,
}
use next_call.Session.{World, Now, Answer, pending, count}
use next_call.Ivr.{IvrData, ActionDoc, NextStep, Call, Ivr}
use next_call.Ivr.Action.{next_action, run_action, ivr_action}
use next_call.Ivr.Action.Rules.{
  IsQuiet, IsStep, IsStep-await, IsStep-set_main, is_action, left, Spends, Spends-pure,
  Spends-raise, Spends-if, Spends-step, Spends-get, Spends-start, Spends-increase,
}

module _ (read_doc : Answer → Option ActionDoc) (to_number : Option Bytes → ℕ)
    (done_action : Bytes → ActionDoc → Ivr NextStep)
    (steps : (ivr : Bytes) (doc : ActionDoc) → IsStep (done_action ivr doc)) where
  run_action-Spends :
      (j : ℕ) (again : Bytes → ℕ → Ivr NextStep) (ivr : Bytes) (o : ℕ) (doc : Option ActionDoc)
      → ((ivr' : Bytes) (o' : ℕ) → Spends j j (again ivr' o'))
      → Spends (suc j) (suc j) (run_action read_doc to_number done_action again ivr o doc)
  unfolding run_action next_action is_action
  run_action-Spends j again ivr o none h = Spends-pure _ _ _
  run_action-Spends j again ivr o (some doc) h = Spends-step _ _ _ _ (IsStep-set_main ivr) λ _.
      Spends-step _ _ _ _ (IsStep-await _ refl) λ _. Spends-start j (suc j) ivr o _ λ _.
        Spends-increase j j _
          (Spends-step _ _ _ _ (steps ivr doc) λ s. Spends-if _ _ _ _ _ (Spends-pure _ _ s) (h _ _))

  -- The depth test, with what is left
  no_step_left : (d : IvrData) → left d ≡ 0 → not (ltb d.ivr_current_deep d.ivr_max_deep) ≡ true
  unfolding left
  no_step_left d h = ground (arith, h)

  ivr_action-Spends :
      (fuel j : ℕ) (ivr : Bytes) (o : ℕ)
      → j < fuel
      → Spends j j (ivr_action read_doc to_number done_action fuel ivr o)
  unfolding ivr_action is_action
  ivr_action-Spends zero j ivr o h = ground arith
  ivr_action-Spends (suc k) zero ivr o h =
      Spends-get 0 0 _ λ d e. rw (no_step_left d e) (Spends-raise 0 0 _)
  ivr_action-Spends (suc k) (suc j) ivr o h = Spends-get (suc j) (suc j) _ λ d e.
      Spends-if _ _ _ _ _ (Spends-raise _ _ _) (
        Spends-step _ _ _ _ (IsStep-await _ refl) λ a.
          run_action-Spends j (ivr_action read_doc to_number done_action k) ivr o (read_doc a)
            (λ ivr' o'. ivr_action-Spends k j ivr' o' (omega (arith, h))))

-- A menu always ends, and it runs at most as many steps as its depth has left, whatever the steps jump
-- to: with fuel above that number, for steps that end and leave the depth to the interpreter, and while
-- handlers of other events leave it alone too.
pub ivr_action-bound :
    (read_doc : Answer → Option ActionDoc) (to_number : Option Bytes → ℕ)
    (done_action : Bytes → ActionDoc → Ivr NextStep) (fuel : ℕ) (ivr : Bytes) (o : ℕ)
    (w : World IvrData Call) (n : Now IvrData Call)
    → ((ivr' : Bytes) (doc : ActionDoc) → IsStep (done_action ivr' doc))
    → IsQuiet w
    → left n.state < fuel
    → ((ivr_action read_doc to_number done_action fuel ivr o w n).0 ≢ pending)
      × (count is_action (ivr_action read_doc to_number done_action fuel ivr o w n).1.log
          ≤ left n.state + count is_action n.log)
ivr_action-bound read_doc to_number done_action fuel ivr o w n steps u h =
    let m = ivr_action-Spends read_doc to_number done_action steps fuel (left n.state) ivr o h in
    (m.ends w n u refl, m.at w n u refl)
