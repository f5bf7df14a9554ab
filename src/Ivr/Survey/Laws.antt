-- ===== src/Ivr/Survey/Laws.antt =====
-- src/esl/ivr.service.ts: how often the survey's step stores a value.
use next_call.Ivr.Action.Rules.{is_action, IsStep, left, step_rules, IsStep-pure, IsStep-modify}
use next_call.Session.{World, Now, pending, count, modify}
use next_call.Session.Bounds.{
  AtMost, AtMost-free, AtMost-pure, free_rules, AtMost-first, AtMost-await_counted, AtMost-modify,
  AtMost-await, AtMost-tell, AtMost-if, AtMost-get,
}
use next_call.Base.{Bool, Bytes, ◌≡◌, true, false, ◌∷◌, [], ◌≢◌, ◌≤◌, ◌+◌, refl}
use next_call.Ivr.Survey.{
  SurveyArgs, run, save_satisfaction, play_thanks, end_survey, ask_survey, satisfaction, set_hangup,
  done,
}
use next_call.Ivr.{Call, update_satis_value, IvrData}

unfoldable pub is_update : Call → Bool
is_update (update_satis_value q k) = true
is_update _ = false

module _ (args : SurveyArgs) where
  run-free : (c : Call) → is_update c ≡ false → AtMost is_update 0 (run c)
  unfolding run
  run-free c h = search free_rules depth 6

  save_satisfaction-AtMost :
      (key : Bytes) (g : Bool) → AtMost is_update 1 (save_satisfaction args key g)
  unfolding save_satisfaction is_update
  save_satisfaction-AtMost key g =
      AtMost-free 1 _ _ (search free_rules depth 4)
        λ _. AtMost-first 1 _ _ (AtMost-await_counted _) λ a. search (free_rules, run-free) depth 6

  play_thanks-free : (f : Bytes) → AtMost is_update 0 (play_thanks f)
  unfolding play_thanks is_update
  play_thanks-free [] = AtMost-pure tt
  play_thanks-free (c ∷ f) = run-free _ refl

  end_survey-AtMost : (uuid key : Bytes) → AtMost is_update 1 (end_survey args uuid key)
  unfolding end_survey is_update
  end_survey-AtMost uuid key = AtMost-free 1 _ _ (search free_rules depth 4) λ _.
      AtMost-first 1 _ _ (AtMost-await_counted _)
        λ a. search (free_rules, run-free, play_thanks-free) depth 6

  ask_survey-AtMost : (uuid : Bytes) → AtMost is_update 1 (ask_survey args uuid)
  unfolding ask_survey is_update
  ask_survey-AtMost uuid = AtMost-free 1 _ _ (AtMost-modify _) λ _.
      AtMost-free 1 _ _ (AtMost-tell _ refl) λ _. AtMost-free 1 _ _ (AtMost-await _ refl) λ a.
        AtMost-free 1 _ _ (AtMost-await _ refl) λ _. AtMost-free 1 _ _ AtMost-get λ d.
          AtMost-first 1 _ _ (AtMost-if _ _ _ (end_survey-AtMost uuid _) (AtMost-pure tt))
            λ _. search (free_rules, run-free) depth 6

  satisfaction-AtMost : (uuid : Bytes) → AtMost is_update 1 (satisfaction args uuid)
  unfolding satisfaction is_update
  satisfaction-AtMost uuid = AtMost-free 1 _ _ (AtMost-await _ refl) λ _.
      AtMost-if _ _ _ (ask_survey-AtMost uuid) (
        AtMost-free 1 _ _ (AtMost-await _ refl)
          λ _. AtMost-first 1 _ _ (save_satisfaction-AtMost _ _) λ _. AtMost-pure done)

  -- The step ends, and it stores at most one value, whatever calls are rejected and whenever the caller
  -- hangs up.
  pub satisfaction-updates :
      (uuid : Bytes) (w : World IvrData Call) (n : Now IvrData Call)
      → ((satisfaction args uuid w n).0 ≢ pending)
        × (count is_update (satisfaction args uuid w n).1.log ≤ 1 + count is_update n.log)
  satisfaction-updates uuid w n = let m = satisfaction-AtMost uuid in (m.ends w n, m.at w n)

-- The interpreter is left alone.
module _ (args : SurveyArgs) where
  run-IsStep : (c : Call) → is_action c ≡ false → IsStep (run c)
  unfolding run
  run-IsStep c h = search step_rules depth 6

  save_satisfaction-IsStep : (key : Bytes) (g : Bool) → IsStep (save_satisfaction args key g)
  unfolding save_satisfaction is_action
  save_satisfaction-IsStep key g = search (step_rules, run-IsStep) depth 8

  play_thanks-IsStep : (f : Bytes) → IsStep (play_thanks f)
  unfolding play_thanks is_action
  play_thanks-IsStep [] = IsStep-pure tt
  play_thanks-IsStep (c ∷ f) = run-IsStep _ refl

  end_survey-IsStep : (uuid key : Bytes) → IsStep (end_survey args uuid key)
  unfolding end_survey is_action
  end_survey-IsStep uuid key = search (step_rules, run-IsStep, play_thanks-IsStep) depth 8

  set_hangup-IsStep : (b : Bool) → IsStep (modify (set_hangup b))
  unfolding set_hangup left
  set_hangup-IsStep b = IsStep-modify _ λ d. refl

  ask_survey-IsStep : (uuid : Bytes) → IsStep (ask_survey args uuid)
  unfolding ask_survey is_action
  ask_survey-IsStep uuid =
      search (step_rules, set_hangup-IsStep, run-IsStep, end_survey-IsStep) depth 14

  pub satisfaction-IsStep : (uuid : Bytes) → IsStep (satisfaction args uuid)
  unfolding satisfaction is_action
  satisfaction-IsStep uuid =
      search (step_rules, ask_survey-IsStep, save_satisfaction-IsStep) depth 10
