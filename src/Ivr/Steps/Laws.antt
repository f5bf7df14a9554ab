-- ===== src/Ivr/Steps/Laws.antt =====
-- src/esl/ivr.service.ts: the short steps leave the interpreter alone.
use next_call.Base.{Bytes, Bool, ℕ, ◌∷◌, []}
use next_call.Ivr.Action.Rules.{IsStep, IsStep-pure, is_action, step_rules}
use next_call.Ivr.Steps.{wait_amoment, value_to_set, set_channel_var, look_up, black_list_action}

pub wait_amoment-IsStep : (seconds : ℕ) → IsStep (wait_amoment seconds)
unfolding wait_amoment is_action
wait_amoment-IsStep seconds = search step_rules depth 8

value_to_set-IsStep : (uuid value name : Bytes) → IsStep (value_to_set uuid value name)
unfolding value_to_set is_action
value_to_set-IsStep uuid value [] = IsStep-pure value
value_to_set-IsStep uuid value (c ∷ r) = search step_rules depth 8

pub set_channel_var-IsStep : (uuid v x c g : Bytes) → IsStep (set_channel_var uuid v x c g)
unfolding set_channel_var is_action
set_channel_var-IsStep uuid v x c g = search (step_rules, value_to_set-IsStep) depth 8

look_up-IsStep : (b : Bool) (checked : Bytes) → IsStep (look_up b checked)
unfolding look_up is_action
look_up-IsStep b checked = search step_rules depth 8

pub black_list_action-IsStep :
    (uuid router_line caller called : Bytes) (b : Bool)
    → IsStep (black_list_action uuid router_line caller called b)
unfolding black_list_action is_action
black_list_action-IsStep uuid router_line caller called b =
    search (step_rules, look_up-IsStep) depth 8
