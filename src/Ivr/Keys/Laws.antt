-- ===== src/Ivr/Keys/Laws.antt =====
-- src/esl/ivr.service.ts: the steps that read keys leave the interpreter alone.
use next_call.Base.{Bytes, Option, [], ◌∷◌}
use next_call.Session.{Answer}
use next_call.Ivr.Action.Rules.{IsStep, IsStep-pure, is_action, step_rules}
use next_call.Ivr.Keys.{
  PlaybackArgs, RecordArgs, text_or_var, after_input, playback_action, record_keys,
}

pub text_or_var-IsStep : (uuid value name : Bytes) → IsStep (text_or_var uuid value name)
unfolding text_or_var is_action
text_or_var-IsStep uuid value [] = IsStep-pure value
text_or_var-IsStep uuid value (c ∷ r) = search step_rules depth 8

after_input-IsStep :
    (read_input : Answer → Option Bytes) (args : PlaybackArgs) (ivr keys : Bytes)
    → IsStep (after_input read_input args ivr keys)
unfolding after_input is_action
after_input-IsStep read_input args ivr keys = search step_rules depth 8

pub playback_action-IsStep :
    (read_input : Answer → Option Bytes) (args : PlaybackArgs) (ivr call_id uuid : Bytes)
    → IsStep (playback_action read_input args ivr call_id uuid)
unfolding playback_action is_action
playback_action-IsStep read_input args ivr call_id uuid =
    search (step_rules, text_or_var-IsStep, after_input-IsStep) depth 10

pub record_keys-IsStep :
    (encrypt : Bytes → Bytes) (args : RecordArgs) (uuid : Bytes)
    → IsStep (record_keys encrypt args uuid)
unfolding record_keys is_action
record_keys-IsStep encrypt args uuid = search (step_rules, text_or_var-IsStep) depth 10
