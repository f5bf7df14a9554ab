-- ===== src/Ivr/Dial/Laws.antt =====
-- src/esl/ivr.service.ts: the step that dials leaves the interpreter alone.
use next_call.Base.{Bytes}
use next_call.Ivr.Action.Rules.{IsStep, step_rules}
use next_call.Ivr.Keys.Laws.{text_or_var-IsStep}
use next_call.Ivr.Dial.{DialArgs, dial_action}

pub dial_action-IsStep : (args : DialArgs) (uuid : Bytes) → IsStep (dial_action args uuid)
unfolding dial_action
dial_action-IsStep args uuid = search (step_rules, text_or_var-IsStep) depth 8
