-- ===== src/Ivr/Survey.antt =====
-- src/esl/ivr.service.ts: `satisfaction`, the step that asks a caller how content he is, and
-- `saveSatisfaction`.
pub mod Laws
use next_call.Ivr.Keys.{body_of}
use next_call.Base.Index.{index_of}
use next_call.Ivr.Steps.{next}
use next_call.Session.{try_catch, pure, ◌>>◌, await, modify, tell, ◌>>=◌, get}
use next_call.Ivr.{
  NextStep, Ivr, Call, IvrData, playback, create_process, remove_conn_lisenter, update_satis_value,
  add_conn_lisenter, uuid_kill, play_and_get_digits, set_satisfaction, find_satisfaction,
  hangup_call,
}
use next_call.Base.{
  Bool, Bytes, ◌∷◌, if◌then◌else◌, [], codes, text_eq, ◌||◌, true, false, not, split, ◌==◌, none,
  ◌&&◌, some,
}

-- What the step reads of the statistics of the call and of its options. A file that is not set is
-- empty.
pub record SurveyArgs : Type 0 where
  pub hangup : Bool
  pub s_type : Bytes
  pub queue_number : Bytes
  pub regexp : Bytes
  pub file : Bytes
  pub very_play : Bytes

abbrev pub done : NextStep
done = next (codes "normal") []

-- `when (b) await m`
abbrev pub when : Bool → Ivr (Unit {0}) → Ivr (Unit {0})
when b m = if b then m else pure tt

-- `await` of a call whose value is not used
unfoldable pub run : Call → Ivr (Unit {0})
run c = do await c; pure tt

unfoldable pub set_hangup : Bool → IvrData → IvrData
set_hangup b d = record d { is_hangup = b }

-- The key that is stored: -1 for none, -2 for one that is not asked for
unfoldable pub input_key : Bytes → Bytes → Bytes
input_key regexp inputs =
    if text_eq inputs (codes "timeout") || text_eq inputs []
    then codes "-1"
    else elim (index_of (split b'|' regexp) inputs) as (λ _. Bytes) [
      | none ↦ codes "-2"
      | some i ↦ inputs
    ]

-- It always returns -1.
unfoldable pub save_satisfaction : SurveyArgs → Bytes → Bool → Ivr (Unit {0})
save_satisfaction args key is_global = do
  await (create_process (codes "satisfactionScore"))
  a ← await (update_satis_value args.queue_number key)
  if a.id == 1
      then when (text_eq args.s_type (codes "queue")) (run (set_satisfaction key))
      else when (text_eq key (codes "-1") && not is_global) (run find_satisfaction)

-- The listener for the hang-up of the caller
unfoldable pub on_survey_hangup : SurveyArgs → Ivr (Unit {0})
on_survey_hangup args =
    try_catch (do modify (set_hangup true); save_satisfaction args (codes "-1") false) λ e. pure tt

-- `fillSoundFilePath` returns the path that it is given.
unfoldable pub play_thanks : Bytes → Ivr (Unit {0})
play_thanks [] = pure tt
play_thanks (c ∷ f) = run (playback (c ∷ f))

-- The end for a caller who has not hung up
unfoldable pub end_survey : SurveyArgs → Bytes → Bytes → Ivr (Unit {0})
end_survey args uuid key = do
  tell (remove_conn_lisenter uuid)
  await (update_satis_value args.queue_number key)
  play_thanks args.very_play
  run (uuid_kill uuid)

unfoldable pub ask_survey : SurveyArgs → Bytes → Ivr NextStep
ask_survey args uuid = do
  modify (set_hangup false)
  tell (add_conn_lisenter uuid)
  a ← await (play_and_get_digits uuid args.file false)
  let key = input_key args.regexp (body_of a)
  await (create_process (codes "input"))
  d ← get
  when (not d.is_hangup) (end_survey args uuid key)
  when (text_eq args.s_type (codes "queue")) (run (hangup_call args.queue_number))
  pure done

unfoldable pub satisfaction : SurveyArgs → Bytes → Ivr NextStep
satisfaction args uuid = do
  await (create_process (codes "satisfaction"))
  if not args.hangup then ask_survey args uuid else do
    await (create_process (codes "input"))
    save_satisfaction args (codes "-1") false
    pure done
