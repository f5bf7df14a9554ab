-- ===== src/Flow/Local.antt =====
-- src/esl/flow-base.service.ts: `diallocal` dials a number of the tenant: a menu, an extension or a
-- queue. A menu may lead to another number, so it runs on fuel.
pub mod Laws
use next_call.Flow.{
  Flow, get_ivr_by_number, ccqueue_dial, has_at, create_process, add_conn_lisenter, run_ivr_action,
  get_local_by_number, channel_answer, type_error, update_called,
}
use next_call.Ivr.{NextStep}
use next_call.Flow.Extension.{FoundExtension, dial_extension}
use next_call.Session.{
  Answer, suspend, ◌>>=◌, ◌>>◌, get, await, pure, tell, raise, or_raise, modify,
}
use next_call.Base.{
  Bytes, Option, ℕ, if◌then◌else◌, text_eq, suc, codes, none, some, ◌++◌, true, zero,
}

-- A rejected answer of the gateway, or the result of `dialQueue`
pub record LocalNumber : Type 0 where
  pub local_type : Bytes

module _ (find : Answer → Option FoundExtension) (local_of : Answer → Option LocalNumber)
    (next_of : Answer → NextStep) (goto_of : Answer → Option (Bytes × ℕ)) where
  -- Until the channel has answered
  unfoldable pub wait_for_answer : Flow (Unit {0})
  wait_for_answer = do
    d ← get
    if d.is_answered then pure tt else do
      tell (add_conn_lisenter (codes "esl::event::CHANNEL_ANSWER::" ++ d.call_id))
      await channel_answer
      modify (λ x. record x { is_answered = true })

  -- Of the ways that a menu ends only that to another local number is followed.
  unfoldable pub after_ivr : (Bytes → Flow (Unit {0})) → NextStep → Flow (Unit {0})
  after_ivr again s = if text_eq s.next_type (codes "diallocal") then again s.next_args else pure tt

  unfoldable pub dial_ivr : (Bytes → Flow (Unit {0})) → Bytes → Flow (Unit {0})
  dial_ivr again number = do
    wait_for_answer
    await (get_ivr_by_number number)
    await (create_process (codes "ivr"))
    a ← await (run_ivr_action number 1)
    after_ivr again (next_of a)

  unfoldable pub dial_queue : Bytes → Flow (Unit {0})
  dial_queue number = do
    a ← await (ccqueue_dial number)
    elim (goto_of a) as (λ _. Flow (Unit {0})) [
      | none ↦ pure tt
      | some (ivr, ordinal) ↦ do await (run_ivr_action ivr ordinal); pure tt
    ]

  unfoldable pub dial_type : (Bytes → Flow (Unit {0})) → Bytes → Bytes → Flow (Unit {0})
  dial_type again number local_type =
      if text_eq local_type (codes "ivr")
      then dial_ivr again number
      else if text_eq local_type (codes "extension")
      then (do await (create_process (codes "extension")); dial_extension find number none; pure tt)
      else if text_eq local_type (codes "queue")
      then dial_queue number
      else pure tt

  unfoldable pub diallocal : ℕ → Bytes → Flow (Unit {0})
  diallocal zero number = suspend
  diallocal (suc fuel) number =
      if has_at number then raise (codes "Can't Dial Other Tenand!") else do
        a ← await (get_local_by_number number)
        l ← or_raise type_error (local_of a)
        await (update_called number)
        dial_type (diallocal fuel) number l.local_type
