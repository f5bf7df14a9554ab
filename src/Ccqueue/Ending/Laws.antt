-- ===== src/Ccqueue/Ending/Laws.antt =====
-- src/esl/ccqueue.service.ts: how often the end of a call is reported.
use next_call.Base.{
  Bool-cases, ◌≢◌, ◌≤◌, ◌≡◌, ◌⊎◌, inl, inr, refl, Bool, true, false, List, [], ◌∷◌, length, arith,
}
use next_call.Ccqueue.Ending.{
  by_agent, open_still, AgentStage, listening, reporting, Ending, answered_call, settle, EndEvent,
  agent_hangs_up, agent_calls_done, caller_fails, end_linger, on_agent_hangup, agent_goes_on,
  agent_fails, on_caller_hangup, on_disconnect, handle, handle_all,
}

unfoldable pub is_reporting : AgentStage → Bool
is_reporting (reporting h) = true
is_reporting _ = false

record IsGuarded (e : Ending) : Type 0 where
  nothing_yet : e.done_over ≡ false → e.reports ≡ []
  once : length e.reports ≤ 1
  agent_reports : is_reporting e.agent_stage ≡ true → e.reports ≡ by_agent ∷ []
  over : is_reporting e.agent_stage ≡ true → e.done_over ≡ true
  satisfied : e.goto_satisfaction ≡ true → (e.reports ≡ by_agent ∷ []) × (e.done_over ≡ true)

handle-IsGuarded : (t : Bool) (v : EndEvent) (e : Ending) → IsGuarded e → IsGuarded (handle t v e)
unfolding handle on_agent_hangup agent_goes_on agent_fails on_caller_hangup caller_fails
    on_disconnect end_linger is_reporting settle
handle-IsGuarded t v e h = record {
  nothing_yet = ground (arith, h.nothing_yet, h.over);
  once = ground (arith, h.nothing_yet, h.once);
  agent_reports = ground (arith, h.nothing_yet, h.agent_reports, h.over);
  over = ground (arith, h.over);
  satisfied = ground (arith, h.nothing_yet, h.agent_reports, h.over, h.satisfied);
}

handle_all-IsGuarded :
    (t : Bool) (l : List EndEvent) (e : Ending) → IsGuarded e → IsGuarded (handle_all t l e)
unfolding handle_all
handle_all-IsGuarded t [] e h = h
handle_all-IsGuarded t (v ∷ l) e h =
    handle_all-IsGuarded t l (handle t v e) (handle-IsGuarded t v e h)

answered_call-IsGuarded : IsGuarded answered_call
unfolding answered_call is_reporting
answered_call-IsGuarded = record {
  nothing_yet = λ h. refl;
  once = omega arith;
  agent_reports = λ h. cc;
  over = λ h. cc;
  satisfied = λ h. cc;
}

-- Whatever order the hang-ups, the notices and the answers of the calls come in, the end of an answered
-- call is reported at most once; and a caller goes on to the satisfaction menu only where the one
-- report is that the agent hung up.
pub handle_all-reports :
    (t : Bool) (l : List EndEvent)
    → (length (handle_all t l answered_call).reports ≤ 1)
      × (((handle_all t l answered_call).goto_satisfaction ≡ false)
          ⊎ ((handle_all t l answered_call).reports ≡ by_agent ∷ []))
handle_all-reports t l =
    let g = handle_all-IsGuarded t l answered_call answered_call-IsGuarded in
    (
      g.once,
      elim (Bool-cases (handle_all t l answered_call).goto_satisfaction) [
        | inl e ↦ inr (g.satisfied e).0
        | inr e ↦ inl e
      ],
    )

-- The hang-up of the agent ends the method, also after that of the caller, if its calls are answered.
pub handle_all-settled :
    (t : Bool) (e : Ending)
    → e.agent_stage ≡ listening
    → (handle_all t (agent_hangs_up ∷ agent_calls_done ∷ agent_calls_done ∷ []) e).settlement
      ≢ open_still
unfolding handle_all handle on_agent_hangup agent_goes_on settle
handle_all-settled t e h = ground (arith, h)
