-- ===== src/Flow/Dialout/Laws.antt =====
-- src/esl/flow-base.service.ts: the caller's state after a call that could not go out.
use next_call.Session.Values.{
  Gives, Gives-bind, Gives-pure, Gives-raise, Gives-then, Gives-try_catch,
}
use next_call.Flow.Bridge.{BridgeResult}
use next_call.Flow.{FlowData, has_at, FlowCall, set_agent_state}
use next_call.Flow.Dialout.{
  DialoutArgs, try_dialout, dialout, returned, idle, DialoutOutcome, outcome, returned_rejection,
}
use next_call.Base.{Bytes, ◌≡◌, true, List, ◌≢◌, ◌∷◌, refl, subst, sym, codes}
use next_call.Session.{Answer, World, Now, ok}

abbrev IsReturned : DialoutOutcome → Type 0
IsReturned o = (r : BridgeResult) × (o ≡ returned r)

abbrev IsRejection : DialoutOutcome → Type 0
IsRejection o = o ≡ returned_rejection (codes "Can't Dial Other Tenand!")

abbrev pub EndsIdle : Bytes → List FlowCall → Type 0
EndsIdle caller log = (l : List FlowCall) × (log ≡ set_agent_state caller idle ∷ l)

outcome-Gives : (o : DialoutOutcome) → IsRejection o → Gives (λ _. ⊥) (outcome o)
outcome-Gives o q = subst (λ o. Gives (λ _. ⊥) (outcome o)) (sym q) (Gives-raise _)

module _ (gate_way_of : Answer → Bytes) (number : Bytes) (args : DialoutArgs) where
  try_dialout-IsRejection :
      (d : FlowData)
      → has_at number ≡ true
      → Gives IsRejection (try_dialout gate_way_of d number args)
  unfolding try_dialout
  try_dialout-IsRejection d h = Gives-bind _ _ λ _.
      Gives-bind _ _
        λ _. Gives-bind _ _ λ _. Gives-bind _ _ λ g. Gives-bind _ _ λ _. rw h (Gives-pure _ refl)

  -- A number with an @ is always refused, with an exception or a rejection.
  pub dialout_other_tenant :
      (w : World FlowData FlowCall) (n : Now FlowData FlowCall) (r : BridgeResult)
      → has_at number ≡ true
      → ((dialout gate_way_of number args w n).0 ≢ ok r)
  unfolding dialout
  dialout_other_tenant w n r h =
      let g : Gives (λ _. ⊥) (dialout gate_way_of number args) = Gives-bind _ _ λ d.
        Gives-then {Q = IsRejection} _ _
          (Gives-try_catch _ _ (try_dialout-IsRejection d h) λ x. Gives-bind _ _ λ _. Gives-raise x)
          outcome-Gives in
      g.gives w n r
