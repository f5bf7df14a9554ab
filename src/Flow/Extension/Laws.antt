-- ===== src/Flow/Extension/Laws.antt =====
-- src/esl/flow-base.service.ts: the states of both telephones after a call to an extension.
use next_call.Session.Log.{Leaves, Leaves-bind, Leaves-value, Leaves-last_two}
use next_call.Flow.{FlowData, FlowCall, set_agent_state}
use next_call.Flow.Bridge.{bridge_a_call, run_bridge, cause_of}
use next_call.Flow.Extension.{
  FoundExtension, dial_extension, goto_fail_done, ring_extension, end_dial, ExtensionResult, idle,
  can_call,
}
use next_call.Base.{
  Option, Bytes, List, ℕ, ◌≡◌, none, some, true, ◌∷◌, refl, Bool-cases, text_eq, codes, inl, inr,
}
use next_call.Session.{Answer, ◌>>=◌, World, try_catch, Now, ok, resolves, pure}

module _ (find : Answer → Option FoundExtension) (number : Bytes) where
  -- A call to an extension that returns has asked for both telephones to be idle, as its last two calls,
  -- whatever came of it.
  pub dial_extension_idle :
      (w : World FlowData FlowCall) (n : Now FlowData FlowCall) (r : ExtensionResult)
      → (dial_extension find number none w n).0 ≡ ok r
      → (l : List FlowCall) × ((dial_extension find number none w n).1.log
          ≡ set_agent_state number idle ∷ set_agent_state n.state.caller idle ∷ l)
  unfolding dial_extension goto_fail_done end_dial ◌>>=◌
  dial_extension_idle w n r h =
      let d = n.state in
      let p : Leaves
          (λ log.
            (l : List FlowCall) × (log
              ≡ set_agent_state number idle ∷ set_agent_state d.caller idle ∷ l))
          (ring_extension find d number >>= λ b. (end_dial d number b >>= λ r. pure r)) =
        Leaves-bind _ _ λ b.
          Leaves-value _ (λ r. r)
            (Leaves-last_two (set_agent_state d.caller idle) (set_agent_state number idle) _
              λ l. (l, refl)) in
      p.leaves w n r h

  -- Where all calls succeed, an extension is bridged and answered in whatever state it is, also in one
  -- in which it cannot be called.
  pub dial_extension_any_state :
      (e : FoundExtension) (a : Answer) (meanwhile : List FlowCall → FlowData → FlowData)
      (clock : List FlowCall → ℕ) (n : Now FlowData FlowCall)
      → find a ≡ some e
      → a.success ≡ true
      → (dial_extension find number none
          (record { reply = λ l. resolves a; meanwhile = meanwhile; clock = clock })
          n).0
        ≡ ok (record { answered = true; error = cause_of a })
  unfolding dial_extension ring_extension goto_fail_done end_dial bridge_a_call run_bridge try_catch
      ◌>>=◌
  dial_extension_any_state e a meanwhile clock n h s =
      elim (Bool-cases (text_eq n.state.router_line (codes "本地"))) [
        | inl t ↦ elim (Bool-cases (can_call e.state)) [
          | inl c ↦ rw (h, t, c, s) refl
          | inr c ↦ rw (h, t, c, s) refl
        ]
        | inr t ↦ elim (Bool-cases (can_call e.state)) [
          | inl c ↦ rw (h, t, c, s) refl
          | inr c ↦ rw (h, t, c, s) refl
        ]
      ]
