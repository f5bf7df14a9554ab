-- ===== src/Flow/Local/Laws.antt =====
-- src/esl/flow-base.service.ts: what can keep a call to a number of the tenant from its end.
use next_call.Flow.Bridge.{run_bridge, bridge_a_call, BridgeResult}
use next_call.Ivr.{NextStep}
use next_call.Session.Bounds.{
  AtMost, free_rules, AtMost-free, AtMost-try_catch, AtMost-await, AtMost-pure, AtMost-if,
  AtMost-first, AtMost-await_counted, AtMost-raise, AtMost-or_raise,
}
use next_call.Flow.Local.{
  LocalNumber, wait_for_answer, dial_queue, dial_type, after_ivr, dial_ivr, diallocal,
}
use next_call.Flow.Extension.{
  FoundExtension, dial_extension, goto_fail_done, ring_extension, end_dial,
}
use next_call.Base.{
  Bool, Option, ℕ, true, false, ◌≢◌, Bytes, ◌≡◌, none, arith, refl, ◌≤◌, ◌∷◌, text_eq, codes, suc,
  ◌+◌, Bool-cases, some, inl, inr, zero,
}
use next_call.Session.{
  World, Answer, ◌>>=◌, Now, count, pending, continue, ok, err, resolves, pure, await, ◌>>◌,
  answered, rejects, suspend,
}
use next_call.Flow.{FlowCall, FlowData, run_ivr_action, Flow, has_at}

unfoldable pub is_ivr : FlowCall → Bool
is_ivr (run_ivr_action n o) = true
is_ivr _ = false

-- Where `m` does not end, it has run at least `k` menus.
record Lasts {A : Type 0} (k : ℕ) (m : Flow A) : Type 0 where
  lasts :
      (w : World FlowData FlowCall) (n : Now FlowData FlowCall)
      → (m w n).0 ≡ pending
      → k + count is_ivr n.log ≤ count is_ivr (m w n).1.log

module _ {A B : Type 0} (k : ℕ) where
  -- A part that ends
  Lasts-then :
      (j : ℕ) (m : Flow A) (g : A → Flow B)
      → AtMost is_ivr j m
      → ((a : A) → Lasts k (g a))
      → Lasts k (m >>= g)
  unfolding ◌>>=◌
  Lasts-then j m g p q = record {
    lasts = λ w n.
        let (r, n') = m w n in
        elim r
            as (λ r.
              r ≢ pending
              → (continue r g w n').0 ≡ pending
              → k + count is_ivr n.log ≤ count is_ivr (continue r g w n').1.log) [
                | ok a ↦ λ _ h. omega (arith, (q a).lasts w n' h, p.grows w n)
                | err e ↦ λ _ h. ground arith
                | pending ↦ λ x h. absurd (x refl)
              ]
          (p.ends w n);
  }

module _ {A : Type 0} (k : ℕ) where
  -- A part that ends for good
  Lasts-AtMost : (j : ℕ) (m : Flow A) → AtMost is_ivr j m → Lasts k m
  Lasts-AtMost j m p = record { lasts = λ w n h. absurd (p.ends w n h) }

suspend-Lasts : {A : Type 0} → Lasts 0 (suspend {A = A})
unfolding ◌>>=◌
suspend-Lasts = record { lasts = λ w n h. omega arith }

run_bridge-free : (s : Bytes) → AtMost is_ivr 0 (run_bridge s)
unfolding run_bridge is_ivr
run_bridge-free s = search free_rules depth 12

bridge_a_call-free : (s : Bytes) → AtMost is_ivr 0 (bridge_a_call s)
unfolding bridge_a_call
bridge_a_call-free s = AtMost-try_catch 0 _ _ (run_bridge-free s) λ e. AtMost-pure _

ring_extension-free :
    (find : Answer → Option FoundExtension) (d : FlowData) (number : Bytes)
    → AtMost is_ivr 0 (ring_extension find d number)
unfolding ring_extension is_ivr
ring_extension-free find d number = search (free_rules, bridge_a_call-free) depth 14

end_dial-free :
    (d : FlowData) (number : Bytes) (r : BridgeResult) → AtMost is_ivr 0 (end_dial d number r)
unfolding end_dial is_ivr
end_dial-free d number r = search free_rules depth 8

dial_extension-free :
    (find : Answer → Option FoundExtension) (number : Bytes)
    → AtMost is_ivr 0 (dial_extension find number none)
unfolding dial_extension goto_fail_done
dial_extension-free find number = search (free_rules, ring_extension-free, end_dial-free) depth 8

module _ (find : Answer → Option FoundExtension) (local_of : Answer → Option LocalNumber)
    (next_of : Answer → NextStep) (goto_of : Answer → Option (Bytes × ℕ)) where
  wait_for_answer-free : AtMost is_ivr 0 (wait_for_answer find local_of next_of goto_of)
  unfolding wait_for_answer is_ivr
  wait_for_answer-free = search free_rules depth 8

  dial_queue-AtMost :
      (number : Bytes) → AtMost is_ivr 1 (dial_queue find local_of next_of goto_of number)
  unfolding dial_queue is_ivr
  dial_queue-AtMost number = AtMost-free 1 _ _ (AtMost-await _ refl) λ a.
      elim (goto_of a)
        as (λ o. AtMost is_ivr 1 (elim o as (λ _. Flow (Unit {0})) [
          | none ↦ pure tt
          | some (ivr, ordinal) ↦ do await (run_ivr_action ivr ordinal); pure tt
        ])) [
          | none ↦ AtMost-pure tt
          | some x ↦ AtMost-first 1 _ _ (AtMost-await_counted _) λ _. AtMost-pure tt
        ]

  dial_type_quiet :
      (again : Bytes → Flow (Unit {0})) (number local_type : Bytes)
      → text_eq local_type (codes "ivr") ≡ false
      → AtMost is_ivr 1 (dial_type find local_of next_of goto_of again number local_type)
  unfolding dial_type is_ivr
  dial_type_quiet again number local_type h = rw h (
      AtMost-if _ _ _
        (AtMost-free 1 _ _ (AtMost-await _ refl)
          λ _. AtMost-free 1 _ _ (dial_extension-free find number) λ _. AtMost-pure tt)
        (AtMost-if _ _ _ (dial_queue-AtMost number) (AtMost-pure tt)))

module _ (find : Answer → Option FoundExtension) (local_of : Answer → Option LocalNumber)
    (next_of : Answer → NextStep) (goto_of : Answer → Option (Bytes × ℕ)) where
  after_ivr-Lasts :
      (k : ℕ) (again : Bytes → Flow (Unit {0})) (s : NextStep)
      → ((number : Bytes) → Lasts k (again number))
      → Lasts k (after_ivr find local_of next_of goto_of again s)
  unfolding after_ivr
  after_ivr-Lasts k again s h = elim (Bool-cases (text_eq s.next_type (codes "diallocal"))) [
    | inl t ↦ rw t (h s.next_args)
    | inr t ↦ rw t (Lasts-AtMost k 0 _ (AtMost-pure tt))
  ]

  -- The menu itself counts.
  ivr-Lasts :
      (k : ℕ) (ivr : Bytes) (o : ℕ) (again : Bytes → Flow (Unit {0}))
      → ((number : Bytes) → Lasts k (again number))
      → Lasts (suc k) (
          await (run_ivr_action ivr o) >>= λ a.
          after_ivr find local_of next_of goto_of again (next_of a))
  unfolding ◌>>=◌ is_ivr count
  ivr-Lasts k ivr o again h = record {
    lasts = λ w n.
        let m = run_ivr_action ivr o in
        let n' : Now FlowData FlowCall = record {
          state = w.meanwhile (m ∷ n.log) n.state;
          log = m ∷ n.log;
        } in
        let rest : Answer → Flow (Unit {0}) =
          λ a. after_ivr find local_of next_of goto_of again (next_of a) in
        elim (w.reply (m ∷ n.log))
          as (λ r.
            (continue (answered r n').0 rest w (answered r n').1).0 ≡ pending
            → suc k + count is_ivr n.log
              ≤ count is_ivr (continue (answered r n').0 rest w (answered r n').1).1.log) [
                | resolves a ↦
                    λ x. omega (arith, (after_ivr-Lasts k again (next_of a) h).lasts w n' x)
                | rejects e ↦ λ x. ground arith
              ];
  }

  dial_ivr-Lasts :
      (k : ℕ) (again : Bytes → Flow (Unit {0})) (number : Bytes)
      → ((number : Bytes) → Lasts k (again number))
      → Lasts (suc k) (dial_ivr find local_of next_of goto_of again number)
  unfolding dial_ivr is_ivr
  dial_ivr-Lasts k again number h =
      Lasts-then (suc k) 0 _ _ (wait_for_answer-free find local_of next_of goto_of) λ _.
        Lasts-then (suc k) 0 _ _ (AtMost-await _ refl)
          λ _. Lasts-then (suc k) 0 _ _ (AtMost-await _ refl) λ _. ivr-Lasts k number 1 again h

  dial_type_ivr :
      (k : ℕ) (again : Bytes → Flow (Unit {0})) (number local_type : Bytes)
      → text_eq local_type (codes "ivr") ≡ true
      → Lasts k (dial_ivr find local_of next_of goto_of again number)
      → Lasts k (dial_type find local_of next_of goto_of again number local_type)
  unfolding dial_type
  dial_type_ivr k again number local_type h p = rw h p

  dial_type-Lasts :
      (k : ℕ) (again : Bytes → Flow (Unit {0})) (number local_type : Bytes)
      → ((number : Bytes) → Lasts k (again number))
      → Lasts (suc k) (dial_type find local_of next_of goto_of again number local_type)
  dial_type-Lasts k again number local_type h =
      elim (Bool-cases (text_eq local_type (codes "ivr"))) [
        | inl i ↦ dial_type_ivr (suc k) again number local_type i (dial_ivr-Lasts k again number h)
        | inr i ↦
            Lasts-AtMost (suc k) 1 _
              (dial_type_quiet find local_of next_of goto_of again number local_type i)
      ]

  diallocal-Lasts :
      (fuel : ℕ) (number : Bytes) → Lasts fuel (diallocal find local_of next_of goto_of fuel number)
  unfolding diallocal is_ivr
  diallocal-Lasts zero number = suspend-Lasts
  diallocal-Lasts (suc fuel) number = elim (Bool-cases (has_at number)) [
    | inl e ↦ rw e (Lasts-AtMost (suc fuel) 0 _ (AtMost-raise _))
    | inr e ↦ rw e (
        Lasts-then (suc fuel) 0 _ _ (AtMost-await _ refl) λ a.
          Lasts-then (suc fuel) 0 _ _ (AtMost-or_raise _ _) λ t.
            Lasts-then (suc fuel) 0 _ _ (AtMost-await _ refl)
              λ _. dial_type-Lasts fuel _ number t.local_type (diallocal-Lasts fuel))
  ]

-- Nothing but menus that lead on from number to number can keep a local call from its end: one that has
-- used up its fuel has run as many menus as the fuel, whatever the numbers are and whatever is answered.
pub diallocal-ends :
    (find : Answer → Option FoundExtension) (local_of : Answer → Option LocalNumber)
    (next_of : Answer → NextStep) (goto_of : Answer → Option (Bytes × ℕ)) (fuel : ℕ)
    (number : Bytes) (w : World FlowData FlowCall) (n : Now FlowData FlowCall)
    → (diallocal find local_of next_of goto_of fuel number w n).0 ≡ pending
    → fuel + count is_ivr n.log
      ≤ count is_ivr (diallocal find local_of next_of goto_of fuel number w n).1.log
diallocal-ends find local_of next_of goto_of fuel number w n h =
    (diallocal-Lasts find local_of next_of goto_of fuel number).lasts w n h
