-- ===== src/Flow/Bridge/Registrations.antt =====
-- src/esl/flow-base.service.ts: what all the registrations of a bridged call report together.
-- The events of the legs among the events of a call
use next_call.Flow.{Param}
use next_call.Flow.Bridge.Laws.{
  IsReported, IsUnheard, IsFired, new_legs-IsReported, step-IsReported, new_legs-IsUnheard,
  step-IsUnheard,
}
use next_call.Base.{
  List, ℕ, All, length, ◌∷◌, ◌≡◌, map, ◌++◌, ◌+◌, suc, ◌≤◌, ap, [], arith, Elem, zero, refl,
  if◌then◌else◌, length-append, Bool-cases, inl, inr,
}
use next_call.Flow.Bridge.{
  LegEvent, Legs, step_at, bridge_steps, BridgeEvent, new_legs, bridge_step, step, caller_gone,
  caller_hangs_up, on_caller_hangup, leg_event, tell_hangup, leg_registered, by_callee,
}

abbrev pub AllLegs : (LegEvent → Type 0) → BridgeEvent → Type 0
AllLegs Q leg_registered = Unit
AllLegs Q (caller_gone ps) = Q (caller_hangs_up ps)
AllLegs Q (leg_event i e) = Q e

module _ {P : Legs → Type 0} {Q : LegEvent → Type 0} (new : P new_legs)
    (keeps : (e : LegEvent) (l : Legs) → Q e → P l → P (step e l)) where
  step_at-All : (i : ℕ) (e : LegEvent) (ls : List Legs) → Q e → All P ls → All P (step_at i e ls)
  unfolding step_at
  step_at-All i e [] q h = tt
  step_at-All zero e (l ∷ ls) q (h, hs) = (keeps e l q h, hs)
  step_at-All (suc i) e (l ∷ ls) q (h, hs) = (h, step_at-All i e ls q hs)

  all_hear : (e : LegEvent) (ls : List Legs) → Q e → All P ls → All P (map (step e) ls)
  all_hear e [] q h = tt
  all_hear e (l ∷ ls) q (h, hs) = (keeps e l q h, all_hear e ls q hs)

  one_more : (ls : List Legs) → All P ls → All P (ls ++ new_legs ∷ [])
  one_more [] h = (new, tt)
  one_more (l ∷ ls) (h, hs) = (h, one_more ls hs)

  -- What holds of new legs and is kept by the events of a kind holds of all registrations.
  bridge_steps-All :
      (es : List BridgeEvent) (ls : List Legs)
      → All (AllLegs Q) es
      → All P ls
      → All P (bridge_steps es ls)
  unfolding bridge_steps bridge_step
  bridge_steps-All [] ls q h = h
  bridge_steps-All (leg_registered ∷ es) ls (q, qs) h = bridge_steps-All es _ qs (one_more ls h)
  bridge_steps-All (caller_gone ps ∷ es) ls (q, qs) h =
      bridge_steps-All es _ qs (all_hear (caller_hangs_up ps) ls q h)
  bridge_steps-All (leg_event i e ∷ es) ls (q, qs) h =
      bridge_steps-All es _ qs (step_at-All i e ls q h)

any_event : (es : List BridgeEvent) → All (AllLegs (λ _. Unit {0})) es
any_event [] = tt
any_event (leg_registered ∷ es) = (tt, any_event es)
any_event (caller_gone ps ∷ es) = (tt, any_event es)
any_event (leg_event i e ∷ es) = (tt, any_event es)

-- How often the end of the call is told in all, and how often legs are registered
unfoldable pub told : List Legs → ℕ
told [] = 0
told (l ∷ ls) = length l.hangups + told ls

unfoldable pub registrations : List BridgeEvent → ℕ
registrations [] = 0
registrations (leg_registered ∷ es) = suc (registrations es)
registrations (caller_gone ps ∷ es) = registrations es
registrations (leg_event i e ∷ es) = registrations es

told_bound : (ls : List Legs) → All IsReported ls → told ls ≤ length ls
unfolding told
told_bound [] h = omega arith
told_bound (l ∷ ls) (h, hs) =
    let one : (if l.done_hangup then 1 else 0) ≤ 1 = elim (Bool-cases l.done_hangup) [
      | inl e ↦ rw e (omega arith)
      | inr e ↦ rw e (omega arith)
    ] in
    omega (arith, h.at_most_once, told_bound ls hs, one)

length-step_at : (i : ℕ) (e : LegEvent) (ls : List Legs) → length (step_at i e ls) ≡ length ls
unfolding step_at
length-step_at i e [] = refl
length-step_at zero e (l ∷ ls) = refl
length-step_at (suc i) e (l ∷ ls) = ap suc (length-step_at i e ls)

length-heard : (e : LegEvent) (ls : List Legs) → length (map (step e) ls) ≡ length ls
length-heard e [] = refl
length-heard e (l ∷ ls) = ap suc (length-heard e ls)

length-bridge_steps :
    (es : List BridgeEvent) (ls : List Legs)
    → length (bridge_steps es ls) ≡ registrations es + length ls
unfolding bridge_steps bridge_step registrations
length-bridge_steps [] ls = omega arith
length-bridge_steps (leg_registered ∷ es) ls =
    omega (arith, length-bridge_steps es (ls ++ new_legs ∷ []), length-append ls (new_legs ∷ []))
length-bridge_steps (caller_gone ps ∷ es) ls =
    omega (arith, length-bridge_steps es _, length-heard (caller_hangs_up ps) ls)
length-bridge_steps (leg_event i e ∷ es) ls =
    omega (arith, length-bridge_steps es _, length-step_at i e ls)

-- In whatever order the events of the call and of its legs come, each registration of the listeners tells
-- the end at most once, and as that of its leg only if this leg has answered; so the end is told at most
-- as often as a leg was registered.
pub steps-IsReported :
    (es : List BridgeEvent)
    → All IsReported (bridge_steps es []) × (told (bridge_steps es []) ≤ registrations es)
steps-IsReported es =
    let h =
      bridge_steps-All {Q = λ _. Unit {0}} new_legs-IsReported (λ e l q. step-IsReported e l) es []
        (any_event es) tt in
    (h, omega (arith, told_bound (bridge_steps es []) h, length-bridge_steps es []))

-- The end of a call whose two legs were registered both is told twice, where the caller hangs up first.
told_twice :
    (ps : List Param)
    → told (bridge_steps (leg_registered ∷ leg_registered ∷ caller_gone ps ∷ []) []) ≡ 2
unfolding bridge_steps bridge_step step on_caller_hangup tell_hangup new_legs told
told_twice ps = refl

unheard_legs :
    (ls : List Legs)
    → All IsUnheard ls
    → All (λ l. (l.closed ≡ []) × (Elem by_callee l.hangups → ⊥)) ls
unheard_legs [] h = tt
unheard_legs (l ∷ ls) (h, hs) = ((h.none_closed, h.not_told), unheard_legs ls hs)

-- As `addConnLisenter` calls the listeners, with the connection first, whatever events come, the listener
-- for the hang-up of a second leg never closes the record of this leg, and never tells its end as that of
-- the called one.
pub steps_fired :
    (es : List BridgeEvent)
    → All (AllLegs IsFired) es
    → All (λ l. (l.closed ≡ []) × (Elem by_callee l.hangups → ⊥)) (bridge_steps es [])
steps_fired es q =
    unheard_legs _ (bridge_steps-All {Q = IsFired} new_legs-IsUnheard step-IsUnheard es [] q tt)
