-- ===== src/Worker/Job/Ends.antt =====
-- When the job of a call ends, and how.
use next_call.Base.{
  ◌∙◌, ap, ℕ, zero, suc, ◌+◌, ◌-◌, ◌≤◌, ◌<◌, ◌≡◌, refl, subst, sym, Bool, true, false, Option, none,
  some, List, ◌∷◌, Bytes, ltb, if◌then◌else◌, arith, Bool-cases, inl, inr, ltb→le, ltb→lt,
}
use next_call.Worker.Members.{Extension}
use next_call.Worker.Job.{
  World, stop_sent, End, is_my_turn, has_account, wait_turn, find_agent, resolved, Done, finish,
  found_in, when_members, searched, search, done_in_come_call,
}

abbrev pub Returns {ℓ} : {A : Type ℓ} → Option A → Type ℓ
Returns {A = A} o = (a : A) × (o ≡ some a)

Returns-if {ℓ} :
    {A : Type ℓ} (b : Bool) (e : A) (rest : Option A)
    → (b ≡ false → Returns rest)
    → Returns (if b then some e else rest)
Returns-if true e rest h = (e, refl)
Returns-if false e rest h = h refl

-- The search for an agent ends: if the clock has passed the timeout in the round `n` from now, then
-- `n + 1` rounds are enough.
pub find_agent_ends :
    (w : World) (start timeout n round : ℕ)
    → timeout < w.now (round + n) - start
    → (e : End) × (find_agent w start timeout (suc n) round ≡ some e)
unfolding find_agent
find_agent_ends w start timeout zero round h =
    let late : timeout < w.now round - start =
      subst (λ r. timeout < w.now r - start) (omega arith) h in
    Returns-if (stop_sent w round) _ _
      (λ s. Returns-if (ltb timeout (w.now round - start)) _ _ (λ t. absurd (ground arith)))
find_agent_ends w start timeout (suc n) round h = Returns-if (stop_sent w round) _ _ (λ s.
    Returns-if (ltb timeout (w.now round - start)) _ _ (λ t.
      Returns-if (has_account (found_in w round)) _ _ (λ f.
        find_agent_ends w start timeout n (suc round)
          (subst (λ r. timeout < w.now r - start) (omega arith) h))))

-- The wait for a turn does not look at the clock: as long as another job goes ahead in every round
-- and no stop is sent, it goes on, whatever the timeout.
pub wait_turn_forever :
    (w : World)
    → ((r : ℕ) → stop_sent w r ≡ false)
    → ((r : ℕ) → is_my_turn w.own (w.active r) ≡ false)
    → (fuel round : ℕ) → wait_turn w fuel round ≡ none
unfolding wait_turn
wait_turn_forever w s t zero round = refl
wait_turn_forever w s t (suc fuel) round =
    rw (s round, t round) (wait_turn_forever w s t fuel (suc round))

-- How the search can end in a round: by a stop, by the timeout, or with an agent.
pub data Ended (w : World) (start timeout : ℕ) : End → Type 0 where
  by_stop :
      (r : ℕ)
      → stop_sent w r ≡ true
      → Ended w start timeout (record { round = r; timed_out = false; found = none })
  by_timeout :
      (r : ℕ)
      → timeout < w.now r - start
      → Ended w start timeout (record { round = suc r; timed_out = true; found = none })
  by_agent :
      (r : ℕ)
      → stop_sent w r ≡ false
      → w.now r - start ≤ timeout
      → has_account (found_in w r) ≡ true
      → Ended w start timeout (record { round = suc r; timed_out = false; found = found_in w r })

if_true :
    (b : Bool) (a e : End) (rest : Option End)
    → b ≡ true
    → (if b then some a else rest) ≡ some e
    → a ≡ e
if_true b a e rest t h = ground arith

when_if :
    (P : End → Type 0) (b : Bool) (a e : End) (rest : Option End)
    → (if b then some a else rest) ≡ some e
    → (b ≡ true → P a)
    → (b ≡ false → rest ≡ some e → P e)
    → P e
when_if P b a e rest h y n = elim (Bool-cases b) [
  | inl t ↦ subst P (if_true b a e rest t h) (y t)
  | inr f ↦ n f (ground arith)
]

-- The search ends in one of these ways.
find_agent-Ended :
    (w : World) (start timeout fuel round : ℕ) (e : End)
    → find_agent w start timeout fuel round ≡ some e
    → Ended w start timeout e
unfolding find_agent
find_agent-Ended w start timeout zero round e h = absurd (ground arith)
find_agent-Ended w start timeout (suc n) round e h =
    when_if (Ended w start timeout) (stop_sent w round) _ e _ h (by_stop round) (λ s h1.
      when_if (Ended w start timeout) (ltb timeout (w.now round - start)) _ e _ h1
        (λ t. by_timeout round (ltb→lt _ _ t))
        (λ t h2.
          when_if (Ended w start timeout) (has_account (found_in w round)) _ e _ h2
            (by_agent round s (ltb→le _ _ t))
            (λ f. find_agent-Ended w start timeout n (suc round) e)))

-- A resolved outcome comes from an agent with an account, found in time.
pub record Served (w : World) (start timeout : ℕ) (o : Option Extension) : Type 0 where
  pub at : ℕ
  pub not_stopped : stop_sent w at ≡ false
  pub in_time : w.now at - start ≤ timeout
  pub is_found : o ≡ found_in w at
  pub has : has_account o ≡ true

finish-Served :
    (w : World) (start timeout : ℕ) (e : End) (o : Option Extension)
    → Ended w start timeout e
    → (finish w e).outcome ≡ resolved o
    → Served w start timeout o × ((finish w e).published ≡ o)
unfolding finish
finish-Served w start timeout _ o (by_stop r s) h = absurd (ground arith)
finish-Served w start timeout _ o (by_timeout r t) h = absurd (ground arith)
finish-Served w start timeout _ o (by_agent r s t f) h =
    let same : found_in w r ≡ o = ground arith in
    (
      record {
        at = r;
        not_stopped = s;
        in_time = t;
        is_found = sym same;
        has = subst (λ x. has_account x ≡ true) same f;
      },
      same,
    )

finished :
    (w : World) (o : Option End) (d : Done)
    → searched w o ≡ some d
    → (e : End) × (o ≡ some e) × (finish w e ≡ d)
unfolding searched
finished w none d h = absurd (ground arith)
finished w (some e) d h = (e, refl, ground arith)

searched_from :
    (w : World) (start timeout fuel : ℕ) (o : Option ℕ) (d : Done)
    → search w start timeout fuel o ≡ some d
    → (r : ℕ) × (o ≡ some r) × (searched w (find_agent w start timeout fuel r) ≡ some d)
unfolding search
searched_from w start timeout fuel none d h = absurd (ground arith)
searched_from w start timeout fuel (some r) d h = (r, refl, h)

done_searched :
    (w : World) (m : Bytes) (ms : List Bytes) (start timeout fuel : ℕ)
    → w.members ≡ m ∷ ms
    → done_in_come_call w start timeout fuel ≡ search w start timeout fuel (wait_turn w fuel 0)
unfolding done_in_come_call when_members
done_searched w m ms start timeout fuel h =
    ap
      (λ l.
        when_members l (some (finish w (record { round = 0; timed_out = false; found = none })))
          (search w start timeout fuel (wait_turn w fuel 0)))
      h

-- If the job of a queue with members is resolved, then with an agent who has an account, whom the
-- strategy found in a round in which the job was neither stopped nor late, and this agent was
-- published.
pub resolved-Served :
    (w : World) (m : Bytes) (ms : List Bytes) (start timeout fuel : ℕ) (d : Done)
    (o : Option Extension)
    → w.members ≡ m ∷ ms
    → done_in_come_call w start timeout fuel ≡ some d
    → d.outcome ≡ resolved o
    → Served w start timeout o × (d.published ≡ o)
resolved-Served w m ms start timeout fuel d o has_members h k =
    let h0 = sym (done_searched w m ms start timeout fuel has_members) ∙ h in
    let (round, _, h1) = searched_from w start timeout fuel (wait_turn w fuel 0) d h0 in
    let (e, found, same) = finished w (find_agent w start timeout fuel round) d h1 in
    subst (λ x. Served w start timeout o × (x.published ≡ o)) same
      (finish-Served w start timeout e o (find_agent-Ended w start timeout fuel round e found)
        (subst (λ x. x.outcome ≡ resolved o) (sym same) k))

wait_turn_ends :
    (w : World) (n round : ℕ)
    → is_my_turn w.own (w.active (round + n)) ≡ true
    → Returns (wait_turn w (suc n) round)
unfolding wait_turn
wait_turn_ends w zero round h =
    let turn : is_my_turn w.own (w.active round) ≡ true =
      subst (λ r. is_my_turn w.own (w.active r) ≡ true) (omega arith) h in
    Returns-if (stop_sent w round) _ _
      (λ s. Returns-if (is_my_turn w.own (w.active round)) _ _ (λ f. absurd (ground arith)))
wait_turn_ends w (suc n) round h = Returns-if (stop_sent w round) _ _ (λ s.
    Returns-if (is_my_turn w.own (w.active round)) _ _ (λ f.
      wait_turn_ends w n (suc round)
        (subst (λ r. is_my_turn w.own (w.active r) ≡ true) (omega arith) h)))

-- A job of a queue with members that has its turn in the round `n` ends, if the clock is past its
-- timeout in every round from `n` on: `n + 1` rounds are enough for each loop.
pub done_in_come_call_ends :
    (w : World) (m : Bytes) (ms : List Bytes) (start timeout n : ℕ)
    → w.members ≡ m ∷ ms
    → is_my_turn w.own (w.active n) ≡ true
    → ((r : ℕ) → n ≤ r → timeout < w.now r - start)
    → (d : Done) × (done_in_come_call w start timeout (suc n) ≡ some d)
unfolding search searched
done_in_come_call_ends w m ms start timeout n has_members h k =
    let (round, turn) =
      wait_turn_ends w n 0 (subst (λ r. is_my_turn w.own (w.active r) ≡ true) (omega arith) h) in
    let (e, found) = find_agent_ends w start timeout n round (k _ (omega arith)) in
    (finish w e, done_searched w m ms start timeout (suc n) has_members ∙ rw (turn, found) refl)
