-- ===== src/Worker/Job/Turns.antt =====
-- Whose turn it is among the active jobs of a queue.
use next_call.Base.{
  ℕ, suc, ◌≡◌, refl, sym, ◌∙◌, ap, Bool, true, false, some, List, [], ◌∷◌, ltb, ◌==◌, ◌&&◌, ◌||◌,
  All, arith, Bool-cases, inl, inr,
}
use next_call.Worker.Job.{ActiveJob, set_and_less, same_option, ahead, is_my_turn}

-- A job with a priority and a timeout that are not 0.
pub record IsRanked (j : ActiveJob) : Type 0 where
  pub p : ℕ
  pub t : ℕ
  pub priority_is : j.priority ≡ some (suc p)
  pub timeout_is : j.timeout ≡ some (suc t)

less : {j k : ActiveJob} → IsRanked j → IsRanked k → Bool
less a b = ltb a.p b.p || (a.p == b.p && ltb a.t b.t)

ahead_ranked : {j k : ActiveJob} (a : IsRanked j) (b : IsRanked k) → ahead j k ≡ less b a
unfolding ahead set_and_less same_option less
ahead_ranked a b = rw (a.priority_is, a.timeout_is, b.priority_is, b.timeout_is) (ground arith)

-- A job is in a list.
pub data Among (j : ActiveJob) : List ActiveJob → Type 0 where
  first : {js : List ActiveJob} → Among j (j ∷ js)
  later : {k : ActiveJob} {js : List ActiveJob} → Among j js → Among j (k ∷ js)

my_turn_head :
    (j k : ActiveJob) (ks : List ActiveJob)
    → is_my_turn j (k ∷ ks) ≡ true
    → (ahead j k ≡ false) × (is_my_turn j ks ≡ true)
unfolding is_my_turn
my_turn_head j k ks h = ground arith

my_turn_cons :
    (j k : ActiveJob) (ks : List ActiveJob)
    → ahead j k ≡ false
    → is_my_turn j ks ≡ true
    → is_my_turn j (k ∷ ks) ≡ true
unfolding is_my_turn
my_turn_cons j k ks h l = rw (h, l) refl

nobody_ahead :
    (j k : ActiveJob) {js : List ActiveJob}
    → Among k js
    → is_my_turn j js ≡ true
    → ahead j k ≡ false
nobody_ahead j k (first {js = ks}) h = let (free, rest) = my_turn_head j k ks h in free
nobody_ahead j k (later {k = l} {js = ks} m) h =
    let (free, rest) = my_turn_head j l ks h in nobody_ahead j k m rest

-- Two jobs in the list of active jobs, each with a priority and a timeout that are not 0, have
-- their turn at once only if both are the same.
pub turns_exclusive :
    (j k : ActiveJob) (js : List ActiveJob)
    → IsRanked j
    → IsRanked k
    → Among j js
    → Among k js
    → is_my_turn j js ≡ true
    → is_my_turn k js ≡ true
    → (j.priority ≡ k.priority) × (j.timeout ≡ k.timeout)
unfolding less
turns_exclusive j k js a b in_j in_k turn_j turn_k =
    let no_k : less b a ≡ false = sym (ahead_ranked a b) ∙ nobody_ahead j k in_k turn_j in
    let no_j : less a b ≡ false = sym (ahead_ranked b a) ∙ nobody_ahead k j in_j turn_k in
    let same_p : a.p ≡ b.p = ground arith in
    let same_t : a.t ≡ b.t = ground arith in
    (
      a.priority_is ∙ (ap (λ n. some (suc n)) same_p ∙ sym b.priority_is),
      a.timeout_is ∙ (ap (λ n. some (suc n)) same_t ∙ sym b.timeout_is),
    )

less_trans :
    {i j k : ActiveJob} (a : IsRanked i) (b : IsRanked j) (c : IsRanked k)
    → less a b ≡ true
    → less c b ≡ false
    → less c a ≡ false
unfolding less
less_trans a b c h k = ground arith

less_irrefl : {j : ActiveJob} (a : IsRanked j) → less a a ≡ false
unfolding less
less_irrefl a = ground arith

-- A job that goes ahead of one whose turn it is has its own turn.
turn_passes :
    (i j : ActiveJob) (js : List ActiveJob)
    → IsRanked i
    → IsRanked j
    → All IsRanked js
    → ahead j i ≡ true
    → is_my_turn j js ≡ true
    → is_my_turn i js ≡ true
unfolding is_my_turn
turn_passes i j [] a b r h t = refl
turn_passes i j (k ∷ ks) a b (c, r) h t =
    let (no_k, rest) = my_turn_head j k ks t in
    my_turn_cons i k ks
      (ahead_ranked a c
        ∙ less_trans a b c (sym (ahead_ranked b a) ∙ h) (sym (ahead_ranked b c) ∙ no_k))
      (turn_passes i j ks a b r h rest)

-- In a list of active jobs that is not empty, and in which each has a priority and a timeout that
-- are not 0, it is the turn of one of these jobs.
pub turns_progress :
    (j : ActiveJob) (js : List ActiveJob)
    → All IsRanked (j ∷ js)
    → (k : ActiveJob) × (Among k (j ∷ js)) × IsRanked k × (is_my_turn k (j ∷ js) ≡ true)
unfolding is_my_turn
turns_progress j [] (a, r) =
    (j, first, a, my_turn_cons j j [] (ahead_ranked a a ∙ less_irrefl a) refl)
turns_progress j (i ∷ js) (a, r) =
    let (k, m, b, t) = turns_progress i js r in
    elim (Bool-cases (ahead k j)) [
      | inl h ↦ (
        j,
        first,
        a,
        my_turn_cons j j (i ∷ js) (ahead_ranked a a ∙ less_irrefl a)
            (turn_passes j k (i ∷ js) a b r h t),
      )
      | inr h ↦ (k, later m, b, my_turn_cons k j (i ∷ js) h t)
    ]
