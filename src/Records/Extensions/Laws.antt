-- ===== src/Records/Extensions/Laws.antt =====
-- src/pbx/services/pbx_extensionn.service.ts: who can be dialled after a change of state, and which
-- extensions are created.
use next_call.Records.Laws.{find-change, change-Elem}
use next_call.Base.{
  ℕ, Bytes, ◌≡◌, false, Any, none, true, Option-cases, arith, some, inl, Any-witness, inr, All-at,
  Bool-cases, subst,
}
use next_call.Records.Extensions.{
  PbxExtensionn, check_agent_can_dail, set_agent_state, check_out, can_dial, ExtensionState,
  is_waiting, is_account, waiting,
}
use next_call.Records.{Repository, update_one, find_one}

module _ (repository : Repository PbxExtensionn) where
  open repository use {Table, rows}

  -- Of an account whose rows a change takes out of the waiting state, nobody can be dialled.
  cannot_dial :
      (tenant : ℕ) (code : Bytes) (f : PbxExtensionn → PbxExtensionn) (t : Table)
      → ((r : PbxExtensionn) → can_dial tenant code (f r) ≡ false)
      → check_agent_can_dail repository tenant code
          (update_one repository (is_account tenant code) f t).1
        ≡ none
  unfolding check_agent_can_dail update_one find_one can_dial
  cannot_dial tenant code f t h =
      elim (Option-cases (
        repository.find_one_by (can_dial tenant code)
          (repository.change (is_account tenant code) f t))) [
            | inl e ↦ e
            | inr (r, e) ↦
                let (x, q, m, k) =
                  find-change repository (is_account tenant code) (can_dial tenant code) f t r e in
                absurd (elim (Bool-cases (is_account tenant code x)) [
                  | inl a ↦
                      let b : f x ≡ r = ground (arith, q, a) in
                      let c = subst (λ y. can_dial tenant code y ≡ false) b (h x) in
                      ground (arith, c, k)
                  | inr a ↦
                      let b : x ≡ r = ground (arith, q, a) in
                      let c = subst (λ y. is_account tenant code y ≡ false) b a in
                      ground (arith, c, k)
                ])
          ]

  -- An agent who is set to another state than waiting, or who has signed out, cannot be dialled.
  pub check_agent_can_dail-none :
      (now tenant : ℕ) (code : Bytes) (state : ExtensionState) (t : Table)
      → is_waiting state ≡ false
      → (check_agent_can_dail repository tenant code
            (set_agent_state repository now tenant code state t).1
          ≡ none)
        × (check_agent_can_dail repository tenant code (check_out repository tenant code t).1
            ≡ none)
  unfolding set_agent_state check_out
  check_agent_can_dail-none now tenant code state t h = (
    cannot_dial tenant code _ t λ r. unfold can_dial in ground (arith, h),
    cannot_dial tenant code _ t λ r. unfold can_dial in ground arith,
  )

  -- An agent who has signed in and is set to waiting can be dialled: the search finds a row of the
  -- account.
  pub check_agent_can_dail-some :
      (now tenant : ℕ) (code : Bytes) (t : Table)
      → Any (λ r. (is_account tenant code r ≡ true) × (r.status ≡ 0)) (rows t)
      → (r : PbxExtensionn) × (check_agent_can_dail repository tenant code
            (set_agent_state repository now tenant code waiting t).1
          ≡ some r)
        × (is_account tenant code r ≡ true)
        × (is_waiting r.state ≡ true)
  unfolding check_agent_can_dail set_agent_state update_one find_one can_dial is_account is_waiting
  check_agent_can_dail-some now tenant code t h =
      let f : PbxExtensionn → PbxExtensionn =
        λ r. record r { state = waiting; state_last_modified = now } in
      let t' = repository.change (is_account tenant code) f t in
      elim (Option-cases (repository.find_one_by (can_dial tenant code) t')) [
        | inl e ↦
            let (x, (k, z), m) = Any-witness (rows t) h in
            let a =
              All-at (λ y. can_dial tenant code y ≡ false) (rows t') (f x)
                (repository.missing (can_dial tenant code) t' e)
                (change-Elem repository (is_account tenant code) f t x m k) in
            absurd (ground (arith, a, k, z))
        | inr (r, e) ↦
            let (m, k) = repository.found (can_dial tenant code) t' r e in
            (r, e, ground (arith, k), ground (arith, k))
      ]
