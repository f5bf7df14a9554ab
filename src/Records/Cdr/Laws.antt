-- ===== src/Records/Cdr/Laws.antt =====
-- src/pbx/services/pbx_cdr.service.ts: a record is found again, and a call that has ended stays ended.
use next_call.Records.Laws.{update_one_kept}
use next_call.Records.Cdr.{
  answered, PbxCdr, update_called, get_by_callid, last_app, end_channel, set_agent_id,
  cdr_b_leg_hangup, b_leg_answered, is_cdr,
}
use next_call.Records.{Repository, update_one, find_one}
use next_call.Base.{
  ℕ, Bytes, Bool, List, Any, ◌∷◌, ◌≡◌, false, [], subst, sym, map-Any, true, if◌then◌else◌, some,
  Any-weaken, Bool-cases, inl, ◌∙◌, inr, refl, arith,
}

-- The updates of a record
pub data Update : Type 0 where
  called_is : ℕ → Bytes → Bytes → Update
  app_is : Bytes → ℕ → Bytes → Update
  agent_is : ℕ → Bytes → ℕ → Bytes → Bool → Update
  ended : ℕ → Bytes → ℕ → Bytes → Bytes → Update
  leg_ended : ℕ → ℕ → Bytes → Update
  leg_answered : ℕ → ℕ → Bytes → Update
  was_answered : ℕ → ℕ → Bytes → Bytes → Update

module _ (repository : Repository PbxCdr) where
  open repository use {Table, rows}

  -- The table after one update, and after several
  unfoldable pub updated : Update → Table → Table
  updated (called_is tenant call c) t = (update_called repository tenant call c t).1
  updated (app_is call tenant a) t = (last_app repository call tenant a t).1
  updated (agent_is now call tenant c b) t = (set_agent_id repository now call tenant c b t).1
  updated (ended now call tenant c b) t = (end_channel repository now call tenant c b t).1
  updated (leg_ended now id c) t = (cdr_b_leg_hangup repository now id c t).1
  updated (leg_answered now id b) t = (b_leg_answered repository now id b t).1
  updated (was_answered now tenant call a) t = (answered repository now tenant call a t).1

  unfoldable pub updates : List Update → Table → Table
  updates [] t = t
  updates (u ∷ us) t = updates us (updated u t)

  -- The record with this number has ended.
  abbrev pub HasEnded : ℕ → Table → Type 0
  HasEnded id t = Any (λ r. (r.id ≡ id) × (r.alive ≡ false)) (rows t)

  change-HasEnded :
      (p : PbxCdr → Bool) (f : PbxCdr → PbxCdr) (id : ℕ) (t : Table)
      → ((r : PbxCdr) → (f r).id ≡ r.id)
      → ((r : PbxCdr) → r.alive ≡ false → (f r).alive ≡ false)
      → HasEnded id t
      → HasEnded id (repository.change p f t)
  change-HasEnded p f id t k a h = subst (Any _) (sym (repository.changed p f t)) (
      map-Any (λ r. if p r then f r else r) (rows t)
        (Any-weaken (rows t)
          (λ r (e, b). elim (Bool-cases (p r)) [
            | inl q ↦ rw q (k r ∙ e, a r b)
            | inr q ↦ rw q (e, b)
          ])
          h))

  updated-HasEnded : (u : Update) (id : ℕ) (t : Table) → HasEnded id t → HasEnded id (updated u t)
  unfolding updated update_called last_app set_agent_id end_channel cdr_b_leg_hangup b_leg_answered
      answered update_one
  updated-HasEnded (called_is tenant call c) id t h =
      change-HasEnded _ _ id t (λ r. refl) (λ r a. a) h
  updated-HasEnded (app_is call tenant a) id t h = change-HasEnded _ _ id t (λ r. refl) (λ r b. b) h
  updated-HasEnded (agent_is now call tenant c true) id t h =
      change-HasEnded _ _ id t (λ r. refl) (λ r a. a) h
  updated-HasEnded (agent_is now call tenant c false) id t h =
      change-HasEnded _ _ id t (λ r. refl) (λ r a. a) h
  updated-HasEnded (ended now call tenant c b) id t h =
      change-HasEnded _ _ id t (λ r. refl) (λ r a. refl) h
  updated-HasEnded (leg_ended now n c) id t h = change-HasEnded _ _ id t (λ r. refl) (λ r a. refl) h
  updated-HasEnded (leg_answered now n b) id t h = change-HasEnded _ _ id t (λ r. refl) (λ r a. a) h
  updated-HasEnded (was_answered now tenant call a) id t h =
      change-HasEnded _ _ id t (λ r. refl) (λ r b. b) h

  -- A call whose record has ended stays ended, whatever updates of the records follow.
  pub updates-HasEnded :
      (us : List Update) (id : ℕ) (t : Table) → HasEnded id t → HasEnded id (updates us t)
  unfolding updates
  updates-HasEnded [] id t h = h
  updates-HasEnded (u ∷ us) id t h =
      updates-HasEnded us id (updated u t) (updated-HasEnded u id t h)

  -- The end of a channel is found again under its call, if the call has a record.
  pub get_by_callid-end_channel :
      (now : ℕ) (call : Bytes) (tenant : ℕ) (hangup_case hangup_by : Bytes) (t : Table)
      → Any (λ r. is_cdr tenant call r ≡ true) (rows t)
      → (r : PbxCdr) × (get_by_callid repository tenant call
            (end_channel repository now call tenant hangup_case hangup_by t).1
          ≡ some r)
        × (r.alive ≡ false)
        × (r.hangup_case ≡ hangup_case)
        × (r.hangup_by ≡ hangup_by)
  unfolding get_by_callid end_channel update_one find_one
  get_by_callid-end_channel now call tenant hangup_case hangup_by t h =
      let f : PbxCdr → PbxCdr = λ r. record r {
        alive = false;
        hangup_case = hangup_case;
        hangup_by = hangup_by;
        end_time = some now;
      } in
      let (x, m, k, e) =
        update_one_kept repository (is_cdr tenant call) f t
          (λ r k. unfold is_cdr in ground (arith, k)) h in
      (f x, e, refl, refl, refl)
