-- ===== src/Worker/Members/Rotation.antt =====
-- The order in which the round-robin strategy asks the agents.
use mathlib.Core.List.{Perm, perm_append_comm}
use mathlib.Core.List.Perm
use next_call.Base.{
  ℕ, suc, ◌+◌, ◌≡◌, sym, subst, ap, ◌∙◌, Option, none, some, List, [], ◌∷◌, ◌++◌, Bytes, arith,
  take, drop, take-append-drop, Option-cases, inl, inr, Bool-cases, text_eq, text_eq_iff,
  append_assoc, Elem, false, here, there, refl,
}
use next_call.Base.Index.{index_of, index_of_missing}
use next_call.Worker.Members.{rotated, first_agent}

-- The rotated order is a permutation of the members, whether there is an agent to start behind,
-- named by the queue or not, or none.
pub rotated-Perm :
    (agent : Option Bytes) (members : List Bytes) → Perm (rotated agent members) members
unfolding rotated
rotated-Perm none members = Perm.refl members
rotated-Perm (some agent) members = elim (Option-cases (index_of members agent)) [
  | inl h ↦ rw (h, rotated) (Perm.refl members)
  | inr (i, h) ↦
      rw (h, rotated)
        (subst (Perm (drop (i + 1) members ++ take (i + 1) members))
          (take-append-drop (i + 1) members)
          (perm_append_comm (drop (i + 1) members) (take (i + 1) members)))
]

take_index :
    (members : List Bytes) (agent : Bytes) (i : ℕ)
    → index_of members agent ≡ some i
    → take (suc i) members ≡ take i members ++ agent ∷ []
unfolding index_of
take_index [] agent i h = absurd (ground arith)
take_index (m ∷ ms) agent i h = elim (Bool-cases (text_eq m agent)) [
  | inl e ↦
      let here : i ≡ 0 = ground arith in
      let same : m ≡ agent = ground (arith, text_eq_iff m agent) in
      subst (λ k. take (suc k) (m ∷ ms) ≡ take k (m ∷ ms) ++ agent ∷ []) (sym here)
        (ap (λ x. x ∷ []) same)
  | inr e ↦ elim (Option-cases (index_of ms agent)) [
    | inl n ↦ absurd (ground arith)
    | inr (j, n) ↦
        let there : i ≡ suc j = ground arith in
        subst (λ k. take (suc k) (m ∷ ms) ≡ take k (m ∷ ms) ++ agent ∷ []) (sym there)
          (ap (◌∷◌ m) (take_index ms agent j n))
  ]
]

-- If the agent who was called last stands at an index of the members, then the rotated order is
-- the members behind this agent, then those before, and the agent last.
pub rotated_last :
    (members : List Bytes) (agent : Bytes) (i : ℕ)
    → index_of members agent ≡ some i
    → rotated (some agent) members ≡ (drop (i + 1) members ++ take i members) ++ agent ∷ []
unfolding rotated
rotated_last members agent i h =
    let one : i + 1 ≡ suc i = omega arith in
    rw (h, rotated)
      (ap (◌++◌ (drop (i + 1) members))
          (ap (λ k. take k members) one ∙ take_index members agent i h)
        ∙ sym (append_assoc (drop (i + 1) members) (take i members) (agent ∷ [])))

-- Whose turn it is in a queue, when the agents called come sorted by their last call: behind the member
-- who was called last, and this one last of all. Where nobody was called, or nobody with a name, or a
-- stranger, it is the order of the queue.
pub data TurnOrder (finds members order : List Bytes) : Type 0 where
  nobody_called : finds ≡ [] → order ≡ members → TurnOrder finds members order
  no_name :
      (rest : List Bytes) → finds ≡ [] ∷ rest → order ≡ members → TurnOrder finds members order
  stranger :
      (agent : Bytes) (rest : List Bytes)
      → finds ≡ agent ∷ rest
      → (Elem agent members → ⊥)
      → order ≡ members
      → TurnOrder finds members order
  behind :
      (agent : Bytes) (rest before after : List Bytes)
      → finds ≡ agent ∷ rest
      → members ≡ before ++ agent ∷ after
      → (Elem agent before → ⊥)
      → order ≡ (after ++ before) ++ agent ∷ []
      → TurnOrder finds members order

-- The agent stands behind the first `i` members, and is none of these.
abbrev StandsAt : Bytes → List Bytes → ℕ → ℕ → Type 0
StandsAt agent members i k =
    (members ≡ take i members ++ agent ∷ drop k members) × (Elem agent (take i members) → ⊥)

StandsAt-later :
    (m agent : Bytes) (ms : List Bytes) (j : ℕ)
    → text_eq m agent ≡ false
    → StandsAt agent ms j (suc j)
    → StandsAt agent (m ∷ ms) (suc j) (suc (suc j))
StandsAt-later m agent ms j e (split, first) = (
  ap (◌∷◌ m) split,
  λ h. elim h [ here k ↦ ground (arith, e, (text_eq_iff m agent).1 k) | there k ↦ first k ],
)

index_of-StandsAt :
    (members : List Bytes) (agent : Bytes) (i : ℕ)
    → index_of members agent ≡ some i
    → StandsAt agent members i (suc i)
unfolding index_of
index_of-StandsAt [] agent i h = absurd (ground arith)
index_of-StandsAt (m ∷ ms) agent i h = elim (Bool-cases (text_eq m agent)) [
  | inl e ↦
      let first : i ≡ 0 = ground arith in
      subst (λ i. StandsAt agent (m ∷ ms) i (suc i)) (sym first)
        (ap (λ x. x ∷ ms) ((text_eq_iff m agent).0 e), λ k. elim k [ ])
  | inr e ↦ elim (Option-cases (index_of ms agent)) [
    | inl n ↦ absurd (ground arith)
    | inr (j, n) ↦
        let later : i ≡ suc j = ground arith in
        subst (λ i. StandsAt agent (m ∷ ms) i (suc i)) (sym later)
          (StandsAt-later m agent ms j e (index_of-StandsAt ms agent j n))
  ]
]

rotated_stranger :
    (members : List Bytes) (agent : Bytes)
    → index_of members agent ≡ none
    → rotated (some agent) members ≡ members
unfolding rotated
rotated_stranger members agent h = rw (h, rotated) refl

-- The order that `rotated` gives is the order of turns.
pub rotated-TurnOrder :
    (finds members : List Bytes) → TurnOrder finds members (rotated (first_agent finds) members)
unfolding first_agent rotated
rotated-TurnOrder [] members = nobody_called refl refl
rotated-TurnOrder ([] ∷ rest) members = no_name rest refl refl
rotated-TurnOrder ((c ∷ s) ∷ rest) members = elim (Option-cases (index_of members (c ∷ s))) [
  | inl e ↦
      stranger (c ∷ s) rest refl (index_of_missing members (c ∷ s) e)
        (rotated_stranger members (c ∷ s) e)
  | inr (i, e) ↦
      let one : i + 1 ≡ suc i = omega arith in
      let (split, first) = index_of-StandsAt members (c ∷ s) i e in
      behind (c ∷ s) rest (take i members) (drop (i + 1) members) refl
        (split ∙ ap (λ k. take i members ++ (c ∷ s) ∷ drop k members) (sym one)) first
        (rotated_last members (c ∷ s) i e)
]
