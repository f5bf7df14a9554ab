-- ===== src/Records/Extensions/Creation.antt =====
-- src/pbx/services/pbx_extensionn.service.ts: which extensions `mutilCreate` creates.
use next_call.Esl.Value.Decimal.{show_nat}
use next_call.Base.Index.{index_of, index_of-Elem}
use next_call.Records.Extensions.{
  PbxExtensionn, mutil_create, new_extens, new_extension, unless_used,
}
use next_call.Records.{Repository, find_rows, bulk_create}
use next_call.Base.{
  ℕ, Bytes, List, ◌≡◌, Elem, map, ◌↔◌, none, ◌==◌, Any, Any-witness, ◌++◌, ◌≤◌, Any-map, All, ◌<◌,
  ◌-◌, Any-weaken, ◌+◌, arith, ap, suc, Bool-cases, ◌∙◌, subst, some, ==_iff, sym, inl, zero, here,
  map-Any, Option-cases, refl, Any-right, inr, there, Any-left, ◌∷◌, [],
}

-- What a row is that `mutilCreate` makes
pub record IsNew (tenant : ℕ) (password : Bytes) (useds : List Bytes) (start stop : ℕ)
    (r : PbxExtensionn) : Type 0 where
  pub of_tenant : r.tenant_id ≡ tenant
  pub with_password : r.password ≡ password
  pub unused : index_of useds r.account_code ≡ none
  pub number : (j : ℕ) × (r.account_code ≡ show_nat j) × (start ≤ j) × (j < stop)

-- Numbers from `i` on, each above the one before
abbrev pub IsAscending : ℕ → List ℕ → Type 0
IsAscending i [] = Unit
IsAscending i (k ∷ ks) = (i ≤ k) × IsAscending (suc k) ks

IsAscending-from : (i : ℕ) (ks : List ℕ) → IsAscending (suc i) ks → IsAscending i ks
IsAscending-from i [] h = tt
IsAscending-from i (k ∷ ks) (h, t) = (omega (arith, h), t)

module _ (tenant : ℕ) (password : Bytes) (useds : List Bytes) where
  -- The rows that are made are those of ascending numbers.
  new_extens-IsAscending :
      (left i : ℕ)
      → (ks : List ℕ) × IsAscending i ks
        × (new_extens tenant password useds left i
            ≡ map (λ k. new_extension tenant password (show_nat k)) ks)
  unfolding new_extens unless_used
  new_extens-IsAscending zero i = ([], tt, refl)
  new_extens-IsAscending (suc left) i =
      let (ks, up, same) = new_extens-IsAscending left (suc i) in
      elim (index_of useds (show_nat i))
        as (λ o.
          (ks : List ℕ) × IsAscending i ks
          × (unless_used o (new_extension tenant password (show_nat i))
                (new_extens tenant password useds left (suc i))
              ≡ map (λ k. new_extension tenant password (show_nat k)) ks)) [
                | none ↦ (
                  i ∷ ks,
                  (omega arith, up),
                  ap (◌∷◌ (new_extension tenant password (show_nat i))) same,
                )
                | some j ↦ (ks, IsAscending-from i ks up, same)
              ]

  new_extens-All :
      (start stop left i : ℕ)
      → start ≤ i
      → left ≤ stop - i
      → All (IsNew tenant password useds start stop) (new_extens tenant password useds left i)
  unfolding new_extens new_extension unless_used
  new_extens-All start stop zero i h k = tt
  new_extens-All start stop (suc left) i h k =
      let later = new_extens-All start stop left (suc i) (omega (arith, h)) (omega (arith, k)) in
      let r = new_extension tenant password (show_nat i) in
      let rest = new_extens tenant password useds left (suc i) in
      elim (index_of useds (show_nat i))
          as (λ o.
            index_of useds (show_nat i) ≡ o
            → All (IsNew tenant password useds start stop) (unless_used o r rest)) [
              | none ↦ λ e. (
                record {
                  of_tenant = refl;
                  with_password = refl;
                  unused = e;
                  number = (i, refl, h, omega (arith, k));
                },
                later,
              )
              | some j ↦ λ e. later
            ]
        refl

  -- Every number of the range is used already, or has a new row.
  new_extens-Any :
      (left i j : ℕ)
      → i ≤ j
      → j < i + left
      → index_of useds (show_nat j) ≡ none
      → Any
          (λ r. (r.tenant_id ≡ tenant) × (r.account_code ≡ show_nat j))
          (new_extens tenant password useds left i)
  unfolding new_extens new_extension unless_used
  new_extens-Any zero i j h k e = absurd (omega (arith, h, k))
  new_extens-Any (suc left) i j h k e =
      let r = new_extension tenant password (show_nat i) in
      let rest = new_extens tenant password useds left (suc i) in
      elim (index_of useds (show_nat i))
          as (λ o.
            index_of useds (show_nat i) ≡ o
            → Any (λ r. (r.tenant_id ≡ tenant) × (r.account_code ≡ show_nat j))
                (unless_used o r rest)) [
                  | none ↦ λ n. elim (Bool-cases (i == j)) [
                    | inl q ↦ here (refl, ap show_nat ((==_iff i j).0 q))
                    | inr q ↦
                        there (
                          new_extens-Any left (suc i) j (ground (arith, h, q)) (omega (arith, k)) e)
                  ]
                  | some u ↦ λ n. elim (Bool-cases (i == j)) [
                    | inl q ↦
                        let p =
                          subst (λ v. index_of useds (show_nat v) ≡ some u) ((==_iff i j).0 q) n in
                        absurd (ground (arith, p, e))
                    | inr q ↦
                        new_extens-Any left (suc i) j (ground (arith, h, q)) (omega (arith, k)) e
                  ]
                ]
        refl

module _ (repository : Repository PbxExtensionn) where
  open repository use {Table, rows}

  -- An extension of the tenant has this code.
  abbrev pub HasCode : ℕ → Bytes → PbxExtensionn → Type 0
  HasCode tenant code r = (r.tenant_id ≡ tenant) × (r.account_code ≡ code)

  pub useds_of : ℕ → Table → List Bytes
  useds_of tenant t = map (λ r. r.account_code) (repository.find_by (λ r. r.tenant_id == tenant) t)

  -- A code is in use exactly if an extension of the tenant has it.
  useds_iff :
      (tenant : ℕ) (code : Bytes) (t : Table)
      → Elem code (useds_of tenant t) ↔ Any (HasCode tenant code) (rows t)
  unfolding useds_of
  useds_iff tenant code t =
      let found = repository.find_by (λ r. r.tenant_id == tenant) t in
      (
        λ m.
            let (x, e, m') = Any-witness found (Any-map (λ r. r.account_code) found m) in
            let (n, q) = (repository.found_all (λ r. r.tenant_id == tenant) t x).0 m' in
            Any-weaken (rows t)
              (λ y d. (
                ap (λ r. r.tenant_id) d ∙ (==_iff x.tenant_id tenant).0 q,
                ap (λ r. r.account_code) d ∙ e,
              ))
              n,
        λ h.
            let (x, (q, e), m) = Any-witness (rows t) h in
            let n =
              (repository.found_all (λ r. r.tenant_id == tenant) t x).1
                (m, (==_iff x.tenant_id tenant).1 q) in
            map-Any (λ r. r.account_code) found
              (Any-weaken found (λ y d. ap (λ r. r.account_code) d ∙ e) n),
      )

  -- The extensions of a range are created: the rows before are kept, each new row has a number of the
  -- range that no extension of the tenant had, no two of them the same, and afterwards every number of
  -- the range has one.
  pub mutil_create-range :
      (tenant start end : ℕ) (password : Bytes) (t : Table)
      → (new : List PbxExtensionn) × (rows (mutil_create repository tenant start end password t)
          ≡ rows t ++ new)
        × All (IsNew tenant password (useds_of tenant t) start (end + 1)) new
        × ((ks : List ℕ) × IsAscending start ks
            × (new ≡ map (λ k. new_extension tenant password (show_nat k)) ks))
        × ((j : ℕ)
            → start ≤ j
            → j ≤ end
            → Any
                (HasCode tenant (show_nat j))
                (rows (mutil_create repository tenant start end password t)))
  unfolding mutil_create find_rows bulk_create useds_of
  mutil_create-range tenant start end password t =
      let useds = useds_of tenant t in
      let left = end + 1 - start in
      let new = new_extens tenant password useds left start in
      (
        new,
        repository.saved new t,
        new_extens-All tenant password useds start (end + 1) left start (omega arith) (omega arith),
        new_extens-IsAscending tenant password useds left start,
        λ j h k.
            subst (Any (HasCode tenant (show_nat j))) (sym (repository.saved new t))
              (elim (Option-cases (index_of useds (show_nat j))) [
                | inl e ↦
                    Any-right (rows t) new
                      (new_extens-Any tenant password useds left start j h (omega (arith, h, k)) e)
                | inr (i, e) ↦
                    Any-left (rows t) new
                      ((useds_iff tenant (show_nat j) t).0 (index_of-Elem useds (show_nat j) i e))
              ]),
      )
