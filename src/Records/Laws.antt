-- ===== src/Records/Laws.antt =====
-- src/common/BaseService.ts: what `updateOne` returns.
use next_call.Base.{
  Bool, ◌≡◌, some, true, Any, false, if◌then◌else◌, none, Any-map, Option-cases, subst, inl,
  Any-weaken, inr, Elem, Bool-cases, Any-witness, sym, arith, map-Any, All-at, ◌∙◌, ap, refl,
}
use next_call.Records.{Repository, update_one}

module _ {Row : Type 0} (repository : Repository Row) where
  open repository use {Table, rows, find_one_by, change}

  -- A row found after a change is a row that has been changed, or one that was left alone.
  pub find-change :
      (p q : Row → Bool) (f : Row → Row) (t : Table) (r : Row)
      → find_one_by q (change p f t) ≡ some r
      → (x : Row) × ((if p x then f x else x) ≡ r) × Elem x (rows t) × (q r ≡ true)
  find-change p q f t r h =
      let (m, k) = repository.found q (change p f t) r h in
      let (x, e, m') = Any-witness (rows t) (
        Any-map (λ x. if p x then f x else x) (rows t)
          (subst (Elem r) (repository.changed p f t) m)) in
      (x, e, m', k)

  -- A changed row is in the table.
  pub change-Elem :
      (p : Row → Bool) (f : Row → Row) (t : Table) (x : Row)
      → Elem x (rows t)
      → p x ≡ true
      → Elem (f x) (rows (change p f t))
  change-Elem p f t x m k = subst (Elem (f x)) (sym (repository.changed p f t)) (
      map-Any (λ y. if p y then f y else y) (rows t)
        (Any-weaken (rows t)
          (λ y e. subst (λ z. (if p z then f z else z) ≡ f x) (sym e) (rw k refl)) m))

  -- Where the change leads out of the test, no row is returned, though rows were changed.
  pub update_one_lost :
      (p : Row → Bool) (f : Row → Row) (t : Table)
      → ((r : Row) → p r ≡ true → p (f r) ≡ false)
      → (update_one repository p f t).0 ≡ none
  unfolding update_one
  update_one_lost p f t h = elim (Option-cases (find_one_by p (change p f t))) [
    | inl e ↦ e
    | inr (r, e) ↦
        let (x, q, m, k) = find-change p p f t r e in
        absurd (elim (Bool-cases (p x)) [
          | inl a ↦
              let b : f x ≡ r = ground (arith, q, a) in
              let c = subst (λ y. p y ≡ false) b (h x a) in ground (arith, c, k)
          | inr a ↦
              let b : x ≡ r = ground (arith, q, a) in
              let c = subst (λ y. p y ≡ false) b a in ground (arith, c, k)
        ])
  ]

  -- Where the change stays inside the test, the row that is returned is a changed one, and there is
  -- one if a row passed the test.
  pub update_one_kept :
      (p : Row → Bool) (f : Row → Row) (t : Table)
      → ((r : Row) → p r ≡ true → p (f r) ≡ true)
      → Any (λ x. p x ≡ true) (rows t)
      → (x : Row) × Elem x (rows t) × (p x ≡ true) × ((update_one repository p f t).0 ≡ some (f x))
  unfolding update_one
  update_one_kept p f t h some_row = elim (Option-cases (find_one_by p (change p f t))) [
    | inl e ↦
        let (x, k, m) = Any-witness (rows t) some_row in
        let a =
          All-at (λ y. p y ≡ false) (rows (change p f t)) (f x)
            (repository.missing p (change p f t) e) (change-Elem p f t x m k) in
        absurd (ground (arith, a, h x k))
    | inr (r, e) ↦
        let (x, q, m, k) = find-change p p f t r e in
        elim (Bool-cases (p x)) [
          | inl a ↦ let b : f x ≡ r = ground (arith, q, a) in (x, m, a, e ∙ ap some (sym b))
          | inr a ↦
              let b : x ≡ r = ground (arith, q, a) in
              let c = subst (λ y. p y ≡ false) b a in absurd (ground (arith, c, k))
        ]
  ]
