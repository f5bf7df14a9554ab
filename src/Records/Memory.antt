-- ===== src/Records/Memory.antt =====
-- src/common/BaseService.ts: a table that is a list of its rows, which shows that what the services rely
-- on can be had.
use next_call.Records.{Repository}
use next_call.Base.{
  Bool, List, Option, ◌≡◌, keep, none, some, ◌↔◌, map, ◌∷◌, true, All, if◌then◌else◌, arith, false,
  Bool-cases, ◌++◌, [], inl, here, inr, there, Elem, subst, refl, sym, not,
}

module _ {Row : Type 0} where
  unfoldable pub first_row : (Row → Bool) → List Row → Option Row
  first_row p [] = none
  first_row p (r ∷ l) = let later = first_row p l in if p r then some r else later

  pub first_row-found :
      (p : Row → Bool) (l : List Row) (r : Row) → first_row p l ≡ some r → Elem r l × (p r ≡ true)
  unfolding first_row
  first_row-found p [] r h = absurd (ground (arith, h))
  first_row-found p (x ∷ l) r h = elim (Bool-cases (p x)) [
    | inl e ↦ let q : x ≡ r = ground (arith, h, e) in (here q, subst (λ y. p y ≡ true) q e)
    | inr e ↦ let (m, q) = first_row-found p l r (ground (arith, h, e)) in (there m, q)
  ]

  pub first_row-missing :
      (p : Row → Bool) (l : List Row) → first_row p l ≡ none → All (λ x. p x ≡ false) l
  unfolding first_row
  first_row-missing p [] h = tt
  first_row-missing p (x ∷ l) h = elim (Bool-cases (p x)) [
    | inl e ↦ absurd (ground (arith, h, e))
    | inr e ↦ (e, first_row-missing p l (ground (arith, h, e)))
  ]

  Elem-keep :
      (p : Row → Bool) (l : List Row) (r : Row) → Elem r (keep p l) → Elem r l × (p r ≡ true)
  Elem-keep p [] r = λ h. elim h [ ]
  Elem-keep p (x ∷ l) r =
      let first_of : Elem r (x ∷ keep p l) → p x ≡ true → Elem r (x ∷ l) × (p r ≡ true) = λ h e.
        elim h [
          | here q ↦ (here q, subst (λ y. p y ≡ true) q e)
          | there k ↦ let (m, q) = Elem-keep p l r k in (there m, q)
        ] in
      elim (Bool-cases (p x)) [
        | inl e ↦ rw e (λ h. first_of h e)
        | inr e ↦ rw e (λ h. let (m, q) = Elem-keep p l r h in (there m, q))
      ]

  keep-Elem : (p : Row → Bool) (l : List Row) (r : Row) → Elem r l → p r ≡ true → Elem r (keep p l)
  keep-Elem p [] r h k = elim h [ ]
  keep-Elem p (x ∷ l) r (here q) k = rw (subst (λ y. p y ≡ true) (sym q) k) (here q)
  keep-Elem p (x ∷ l) r (there h) k =
      let later = keep-Elem p l r h k in
      elim (Bool-cases (p x)) [ inl e ↦ rw e (there later) | inr e ↦ rw e later ]

  pub keep_iff :
      (p : Row → Bool) (l : List Row) (r : Row) → Elem r (keep p l) ↔ (Elem r l × (p r ≡ true))
  keep_iff p l r = (Elem-keep p l r, λ (m, k). keep-Elem p l r m k)

abbrev pub memory : (Row : Type 0) → Repository Row
memory Row = record {
  Table = List Row;
  rows = λ t. t;
  find_one_by = first_row;
  find_by = keep;
  change = λ p f t. map (λ r. if p r then f r else r) t;
  save = λ l t. t ++ l;
  remove = λ p t. keep (λ r. not (p r)) t;
  found = first_row-found;
  missing = first_row-missing;
  found_all = keep_iff;
  changed = λ p f t. refl;
  saved = λ l t. refl;
  removed = λ p t. refl;
}
