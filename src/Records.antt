-- ===== src/Records.antt =====
-- src/common/BaseService.ts: what a service of the telephone records asks of its table, and the table
-- itself, which the database keeps. Extensions, Statistics and Cdr are services on it.
pub mod Memory
pub mod Laws
pub mod Extensions
pub mod Statistics
pub mod Cdr
use next_call.Base.{
  List, Bool, ◌∷◌, Option, [], ◌≡◌, some, Any, true, none, All, false, ◌↔◌, map, if◌then◌else◌,
  ◌++◌, Elem, keep, not,
}

-- A repository of the database, with what the services rely on, for a database that answers: a search
-- finds a row that passes the test if there is one, an update changes the rows that pass, new rows are
-- kept beside the others, and a deletion keeps the rows that do not pass.
pub record Repository (Row : Type 0) : Type 1 where
  pub Table : Type 0
  pub rows : Table → List Row
  pub find_one_by : (Row → Bool) → Table → Option Row
  pub find_by : (Row → Bool) → Table → List Row
  pub change : (Row → Bool) → (Row → Row) → Table → Table
  pub save : List Row → Table → Table
  pub remove : (Row → Bool) → Table → Table
  pub found :
      (p : Row → Bool) (t : Table) (r : Row)
      → find_one_by p t ≡ some r
      → Elem r (rows t) × (p r ≡ true)
  pub missing :
      (p : Row → Bool) (t : Table) → find_one_by p t ≡ none → All (λ x. p x ≡ false) (rows t)
  pub found_all :
      (p : Row → Bool) (t : Table) (r : Row)
      → Elem r (find_by p t) ↔ (Elem r (rows t) × (p r ≡ true))
  pub changed :
      (p : Row → Bool) (f : Row → Row) (t : Table)
      → rows (change p f t) ≡ map (λ r. if p r then f r else r) (rows t)
  pub saved : (l : List Row) (t : Table) → rows (save l t) ≡ rows t ++ l
  pub removed : (p : Row → Bool) (t : Table) → rows (remove p t) ≡ keep (λ r. not (p r)) (rows t)

module _ {Row : Type 0} (repository : Repository Row) where
  open repository use {Table, find_one_by, find_by, change, save}

  unfoldable pub find_one : (Row → Bool) → Table → Option Row
  find_one = find_one_by

  unfoldable pub find_rows : (Row → Bool) → Table → List Row
  find_rows = find_by

  unfoldable pub create : Row → Table → Table
  create r t = save (r ∷ []) t

  unfoldable pub bulk_create : List Row → Table → Table
  bulk_create l t = save l t

  -- The row that it returns is searched after the change, by the same test.
  unfoldable pub update_one : (Row → Bool) → (Row → Row) → Table → Option Row × Table
  update_one p f t = let t' = change p f t in (find_one_by p t', t')
