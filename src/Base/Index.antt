-- ===== src/Base/Index.antt =====
-- `Array.prototype.indexOf` on texts, and what stands at the index that it finds.
use Prim.Native.Nat.{ℕ, zero, suc, ◌<◌}
use mathlib.Core.Path.{◌≡◌, refl}
use mathlib.Core.Logic.{◌⊎◌, inl, inr}
use mathlib.Core.Bool.{true, false}
use mathlib.Core.Option.{Option, none, some}
use mathlib.Core.List.{List, [], ◌∷◌, ◌++◌}
use native.Mathlib.Omega.{arith}
use next_call.Base.Tests.{Bool-cases, Option-cases}
use next_call.Base.Lists.{Elem, here, there, length, get_elem?}
use next_call.Base.Text.{Bytes, text_eq, text_eq_iff, text_eq_refl}

-- `indexOf`, with `none` for -1
unfoldable pub index_of : List Bytes → Bytes → Option ℕ
index_of [] a = none
index_of (x ∷ xs) a = elim (text_eq x a) [
  | true ↦ some 0
  | false ↦ elim (index_of xs a) [ none ↦ none | some i ↦ some (suc i) ]
]

pub index_of_bound : (l : List Bytes) (a : Bytes) (i : ℕ) → index_of l a ≡ some i → i < length l
unfolding index_of
index_of_bound [] a i h = cc h
index_of_bound (x ∷ l) a i h = elim (Bool-cases (text_eq x a)) [
  | inl e ↦ ground arith
  | inr e ↦ elim (Option-cases (index_of l a)) [
    | inl n ↦ ground arith
    | inr (j, n) ↦ let b = index_of_bound l a j n in ground arith
  ]
]

-- Looking a name up behind one more topic.
pub index_of-last :
    (l : List Bytes) (x a : Bytes) (i : ℕ)
    → index_of (l ++ x ∷ []) a ≡ some i
    → (index_of l a ≡ some i) ⊎ ((x ≡ a) × (i ≡ length l))
unfolding index_of
index_of-last [] x a i h = ground (arith, text_eq_iff x a)
index_of-last (y ∷ l) x a i h = elim (Bool-cases (text_eq y a)) [
  | inl e ↦ ground arith
  | inr e ↦ elim (Option-cases (index_of (l ++ x ∷ []) a)) [
    | inl n ↦ ground arith
    | inr (m, n) ↦ let b = index_of-last l x a m n in ground arith
  ]
]

pub index_of_new :
    (l : List Bytes) (x : Bytes) → index_of l x ≡ none → index_of (l ++ x ∷ []) x ≡ some (length l)
unfolding index_of
index_of_new [] x h = ground (arith, text_eq_refl x)
index_of_new (y ∷ l) x h = elim (Bool-cases (text_eq y x)) [
  | inl e ↦ ground arith
  | inr e ↦ elim (Option-cases (index_of l x)) [
    | inl n ↦ let b = index_of_new l x n in ground arith
    | inr (m, n) ↦ ground arith
  ]
]

pub get_elem?-append_lt {ℓ} :
    {A : Type ℓ} (l m : List A) (i : ℕ) → i < length l → get_elem? (l ++ m) i ≡ get_elem? l i
get_elem?-append_lt [] m i h = absurd (omega arith)
get_elem?-append_lt (x ∷ l) m zero h = refl
get_elem?-append_lt (x ∷ l) m (suc i) h = get_elem?-append_lt l m i (omega arith)

pub get_elem?-last {ℓ} :
    {A : Type ℓ} (l : List A) (a : A) → get_elem? (l ++ a ∷ []) (length l) ≡ some a
get_elem?-last [] a = refl
get_elem?-last (x ∷ l) a = get_elem?-last l a

-- What stands behind a list of texts.
pub index_of_found_append :
    (l m : List Bytes) (a : Bytes) (i : ℕ) → index_of l a ≡ some i → index_of (l ++ m) a ≡ some i
unfolding index_of
index_of_found_append [] m a i h = absurd (ground arith)
index_of_found_append (x ∷ l) m a i h = elim (Bool-cases (text_eq x a)) [
  | inl e ↦ ground arith
  | inr e ↦ elim (Option-cases (index_of l a)) [
    | inl n ↦ absurd (ground arith)
    | inr (j, n) ↦ let b = index_of_found_append l m a j n in ground arith
  ]
]

pub index_of_missing_append :
    (l : List Bytes) (x a : Bytes)
    → index_of l a ≡ none
    → text_eq x a ≡ false
    → index_of (l ++ x ∷ []) a ≡ none
unfolding index_of
index_of_missing_append [] x a h k = ground arith
index_of_missing_append (y ∷ l) x a h k = elim (Bool-cases (text_eq y a)) [
  | inl e ↦ absurd (ground arith)
  | inr e ↦ elim (Option-cases (index_of l a)) [
    | inl n ↦ let b = index_of_missing_append l x a n k in ground arith
    | inr (j, n) ↦ absurd (ground arith)
  ]
]

-- A text is found exactly where it stands.
pub index_of-Elem : (l : List Bytes) (a : Bytes) (i : ℕ) → index_of l a ≡ some i → Elem a l
unfolding index_of
index_of-Elem [] a i h = absurd (ground (arith, h))
index_of-Elem (x ∷ l) a i h = elim (Bool-cases (text_eq x a)) [
  | inl e ↦ here ((text_eq_iff x a).0 e)
  | inr e ↦ elim (Option-cases (index_of l a)) [
    | inl n ↦ absurd (ground (arith, h, n, e))
    | inr (j, n) ↦ there (index_of-Elem l a j n)
  ]
]

pub index_of_missing : (l : List Bytes) (a : Bytes) → index_of l a ≡ none → Elem a l → ⊥
unfolding index_of
index_of_missing [] a h m = elim m [ ]
index_of_missing (x ∷ l) a h (here e) = ground (arith, (text_eq_iff x a).1 e)
index_of_missing (x ∷ l) a h (there m) = elim (Bool-cases (text_eq x a)) [
  | inl e ↦ ground (arith, h, e)
  | inr e ↦ elim (Option-cases (index_of l a)) [
    | inl n ↦ index_of_missing l a n m
    | inr (j, n) ↦ ground (arith, h, n, e)
  ]
]
