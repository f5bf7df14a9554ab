-- ===== src/Base/Lists.antt =====
-- Lists measured and indexed by native numbers, under the library's names.
use Prim.Native.Nat.{ℕ, zero, suc, ◌+◌, ◌-◌, ◌≤◌}
use mathlib.Core.Path.{◌≡◌, refl, ap, subst}
use mathlib.Core.Bool.{Bool}
use mathlib.Core.Option.{Option, none, some}
use mathlib.Core.List.{List, [], ◌∷◌, ◌++◌, map}
use native.Mathlib.Omega.{arith}
use next_call.Base.Tests.{if◌then◌else◌}

module _ {ℓ} {A : Type ℓ} where
  abbrev pub length : List A → ℕ
  length [] = 0
  length (x ∷ xs) = suc (length xs)

  abbrev pub get_elem? : List A → ℕ → Option A
  get_elem? [] i = none
  get_elem? (x ∷ xs) zero = some x
  get_elem? (x ∷ xs) (suc i) = get_elem? xs i

  abbrev pub take : ℕ → List A → List A
  take zero xs = []
  take (suc n) [] = []
  take (suc n) (x ∷ xs) = x ∷ take n xs

  abbrev pub drop : ℕ → List A → List A
  drop zero xs = xs
  drop (suc n) [] = []
  drop (suc n) (x ∷ xs) = drop n xs

  -- `Array.prototype.filter`
  abbrev pub keep : (A → Bool) → List A → List A
  keep p [] = []
  keep p (x ∷ xs) = if p x then x ∷ keep p xs else keep p xs

  -- Every element passes the test.
  abbrev pub All {κ} : (A → Type κ) → List A → Type κ
  All P [] = Unit
  All P (x ∷ xs) = P x × All P xs

module _ {ℓ} {A : Type ℓ} where
  pub length-append : (xs ys : List A) → length (xs ++ ys) ≡ length xs + length ys
  length-append [] ys = omega arith
  length-append (x ∷ xs) ys = omega (arith, length-append xs ys)

  pub length-drop : (n : ℕ) (xs : List A) → length (drop n xs) ≡ length xs - n
  length-drop zero xs = omega arith
  length-drop (suc n) [] = omega arith
  length-drop (suc n) (x ∷ xs) = omega (arith, length-drop n xs)

  pub take-append_le : (n : ℕ) (xs ys : List A) → n ≤ length xs → take n (xs ++ ys) ≡ take n xs
  take-append_le zero xs ys h = refl
  take-append_le (suc n) [] ys h = absurd (omega arith)
  take-append_le (suc n) (x ∷ xs) ys h = ap (◌∷◌ x) (take-append_le n xs ys (omega arith))

  pub drop-append_le :
      (n : ℕ) (xs ys : List A) → n ≤ length xs → drop n (xs ++ ys) ≡ drop n xs ++ ys
  drop-append_le zero xs ys h = refl
  drop-append_le (suc n) [] ys h = absurd (omega arith)
  drop-append_le (suc n) (x ∷ xs) ys h = drop-append_le n xs ys (omega arith)

  pub take-length : (xs ys : List A) → take (length xs) (xs ++ ys) ≡ xs
  take-length [] ys = refl
  take-length (x ∷ xs) ys = ap (◌∷◌ x) (take-length xs ys)

  pub drop-length : (xs ys : List A) → drop (length xs) (xs ++ ys) ≡ ys
  drop-length [] ys = refl
  drop-length (x ∷ xs) ys = drop-length xs ys

  pub take-append-drop : (n : ℕ) (xs : List A) → take n xs ++ drop n xs ≡ xs
  take-append-drop zero xs = refl
  take-append-drop (suc n) [] = refl
  take-append-drop (suc n) (x ∷ xs) = ap (◌∷◌ x) (take-append-drop n xs)

  pub All-append {κ} : (P : A → Type κ) (xs ys : List A) → All P xs → All P ys → All P (xs ++ ys)
  All-append P [] ys h k = k
  All-append P (x ∷ xs) ys (p, h) k = (p, All-append P xs ys h k)

-- Some element satisfies `P`.
pub data Any {A : Type 0} (P : A → Type 0) : List A → Type 0 where
  here : {x : A} {xs : List A} → P x → Any P (x ∷ xs)
  there : {x : A} {xs : List A} → Any P xs → Any P (x ∷ xs)

module _ {A B : Type 0} where
  pub Any-map : {P : B → Type 0} (f : A → B) (l : List A) → Any P (map f l) → Any (λ a. P (f a)) l
  Any-map f [] h = elim h [ ]
  Any-map f (x ∷ l) (here p) = here p
  Any-map f (x ∷ l) (there h) = there (Any-map f l h)

  pub map-Any : {P : B → Type 0} (f : A → B) (l : List A) → Any (λ a. P (f a)) l → Any P (map f l)
  map-Any f [] h = elim h [ ]
  map-Any f (x ∷ l) (here p) = here p
  map-Any f (x ∷ l) (there h) = there (map-Any f l h)

module _ {A : Type 0} {P : A → Type 0} where
  pub Any-left : (l m : List A) → Any P l → Any P (l ++ m)
  Any-left [] m h = elim h [ ]
  Any-left (x ∷ l) m (here p) = here p
  Any-left (x ∷ l) m (there h) = there (Any-left l m h)

  pub Any-right : (l m : List A) → Any P m → Any P (l ++ m)
  Any-right [] m h = h
  Any-right (x ∷ l) m h = there (Any-right l m h)

  pub Any-weaken : {Q : A → Type 0} (l : List A) → ((a : A) → P a → Q a) → Any P l → Any Q l
  Any-weaken [] f h = elim h [ ]
  Any-weaken (x ∷ l) f (here p) = here (f x p)
  Any-weaken (x ∷ l) f (there h) = there (Any-weaken l f h)

  -- What holds of all elements holds of the one that is there.
  pub All-Any : (l : List A) → All P l → Any (λ a. ¬ P a) l → ⊥
  All-Any [] h k = elim k [ ]
  All-Any (x ∷ l) (p, h) (here q) = q p
  All-Any (x ∷ l) (p, h) (there k) = All-Any l h k

  pub Any-witness : (l : List A) → Any P l → (a : A) × P a × Any (λ x. x ≡ a) l
  Any-witness [] h = elim h [ ]
  Any-witness (x ∷ l) (here p) = (x, p, here refl)
  Any-witness (x ∷ l) (there h) = let (a, p, m) = Any-witness l h in (a, p, there m)

-- `a` is an element of the list.
abbrev pub Elem : {A : Type 0} → A → List A → Type 0
Elem a l = Any (λ x. x ≡ a) l

-- What holds of all elements holds of each.
pub All-at : {A : Type 0} (P : A → Type 0) (l : List A) (a : A) → All P l → Elem a l → P a
All-at P [] a h k = elim k [ ]
All-at P (x ∷ l) a (p, h) (here e) = subst P e p
All-at P (x ∷ l) a (p, h) (there k) = All-at P l a h k
