-- ===== src/Base/Assoc.antt =====
-- JavaScript objects and `Map`s with text keys, as association lists in insertion order: a write to
-- a key that is there keeps its place.
use mathlib.Core.Path.{◌≡◌, refl}
use mathlib.Core.Option.{Option, none, some}
use mathlib.Core.List.{List, [], ◌∷◌}
use native.Mathlib.Omega.{arith}
use next_call.Base.Tests.{if◌then◌else◌}
use next_call.Base.Text.{Bytes, text_eq, text_eq_iff}

module _ {ℓ} {V : Type ℓ} where
  -- `m.get(k)`, with `none` for a key that is not there
  unfoldable pub lookup : Bytes → List (Bytes × V) → Option V
  lookup k [] = none
  lookup k ((j, v) ∷ m) = if text_eq j k then some v else lookup k m

  -- `m.set(k, v)`, `o[k] = v`
  unfoldable pub insert : Bytes → V → List (Bytes × V) → List (Bytes × V)
  insert k v [] = (k, v) ∷ []
  insert k v ((j, w) ∷ m) = if text_eq j k then (j, v) ∷ m else (j, w) ∷ insert k v m

  -- `m.delete(k)`
  unfoldable pub erase : Bytes → List (Bytes × V) → List (Bytes × V)
  erase k [] = []
  erase k ((j, w) ∷ m) = if text_eq j k then erase k m else (j, w) ∷ erase k m

  pub lookup_cons :
      (k j : Bytes) (v : V) (m : List (Bytes × V))
      → lookup k ((j, v) ∷ m) ≡ (if text_eq j k then some v else lookup k m)
  unfolding lookup
  lookup_cons k j v m = refl

  pub lookup_nil : (k : Bytes) → lookup k [] ≡ none
  unfolding lookup
  lookup_nil k = refl

  pub lookup-insert :
      (k j : Bytes) (v : V) (m : List (Bytes × V))
      → lookup j (insert k v m) ≡ (if text_eq k j then some v else lookup j m)
  unfolding lookup insert
  lookup-insert k j v [] = refl
  lookup-insert k j v ((i, w) ∷ m) =
      ground (arith, text_eq_iff k j, text_eq_iff i k, text_eq_iff i j, lookup-insert k j v m)

  pub lookup-erase :
      (k j : Bytes) (m : List (Bytes × V))
      → lookup j (erase k m) ≡ (if text_eq k j then none else lookup j m)
  unfolding lookup erase
  lookup-erase k j [] = ground arith
  lookup-erase k j ((i, w) ∷ m) =
      ground (arith, text_eq_iff k j, text_eq_iff i k, text_eq_iff i j, lookup-erase k j m)

  -- `Object.assign(target, source)`
  unfoldable pub assign : List (Bytes × V) → List (Bytes × V) → List (Bytes × V)
  assign target [] = target
  assign target ((k, v) ∷ source) = assign (insert k v target) source

  -- No key stands twice, as in every JavaScript object.
  abbrev pub HasOwnKeys : List (Bytes × V) → Type ℓ
  HasOwnKeys [] = Unit
  HasOwnKeys ((k, v) ∷ m) = (lookup k m ≡ none) × HasOwnKeys m

  abbrev pub first_of : Option V → Option V → Option V
  first_of none d = d
  first_of (some v) d = some v

  pub lookup-assign :
      (source target : List (Bytes × V)) (k : Bytes)
      → HasOwnKeys source
      → lookup k (assign target source) ≡ first_of (lookup k source) (lookup k target)
  unfolding assign
  lookup-assign [] target k h = rw lookup_nil
  lookup-assign ((j, v) ∷ m) target k (fresh, h) = ground (
    arith,
    lookup-assign m (insert j v target) k h,
    lookup-insert j k v target,
    lookup_cons k j v m,
    text_eq_iff j k,
  )
