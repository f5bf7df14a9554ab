-- ===== src/Worker/Members/Shuffle.antt =====
-- What `shuffle` returns for the values that `Math.random() * n` takes.
use next_call.Base.{
  ℕ, zero, suc, ◌≡◌, refl, false, Option, none, List, [], ◌∷◌, Bytes, length, codes,
}
use next_call.Worker.Members.{
  Extension, Draw, element_at, splice, shuffle_loop, shuffle, cycle_find, random_strategy, unlocked,
}

repeat : ℕ → Option Bytes → List (Option Bytes)
repeat zero x = []
repeat (suc n) x = x ∷ repeat n x

shuffle_loop_fraction :
    (draw : ℕ → Draw)
    → ((n : ℕ) → (draw n).exact ≡ false)
    → (n : ℕ) (xs : List Bytes) → shuffle_loop draw n xs ≡ repeat n none
unfolding shuffle_loop repeat element_at
shuffle_loop_fraction draw h zero xs = refl
shuffle_loop_fraction draw h (suc n) xs =
    rw (h (suc n), shuffle_loop_fraction draw h n (splice (draw (suc n)).whole xs)) refl

cycle_find_undefined :
    (check : Bytes → Option Extension) (n : ℕ)
    → check (codes "undefined") ≡ none
    → cycle_find check (repeat n none) ≡ none
unfolding cycle_find repeat
cycle_find_undefined check zero h = refl
cycle_find_undefined check (suc n) h = rw (h, cycle_find_undefined check n h) refl

-- If no value of `Math.random() * n` is a whole number, and there is no agent whose number is the
-- text "undefined", then the random strategy finds nobody, whoever is free.
pub random_strategy_fraction :
    (check : Bytes → Option Extension) (draw : ℕ → Draw) (locked members : List Bytes)
    → ((n : ℕ) → (draw n).exact ≡ false)
    → check (codes "undefined") ≡ none
    → random_strategy check draw locked members ≡ none
unfolding random_strategy shuffle
random_strategy_fraction check draw locked members h k =
    rw (shuffle_loop_fraction draw h (length (unlocked locked members)) (unlocked locked members))
      (cycle_find_undefined check _ k)
