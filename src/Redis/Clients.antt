-- ===== src/Redis/Clients.antt =====
-- Finding a client by its name, and ending it.
use next_call.Base.Index.{
  index_of, index_of_bound, index_of_new, index_of_found_append, index_of_missing_append,
  get_elem?-append_lt, get_elem?-last,
}
use next_call.Base.{
  ℕ, ◌≡◌, refl, ap, subst, ◌==◌, true, Option, none, some, List, [], ◌∷◌, ◌++◌, Bytes, text_eq,
  text_eq_iff, length, get_elem?, Option-cases, Bool-cases, inl, inr, arith, if◌then◌else◌,
}
use next_call.Redis.{
  Redis, client_name, add_client, get_client_by_name, without_index, listener_of, on_end,
}

-- The two arrays are as long as one another.
abbrev pub HasBoth : Redis → Type 0
HasBoth r = length r.clients ≡ length r.clients_names

unfoldable found_at : List Bytes → List ℕ → Bytes → Option ℕ
unfolding index_of
found_at names clients key = elim (index_of names key) [
  | none ↦ none
  | some i ↦ get_elem? clients i
]

found_at-last :
    (names : List Bytes) (clients : List ℕ) (key other : Bytes) (client : ℕ)
    → length clients ≡ length names
    → index_of names key ≡ none
    → found_at (names ++ key ∷ []) (clients ++ client ∷ []) other
      ≡ (if text_eq key other then some client else found_at names clients other)
unfolding found_at
found_at-last names clients key other client h n = elim (Bool-cases (text_eq key other)) [
  | inl e ↦
      let same : key ≡ other = (text_eq_iff key other).0 e in
      let new : index_of (names ++ key ∷ []) other ≡ some (length names) =
        subst (λ x. index_of (names ++ key ∷ []) x ≡ some (length names)) same
          (index_of_new names key n) in
      rw (e, new, found_at, ← h) (get_elem?-last clients client)
  | inr e ↦ elim (Option-cases (index_of names other)) [
    | inl m ↦ rw (e, m, index_of_missing_append names key other m e, found_at) refl
    | inr (i, m) ↦
        rw (e, m, index_of_found_append names (key ∷ []) other i m, found_at)
          (get_elem?-append_lt clients (client ∷ []) i
            (omega (arith, h, index_of_bound names other i m)))
  ]
]

without_index-last {ℓ} :
    {A : Type ℓ} (xs : List A) (x : A) → without_index (length xs) (xs ++ x ∷ []) ≡ xs
unfolding without_index
without_index-last [] x = refl
without_index-last (y ∷ ys) x = ap (◌∷◌ y) (without_index-last ys x)

-- If the two arrays are as long as one another and a client is added under a new name, then this
-- name finds it, and every other name finds what it found before.
pub get_client_by_name-add_client :
    (name : Bytes) (client : ℕ) (r : Redis)
    → HasBoth r
    → index_of r.clients_names (client_name name r) ≡ none
    → (other : Bytes)
    → get_client_by_name other (add_client name client r) ≡ (
        if text_eq (client_name name r) (client_name other r)
        then some client
        else get_client_by_name other r)
unfolding get_client_by_name found_at client_name add_client text_eq
get_client_by_name-add_client name client r h n other =
    rw (n, add_client)
      (found_at-last r.clients_names r.clients (client_name name r) (client_name other r) client h
        n)

-- If the two arrays are as long as one another and a client that was just added under a new name
-- ends, the arrays are as they were before it was added.
pub on_end-add_client :
    (name : Bytes) (client : ℕ) (r : Redis)
    → HasBoth r
    → index_of r.clients_names (client_name name r) ≡ none
    → ((on_end client (add_client name client r)).clients_names ≡ r.clients_names)
      × ((on_end client (add_client name client r)).clients ≡ r.clients)
unfolding on_end client_name add_client listener_of
on_end-add_client name client r h n =
    let heard : (client == client) ≡ true = ground arith in
    let at_end : without_index (length r.clients_names) (r.clients ++ client ∷ []) ≡ r.clients =
      subst (λ k. without_index k (r.clients ++ client ∷ []) ≡ r.clients) h
        (without_index-last r.clients client) in
    (
      rw (n, add_client, on_end, listener_of, heard, n)
          (without_index-last r.clients_names (client_name name r)),
      rw (n, add_client, on_end, listener_of, heard, n) at_end,
    )
