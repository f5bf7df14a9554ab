-- ===== src/Redis.antt =====
-- src/esl/redis/redis.service.ts: the redis clients by name, in two parallel arrays. A client is a
-- number, which stands for the object.
pub mod Clients
use next_call.Base.Index.{index_of}
use next_call.Base.{
  ℕ, zero, suc, ◌==◌, Option, none, some, List, [], ◌∷◌, ◌++◌, Bytes, if◌then◌else◌, length,
  get_elem?,
}

-- `listeners` holds for each client the index that its listeners were given.
pub record Redis : Type 0 where
  pub clients_names : List Bytes
  pub clients : List ℕ
  pub name_prefix : Bytes
  pub listeners : List (ℕ × ℕ)

-- The constructor
abbrev pub new_redis : Redis
new_redis = record { clients_names = []; clients = []; name_prefix = []; listeners = [] }

-- `${this.namePrefix}-${name}`
unfoldable pub client_name : Bytes → Redis → Bytes
client_name name r = r.name_prefix ++ (b'-' ∷ name)

-- `addClient`, where `client` is the new client; `listenClientEvents` is given the last index.
unfoldable pub add_client : Bytes → ℕ → Redis → Redis
unfolding index_of client_name
add_client name client r = elim (index_of r.clients_names (client_name name r)) [
  | some i ↦ r
  | none ↦ record r {
    clients_names = r.clients_names ++ client_name name r ∷ [];
    clients = r.clients ++ client ∷ [];
    listeners = (client, length r.clients_names) ∷ r.listeners;
  }
]

-- `getClientByName`
unfoldable pub get_client_by_name : Bytes → Redis → Option ℕ
unfolding index_of client_name
get_client_by_name name r = elim (index_of r.clients_names (client_name name r)) [
  | none ↦ none
  | some i ↦ get_elem? r.clients i
]

-- `array.splice(index, 1)`
unfoldable pub without_index {ℓ} : {A : Type ℓ} → ℕ → List A → List A
without_index i [] = []
without_index zero (x ∷ xs) = xs
without_index (suc i) (x ∷ xs) = x ∷ without_index i xs

unfoldable pub listener_of : ℕ → List (ℕ × ℕ) → Option ℕ
listener_of client [] = none
listener_of client ((c, i) ∷ ls) = if c == client then some i else listener_of client ls

-- The listener of `end`: it removes what stands at its own index.
unfoldable pub on_end : ℕ → Redis → Redis
unfolding without_index listener_of
on_end client r = elim (listener_of client r.listeners) [
  | none ↦ r
  | some i ↦ record r {
    clients_names = without_index i r.clients_names;
    clients = without_index i r.clients;
  }
]

unfoldable pub set_name_prefix : Bytes → Redis → Redis
set_name_prefix prefix r = record r { name_prefix = prefix }
