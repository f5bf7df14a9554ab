-- ===== src/Worker/Registry.antt =====
-- `add`, `getQueueByName` and `readyCacheBullQueue`: two parallel arrays of topics and queues.
pub mod Laws
use next_call.Base.Index.{index_of}
use next_call.Base.{
  ℕ, suc, Bool, true, false, Option, none, some, List, [], ◌∷◌, ◌++◌, ◌==◌, ◌&&◌, ◌-◌, Bytes, codes,
  text_eq, if◌then◌else◌, length, get_elem?, text_or,
}
use next_call.Esl.Value.{Value, num, parse_int}
use next_call.Esl.Value.Decimal.{show, show_nat}

-- A bull queue: its name, and the index that its processor passes on.
pub record Queue : Type 0 where
  pub name : Bytes
  pub index : ℕ

-- The two arrays, and the keys set in the cache.
pub record Worker : Type 0 where
  pub topics : List Bytes
  pub queues : List Queue
  pub cached : List Bytes

-- `init`
abbrev pub init : Worker
init = record { topics = []; queues = []; cached = [] }

unfoldable pub topic_name : Value → Bytes → Bytes
unfolding show
topic_name tenant number = codes "esl_q_queue::" ++ (show tenant ++ (b':' ∷ b':' ∷ number))

unfoldable pub cache_key : Bytes → Bytes
cache_key name = codes "bullQueueCache::" ++ name

-- `getQueueByName`
unfoldable pub get_queue_by_name : Bytes → Worker → Option Queue
unfolding index_of
get_queue_by_name name w = elim (index_of w.topics name) [
  | none ↦ none
  | some i ↦ get_elem? w.queues i
]

-- `add`, at the topic
unfoldable pub add_topic : Bytes → Worker → Worker × Option Queue
unfolding get_queue_by_name cache_key
add_topic name w = elim (index_of w.topics name) [
  | none ↦
      let queue : Queue = record { name = name; index = length w.topics } in
      (
        record {
          topics = w.topics ++ name ∷ [];
          queues = w.queues ++ queue ∷ [];
          cached = w.cached ++ cache_key name ∷ [];
        },
        some queue,
      )
  | some i ↦ (w, get_queue_by_name name w)
]

unfoldable pub add : Value → Bytes → Worker → Worker × Option Queue
unfolding add_topic topic_name
add tenant number w = add_topic (topic_name tenant number) w

-- `key.split('::')`
unfoldable pub split_colons : Bytes → List Bytes
split_colons [] = [] ∷ []
split_colons (c ∷ []) = (c ∷ []) ∷ []
split_colons (c ∷ d ∷ s) = elim (c == b':' && d == b':') [
  | true ↦ [] ∷ split_colons s
  | false ↦ elim (split_colons (d ∷ s)) [ [] ↦ (c ∷ []) ∷ [] | p ∷ ps ↦ (c ∷ p) ∷ ps ]
]

add_words : List Bytes → Worker → Worker
unfolding add parse_int
add_words (a ∷ b ∷ tenant ∷ number ∷ []) w = (add (parse_int tenant) number w).0
add_words _ w = w

-- `readyCacheBullQueue`, on the keys that redis returns
unfoldable pub ready_cache_bull_queue : List Bytes → Worker → Worker
unfolding add_words split_colons
ready_cache_bull_queue [] w = w
ready_cache_bull_queue (key ∷ keys) w =
    ready_cache_bull_queue keys (add_words (split_colons (text_or key (codes "bullQueueCache"))) w)
