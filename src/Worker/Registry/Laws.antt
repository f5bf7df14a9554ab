-- ===== src/Worker/Registry/Laws.antt =====
-- Every topic has one queue, and the queue of a topic is found again.
use next_call.Base.{
  ℕ, ◌≡◌, refl, ◌∙◌, none, some, List, [], ◌∷◌, ◌++◌, Bytes, length, length-append, get_elem?,
  arith, Option-cases, inl, inr,
}
use next_call.Esl.Value.{Value}
use next_call.Base.Index.{
  index_of, index_of_bound, index_of-last, index_of_new, get_elem?-append_lt, get_elem?-last,
}
use next_call.Worker.Registry.{
  Queue, Worker, topic_name, cache_key, get_queue_by_name, add_topic, add, add_words,
  ready_cache_bull_queue,
}

-- The arrays are as long as one another, and hold for each topic its own queue, under its index.
pub record IsParallel (w : Worker) : Type 0 where
  pub lengths : length w.queues ≡ length w.topics
  pub named :
      (name : Bytes) (i : ℕ)
      → index_of w.topics name ≡ some i
      → get_elem? w.queues i ≡ some (record { name = name; index = i })

-- The branches of `add`.
module _ (name : Bytes) (w : Worker) where
  add_topic_new :
      index_of w.topics name ≡ none
      → add_topic name w ≡ (
        record {
          topics = w.topics ++ name ∷ [];
          queues = w.queues ++ (record { name = name; index = length w.topics }) ∷ [];
          cached = w.cached ++ cache_key name ∷ [];
        },
        some (record { name = name; index = length w.topics }),
      )
  unfolding add_topic
  add_topic_new e = rw (e, add_topic)

  add_topic_old :
      (i : ℕ) → index_of w.topics name ≡ some i → add_topic name w ≡ (w, get_queue_by_name name w)
  unfolding add_topic
  add_topic_old i e = rw (e, add_topic)

  get_queue_by_name_at :
      (i : ℕ) → index_of w.topics name ≡ some i → get_queue_by_name name w ≡ get_elem? w.queues i
  unfolding get_queue_by_name
  get_queue_by_name_at i e = rw (e, get_queue_by_name)

module _ (name : Bytes) (w : Worker) (h : IsParallel w) where
  grown-IsParallel : IsParallel (record {
    topics = w.topics ++ name ∷ [];
    queues = w.queues ++ (record { name = name; index = length w.topics }) ∷ [];
    cached = w.cached ++ cache_key name ∷ [];
  })
  grown-IsParallel = record {
    lengths = omega (
      arith,
      h.lengths,
      length-append w.topics (name ∷ []),
      length-append w.queues ((record { name = name; index = length w.topics }) ∷ []),
    );
    named = λ n i e. elim (index_of-last w.topics name n i e) [
      | inl old ↦
          get_elem?-append_lt w.queues _ i
            (omega (arith, h.lengths, index_of_bound w.topics n i old))
          ∙ h.named n i old
      | inr (same, last) ↦ rw (last, ← same, ← h.lengths) (get_elem?-last w.queues _)
    ];
  }

  add_topic-IsParallel : IsParallel (add_topic name w).0
  add_topic-IsParallel = elim (Option-cases (index_of w.topics name)) [
    | inl e ↦ rw (add_topic_new name w e) grown-IsParallel
    | inr (i, e) ↦ rw (add_topic_old name w i e) h
  ]

  add_topic_found :
      (q : Queue) × ((add_topic name w).1 ≡ some q)
      × (q.name ≡ name)
      × (get_queue_by_name name (add_topic name w).0 ≡ some q)
  add_topic_found = elim (Option-cases (index_of w.topics name)) [
    | inl e ↦ (
      record { name = name; index = length w.topics },
      rw (add_topic_new name w e),
      refl,
      rw (add_topic_new name w e) (
          get_queue_by_name_at name _ (length w.topics) (index_of_new w.topics name e)
          ∙ rw (← h.lengths) (get_elem?-last w.queues _)),
    )
    | inr (i, e) ↦ (
      record { name = name; index = i },
      rw (add_topic_old name w i e) (get_queue_by_name_at name w i e ∙ h.named name i e),
      refl,
      rw (add_topic_old name w i e) (get_queue_by_name_at name w i e ∙ h.named name i e),
    )
  ]

  add_topic_known : (i : ℕ) × (index_of (add_topic name w).0.topics name ≡ some i)
  add_topic_known = elim (Option-cases (index_of w.topics name)) [
    | inl e ↦ (length w.topics, rw (add_topic_new name w e) (index_of_new w.topics name e))
    | inr (i, e) ↦ (i, rw (add_topic_old name w i e) e)
  ]

  add_topic_again :
      add_topic name (add_topic name w).0 ≡ ((add_topic name w).0, (add_topic name w).1)
  add_topic_again =
      let (i, known) = add_topic_known in
      let (q, made, _, found) = add_topic_found in
      rw (add_topic_old name (add_topic name w).0 i known, found, made)

-- If the arrays are parallel, `add` returns the queue named after its tenant and number, which
-- `getQueueByName` then finds.
pub add-get_queue_by_name :
    (tenant : Value) (number : Bytes) (w : Worker)
    → IsParallel w
    → (q : Queue) × ((add tenant number w).1 ≡ some q)
      × (q.name ≡ topic_name tenant number)
      × (get_queue_by_name (topic_name tenant number) (add tenant number w).0 ≡ some q)
unfolding add
add-get_queue_by_name tenant number w h = add_topic_found (topic_name tenant number) w h

-- If the arrays are parallel, adding a queue again changes nothing, and returns the same queue.
pub add-add :
    (tenant : Value) (number : Bytes) (w : Worker)
    → IsParallel w
    → add tenant number (add tenant number w).0 ≡ ((add tenant number w).0, (add tenant number w).1)
unfolding add
add-add tenant number w h = add_topic_again (topic_name tenant number) w h

add_words-IsParallel : (ws : List Bytes) (w : Worker) → IsParallel w → IsParallel (add_words ws w)
unfolding add_words
add_words-IsParallel (a ∷ b ∷ t ∷ n ∷ []) w h = unfold add in add_topic-IsParallel _ w h
add_words-IsParallel [] w h = h
add_words-IsParallel (a ∷ []) w h = h
add_words-IsParallel (a ∷ b ∷ []) w h = h
add_words-IsParallel (a ∷ b ∷ t ∷ []) w h = h
add_words-IsParallel (a ∷ b ∷ t ∷ n ∷ m ∷ r) w h = h

-- Whatever keys redis returns, arrays that are parallel stay so.
pub ready_cache_bull_queue-IsParallel :
    (keys : List Bytes) (w : Worker) → IsParallel w → IsParallel (ready_cache_bull_queue keys w)
unfolding ready_cache_bull_queue
ready_cache_bull_queue-IsParallel [] w h = h
ready_cache_bull_queue-IsParallel (key ∷ keys) w h =
    ready_cache_bull_queue-IsParallel keys _ (add_words-IsParallel _ w h)
