-- ===== src/Ccqueue/Tips/Laws.antt =====
-- src/esl/ccqueue.service.ts: how often a waiting caller is asked for a key.
use next_call.Base.{
  List, ℕ, zero, suc, ◌+◌, ◌≤◌, ◌<◌, ◌≡◌, refl, inl, inr, Bool-cases, Bool, true, false, Option,
  none, some, Bytes, arith,
}
use next_call.Session.{World, Now, ok, pending, Answer, resolves, pure, ◌>>=◌, count}
use next_call.Session.Bounds.{
  AtMost, AtMost-pure, AtMost-bind, AtMost-await_counted, AtMost-weaken, AtMost-try_catch,
  Returns-pure, Returns-try_catch, free_rules,
}
use next_call.Base.Integer.{ℤ, pos, negsuc, above_zero, pred, to_nat}
use next_call.Ccqueue.{Leg, Queue, QueueData, Queued, Call, read}
use next_call.Ccqueue.Tips.{
  Key, go_on, timed_out, wrong, TipOptions, after_key, busy_tip_loop, all_busy_tip, tip_options,
  option_or, key_of, time_out_loop, time_out_key, dial_queue_time_out,
}

unfoldable pub is_read : Call → Bool
is_read (read c u f t) = true
is_read _ = false

to_nat-pred : (t : ℤ) → above_zero t ≡ true → suc (to_nat (pred t)) ≡ to_nat t
unfolding above_zero to_nat pred
to_nat-pred (pos zero) h = ground arith
to_nat-pred (pos (suc n)) h = refl
to_nat-pred (negsuc n) h = ground arith

-- One round asks again only when a retry is left, and with one retry less.
after_key-AtMost :
    (k : ℕ) (leg : Leg) (o : TipOptions) (t e : ℤ) (again : ℤ → ℤ → Queued Bool) (key : Key)
    → ((t' e' : ℤ) → suc (to_nat t' + to_nat e') ≤ k → AtMost is_read k (again t' e'))
    → to_nat t + to_nat e ≤ k
    → AtMost is_read k (after_key leg o t e again key)
unfolding after_key is_read
after_key-AtMost k leg o t e again go_on h p = AtMost-pure true
after_key-AtMost k leg o t e again timed_out h p = elim (Bool-cases (above_zero t)) [
  | inl yes_t ↦ rw yes_t (search (free_rules, h (pred t) e (omega (arith, to_nat-pred t yes_t, p))))
  | inr no_t ↦ rw no_t (AtMost-pure false)
]
after_key-AtMost k leg o t e again wrong h p = elim (Bool-cases (above_zero e)) [
  | inl yes_e ↦ rw yes_e (search (free_rules, h t (pred e) (omega (arith, to_nat-pred e yes_e, p))))
  | inr no_e ↦ rw no_e (AtMost-pure false)
]

-- With enough fuel the loop ends, and it asks at most once more than the retries that are left.
pub busy_tip_loop-AtMost :
    (fuel : ℕ) (leg : Leg) (o : TipOptions) (t e : ℤ)
    → to_nat t + to_nat e < fuel
    → AtMost is_read (1 + (to_nat t + to_nat e)) (busy_tip_loop fuel leg o t e)
unfolding busy_tip_loop
busy_tip_loop-AtMost zero leg o t e h = ground arith
busy_tip_loop-AtMost (suc k) leg o t e h =
    AtMost-bind 1 (to_nat t + to_nat e) _ _ (AtMost-await_counted _) λ a.
      after_key-AtMost (to_nat t + to_nat e) leg o t e (busy_tip_loop k leg o) (key_of a.body)
        (λ t' e' p.
          AtMost-weaken (1 + (to_nat t' + to_nat e')) _ _ (omega (arith, p))
            (busy_tip_loop-AtMost k leg o t' e' (omega (arith, p, h))))
        (omega arith)

-- The retries that the options of a queue allow.
unfoldable pub tip_retries : Queue → ℕ
tip_retries q =
    to_nat (option_or q.abt_timeout_retry (pos 2))
    + to_nat (option_or q.abt_input_err_retry (negsuc 0))

tip_answer-AtMost :
    (fuel : ℕ) (leg : Leg) (q : Queue)
    → tip_retries q < fuel
    → AtMost is_read (1 + tip_retries q) (
        busy_tip_loop fuel leg
          (tip_options q)
          (option_or q.abt_timeout_retry (pos 2))
          (option_or q.abt_input_err_retry (negsuc 0))
        >>= λ b. pure (some b))
unfolding tip_retries
tip_answer-AtMost fuel leg q h = AtMost-weaken (1 + tip_retries q + 0) _ _ (omega arith) (
    AtMost-bind _ 0 _ _ (busy_tip_loop-AtMost fuel leg (tip_options q) _ _ h)
      λ b. AtMost-pure (some b))

-- The announcement that all agents are busy, with fuel above the retries that the queue allows, always
-- ends with a value, also when a command fails, and it asks the caller for a key at most once more than
-- the retries.
pub all_busy_tip-reads :
    (fuel : ℕ) (leg : Leg) (q : Queue) (w : World QueueData Call) (n : Now QueueData Call)
    → tip_retries q < fuel
    → ((r : Option Bool) × ((all_busy_tip fuel leg q w n).0 ≡ ok r))
      × (count is_read (all_busy_tip fuel leg q w n).1.log
          ≤ 1 + tip_retries q + count is_read n.log)
unfolding all_busy_tip
all_busy_tip-reads fuel leg q w n h =
    let body = tip_answer-AtMost fuel leg q h in
    (
      (Returns-try_catch is_read _ _ _ body (λ e. Returns-pure none)).value w n,
      (AtMost-try_catch _ _ _ body (λ e. AtMost-pure none)).at w n,
    )

time_out_loop-pending :
    (fuel : ℕ) (leg : Leg) (file : Bytes) (w : World QueueData Call) (n : Now QueueData Call)
    (a : Answer)
    → key_of a.body ≡ wrong
    → ((l : List Call) → w.reply l ≡ resolves a)
    → (time_out_loop fuel leg file w n).0 ≡ pending
unfolding time_out_loop time_out_key ◌>>=◌
time_out_loop-pending zero leg file w n a p h = refl
time_out_loop-pending (suc k) leg file w n a p h =
    rw h (rw p (time_out_loop-pending k leg _ w _ a p h))

-- A caller who answers each question with a key other than 1 is asked again without end: whatever the
-- fuel, the announcement after the waiting time does not end, where each call is resolved and each key
-- is a wrong one.
pub dial_queue_time_out-pending :
    (fuel : ℕ) (leg : Leg) (w : World QueueData Call) (n : Now QueueData Call) (a : Answer)
    → key_of a.body ≡ wrong
    → ((l : List Call) → w.reply l ≡ resolves a)
    → (dial_queue_time_out fuel leg w n).0 ≡ pending
unfolding dial_queue_time_out ◌>>=◌
dial_queue_time_out-pending fuel leg w n a p h = rw h (time_out_loop-pending fuel leg _ w _ a p h)
