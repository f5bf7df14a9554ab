-- ===== src/Ccqueue/Enter.antt =====
-- src/esl/ccqueue.service.ts: `dialQueue` takes a call into a queue, and waits until an agent answers or
-- the caller hangs up. The two promises that it makes itself are calls that the world answers: the first
-- by the event of `onFindQueueMember` or that of `callerHangupOnWaiting`, the second as Ending says.
use next_call.Base.{
  ℕ, ◌-◌, ◌*◌, ◌++◌, Bool, true, false, not, Option, none, some, [], ◌∷◌, Bytes, codes, text_or,
  if◌then◌else◌,
}
use next_call.Session.{Answer, pure, time, modify, await, tell, or_raise, ◌>>=◌, ◌>>◌}
use next_call.Ccqueue.{
  Leg, Queue, Queued, playback, wait, create_process, get_tenant_info, add_worker,
  add_bull_queue_monitor, get_queue, get_channel_var, create_queue_statistic, add_listener,
  pre_answer, wait_for_bridge, wait_for_end,
}
use next_call.Ccqueue.Jobs.{enter_empty_queue}
use next_call.Ccqueue.Tips.{play_queue_music}

-- The part of `dialQueueResult` that is not about a menu
pub record EnterResult : Type 0 where
  pub answered : Bool
  pub agent_number : Bytes

abbrev pub nobody : EnterResult
nobody = record { answered = false; agent_number = [] }

-- `maxLowLevel - vipLevel * 30`
unfoldable pub first_priority : ℕ → ℕ
first_priority vip_level = 540 - vip_level * 30

unfoldable pub play_enter_tip : Leg → Bytes → Queued (Unit {0})
play_enter_tip leg [] = pure tt
play_enter_tip leg (c ∷ r) = do await (playback leg.conn_id leg.call_id (c ∷ r)); pure tt

unfoldable pub add_listeners : Leg → Queued (Unit {0})
add_listeners leg = do
  tell (add_listener leg.conn_id (codes "esl::event::CHANNEL_HANGUP::" ++ leg.call_id))
  tell (add_listener leg.conn_id (codes "esl::event::PLAYBACK_START::" ++ leg.call_id))
  tell (
      add_listener [] (
        codes "esl::callcontrol::queue::finded::member::"
        ++ (leg.tenant ++ (codes "::" ++ leg.call_id))))

-- The agent answered: the rest is that of Ending.
unfoldable pub until_end : Answer → Queued EnterResult
until_end r = if not r.success then pure nobody else do
  await wait_for_end
  pure (record {
    answered = true;
    agent_number = elim r.body as (λ _. Bytes) [ none ↦ [] | some b ↦ b ];
  })

unfoldable pub wait_in_queue : Leg → Queue → Queued EnterResult
wait_in_queue leg q = do
  modify (λ d. record d { vip_level = 0; priority = first_priority 0 })
  play_enter_tip leg q.enter_tip_file
  add_listeners leg
  modify
      (λ d. record d { queue_music_file = text_or q.moh_sound (codes "local_stream://moh/8000") })
  await (pre_answer leg.conn_id leg.call_id)
  play_queue_music leg
  r ← await wait_for_bridge
  await (wait 300)
  until_end r

unfoldable pub enter_queue : Leg → Bytes → Queue → Queued EnterResult
enter_queue leg queue_number q = do
  modify (λ d. record d { queue = some q })
  now ← time
  modify (λ d. record d { start_time = now })
  await (create_queue_statistic queue_number)
  elim q.members as (λ _. Queued EnterResult) [
    | [] ↦ enter_empty_queue leg >>= λ _. pure nobody
    | m ∷ r ↦ wait_in_queue leg q
  ]

-- `read_queue` is the queue in the database's answer.
unfoldable pub dial_queue : (Answer → Option Queue) → Leg → Bytes → Queued EnterResult
dial_queue read_queue leg queue_number = do
  await get_tenant_info
  modify (λ d. record d { agent_end_state = codes "idle" })
  await (add_worker queue_number)
  modify (λ d. record d { bull_queue = true })
  tell add_bull_queue_monitor
  a ← await (get_queue queue_number)
  await (get_channel_var leg.conn_id (codes "queue_enter_time") leg.call_id)
  tell (create_process (codes "queue"))
  q ← or_raise (codes "Queue is not find in DB!") (read_queue a)
  enter_queue leg queue_number q
