-- ===== src/Ccqueue/Dial.antt =====
-- src/esl/ccqueue.service.ts: `dialQueueMember` calls an agent who was found, and bridges the caller
-- to him when he answers.
use next_call.Base.{
  ℕ, ◌+◌, ◌++◌, ◌&&◌, Bool, true, false, List, [], ◌∷◌, Option, none, some, Bytes, codes,
  if◌then◌else◌, ltb, length, text_eq, not,
}
use next_call.Session.{Answer, pure, get, time, modify, await, tell, try_catch, ◌>>=◌, ◌>>◌}
use next_call.Ccqueue.{
  Leg, Queue, QueueData, Queued, Call, set_agent_last_call, get_dial_gate_way, create_uuid,
  add_bleg, update_called, create_agent_statistic, set_agent_state, create_process, new_call,
  set_var, filter, originate, break_media, wait, bridge, answer_agent_statistic, answer_call,
  set_agent_id, no_answered_call, hangup_agent_statistic, queue_of,
}
pub mod Laws
pub mod AgentState
use next_call.Ccqueue.Tips.{option_or}

-- The agent that the worker found.
pub record Agent : Type 0 where
  pub account_code : Bytes
  pub agent_id : Bytes
  pub phone_number : Bytes
  pub phone_login : Bool

pub record DialResult : Type 0 where
  pub success : Bool
  pub reason : Option Bytes

-- `dialMemberResult` as it begins, and as a failure leaves it
abbrev pub failed : Option Bytes → DialResult
failed r = record { success = false; reason = r }

unfoldable pub join : List Bytes → Bytes
join [] = []
join (x ∷ []) = x
join (x ∷ y ∷ r) = x ++ codes "," ++ join (y ∷ r)

-- `argStrs`
unfoldable pub originate_args : Leg → Queue → Bytes → Bool → Bytes
originate_args leg q u phone = join (
    codes "ignore_early_media=true"
    ∷ (codes "originate_timeout=" ++ q.ring_time_out)
    ∷ (codes "origination_uuid=" ++ u)
    ∷ codes "inherit_codec=false"
    ∷ codes "originate_call=yes"
    ∷ codes "dial_queuemember=yes"
    ∷ (codes "originate_tenant=" ++ leg.tenant)
    ∷ (if phone
        then []
        else (codes "origination_caller_id_name=" ++ leg.caller)
          ∷ (codes "origination_caller_id_number=" ++ leg.caller)
          ∷ []))

-- `loginType === 'phone'`: an agent who signed in by a telephone with a number of more than 4 digits
unfoldable pub by_phone : Agent → Bool
by_phone a = a.phone_login && ltb 4 (length a.phone_number)

unfoldable pub choose_login : Agent → Queued (Unit {0})
choose_login a =
    if not (by_phone a)
    then pure tt
    else do await get_dial_gate_way; modify (λ d. record d { agent_end_state = codes "waiting" })

-- The agent's leg gets its name.
unfoldable pub new_leg : Leg → Agent → QueueData → Queued Bytes
new_leg leg a d = do
  r ← await (create_uuid leg.conn_id)
  let u = option_or r.body []
  tell (add_bleg u a.account_code)
  modify (λ x. record x {
    try_call_agent_times = d.try_call_agent_times + 1;
    origination_uuid = some u;
  })
  pure u

-- The records of a call that is about to ring.
unfoldable pub announce : Agent → Bytes → Queued (Unit {0})
announce a u = do
  await (update_called a.account_code)
  await (create_agent_statistic u a.account_code)
  await (set_agent_state a.agent_id (codes "ringing"))
  await (create_process (codes "ringing"))
  await (new_call a.account_code)
  pure tt

-- The agent answered: he and the caller are bridged.
unfoldable pub connect : Leg → Agent → Bytes → Queued Answer
connect leg a u = do
  now ← time
  modify (λ d. record d { answer_time = now })
  await (create_process (codes "answer"))
  await (break_media leg.conn_id leg.call_id)
  modify (λ d. record d { agent_id = a.agent_id })
  await (set_agent_state a.agent_id (codes "inthecall"))
  await (wait 200)
  await (set_var leg.conn_id leg.call_id (codes "park_after_bridge") (codes "true"))
  await (bridge leg.conn_id leg.call_id u)

unfoldable pub after_connect : Agent → Bytes → Answer → Queued DialResult
after_connect a u r =
    if r.success
    then (do
      await (answer_agent_statistic u)
      await (answer_call a.account_code)
      await (set_agent_id a.agent_id u)
      pure (record { success = true; reason = none }))
    else do tell (set_agent_state a.agent_id (codes "idle")); pure (failed r.body)

-- The agent did not answer; the reason is the switch's.
unfoldable pub not_answered : Agent → Bytes → Answer → Queued DialResult
not_answered a u r = do
  await (set_agent_state a.agent_id (codes "idle"))
  await (no_answered_call a.account_code)
  await (hangup_agent_statistic (some u) (codes "agent"))
  await (create_process (codes "dialAgentFail"))
  pure (failed r.body)

unfoldable pub ring : Leg → Queue → Agent → Bytes → Queued Answer
ring leg q a u = do
  now ← time
  modify (λ d. record d { ring_time = now })
  await (set_var leg.conn_id leg.call_id (codes "sip_h_X-CID") leg.sip_call_id)
  await (filter leg.conn_id u)
  await (
      originate leg.conn_id (codes "user/" ++ a.account_code) (originate_args leg q u (by_phone a))
        u)

unfoldable pub dial_steps : Leg → Agent → Queued DialResult
dial_steps leg a = do
  d ← get
  q ← queue_of d
  await (set_agent_last_call a.account_code)
  choose_login a
  u ← new_leg leg a d
  announce a u
  r ← ring leg q a u
  if r.success then connect leg a u >>= after_connect a u else not_answered a u r

unfoldable pub dial_queue_member : Leg → Agent → Queued DialResult
dial_queue_member leg a = try_catch (dial_steps leg a) (λ e. pure (failed (some e)))
