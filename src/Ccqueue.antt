-- ===== src/Ccqueue.antt =====
-- src/esl/ccqueue.service.ts: a call that waits in a call-centre queue. This file has the data of
-- one call, which src/esl/runtime-data.service.ts keeps under its connection, and the calls that the
-- service makes of the other services.
pub mod Tips
pub mod Jobs
pub mod Hangup
pub mod Ending
pub mod Enter
pub mod Dial
pub mod Agents
use next_call.Base.Integer.{ℤ, pos, negsuc, above_zero, pred, to_nat}
use next_call.Base.{List, ℕ, zero, suc, Bool, false, Option, Bytes, codes, ltb}
use next_call.Session.{Program, or_raise}

-- `PbxQueue` with its `queueOption`, as far as the queue service reads it. A file that is not set is
-- the empty text, which JavaScript's tests do not tell from `undefined`.
pub record Queue : Type 0 where
  pub queue_number : Bytes
  pub queue_name : Bytes
  pub max_wait_time : ℕ
  pub ring_time_out : Bytes
  pub queue_timeout_file : Bytes
  pub enter_tip_file : Bytes
  pub moh_sound : Bytes
  pub members : List Bytes
  pub abt_file : Bytes
  pub abt_input_timeout_file : Bytes
  pub abt_input_err_file : Bytes
  pub abt_key_time_out : Option ℕ
  pub abt_timeout_retry : Option ℤ
  pub abt_input_err_retry : Option ℤ

-- `QueueData`. The empty text that `originationUuid` begins with is `none`.
pub record QueueData : Type 0 where
  pub queue : Option Queue
  pub priority : ℕ
  pub vip_level : ℕ
  pub add_in_queue_job_times : ℕ
  pub try_call_agent_times : ℕ
  pub find_queue_member_exec : Bool
  pub is_caller_hangup : Bool
  pub queue_answered : Bool
  pub queue_done : Bool
  pub is_done_timeout_tip : Bool
  pub is_done_busy_tip : Bool
  pub queue_job : Option ℕ
  pub origination_uuid : Option Bytes
  pub agent_id : Bytes
  pub agent_end_state : Bytes
  pub queue_music_file : Bytes
  pub start_time : ℕ
  pub ring_time : ℕ
  pub answer_time : ℕ
  -- whether `getBullQueue` returns a queue
  pub bull_queue : Bool

-- What the methods read of `RunData`, and the connection that it is kept under.
pub record Leg : Type 0 where
  pub conn_id : Bytes
  pub call_id : Bytes
  pub caller : Bytes
  -- the tenant's number, as a template prints it
  pub tenant : Bytes
  pub sip_call_id : Bytes

-- The calls of other services, with the arguments that tell them apart. The first field of a command
-- for the switch is the connection that it is sent on.
pub data Call : Type 0 where
  read : Bytes → Bytes → Bytes → ℕ → Call
  playback : Bytes → Bytes → Bytes → Call
  break_media : Bytes → Bytes → Call
  kill : Bytes → Bytes → Call
  try_kill : Bytes → Bytes → Call
  set_statis_hangup : Call
  broadcast : Bytes → Bytes → Bytes → Call
  wait : ℕ → Call
  set_var : Bytes → Bytes → Bytes → Bytes → Call
  filter : Bytes → Bytes → Call
  create_uuid : Bytes → Call
  originate : Bytes → Bytes → Bytes → Bytes → Call
  bridge : Bytes → Bytes → Bytes → Call
  add_job : ℕ → ℕ → ℕ → Call
  job_state : ℕ → Call
  remove_job : ℕ → Call
  stop_find_agent : ℕ → Call
  set_agent_last_call : Bytes → Call
  get_dial_gate_way : Call
  update_called : Bytes → Call
  create_agent_statistic : Bytes → Bytes → Call
  set_agent_state : Bytes → Bytes → Call
  create_process : Bytes → Call
  new_call : Bytes → Call
  answer_agent_statistic : Bytes → Call
  answer_call : Bytes → Call
  set_agent_id : Bytes → Bytes → Call
  no_answered_call : Bytes → Call
  hangup_agent_statistic : Option Bytes → Bytes → Call
  hangup_queue_statistic : Bytes → Call
  create_cdr : Option Bytes → Bytes → Call
  add_bleg : Bytes → Bytes → Call
  after_bridge : Bytes → Call
  caller_hangup_when_wait : Call
  get_tenant_info : Call
  add_worker : Bytes → Call
  add_bull_queue_monitor : Call
  get_queue : Bytes → Call
  get_channel_var : Bytes → Bytes → Bytes → Call
  create_queue_statistic : Bytes → Call
  add_listener : Bytes → Bytes → Call
  pre_answer : Bytes → Bytes → Call
  wait_for_bridge : Call
  wait_for_end : Call

abbrev pub Queued : Type 0 → Type 0
Queued A = Program QueueData Call A

-- `queue as PbxQueue`, whose fields are read.
abbrev pub queue_of : QueueData → Queued Queue
queue_of q = or_raise (codes "TypeError: queue is undefined") q.queue
