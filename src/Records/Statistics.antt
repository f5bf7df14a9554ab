-- ===== src/Records/Statistics.antt =====
-- src/pbx/services/pbx_queue_statistic.service.ts: the statistics of the calls of a queue.
pub mod Laws
use next_call.Records.{Repository, update_one}
use next_call.Base.Integer.{ℤ, pos, negsuc}
use next_call.Base.{ℕ, Option, Bytes, Bool, some, ◌==◌, ◌&&◌, none, text_eq, false}

pub data HangupCase : Type 0 where
  by_user by_agent on_ring by_system : HangupCase

-- The columns that the service reads or writes. A time that is not set is `none`.
pub record QueueStatistic : Type 0 where
  pub tenant_id : ℕ
  pub call_id : Bytes
  pub queue_number : Bytes
  pub satisfaction : ℤ
  pub hangup_case : HangupCase
  pub hangup_time : Option ℕ
  pub transfer_static : Option ℕ
  pub answer_agent : Option Bytes
  pub answer_agent_id : Option ℕ
  pub answer_time : Option ℕ

unfoldable pub is_zero : ℤ → Bool
is_zero (pos n) = n == 0
is_zero (negsuc n) = false

unfoldable pub is_call : ℕ → Bytes → QueueStatistic → Bool
is_call tenant call r = r.tenant_id == tenant && text_eq r.call_id call

-- The test of `{ tenantId, callId, satisfaction: 0 }`
unfoldable pub is_unrated : ℕ → Bytes → QueueStatistic → Bool
is_unrated tenant call r = is_call tenant call r && is_zero r.satisfaction

unfoldable pub is_queue_call : ℕ → Bytes → Bytes → QueueStatistic → Bool
is_queue_call tenant call queue r = is_call tenant call r && text_eq r.queue_number queue

-- `doc ? 1 : 0`
unfoldable pub one_if : Option QueueStatistic → ℕ
one_if none = 0
one_if (some r) = 1

abbrev pub number_of : {Table : Type 0} → Option QueueStatistic × Table → ℕ × Table
number_of (doc, t) = (one_if doc, t)

module _ (repository : Repository QueueStatistic) where
  open repository use {Table}

  unfoldable pub update_satis_value : ℕ → Bytes → Bytes → ℤ → Table → ℕ × Table
  update_satis_value tenant call queue value t = number_of (
      update_one repository (is_unrated tenant call)
        (λ r. record r { queue_number = queue; satisfaction = value }) t)

  unfoldable pub hangup_call : ℕ → Bytes → ℕ → Bytes → HangupCase → Table → ℕ × Table
  hangup_call now call tenant queue case_of t = number_of (
      update_one repository (is_queue_call tenant call queue)
        (λ r. record r { hangup_case = case_of; hangup_time = some now }) t)

  unfoldable pub transfer_static_call : ℕ → Bytes → ℕ → Bytes → Table → ℕ × Table
  transfer_static_call now call tenant queue t = number_of (
      update_one repository (is_queue_call tenant call queue)
        (λ r. record r { transfer_static = some now }) t)

  unfoldable pub answer_call : ℕ → Bytes → ℕ → Bytes → Bytes → ℕ → Table → ℕ × Table
  answer_call now call tenant queue agent agent_id t = number_of (
      update_one repository (is_queue_call tenant call queue)
        (λ r. record r {
          answer_agent = some agent;
          answer_agent_id = some agent_id;
          answer_time = some now;
        })
        t)
