-- ===== src/Records/Statistics/Laws.antt =====
-- src/pbx/services/pbx_queue_statistic.service.ts: what the updates report.
use next_call.Records.Laws.{update_one_lost, update_one_kept, change-Elem}
use next_call.Base.Integer.{ℤ}
use next_call.Base.{ℕ, Bytes, Any, ◌≡◌, false, true, Elem, some, arith, ap}
use next_call.Records.Statistics.{
  QueueStatistic, update_satis_value, hangup_call, HangupCase, is_zero, is_queue_call, is_unrated,
  is_call, one_if,
}
use next_call.Records.{Repository, update_one}

module _ (repository : Repository QueueStatistic) where
  open repository use {Table, rows}

  -- A rating that is not 0 is stored in every row of the call without a rating, but the number that is
  -- returned is 0: the row is searched again as one without a rating.
  pub update_satis_value_zero :
      (tenant : ℕ) (call queue : Bytes) (value : ℤ) (t : Table)
      → is_zero value ≡ false
      → ((update_satis_value repository tenant call queue value t).0 ≡ 0)
        × ((r : QueueStatistic)
            → Elem r (rows t)
            → is_unrated tenant call r ≡ true
            → Elem
                (record r { queue_number = queue; satisfaction = value })
                (rows (update_satis_value repository tenant call queue value t).1))
  unfolding update_satis_value one_if update_one
  update_satis_value_zero tenant call queue value t h =
      let f : QueueStatistic → QueueStatistic =
        λ r. record r { queue_number = queue; satisfaction = value } in
      (
        ap one_if (
            update_one_lost repository (is_unrated tenant call) f t
              (λ r k. unfold is_unrated is_call in ground (arith, h))),
        λ r m k. change-Elem repository (is_unrated tenant call) f t r m k,
      )

  -- The end and the answer of a call report 1 where the call has a row, which is then changed.
  pub hangup_call_one :
      (now : ℕ) (call : Bytes) (tenant : ℕ) (queue : Bytes) (case_of : HangupCase) (t : Table)
      → Any (λ r. is_queue_call tenant call queue r ≡ true) (rows t)
      → (hangup_call repository now call tenant queue case_of t).0 ≡ 1
  unfolding hangup_call one_if
  hangup_call_one now call tenant queue case_of t h =
      let f : QueueStatistic → QueueStatistic =
        λ r. record r { hangup_case = case_of; hangup_time = some now } in
      let (x, m, k, e) =
        update_one_kept repository (is_queue_call tenant call queue) f t
          (λ r k. unfold is_queue_call is_call in ground (arith, k)) h in
      ap one_if e
