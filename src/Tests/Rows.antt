-- ===== src/Tests/Rows.antt =====
-- The theorems on the records of the database, at concrete tables.
use next_call.Esl.Value.Decimal.{show_nat}
use next_call.Records.Extensions.Creation.{
  IsNew, useds_of, HasCode, mutil_create-range, IsAscending,
}
use next_call.Groups.{new_member, invite_group, Member}
use next_call.Groups.Laws.{member_times, how_often, invite_group-times}
use next_call.Records.Cdr.Laws.{HasEnded, updates, was_answered, called_is, updates-HasEnded}
use next_call.Records.Extensions.{PbxExtensionn, new_extension, mutil_create}
use next_call.Records.Statistics.Laws.{update_satis_value_zero}
use next_call.Records.Memory.{memory}
use next_call.Base.Integer.{pos}
use next_call.Records.Cdr.{PbxCdr}
use next_call.Records.Statistics.{
  QueueStatistic, is_zero, update_satis_value, by_system, is_unrated,
}
use next_call.Base.{
  List, ◌<◌, codes, [], ◌∷◌, false, none, ◌≡◌, some, Elem, true, refl, ◌++◌, All, ◌≤◌, here, ◌+◌, ℕ,
  arith, Any, map,
}

abbrev one_extension : List PbxExtensionn
one_extension = new_extension 1 [] (codes "1000") ∷ []

mutil_create-range_example :
    (new : List PbxExtensionn) × (mutil_create
        (memory PbxExtensionn)
        1
        1000
        1001
        (codes "pw")
        one_extension
      ≡ one_extension ++ new)
    × All
        (IsNew 1 (codes "pw") (useds_of (memory PbxExtensionn) 1 one_extension) 1000 (1001 + 1))
        new
    × ((ks : List ℕ) × IsAscending 1000 ks
        × (new ≡ map (λ k. new_extension 1 (codes "pw") (show_nat k)) ks))
    × ((j : ℕ)
        → 1000 ≤ j
        → j ≤ 1001
        → Any
            (HasCode (memory PbxExtensionn) 1 (show_nat j))
            (mutil_create (memory PbxExtensionn) 1 1000 1001 (codes "pw") one_extension))
mutil_create-range_example =
    mutil_create-range (memory PbxExtensionn) 1 1000 1001 (codes "pw") one_extension

abbrev statistic : QueueStatistic
statistic = record {
  tenant_id = 1;
  call_id = codes "c1";
  queue_number = codes "6001";
  satisfaction = pos 0;
  hangup_case = by_system;
  hangup_time = none;
  transfer_static = none;
  answer_agent = none;
  answer_agent_id = none;
  answer_time = none;
}

update_satis_value_zero_example :
    ((update_satis_value
        (memory QueueStatistic)
        1
        (codes "c1")
        (codes "6001")
        (pos 1)
        (statistic ∷ [])).0
      ≡ 0)
    × ((r : QueueStatistic)
        → Elem r (statistic ∷ [])
        → is_unrated 1 (codes "c1") r ≡ true
        → Elem
            (record r { queue_number = codes "6001"; satisfaction = pos 1 })
            (update_satis_value
              (memory QueueStatistic)
              1
              (codes "c1")
              (codes "6001")
              (pos 1)
              (statistic ∷ [])).1)
unfolding is_zero
update_satis_value_zero_example =
    update_satis_value_zero (memory QueueStatistic) 1 (codes "c1") (codes "6001") (pos 1)
      (statistic ∷ []) refl

abbrev ended_call : PbxCdr
ended_call = record {
  id = 7;
  tenant_id = 1;
  call_id = codes "c1";
  called = codes "1001";
  last_app_name = [];
  account_code = [];
  is_answered = false;
  associate_id = [];
  alive = false;
  hangup_case = codes "NORMAL_CLEARING";
  hangup_by = [];
  star_time = some 0;
  answer_time = none;
  end_time = some 5;
}

updates-HasEnded_example : HasEnded (memory PbxCdr) 7 (
    updates
      (memory PbxCdr)
      (was_answered 6 1 (codes "c1") (codes "u2") ∷ called_is 1 (codes "c1") (codes "1002") ∷ [])
      (ended_call ∷ []))
updates-HasEnded_example =
    updates-HasEnded (memory PbxCdr)
      (was_answered 6 1 (codes "c1") (codes "u2") ∷ called_is 1 (codes "c1") (codes "1002") ∷ []) 7
      (ended_call ∷ []) (here (refl, refl))

invite_group-times_example :
    (0 < member_times 3 5 (new_member 3 4 [] ∷ [])
      → member_times 3 5
          (invite_group
            (memory Member)
            (λ u. some (record { id = u; nick_name = [] }))
            (some (record { id = 3; owner_id = 4; name = [] }))
            (record { id = 4; nick_name = [] })
            (5 ∷ 5 ∷ [])
            (new_member 3 4 [] ∷ [])).1
        ≡ member_times 3 5 (new_member 3 4 [] ∷ []))
    × (member_times 3 5 (new_member 3 4 [] ∷ []) ≡ 0
        → member_times 3 5
            (invite_group
              (memory Member)
              (λ u. some (record { id = u; nick_name = [] }))
              (some (record { id = 3; owner_id = 4; name = [] }))
              (record { id = 4; nick_name = [] })
              (5 ∷ 5 ∷ [])
              (new_member 3 4 [] ∷ [])).1
          ≤ how_often 5 (5 ∷ 5 ∷ []))
invite_group-times_example =
    invite_group-times (memory Member) (λ u. some (record { id = u; nick_name = [] }))
      (record { id = 3; owner_id = 4; name = [] }) (record { id = 4; nick_name = [] }) (5 ∷ 5 ∷ [])
      5 (new_member 3 4 [] ∷ []) (λ i v h. ground (arith, h))
