-- ===== src/Records/Cdr.antt =====
-- src/pbx/services/pbx_cdr.service.ts: the records of the calls.
pub mod Laws
use next_call.Records.{Repository, create, update_one, find_one}
use next_call.Base.{
  ℕ, Bytes, Bool, List, ◌==◌, Option, some, ◌&&◌, text_eq, if◌then◌else◌, false, true, ◌∷◌, [],
}

-- The columns that the service reads or writes. A time that is not set is `none`.
pub record PbxCdr : Type 0 where
  pub id : ℕ
  pub tenant_id : ℕ
  pub call_id : Bytes
  pub called : Bytes
  pub last_app_name : Bytes
  pub account_code : Bytes
  pub is_answered : Bool
  pub associate_id : List Bytes
  pub alive : Bool
  pub hangup_case : Bytes
  pub hangup_by : Bytes
  pub star_time : Option ℕ
  pub answer_time : Option ℕ
  pub end_time : Option ℕ

unfoldable pub is_cdr : ℕ → Bytes → PbxCdr → Bool
is_cdr tenant call r = r.tenant_id == tenant && text_eq r.call_id call

unfoldable pub has_id : ℕ → PbxCdr → Bool
has_id id r = r.id == id

module _ (repository : Repository PbxCdr) where
  open repository use {Table}

  unfoldable pub update_called : ℕ → Bytes → Bytes → Table → Option PbxCdr × Table
  update_called tenant call called =
      update_one repository (is_cdr tenant call) λ r. record r { called = called }

  unfoldable pub last_app : Bytes → ℕ → Bytes → Table → Option PbxCdr × Table
  last_app call tenant app =
      update_one repository (is_cdr tenant call) λ r. record r { last_app_name = app }

  unfoldable pub create_cdr : ℕ → PbxCdr → Table → Table
  create_cdr now r = create repository (record r { star_time = some now })

  unfoldable pub get_by_callid : ℕ → Bytes → Table → Option PbxCdr
  get_by_callid tenant call = find_one repository (is_cdr tenant call)

  unfoldable pub set_agent_id : ℕ → Bytes → ℕ → Bytes → Bool → Table → Option PbxCdr × Table
  set_agent_id now call tenant code when_answer = update_one repository (is_cdr tenant call) λ r.
      if when_answer
      then record r { account_code = code; is_answered = true; answer_time = some now }
      else record r { account_code = code }

  unfoldable pub end_channel : ℕ → Bytes → ℕ → Bytes → Bytes → Table → Option PbxCdr × Table
  end_channel now call tenant hangup_case hangup_by =
      update_one repository (is_cdr tenant call) λ r. record r {
        alive = false;
        hangup_case = hangup_case;
        hangup_by = hangup_by;
        end_time = some now;
      }

  unfoldable pub cdr_b_leg_hangup : ℕ → ℕ → Bytes → Table → Option PbxCdr × Table
  cdr_b_leg_hangup now id hangup_case =
      update_one repository (has_id id)
        λ r. record r { alive = false; hangup_case = hangup_case; end_time = some now }

  unfoldable pub b_leg_answered : ℕ → ℕ → Bytes → Table → Option PbxCdr × Table
  b_leg_answered now id b_leg =
      update_one repository (has_id id)
        λ r. record r { call_id = b_leg; is_answered = true; answer_time = some now }

  unfoldable pub answered : ℕ → ℕ → Bytes → Bytes → Table → Option PbxCdr × Table
  answered now tenant call associate =
      update_one repository (is_cdr tenant call)
        λ r. record r { is_answered = true; associate_id = associate ∷ []; answer_time = some now }
