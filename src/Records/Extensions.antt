-- ===== src/Records/Extensions.antt =====
-- src/pbx/services/pbx_extensionn.service.ts: the extensions of the agents.
pub mod Laws
pub mod Creation
use next_call.Esl.Value.Decimal.{show_nat}
use next_call.Base.Index.{index_of}
use next_call.Records.{Repository, update_one, find_one, find_rows, bulk_create}
use next_call.Base.{
  Bool, ℕ, true, Bytes, Option, false, ◌==◌, ◌&&◌, [], List, map, text_eq, suc, ◌+◌, ◌-◌, none, ◌∷◌,
  some, zero,
}

-- `ExtensionSate`
pub data ExtensionState : Type 0 where
  waiting busy rest idle toringing ringing dialout callagent inthecall toconsult consulting holding
        beingconsulted inivrtransfer inappointtransfer :
      ExtensionState

unfoldable pub is_waiting : ExtensionState → Bool
is_waiting waiting = true
is_waiting _ = false

-- The columns that the service reads or writes; `status` is 0 for an agent who has signed in.
pub record PbxExtensionn : Type 0 where
  pub tenant_id : ℕ
  pub account_code : Bytes
  pub password : Bytes
  pub agent_id : ℕ
  pub state : ExtensionState
  pub status : ℕ
  pub last_call_id : Bytes
  pub logic_type : Bytes
  pub state_last_modified : ℕ

-- The test of `{ tenantId, accountCode }`
unfoldable pub is_account : ℕ → Bytes → PbxExtensionn → Bool
is_account tenant code r = r.tenant_id == tenant && text_eq r.account_code code

unfoldable pub can_dial : ℕ → Bytes → PbxExtensionn → Bool
can_dial tenant code r = is_account tenant code r && (is_waiting r.state && r.status == 0)

-- A new row, with the columns' defaults
unfoldable pub new_extension : ℕ → Bytes → Bytes → PbxExtensionn
new_extension tenant password code = record {
  tenant_id = tenant;
  account_code = code;
  password = password;
  agent_id = 0;
  state = busy;
  status = 0;
  last_call_id = [];
  logic_type = [];
  state_last_modified = 0;
}

-- A row for a number that `indexOf` does not find among those in use
unfoldable pub unless_used : Option ℕ → PbxExtensionn → List PbxExtensionn → List PbxExtensionn
unless_used none r later = r ∷ later
unless_used (some k) r later = later

-- The loop from `i` on, with `left` numbers to go
unfoldable pub new_extens : ℕ → Bytes → List Bytes → ℕ → ℕ → List PbxExtensionn
new_extens tenant password useds zero i = []
new_extens tenant password useds (suc left) i =
    unless_used (index_of useds (show_nat i)) (new_extension tenant password (show_nat i))
      (new_extens tenant password useds left (suc i))

module _ (repository : Repository PbxExtensionn) where
  open repository use {Table}

  unfoldable pub assign_to_user : ℕ → ℕ → Bytes → Table → Option PbxExtensionn × Table
  assign_to_user tenant user code =
      update_one repository (is_account tenant code) λ r. record r { agent_id = user }

  unfoldable pub mutil_create : ℕ → ℕ → ℕ → Bytes → Table → Table
  mutil_create tenant start end password t =
      let useds = map (λ r. r.account_code) (find_rows repository (λ r. r.tenant_id == tenant) t) in
      bulk_create repository (new_extens tenant password useds (end + 1 - start) start) t

  unfoldable pub check_agent_can_dail : ℕ → Bytes → Table → Option PbxExtensionn
  check_agent_can_dail tenant code = find_one repository (can_dial tenant code)

  unfoldable pub set_agent_last_call_id : ℕ → Bytes → Bytes → Table → Option PbxExtensionn × Table
  set_agent_last_call_id tenant code call_id =
      update_one repository (is_account tenant code)
        λ r. record r { last_call_id = call_id; logic_type = [] }

  unfoldable pub set_agent_state :
      ℕ → ℕ → Bytes → ExtensionState → Table → Option PbxExtensionn × Table
  set_agent_state now tenant code state =
      update_one repository (is_account tenant code)
        λ r. record r { state = state; state_last_modified = now }

  unfoldable pub get_exten_by_number : ℕ → Bytes → Table → Option PbxExtensionn
  get_exten_by_number tenant code = find_one repository (is_account tenant code)

  unfoldable pub check_out : ℕ → Bytes → Table → Option PbxExtensionn × Table
  check_out tenant code =
      update_one repository (is_account tenant code) λ r. record r { status = 1 }

  unfoldable pub find_msg_agent : ℕ → Table → Option PbxExtensionn
  find_msg_agent tenant = find_one repository λ r. r.tenant_id == tenant && r.status == 0
