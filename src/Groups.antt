-- ===== src/Groups.antt =====
-- src/group/group.controller.ts: who is a member of a group, and who may change it.
pub mod Laws
use next_call.Records.{Repository, create, find_one, find_rows, update_one}
use next_call.Base.{
  ℕ, List, Bytes, Bool, Option, ◌==◌, ◌&&◌, [], false, ◌∷◌, some, text_eq, ◌||◌, map, if◌then◌else◌,
  none, true, not, keep,
}

-- A row of src/group-member/entities/group-member.entity.ts. A name that is not given is the default,
-- the empty text.
pub record Member : Type 0 where
  pub group_id : ℕ
  pub user_id : ℕ
  pub user_nick_name : Bytes
  pub remark_group_name : Bytes

pub record Group : Type 0 where
  pub id : ℕ
  pub owner_id : ℕ
  pub name : Bytes

pub record User : Type 0 where
  pub id : ℕ
  pub nick_name : Bytes

-- The status codes of the answers
pub data Response : Type 0 where
  created bad_request not_member not_found : Response

unfoldable pub is_member : ℕ → ℕ → Member → Bool
is_member group user r = r.group_id == group && r.user_id == user

-- The test of `{ groupId, userId, userNickName: user.nickName }`
unfoldable pub is_named_member : ℕ → User → Member → Bool
is_named_member group user r = is_member group user.id r && text_eq r.user_nick_name user.nick_name

unfoldable pub new_member : ℕ → ℕ → Bytes → Member
new_member group user name = record {
  group_id = group;
  user_id = user;
  user_nick_name = name;
  remark_group_name = [];
}

-- `groupMemberIds.includes`
unfoldable pub includes : List ℕ → ℕ → Bool
includes [] u = false
includes (x ∷ l) u = x == u || includes l u

-- The members are a table of the database.
module _ (repository : Repository Member) where
  open repository use {Table}

  -- `createGroup`, for the group that the database has made
  unfoldable pub create_group : Group → User → Table → Table
  create_group group user = create repository (new_member group.id user.id [])

  -- A user who does not exist is passed over.
  unfoldable pub add_found : ℕ → Option User → Table → Table
  add_found group none t = t
  add_found group (some v) t = create repository (new_member group v.id v.nick_name) t

  -- The loop over the users who are invited; `find_user` is `userService.findOne`.
  unfoldable pub add_users : (ℕ → Option User) → ℕ → List ℕ → Table → Table
  add_users find_user group [] t = t
  add_users find_user group (u ∷ us) t =
      add_users find_user group us (add_found group (find_user u) t)

  unfoldable pub invite_users : (ℕ → Option User) → ℕ → List ℕ → Table → Response × Table
  invite_users find_user group [] t = (bad_request, t)
  invite_users find_user group (u ∷ us) t = (created, add_users find_user group (u ∷ us) t)

  -- The users of the group, and those among the friends who are none
  unfoldable pub member_ids : ℕ → Table → List ℕ
  member_ids group t = map (λ r. r.user_id) (find_rows repository (λ r. r.group_id == group) t)

  unfoldable pub invited : List ℕ → List ℕ → List ℕ
  invited members friends = keep (λ u. not (includes members u)) friends

  unfoldable pub invite_group :
      (ℕ → Option User) → Option Group → User → List ℕ → Table → Response × Table
  invite_group find_user none user friends t = (not_found, t)
  invite_group find_user (some group) user friends t =
      let members = member_ids group.id t in
      if not (includes members user.id)
      then (not_member, t)
      else invite_users find_user group.id (invited members friends) t

  unfoldable pub join_found : Option Member → Group → User → Table → Response × Table
  join_found (some r) group user t = (bad_request, t)
  join_found none group user t = (created, create repository (new_member group.id user.id []) t)

  unfoldable pub join_group : Option Group → User → Table → Response × Table
  join_group none user t = (not_found, t)
  join_group (some group) user t =
      join_found (find_one repository (is_named_member group.id user) t) group user t

  -- `update`, where `change_group` says whether the group itself is changed
  unfoldable pub update_group : Option Group → User → Bytes → Table → Response × (Bool × Table)
  update_group none user remark t = (not_found, (false, t))
  update_group (some group) user remark t =
      if group.owner_id == user.id
      then (created, (true, t))
      else elim (find_one repository (is_named_member group.id user) t)
          as (λ _. Response × (Bool × Table)) [
            | none ↦ (not_member, (false, t))
            | some r ↦ (
              created,
              (
                false,
                (update_one repository (is_member group.id user.id)
                    (λ r. record r { remark_group_name = remark }) t).1,
              ),
            )
          ]
