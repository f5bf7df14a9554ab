-- ===== src/Groups/Laws.antt =====
-- src/group/group.controller.ts: who is a member after what.
use next_call.Groups.{
  Member, join_group, is_member, Group, User, is_named_member, created, includes, new_member,
  add_users, join_found, add_found, invite_group, invite_users, invited, member_ids,
}
use next_call.Records.{Repository, find_one, create, find_rows}
use next_call.Base.{
  ℕ, List, ◌∷◌, ◌++◌, if◌then◌else◌, ◌≡◌, ◌+◌, arith, [], text_eq, false, All, some, ◌==◌, keep,
  ◌<◌, not, Elem, Any, Option-cases, Bytes, Option, ◌≤◌, true, ◌&&◌, inl, Bool-cases, ap, here, inr,
  ==_iff, there, All-at, ◌∙◌, refl, subst, sym, none, All-append, Any-witness, map-Any, Any-weaken,
}

-- How often a user is a member of a group
unfoldable pub member_times : ℕ → ℕ → List Member → ℕ
member_times group user [] = 0
member_times group user (r ∷ l) =
    (if is_member group user r then 1 else 0) + member_times group user l

times-append :
    (group user : ℕ) (l k : List Member)
    → member_times group user (l ++ k) ≡ member_times group user l + member_times group user k
unfolding member_times
times-append group user [] k = omega arith
times-append group user (r ∷ l) k = omega (arith, times-append group user l k)

unfoldable pub how_often : ℕ → List ℕ → ℕ
how_often u [] = 0
how_often u (x ∷ l) = (if x == u then 1 else 0) + how_often u l

-- What is left out occurs no more, and nothing occurs more often.
how_often-keep :
    (members : List ℕ) (u : ℕ) (l : List ℕ)
    → (how_often u (keep (λ x. not (includes members x)) l) ≤ how_often u l)
      × (includes members u ≡ true → how_often u (keep (λ x. not (includes members x)) l) ≡ 0)
unfolding how_often
how_often-keep members u [] = (omega arith, λ h. refl)
how_often-keep members u (x ∷ l) =
    let (least, nothing) = how_often-keep members u l in
    elim (Bool-cases (includes members x)) [
      | inl e ↦ (rw e (omega (arith, least)), λ h. rw e (nothing h))
      | inr e ↦ (
        rw e (omega (arith, least)),
        λ h. rw e (elim (Bool-cases (x == u)) [
          | inl q ↦
              let c = subst (λ y. includes members y ≡ false) ((==_iff x u).0 q) e in
              absurd (ground (arith, c, h))
          | inr q ↦ rw q (omega (arith, nothing h))
        ]),
      )
    ]

includes-Elem : (l : List ℕ) (u : ℕ) → Elem u l → includes l u ≡ true
unfolding includes
includes-Elem [] u m = elim m [ ]
includes-Elem (x ∷ l) u (here e) = rw ((==_iff x u).1 e) refl
includes-Elem (x ∷ l) u (there m) = ground (arith, includes-Elem l u m)

times-Any :
    (group user : ℕ) (l : List Member)
    → 0 < member_times group user l
    → Any (λ r. is_member group user r ≡ true) l
unfolding member_times
times-Any group user [] h = absurd (omega (arith, h))
times-Any group user (r ∷ l) h = elim (Bool-cases (is_member group user r)) [
  | inl e ↦ here e
  | inr e ↦ there (times-Any group user l (ground (arith, h, e)))
]

module _ (repository : Repository Member) where
  open repository use {Table, rows}

  join_new :
      (group : Group) (user : User) (t : Table)
      → All (λ r. is_named_member group.id user r ≡ false) (rows t)
      → join_group repository (some group) user t
        ≡ (created, create repository (new_member group.id user.id []) t)
  unfolding join_group join_found find_one
  join_new group user t k =
      elim (Option-cases (repository.find_one_by (is_named_member group.id user) t)) [
        | inl e ↦ ap (λ o. join_found repository o group user t) e
        | inr (r, e) ↦
            let (m, q) = repository.found (is_named_member group.id user) t r e in
            let a = All-at (λ r. is_named_member group.id user r ≡ false) (rows t) r k m in
            absurd (ground (arith, a, q))
      ]

  create-times :
      (group user g u : ℕ) (name : Bytes) (t : Table)
      → member_times group user (rows (create repository (new_member g u name) t))
        ≡ member_times group user (rows t) + (if (g == group) && (u == user) then 1 else 0)
  unfolding create member_times is_member new_member
  create-times group user g u name t =
      ap (member_times group user) (repository.saved (new_member g u name ∷ []) t)
      ∙ omega (arith, times-append group user (rows t) (new_member g u name ∷ []))

  create_rows : (r : Member) (t : Table) → rows (create repository r t) ≡ rows t ++ r ∷ []
  unfolding create
  create_rows r t = repository.saved (r ∷ []) t

  unnamed :
      (group : Group) (user : User)
      → text_eq [] user.nick_name ≡ false
      → is_named_member group.id user (new_member group.id user.id []) ≡ false
  unfolding is_named_member new_member
  unnamed group user h = ground (arith, h)

  -- A user with a name who is no member under this name can join again and again: the row that is made
  -- has no name, and the second join, which looks for the name, adds another row.
  pub join_group-twice :
      (group : Group) (user : User) (t : Table)
      → text_eq [] user.nick_name ≡ false
      → All (λ r. is_named_member group.id user r ≡ false) (rows t)
      → let t' = (join_group repository (some group) user t).1 in
        ((join_group repository (some group) user t').0 ≡ created)
        × (member_times group.id user.id (rows (join_group repository (some group) user t').1)
            ≡ member_times group.id user.id (rows t) + 2)
  join_group-twice group user t h k =
      let row = new_member group.id user.id [] in
      let first = join_new group user t k in
      let k' : All (λ r. is_named_member group.id user r ≡ false) (rows (create repository row t)) =
        subst (All _) (sym (create_rows row t)) (
          All-append (λ r. is_named_member group.id user r ≡ false) (rows t) (row ∷ []) k
            (unnamed group user h, tt)) in
      let second = join_new group user (create repository row t) k' in
      let once = create-times group.id user.id group.id user.id [] t in
      let twice = create-times group.id user.id group.id user.id [] (create repository row t) in
      let e = (==_iff group.id group.id).1 refl in
      let f = (==_iff user.id user.id).1 refl in
      rw first (rw second (refl, ground (arith, once, twice, e, f)))

  add_found-times :
      (group user u : ℕ) (o : Option User) (t : Table)
      → ((v : User) → o ≡ some v → v.id ≡ u)
      → (member_times group user (rows t)
          ≤ member_times group user (rows (add_found repository group o t)))
        × (member_times group user (rows (add_found repository group o t))
            ≤ member_times group user (rows t) + (if u == user then 1 else 0))
  unfolding add_found
  add_found-times group user u none t h = (omega arith, omega arith)
  add_found-times group user u (some v) t h =
      let c = create-times group user group v.id v.nick_name t in
      let e = h v refl in (ground (arith, c), ground (arith, c, e))

  add_users-times :
      (find_user : ℕ → Option User) (group user : ℕ) (us : List ℕ) (t : Table)
      → ((u : ℕ) (v : User) → find_user u ≡ some v → v.id ≡ u)
      → (member_times group user (rows t)
          ≤ member_times group user (rows (add_users repository find_user group us t)))
        × (member_times group user (rows (add_users repository find_user group us t))
            ≤ member_times group user (rows t) + how_often user us)
  unfolding add_users how_often
  add_users-times find_user group user [] t h = (omega arith, omega arith)
  add_users-times find_user group user (u ∷ us) t h =
      let (more, least) =
        add_users-times find_user group user us (add_found repository group (find_user u) t) h in
      let (one, least_one) = add_found-times group user u (find_user u) t (h u) in
      (omega (arith, more, one), omega (arith, least, least_one))

  invite_users-times :
      (find_user : ℕ → Option User) (group u : ℕ) (us : List ℕ) (t : Table)
      → ((i : ℕ) (v : User) → find_user i ≡ some v → v.id ≡ i)
      → (member_times group u (rows t)
          ≤ member_times group u (rows (invite_users repository find_user group us t).1))
        × (member_times group u (rows (invite_users repository find_user group us t).1)
            ≤ member_times group u (rows t) + how_often u us)
  unfolding invite_users how_often
  invite_users-times find_user group u [] t h = (omega arith, omega arith)
  invite_users-times find_user group u (i ∷ us) t h = add_users-times find_user group u (i ∷ us) t h

  invite_group-between :
      (find_user : ℕ → Option User) (group : Group) (user : User) (friends : List ℕ) (u : ℕ)
      (t : Table)
      → ((i : ℕ) (v : User) → find_user i ≡ some v → v.id ≡ i)
      → let t' = (invite_group repository find_user (some group) user friends t).1 in
        (member_times group.id u (rows t) ≤ member_times group.id u (rows t'))
        × (member_times group.id u (rows t')
            ≤ member_times group.id u (rows t)
              + how_often u (invited repository (member_ids repository group.id t) friends))
  unfolding invite_group
  invite_group-between find_user group user friends u t h =
      elim (Bool-cases (includes (member_ids repository group.id t) user.id)) [
        | inl e ↦ rw e (invite_users-times find_user group.id u _ t h)
        | inr e ↦ rw e (omega arith, omega arith)
      ]

  -- A member is among the users of the group.
  times-includes :
      (group u : ℕ) (t : Table)
      → 0 < member_times group u (rows t)
      → includes (member_ids repository group t) u ≡ true
  unfolding member_ids find_rows is_member
  times-includes group u t h =
      let (r, k, m) = Any-witness (rows t) (times-Any group u (rows t) h) in
      let n = (repository.found_all (λ r. r.group_id == group) t r).1 (m, ground (arith, k)) in
      let e : r.user_id ≡ u = ground (arith, k) in
      includes-Elem _ u
        (map-Any (λ r. r.user_id) _ (Any-weaken _ (λ y d. ap (λ r. r.user_id) d ∙ e) n))

  -- Whatever the invitation answers, who is a member does not become one more often, and who is none
  -- becomes one at most as often as the list of friends names the user.
  pub invite_group-times :
      (find_user : ℕ → Option User) (group : Group) (user : User) (friends : List ℕ) (u : ℕ)
      (t : Table)
      → ((i : ℕ) (v : User) → find_user i ≡ some v → v.id ≡ i)
      → let t' = (invite_group repository find_user (some group) user friends t).1 in
        (0 < member_times group.id u (rows t)
          → member_times group.id u (rows t') ≡ member_times group.id u (rows t))
        × (member_times group.id u (rows t) ≡ 0
            → member_times group.id u (rows t') ≤ how_often u friends)
  unfolding invited
  invite_group-times find_user group user friends u t h =
      let members = member_ids repository group.id t in
      let (more, least) = invite_group-between find_user group user friends u t h in
      let (fewer, nothing) = how_often-keep members u friends in
      (
        λ p. omega (arith, more, least, nothing (times-includes group.id u t p)),
        λ p. omega (arith, least, fewer, p),
      )
