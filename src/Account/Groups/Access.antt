-- ===== src/Account/Groups/Access.antt =====
-- Who may change the members of a group: handleAddMember and handleRemoveMember of
-- internal/account/group.go.
use link_im.Prelude.{
  false, List, [], ◌∷◌, ◌++◌, Option, none, some, ◌≡◌, ◌⊎◌, ◌∙◌, refl, ap₂, subst, inl, inr,
  Bool-cases, Option-cases, if◌then◌else◌,
}
use link_im.Prelude.Int.{ℤ, pos, ltb_ℤ, leb_ℤ, eq_ℤ, eq_ℤ_iff}
use link_im.Prelude.Bytes.{Bytes, codes}
use link_im.Account.Tables.{role_admin, role_member, role_of, owner_of}
use link_im.Account.Tables.Laws.{role_of-insert_ignore, role_of-delete_member}
use link_im.Account.Session.{
  World, Call, State, GroupEvent, select_role, select_group, path_id, ignore_group_member,
  delete_group_member,
}
use link_im.Account.Groups.{
  handle_add_member, handle_remove_member, add_at, add_decoded, add_found, add_ranked, added,
  add_member, get_group, member_role, or_not_member, remove_at, remove_ranked, removed,
  remove_member, member_row,
}

abbrev pub event_of : Bytes → ℤ → ℤ → GroupEvent
event_of event gid uid = record { event = event; gid = gid; uid = uid }

-- A member of the group with the role of an administrator or of the owner.
abbrev pub IsAdmin : ℤ → ℤ → State → Type 0
IsAdmin gid uid s =
    (role : ℤ) × (role_of gid uid s.members ≡ some role) × (ltb_ℤ role role_admin ≡ false)

-- What has become of the row of `u` in the group `g`.
abbrev pub Joins : ℤ → ℤ → ℤ → State → State → Type 0
Joins uid g u s t =
    (role_of g u s.members ≡ none)
    × (role_of g u t.members ≡ some role_member)
    × IsAdmin g uid s
    × (t.sending ≡ s.sending ++ event_of (codes "join") g u ∷ [])

abbrev pub Leaves : ℤ → ℤ → ℤ → State → State → Type 0
Leaves uid g u s t =
    (role_of g u t.members ≡ none)
    × ((uid ≡ u) ⊎ IsAdmin g uid s)
    × (t.sending
        ≡ s.sending ++ event_of (if eq_ℤ uid u then codes "quit" else codes "leave") g u ∷ [])

rank-IsAdmin :
    (gid uid : ℤ) (s : State)
    → ltb_ℤ (or_not_member (role_of gid uid s.members)) role_admin ≡ false
    → IsAdmin gid uid s
rank-IsAdmin gid uid s h = elim (Option-cases (role_of gid uid s.members)) [
  | inl e ↦ absurd (cc (rw e at h))
  | inr (role, e) ↦ (role, e, rw e at h)
]

module _ (w : World) (g u uid : ℤ) (s : State) where
  abbrev at_calls : List Call → State
  at_calls h = record s { calls = h }

  abbrev KeepsOrJoins : State → Type 0
  KeepsOrJoins t = (role_of g u t.members ≡ role_of g u s.members) ⊎ Joins uid g u s t

  added-Joins :
      (gid target : ℤ) (h : List Call)
      → IsAdmin gid uid s
      → KeepsOrJoins (added w gid target (add_member w gid target (at_calls h)))
  added-Joins gid target h a = elim (Bool-cases (w.on_sql (ignore_group_member gid target ∷ h))) [
    | inr e ↦ rw e (inl refl)
    | inl e ↦
        let row =
          member_row gid role_member target (w.on_now (ignore_group_member gid target ∷ h)) in
        rw e (elim (role_of-insert_ignore g u row s.members) [
          | inl same ↦ inl same
          | inr (p, q, before, after) ↦ inr (
            before,
            after,
            subst (λ x. IsAdmin x uid s) p a,
            ap₂ (λ x y. s.sending ++ event_of (codes "join") x y ∷ []) p q,
          )
        ])
  ]

  ranked-Joins :
      (gid target : ℤ) (h : List Call)
      → KeepsOrJoins (add_ranked w gid target (member_role w gid uid (at_calls h)))
  ranked-Joins gid target h = elim (Bool-cases (w.on_sql (select_role gid uid ∷ h))) [
    | inr e ↦ rw e (inl refl)
    | inl e ↦
        rw e (elim (Bool-cases (ltb_ℤ (or_not_member (role_of gid uid s.members)) role_admin)) [
          | inl k ↦ rw k (inl refl)
          | inr k ↦
              rw k (added-Joins gid target (select_role gid uid ∷ h) (rank-IsAdmin gid uid s k))
        ])
  ]

  found-Joins : (gid target : ℤ) → KeepsOrJoins (add_found w gid target uid (get_group w gid s))
  found-Joins gid target = elim (Bool-cases (w.on_sql (select_group gid ∷ s.calls))) [
    | inr e ↦ rw e (inl refl)
    | inl e ↦ rw e (elim (Option-cases (owner_of gid s.groups)) [
      | inl k ↦ rw k (inl refl)
      | inr (owner, k) ↦ rw k (ranked-Joins gid target (select_group gid ∷ s.calls))
    ])
  ]

  decoded-Joins : (gid : ℤ) (o : Option ℤ) → KeepsOrJoins (add_decoded w gid uid o s)
  decoded-Joins gid none = inl refl
  decoded-Joins gid (some target) = elim (Bool-cases (leb_ℤ target (pos 0))) [
    | inl e ↦ rw e (inl refl)
    | inr e ↦ rw e (found-Joins gid target)
  ]

  at-Joins : (body : Bytes) (o : Option ℤ) → KeepsOrJoins (add_at w body uid o s)
  at-Joins body none = inl refl
  at-Joins body (some gid) = decoded-Joins gid (w.decode_uid body)

  abbrev KeepsOrLeaves : State → Type 0
  KeepsOrLeaves t = (role_of g u t.members ≡ role_of g u s.members) ⊎ Leaves uid g u s t

  removed-Leaves :
      (gid target : ℤ) (h : List Call)
      → (uid ≡ target) ⊎ IsAdmin gid uid s
      → KeepsOrLeaves (removed w gid target uid (remove_member w gid target (at_calls h)))
  removed-Leaves gid target h a =
      elim (Bool-cases (w.on_sql (delete_group_member gid target ∷ h))) [
        | inr e ↦ rw e (inl refl)
        | inl e ↦ rw e (elim (role_of-delete_member g u gid target s.members) [
          | inl same ↦ inl same
          | inr (p, q, after) ↦ inr (
            after,
            elim a [
              | inl self ↦ inl (self ∙ q)
              | inr admin ↦ inr (subst (λ x. IsAdmin x uid s) p admin)
            ],
            ap₂
                (λ x y.
                  s.sending
                  ++ event_of (if eq_ℤ uid y then codes "quit" else codes "leave") x y ∷ [])
                p q,
          )
        ])
      ]

  remove_ranked-Leaves :
      (gid target : ℤ) → KeepsOrLeaves (remove_ranked w gid target uid (member_role w gid uid s))
  remove_ranked-Leaves gid target = elim (Bool-cases (w.on_sql (select_role gid uid ∷ s.calls))) [
    | inr e ↦ rw e (inl refl)
    | inl e ↦
        let low = Bool-cases (ltb_ℤ (or_not_member (role_of gid uid s.members)) role_admin) in
        rw e (elim low [
          | inr l ↦ rw l (
              removed-Leaves gid target (select_role gid uid ∷ s.calls)
                (inr (rank-IsAdmin gid uid s l)))
          | inl l ↦ rw l (elim (Bool-cases (eq_ℤ uid target)) [
            | inl k ↦ rw k (
                removed-Leaves gid target (select_role gid uid ∷ s.calls)
                  (inl ((eq_ℤ_iff uid target).0 k)))
            | inr k ↦ rw k (inl refl)
          ])
        ])
  ]

  remove_at-Leaves : (o p : Option ℤ) → KeepsOrLeaves (remove_at w uid o p s)
  remove_at-Leaves none p = inl refl
  remove_at-Leaves (some gid) none = inl refl
  remove_at-Leaves (some gid) (some target) = remove_ranked-Leaves gid target

  -- A request to add a member leaves the row of a user in a group as it is, or: the user had none,
  -- has one now as a plain member, the request came from an administrator or the owner of that
  -- group, and a goroutine was started that sends the event of this joining, and no other.
  pub handle_add_member-Joins :
      (gid_text body : Bytes)
      → (role_of g u (handle_add_member w gid_text body uid s).members ≡ role_of g u s.members)
        ⊎ Joins uid g u s (handle_add_member w gid_text body uid s)
  unfolding handle_add_member
  handle_add_member-Joins gid_text body = at-Joins body (path_id gid_text)

  -- A request to remove a member leaves the row of a user in a group as it is, or: the user has none
  -- any more, the request came from the user, or from an administrator or the owner of that group,
  -- and a goroutine was started that sends the event, which tells the two apart, and no other.
  pub handle_remove_member-Leaves :
      (gid_text uid_text : Bytes)
      → (role_of g u (handle_remove_member w gid_text uid_text uid s).members
          ≡ role_of g u s.members)
        ⊎ Leaves uid g u s (handle_remove_member w gid_text uid_text uid s)
  unfolding handle_remove_member
  handle_remove_member-Leaves gid_text uid_text =
      remove_at-Leaves (path_id gid_text) (path_id uid_text)
