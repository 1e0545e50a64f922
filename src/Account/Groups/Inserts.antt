-- ===== src/Account/Groups/Inserts.antt =====
-- The inserts of a transaction of CreateGroup, in internal/account/groupstore.go.
use link_im.Prelude.{
  List, [], ◌∷◌, some, ◌≡◌, ◌∙◌, refl, subst, inl, inr, All, Bool-cases, Option-cases,
}
use link_im.Prelude.Int.{ℤ}
use link_im.Account.Tables.{MemberRow, role_of, insert_member}
use link_im.Account.Tables.Laws.{has_key_self, role_of-insert_row}
use link_im.Account.Session.{World, State, record_call, insert_group_member}
use link_im.Account.Groups.{insert_rows}

-- Only calls and responses differ.
pub record Same (s t : State) : Type 0 where
  pub groups : t.groups ≡ s.groups
  pub members : t.members ≡ s.members
  pub sending : t.sending ≡ s.sending

insert_member-keeps :
    (g u role : ℤ) (r : MemberRow) (rs rs' : List MemberRow)
    → insert_member r rs ≡ some rs'
    → role_of g u rs ≡ some role
    → role_of g u rs' ≡ some role
unfolding insert_member
insert_member-keeps g u role r rs rs' e k = elim (Option-cases (role_of r.group_id r.uid rs)) [
  | inr (x, y) ↦ absurd (cc (rw y at e))
  | inl n ↦
      let q : r ∷ rs ≡ rs' = cc (rw n at e) in
      elim (role_of-insert_row g u r rs n) [
        | inl same ↦ subst (λ l. role_of g u l ≡ some role) q (same ∙ k)
        | inr (a, b, before, after) ↦ absurd (cc (before, k))
      ]
]

insert_member_self :
    (r : MemberRow) (rs rs' : List MemberRow)
    → insert_member r rs ≡ some rs'
    → role_of r.group_id r.uid rs' ≡ some r.role
unfolding insert_member role_of
insert_member_self r rs rs' e = elim (Option-cases (role_of r.group_id r.uid rs)) [
  | inr (x, y) ↦ absurd (cc (rw y at e))
  | inl n ↦
      let q : r ∷ rs ≡ rs' = cc (rw n at e) in
      subst (λ l. role_of r.group_id r.uid l ≡ some r.role) q (rw (has_key_self r) refl)
]

module _ (w : World) where
  -- The inserts that succeed leave what was there, and put every row in.
  insert_rows-next :
      (r : MemberRow) (rows members members' : List MemberRow) (s : State)
      → (insert_rows w (r ∷ rows) members s).0 ≡ some members'
      → (next : List MemberRow) × (insert_member r members ≡ some next)
        × ((insert_rows w rows next (record_call (insert_group_member r.group_id r.uid) s)).0
            ≡ some members')
  unfolding insert_rows
  insert_rows-next r rows members members' s e =
      let s' = record_call (insert_group_member r.group_id r.uid) s in
      elim (Bool-cases (w.on_sql s'.calls)) [
        | inr f ↦ absurd (cc (rw f at e))
        | inl f ↦ elim (Option-cases (insert_member r members)) [
          | inl n ↦ absurd (cc (rw (f, n) at e))
          | inr (next, i) ↦ (next, i, rw (f, i) at e)
        ]
      ]

  insert_rows-keeps :
      (g u role : ℤ) (rows members members' : List MemberRow) (s : State)
      → (insert_rows w rows members s).0 ≡ some members'
      → role_of g u members ≡ some role
      → role_of g u members' ≡ some role
  unfolding insert_rows
  insert_rows-keeps g u role [] members members' s e k =
      subst (λ l. role_of g u l ≡ some role) (cc e) k
  insert_rows-keeps g u role (r ∷ rows) members members' s e k =
      let (next, i, rest) = insert_rows-next r rows members members' s e in
      insert_rows-keeps g u role rows next members' _ rest
        (insert_member-keeps g u role r members next i k)

  -- The rows that were asked for are there, when all inserts succeed.
  pub insert_rows-All :
      (rows members members' : List MemberRow) (s : State)
      → (insert_rows w rows members s).0 ≡ some members'
      → All (λ r. role_of r.group_id r.uid members' ≡ some r.role) rows
  insert_rows-All [] members members' s e = tt
  insert_rows-All (r ∷ rows) members members' s e =
      let (next, i, rest) = insert_rows-next r rows members members' s e in
      (
        insert_rows-keeps r.group_id r.uid r.role rows next members' _ rest
            (insert_member_self r members next i),
        insert_rows-All rows next members' _ rest,
      )

  pub insert_rows-Same :
      (rows members : List MemberRow) (s : State) → Same s (insert_rows w rows members s).1
  unfolding insert_rows
  insert_rows-Same [] members s = record { groups = refl; members = refl; sending = refl }
  insert_rows-Same (r ∷ rows) members s =
      let s' = record_call (insert_group_member r.group_id r.uid) s in
      elim (Bool-cases (w.on_sql s'.calls)) [
        | inr f ↦ rw f (record { groups = refl; members = refl; sending = refl })
        | inl f ↦ rw f (elim (Option-cases (insert_member r members)) [
          | inl n ↦ rw n (record { groups = refl; members = refl; sending = refl })
          | inr (next, i) ↦ rw i (
              let rest = insert_rows-Same rows next s' in
              record { groups = rest.groups; members = rest.members; sending = rest.sending })
        ])
      ]

  pub insert_rows-responses :
      (rows members : List MemberRow) (s : State)
      → (insert_rows w rows members s).1.responses ≡ s.responses
  unfolding insert_rows
  insert_rows-responses [] members s = refl
  insert_rows-responses (r ∷ rs) members s =
      let s' = record_call (insert_group_member r.group_id r.uid) s in
      elim (Bool-cases (w.on_sql s'.calls)) [
        | inr f ↦ rw f refl
        | inl f ↦ rw f (elim (Option-cases (insert_member r members)) [
          | inl n ↦ rw n refl
          | inr (members', i) ↦ rw i (insert_rows-responses rs members' s')
        ])
      ]
