-- ===== src/Account/Groups/Stored.antt =====
-- What CreateGroup of internal/account/groupstore.go leaves.
use link_im.Prelude.{
  Bool, true, false, List, ◌∷◌, Option, none, some, ◌≡◌, refl, ap, inl, inr, All, Bool-cases,
  Option-cases,
}
use link_im.Prelude.Int.{eq_ℤ_refl}
use link_im.Account.Tables.{GroupRow, MemberRow, role_of, owner_of}
use link_im.Account.Session.{World, State, record_call, begin, commit, insert_group}
use link_im.Account.Groups.Inserts.{Same, insert_rows-Same, insert_rows-responses, insert_rows-All}
use link_im.Account.Groups.{insert_rows, commit_group, create_group}

-- What CreateGroup leaves: nothing where it fails, and the group with its rows where it does not.
pub record Stored (g : GroupRow) (rows : List MemberRow) (s t : State) : Type 0 where
  pub unused : owner_of g.id s.groups ≡ none
  pub owner : owner_of g.id t.groups ≡ some g.owner_uid
  pub groups : t.groups ≡ g ∷ s.groups
  pub responses : t.responses ≡ s.responses
  pub roles : All (λ r. role_of r.group_id r.uid t.members ≡ some r.role) rows
  pub sending : t.sending ≡ s.sending

module _ (w : World) where
  abbrev pub Settles : GroupRow → List MemberRow → State → Bool × State → Type 0
  Settles g rows s (false, t) = Same s t
  Settles g rows s (true, t) = Stored g rows s t

  commit_group-Settles :
      (g : GroupRow) (rows : List MemberRow) (s t : State) (o : Option (List MemberRow))
      → owner_of g.id s.groups ≡ none
      → t.responses ≡ s.responses
      → Same s t
      → ((members : List MemberRow)
          → o ≡ some members
          → All (λ r. role_of r.group_id r.uid members ≡ some r.role) rows)
      → Settles g rows s (commit_group w g (o, t))
  unfolding owner_of
  commit_group-Settles g rows s t none unused quiet same all = same
  commit_group-Settles g rows s t (some members) unused quiet same all =
      elim (Bool-cases (w.on_sql (commit ∷ t.calls))) [
        | inl e ↦ rw e (record {
          unused = unused;
          owner = rw (eq_ℤ_refl g.id) refl;
          groups = ap (λ l. g ∷ l) same.groups;
          responses = quiet;
          roles = all members refl;
          sending = same.sending;
        })
        | inr e ↦
            rw e (record { groups = same.groups; members = same.members; sending = same.sending })
      ]

  pub create_group-Settles :
      (g : GroupRow) (rows : List MemberRow) (s : State)
      → Settles g rows s (create_group w g rows s)
  unfolding create_group
  create_group-Settles g rows s =
      let s1 = record_call begin s in
      let s2 = record_call (insert_group g.id) s1 in
      elim (Bool-cases (w.on_sql s1.calls)) [
        | inr e ↦ rw e (record { groups = refl; members = refl; sending = refl })
        | inl e ↦ rw e (elim (Bool-cases (w.on_sql s2.calls)) [
          | inr f ↦ rw f (record { groups = refl; members = refl; sending = refl })
          | inl f ↦ rw f (elim (Option-cases (owner_of g.id s.groups)) [
            | inr (o, x) ↦ rw x (record { groups = refl; members = refl; sending = refl })
            | inl x ↦
                let same = insert_rows-Same w rows s.members s2 in
                rw x (
                  commit_group-Settles g rows s (insert_rows w rows s.members s2).1
                    (insert_rows w rows s.members s2).0 x
                    (insert_rows-responses w rows s.members s2)
                    (record {
                      groups = same.groups;
                      members = same.members;
                      sending = same.sending;
                    })
                    (λ members k. insert_rows-All w rows s.members members s2 k))
          ])
        ])
      ]
