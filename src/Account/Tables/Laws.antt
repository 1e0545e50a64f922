-- ===== src/Account/Tables/Laws.antt =====
-- What a lookup in group_member finds after an insert and after a delete.
use link_im.Prelude.{
  Bool, true, false, ◌&&◌, List, [], ◌∷◌, none, some, ◌≡◌, ◌⊎◌, ◌∙◌, refl, sym, ap, subst, inl, inr,
  Bool-cases, Option-cases, if◌then◌else◌,
}
use link_im.Prelude.Int.{ℤ, eq_ℤ, eq_ℤ_iff, eq_ℤ_refl}
use link_im.Account.Tables.{
  MemberRow, has_key, role_of, insert_member, insert_ignore, delete_member,
}

and_split : (a b : Bool) → a && b ≡ true → (a ≡ true) × (b ≡ true)
and_split true b h = (refl, h)
and_split false b h = absurd (cc h)

pub has_key_self : (r : MemberRow) → has_key r.group_id r.uid r ≡ true
has_key_self r = rw (eq_ℤ_refl r.group_id, eq_ℤ_refl r.uid) refl

pub has_key_iff : (g u : ℤ) (r : MemberRow) → has_key g u r ≡ true → (r.group_id ≡ g) × (r.uid ≡ u)
has_key_iff g u r h =
    let (a, b) = and_split (eq_ℤ r.group_id g) (eq_ℤ r.uid u) h in
    ((eq_ℤ_iff r.group_id g).0 a, (eq_ℤ_iff r.uid u).0 b)

pub role_of-delete_member_self :
    (gid uid : ℤ) (rs : List MemberRow) → role_of gid uid (delete_member gid uid rs) ≡ none
unfolding role_of delete_member
role_of-delete_member_self gid uid [] = refl
role_of-delete_member_self gid uid (r ∷ rs) = elim (Bool-cases (has_key gid uid r)) [
  | inl h ↦ rw h (role_of-delete_member_self gid uid rs)
  | inr h ↦ rw h (rw h (role_of-delete_member_self gid uid rs))
]

role_of-delete_member_other :
    (g u gid uid : ℤ) (rs : List MemberRow)
    → ¬ ((gid ≡ g) × (uid ≡ u))
    → role_of g u (delete_member gid uid rs) ≡ role_of g u rs
unfolding role_of delete_member
role_of-delete_member_other g u gid uid [] ne = refl
role_of-delete_member_other g u gid uid (r ∷ rs) ne = elim (Bool-cases (has_key gid uid r)) [
  | inl h ↦ elim (Bool-cases (has_key g u r)) [
    | inl k ↦
        let (a, b) = has_key_iff gid uid r h in
        let (c, d) = has_key_iff g u r k in absurd (ne (sym a ∙ c, sym b ∙ d))
    | inr k ↦ rw (h, k) (role_of-delete_member_other g u gid uid rs ne)
  ]
  | inr h ↦ rw h (
      ap (λ x. if has_key g u r then some r.role else x)
        (role_of-delete_member_other g u gid uid rs ne))
]

pub role_of-delete_member :
    (g u gid uid : ℤ) (rs : List MemberRow)
    → (role_of g u (delete_member gid uid rs) ≡ role_of g u rs)
      ⊎ ((gid ≡ g) × (uid ≡ u) × (role_of g u (delete_member gid uid rs) ≡ none))
role_of-delete_member g u gid uid rs = elim (Bool-cases (eq_ℤ gid g && eq_ℤ uid u)) [
  | inl h ↦
      let (a, b) = and_split (eq_ℤ gid g) (eq_ℤ uid u) h in
      let p = (eq_ℤ_iff gid g).0 a in
      let q = (eq_ℤ_iff uid u).0 b in
      inr (
        p,
        q,
        subst (λ x. role_of x u (delete_member gid uid rs) ≡ none) p
            (subst (λ y. role_of gid y (delete_member gid uid rs) ≡ none) q
              (role_of-delete_member_self gid uid rs)),
      )
  | inr h ↦ inl (
      role_of-delete_member_other g u gid uid rs
        (λ (p, q). cc (h, p, q, eq_ℤ_refl gid, eq_ℤ_refl uid)))
]

-- A new row is found under its key, and the other keys as before.
pub role_of-insert_row :
    (g u : ℤ) (r : MemberRow) (rs : List MemberRow)
    → role_of r.group_id r.uid rs ≡ none
    → (role_of g u (r ∷ rs) ≡ role_of g u rs)
      ⊎ ((r.group_id ≡ g)
          × (r.uid ≡ u)
          × (role_of g u rs ≡ none)
          × (role_of g u (r ∷ rs) ≡ some r.role))
unfolding role_of
role_of-insert_row g u r rs e = elim (Bool-cases (has_key g u r)) [
  | inl h ↦
      let (p, q) = has_key_iff g u r h in
      inr (
        p,
        q,
        subst (λ x. role_of x u rs ≡ none) p (subst (λ y. role_of r.group_id y rs ≡ none) q e),
        rw h refl,
      )
  | inr h ↦ inl (rw h refl)
]

pub role_of-insert_ignore :
    (g u : ℤ) (r : MemberRow) (rs : List MemberRow)
    → (role_of g u (insert_ignore r rs) ≡ role_of g u rs)
      ⊎ ((r.group_id ≡ g)
          × (r.uid ≡ u)
          × (role_of g u rs ≡ none)
          × (role_of g u (insert_ignore r rs) ≡ some r.role))
unfolding insert_ignore insert_member
role_of-insert_ignore g u r rs = elim (Option-cases (role_of r.group_id r.uid rs)) [
  | inl e ↦ rw e (role_of-insert_row g u r rs e)
  | inr (x, e) ↦ inl (rw e refl)
]
