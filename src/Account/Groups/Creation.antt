-- ===== src/Account/Groups/Creation.antt =====
-- What a created group consists of: handleCreateGroup of internal/account/group.go and CreateGroup
-- of groupstore.go.
use link_im.Prelude.{
  ℕ, ◌+◌, ◌≤◌, ◌||◌, ◌&&◌, not, Bool, true, false, List, [], ◌∷◌, ◌++◌, append_assoc, append-nil,
  none, some, ◌≡◌, ◌⊎◌, ◌∙◌, refl, sym, ap, subst, inl, inr, arith, ltb, length, All, Bool-cases,
}
use link_im.Prelude.Int.{ℤ, pos, leb_ℤ, eq_ℤ}
use link_im.Prelude.Bytes.{Bytes, codes}
use link_im.Account.{code_ok}
use link_im.Account.Tables.{GroupRow, MemberRow, role_member, role_owner, role_of, owner_of}
use link_im.Account.Session.{World, State, GroupEvent, Response, created, record_call, next_id, now}
use link_im.Account.Groups.Inserts.{Same}
use link_im.Account.Groups.Distinct.{IsDistinct, distinct-is_in, distinct-IsDistinct}
use link_im.Account.Groups.{
  create_group, group_created, create_named, create_decoded, handle_create_group, emit_joins,
  member_row, member_rows, distinct, group_max_members, is_in,
}
use link_im.Account.Groups.Stored.{Settles, create_group-Settles}

abbrev pub ok_created : ℤ → Response
ok_created gid = record { status = 200; code = code_ok; body = created gid }

abbrev pub joins : ℤ → List ℤ → List GroupEvent
joins gid [] = []
joins gid (m ∷ ms) = record { event = codes "join"; gid = gid; uid = m } ∷ joins gid ms

emit_joins-sending :
    (gid : ℤ) (ms : List ℤ) (s : State) → (emit_joins gid ms s).sending ≡ s.sending ++ joins gid ms
emit_joins-sending gid [] s = sym (append-nil s.sending)
emit_joins-sending gid (m ∷ ms) s =
    emit_joins-sending gid ms _ ∙ append_assoc s.sending _ (joins gid ms)

emit_joins-members : (gid : ℤ) (ms : List ℤ) (s : State) → (emit_joins gid ms s).members ≡ s.members
emit_joins-members gid [] s = refl
emit_joins-members gid (m ∷ ms) s = emit_joins-members gid ms _

emit_joins-groups : (gid : ℤ) (ms : List ℤ) (s : State) → (emit_joins gid ms s).groups ≡ s.groups
emit_joins-groups gid [] s = refl
emit_joins-groups gid (m ∷ ms) s = emit_joins-groups gid ms _

-- The tables, the response and the started sendings of a group that was just created.
pub record Created (uid gid : ℤ) (name : Bytes) (ms : List ℤ) (s t : State) : Type 0 where
  pub unused : owner_of gid s.groups ≡ none
  pub groups :
      t.groups
      ≡ record { id = gid; name = name; owner_uid = uid; max_members = group_max_members }
        ∷ s.groups
  pub response : t.responses ≡ s.responses ++ ok_created gid ∷ []
  pub owner : owner_of gid t.groups ≡ some uid
  pub owner_role : role_of gid uid t.members ≡ some role_owner
  pub member_roles : All (λ m. role_of gid m t.members ≡ some role_member) ms
  pub sending : t.sending ≡ s.sending ++ joins gid ms
  pub size : length ms + 1 ≤ group_max_members

emit_joins-responses :
    (gid : ℤ) (ms : List ℤ) (s : State) → (emit_joins gid ms s).responses ≡ s.responses
emit_joins-responses gid [] s = refl
emit_joins-responses gid (m ∷ ms) s = emit_joins-responses gid ms _

or-false : (b : Bool) → b || false ≡ b
or-false true = refl
or-false false = refl

ltb-false : (a b : ℕ) → ltb a b ≡ false → b ≤ a
ltb-false a b h = ground arith

module _ (w : World) where
  member_rows-roles :
      (gid : ℤ) (at : ℕ) (ms : List ℤ) (members : List MemberRow)
      → All (λ r. role_of r.group_id r.uid members ≡ some r.role) (member_rows w gid at ms)
      → All (λ m. role_of gid m members ≡ some role_member) ms
  member_rows-roles gid at [] members h = h
  member_rows-roles gid at (m ∷ ms) members (p, h) = (p, member_rows-roles gid at ms members h)

  abbrev KeepsOrCreates : ℤ → ℤ → Bytes → List ℤ → State → State → Type 0
  KeepsOrCreates uid gid name ms s t = Same s t ⊎ Created uid gid name ms s t

  group_created-Created :
      (gid uid : ℤ) (name : Bytes) (at : ℕ) (ms : List ℤ) (s : State) (o : Bool × State)
      → length ms + 1 ≤ group_max_members
      → Settles w
          (record { id = gid; name = name; owner_uid = uid; max_members = group_max_members })
          (member_row gid role_owner uid at ∷ member_rows w gid at ms)
          s
          o
      → KeepsOrCreates uid gid name ms s (group_created w gid ms o)
  group_created-Created gid uid name at ms s (false, t) size h =
      inl (record { groups = h.groups; members = h.members; sending = h.sending })
  group_created-Created gid uid name at ms s (true, t) size h =
      let m = sym (emit_joins-members gid ms t) in
      inr (record {
        unused = h.unused;
        groups = emit_joins-groups gid ms t ∙ h.groups;
        response = ap (λ l. l ++ ok_created gid ∷ []) (emit_joins-responses gid ms t ∙ h.responses);
        owner = ap (owner_of gid) (emit_joins-groups gid ms t) ∙ h.owner;
        owner_role = subst (λ l. role_of gid uid l ≡ some role_owner) m h.roles.0;
        member_roles =
            subst (λ l. All (λ x. role_of gid x l ≡ some role_member) ms) m
              (member_rows-roles gid at ms t.members h.roles.1);
        sending = emit_joins-sending gid ms t ∙ ap (λ l. l ++ joins gid ms) h.sending;
        size = size;
      })

  create_named-Created :
      (name : Bytes) (ms : List ℤ) (uid : ℤ) (s : State)
      → KeepsOrCreates uid
          (w.on_next_id (next_id ∷ s.calls))
          name
          ms
          s
          (create_named w name ms uid s)
  unfolding create_named
  create_named-Created name ms uid s =
      let s1 = record_call next_id s in
      let gid = w.on_next_id s1.calls in
      let s2 = record_call now s1 in
      let at = w.on_now s2.calls in
      let group : GroupRow = record {
        id = gid;
        name = name;
        owner_uid = uid;
        max_members = group_max_members;
      } in
      let rows = member_row gid role_owner uid at ∷ member_rows w gid at ms in
      elim (Bool-cases (ltb group_max_members (length ms + 1))) [
        | inl e ↦ rw e (inl (record { groups = refl; members = refl; sending = refl }))
        | inr e ↦ rw e (
            rebase gid (
              group_created-Created gid uid name at ms s2 (create_group w group rows s2)
                (ltb-false group_max_members (length ms + 1) e)
                (create_group-Settles w group rows s2)))
      ]
    where
      rebase :
          (gid : ℤ) {t : State}
          → KeepsOrCreates uid gid name ms (record_call now (record_call next_id s)) t
          → KeepsOrCreates uid gid name ms s t
      rebase gid (inl h) =
          inl (record { groups = h.groups; members = h.members; sending = h.sending })
      rebase gid (inr c) = inr (record {
        unused = c.unused;
        groups = c.groups;
        response = c.response;
        owner = c.owner;
        owner_role = c.owner_role;
        member_roles = c.member_roles;
        sending = c.sending;
        size = c.size;
      })

  decoded-Created :
      (name : Bytes) (uids : List ℤ) (uid : ℤ) (s : State)
      → KeepsOrCreates uid
          (w.on_next_id (next_id ∷ s.calls))
          (w.trim_space name)
          (distinct (uid ∷ []) uids)
          s
          (create_decoded w uid (some (name, uids)) s)
  decoded-Created name uids uid s =
      let trimmed = w.trim_space name in
      elim (Bool-cases (ltb (length trimmed) 1 || ltb 64 (length trimmed))) [
        | inl e ↦ rw e (inl (record { groups = refl; members = refl; sending = refl }))
        | inr e ↦ rw e (create_named-Created trimmed (distinct (uid ∷ []) uids) uid s)
      ]

  -- A request to create a group that decodes either leaves the tables as they were and starts no
  -- sending, or a new group has been inserted under the id that the generator gave, which was
  -- unused, with the trimmed name, the requester as its owner and the limit of 500. The requester
  -- then has the owner's role in it, the kept uids have the plain role, at most 500 members in
  -- all; a goroutine has been started for the joining of each kept uid, in order, and no other,
  -- and the response is one more, 200 with that id. A uid is kept exactly if it was requested, is
  -- positive and is not the requester's, and none is kept twice.
  pub handle_create_group-Created :
      (body name : Bytes) (uids : List ℤ) (uid m : ℤ) (s : State)
      → w.decode_create body ≡ some (name, uids)
      → (Same s (handle_create_group w body uid s)
          ⊎ Created uid
              (w.on_next_id (next_id ∷ s.calls))
              (w.trim_space name)
              (distinct (uid ∷ []) uids)
              s
              (handle_create_group w body uid s))
        × (is_in m (distinct (uid ∷ []) uids)
            ≡ (is_in m uids && (not (leb_ℤ m (pos 0)) && not (eq_ℤ uid m))))
        × IsDistinct (distinct (uid ∷ []) uids)
  unfolding handle_create_group
  handle_create_group-Created body name uids uid m s e = (
    subst
        (λ o.
          KeepsOrCreates uid (w.on_next_id (next_id ∷ s.calls)) (w.trim_space name)
            (distinct (uid ∷ []) uids) s (create_decoded w uid o s))
        (sym e) (decoded-Created name uids uid s),
    distinct-is_in (uid ∷ []) m uids
        ∙ ap (λ b. is_in m uids && (not (leb_ℤ m (pos 0)) && not b)) (or-false (eq_ℤ uid m)),
    distinct-IsDistinct (uid ∷ []) uids,
  )
