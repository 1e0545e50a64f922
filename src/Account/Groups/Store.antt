-- ===== src/Account/Groups/Store.antt =====
-- mysqlGroupStore of internal/account/groupstore.go, on the tables.
use link_im.Prelude.{ℕ, Bool, true, false, List, [], ◌∷◌, Option, none, some, if◌then◌else◌}
use link_im.Prelude.Int.{ℤ, negsuc}
use link_im.Account.Tables.{
  GroupRow, MemberRow, role_member, role_of, owner_of, insert_member, insert_ignore, delete_member,
}
use link_im.Account.Session.{
  World, State, begin, commit, insert_group, insert_group_member, select_group, select_role,
  ignore_group_member, delete_group_member, record_call,
}

abbrev pub member_row : ℤ → ℤ → ℤ → ℕ → MemberRow
member_row gid role uid at = record { group_id = gid; uid = uid; role = role; join_at = at }

-- What a lookup of one row returns: `failed` is any other error than sql.ErrNoRows.
pub data Lookup : Type 0 where
  found : ℤ → Lookup
  no_rows : Lookup
  failed : Lookup

abbrev pub looked_up : Option ℤ → Lookup
looked_up none = no_rows
looked_up (some x) = found x

-- MemberRole: -1 for who is not a member.
abbrev pub or_not_member : Option ℤ → ℤ
or_not_member none = negsuc 0
or_not_member (some role) = role

module _ (w : World) where
  -- The inserts of the members in the transaction; `none` is an error.
  unfoldable pub insert_rows :
      List MemberRow → List MemberRow → State → Option (List MemberRow) × State
  insert_rows [] members s = (some members, s)
  insert_rows (r ∷ rs) members s =
      let s' = record_call (insert_group_member r.group_id r.uid) s in
      if w.on_sql s'.calls
      then elim (insert_member r members) [
        | none ↦ (none, s')
        | some members' ↦ insert_rows rs members' s'
      ]
      else (none, s')

  -- Commit, after which the rows stand in the tables.
  abbrev pub commit_group : GroupRow → Option (List MemberRow) × State → Bool × State
  commit_group g (none, s) = (false, s)
  commit_group g (some members, s) =
      let s' = record_call commit s in
      if w.on_sql s'.calls
      then (true, record s' { groups = g ∷ s'.groups; members = members })
      else (false, s')

  abbrev pub insert_new : GroupRow → List MemberRow → Option ℤ → State → Bool × State
  insert_new g rows (some owner) s = (false, s)
  insert_new g rows none s = commit_group g (insert_rows rows s.members s)

  -- mysqlGroupStore.CreateGroup, whose rollback leaves the tables as they were.
  unfoldable pub create_group : GroupRow → List MemberRow → State → Bool × State
  create_group g rows s =
      let s1 = record_call begin s in
      let s2 = record_call (insert_group g.id) s1 in
      if w.on_sql s1.calls
      then if w.on_sql s2.calls then insert_new g rows (owner_of g.id s.groups) s2 else (false, s2)
      else (false, s1)

  abbrev pub get_group : ℤ → State → Lookup × State
  get_group gid s =
      let s' = record_call (select_group gid) s in
      (if w.on_sql s'.calls then looked_up (owner_of gid s.groups) else failed, s')

  -- `none` is an error.
  abbrev pub member_role : ℤ → ℤ → State → Option ℤ × State
  member_role gid uid s =
      let s' = record_call (select_role gid uid) s in
      (if w.on_sql s'.calls then some (or_not_member (role_of gid uid s.members)) else none, s')

  abbrev pub add_member : ℤ → ℤ → State → Bool × State
  add_member gid uid s =
      let s' = record_call (ignore_group_member gid uid) s in
      if w.on_sql s'.calls
      then (
        true,
        record s' {
          members = insert_ignore (member_row gid role_member uid (w.on_now s'.calls)) s.members;
        },
      )
      else (false, s')

  abbrev pub remove_member : ℤ → ℤ → State → Bool × State
  remove_member gid uid s =
      let s' = record_call (delete_group_member gid uid) s in
      if w.on_sql s'.calls
      then (true, record s' { members = delete_member gid uid s.members })
      else (false, s')
