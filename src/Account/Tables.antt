-- ===== src/Account/Tables.antt =====
-- The tables of internal/account/groupstore.go, and its statements on them. The primary keys are
-- those of migrations/000002_relation.up.sql.
pub mod Laws
use link_im.Prelude.{
  ℕ, Bool, true, false, ◌&&◌, ◌||◌, List, [], ◌∷◌, Option, none, some, if◌then◌else◌,
}
use link_im.Prelude.Int.{ℤ, pos, leb_ℤ, eq_ℤ}
use link_im.Prelude.Bytes.{Bytes}

abbrev pub role_member : ℤ
role_member = pos 0

abbrev pub role_admin : ℤ
role_admin = pos 1

abbrev pub role_owner : ℤ
role_owner = pos 2

-- The time of the creation, which is not read, is left out.
pub record GroupRow : Type 0 where
  pub id : ℤ
  pub name : Bytes
  pub owner_uid : ℤ
  pub max_members : ℕ

pub record MemberRow : Type 0 where
  pub group_id : ℤ
  pub uid : ℤ
  pub role : ℤ
  pub join_at : ℕ

abbrev pub has_key : ℤ → ℤ → MemberRow → Bool
has_key gid uid r = eq_ℤ r.group_id gid && eq_ℤ r.uid uid

-- SELECT role FROM group_member WHERE group_id = ? AND uid = ?
unfoldable pub role_of : ℤ → ℤ → List MemberRow → Option ℤ
role_of gid uid [] = none
role_of gid uid (r ∷ rs) =
    let rest = role_of gid uid rs in if has_key gid uid r then some r.role else rest

-- SELECT owner_uid FROM group WHERE id = ?
unfoldable pub owner_of : ℤ → List GroupRow → Option ℤ
owner_of gid [] = none
owner_of gid (g ∷ gs) =
    let rest = owner_of gid gs in if eq_ℤ g.id gid then some g.owner_uid else rest

-- INSERT INTO group_member: `none` is a duplicate key.
abbrev pub insert_row : MemberRow → Option ℤ → List MemberRow → Option (List MemberRow)
insert_row r (some role) rs = none
insert_row r none rs = some (r ∷ rs)

unfoldable pub insert_member : MemberRow → List MemberRow → Option (List MemberRow)
insert_member r rs = insert_row r (role_of r.group_id r.uid rs) rs

-- INSERT IGNORE INTO group_member
abbrev pub or_same : List MemberRow → Option (List MemberRow) → List MemberRow
or_same rs none = rs
or_same rs (some rs') = rs'

unfoldable pub insert_ignore : MemberRow → List MemberRow → List MemberRow
insert_ignore r rs = or_same rs (insert_member r rs)

-- DELETE FROM group_member WHERE group_id = ? AND uid = ?
unfoldable pub delete_member : ℤ → ℤ → List MemberRow → List MemberRow
delete_member gid uid [] = []
delete_member gid uid (r ∷ rs) =
    let rest = delete_member gid uid rs in if has_key gid uid r then rest else r ∷ rest

-- SELECT ... FROM group_member WHERE group_id = ?, with ORDER BY uid as an insertion.
abbrev pub insert_by_uid : MemberRow → List MemberRow → List MemberRow
insert_by_uid r [] = r ∷ []
insert_by_uid r (q ∷ qs) =
    let rest = insert_by_uid r qs in if leb_ℤ r.uid q.uid then r ∷ q ∷ qs else q ∷ rest

unfoldable pub rows_of : ℤ → List MemberRow → List MemberRow
rows_of gid [] = []
rows_of gid (r ∷ rs) =
    let rest = rows_of gid rs in if eq_ℤ r.group_id gid then insert_by_uid r rest else rest
