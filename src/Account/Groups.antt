-- ===== src/Account/Groups.antt =====
-- The handlers of internal/account/group.go, on the store of groupstore.go.
mod Store
pub mod Access
pub mod Distinct
pub mod Inserts
pub mod Stored
pub mod Creation
use link_im.Prelude.{
  ℕ, ◌+◌, Bool, true, false, ◌&&◌, ◌||◌, not, List, [], ◌∷◌, ◌++◌, Option, none, some, ltb, length,
  if◌then◌else◌,
}
use link_im.Prelude.Int.{ℤ, pos, ltb_ℤ, leb_ℤ, eq_ℤ}
use link_im.Prelude.Bytes.{Bytes, codes}
use link_im.Account.{
  code_ok, code_bad_param, code_group_name_bad, code_group_not_found, code_group_forbidden,
  code_group_full, code_storage_error,
}
use link_im.Account.Tables.{GroupRow, MemberRow, role_member, role_admin, role_owner, rows_of}
use link_im.Account.Session.{
  World, State, next_id, now, select_members, no_data, created, listed, record_call, write_json,
  write_biz_error, jwt_auth, path_id, bad_path,
}
pub use link_im.Account.Groups.Store.{
  member_row, Lookup, found, no_rows, failed, looked_up, or_not_member, commit_group, insert_new,
  get_group, member_role, add_member, remove_member,
}
unfoldable pub use link_im.Account.Groups.Store.{insert_rows, create_group}

abbrev pub group_max_members : ℕ
group_max_members = 500

-- emitGroupEvent, where there is a producer: it starts the goroutine that sends the event.
abbrev pub emit_group_event : Bytes → ℤ → ℤ → State → State
emit_group_event event gid uid s = record s {
  sending = s.sending ++ record { event = event; gid = gid; uid = uid } ∷ [];
}

-- One goroutine is started for each member.
abbrev pub emit_joins : ℤ → List ℤ → State → State
emit_joins gid [] s = s
emit_joins gid (m ∷ ms) s = emit_joins gid ms (emit_group_event (codes "join") gid m s)

abbrev pub is_in : ℤ → List ℤ → Bool
is_in m [] = false
is_in m (x ∷ xs) = eq_ℤ x m || is_in m xs

-- The loop over req.MemberUIDs; `seen` has the creator at first.
unfoldable pub distinct : List ℤ → List ℤ → List ℤ
distinct seen [] = []
distinct seen (m ∷ ms) =
    let skipped = distinct seen ms in
    let taken = distinct (m ∷ seen) ms in
    if leb_ℤ m (pos 0) || is_in m seen then skipped else m ∷ taken

abbrev pub storage_failed : State → State
storage_failed s = write_biz_error code_storage_error s

abbrev pub ok_response : State → State
ok_response s = write_json 200 code_ok no_data s

module _ (w : World) where
  -- handleCreateGroup
  abbrev pub member_rows : ℤ → ℕ → List ℤ → List MemberRow
  member_rows gid at [] = []
  member_rows gid at (m ∷ ms) = member_row gid role_member m at ∷ member_rows gid at ms

  abbrev pub group_created : ℤ → List ℤ → Bool × State → State
  group_created gid members (false, s) = storage_failed s
  group_created gid members (true, s) =
      write_json 200 code_ok (created gid) (emit_joins gid members s)

  unfoldable pub create_named : Bytes → List ℤ → ℤ → State → State
  create_named name members uid s =
      let s1 = record_call next_id s in
      let gid = w.on_next_id s1.calls in
      let s2 = record_call now s1 in
      let at = w.on_now s2.calls in
      let group : GroupRow = record {
        id = gid;
        name = name;
        owner_uid = uid;
        max_members = group_max_members;
      } in
      let rows = member_row gid role_owner uid at ∷ member_rows gid at members in
      if ltb group_max_members (length members + 1)
      then write_json 400 code_group_full no_data s
      else group_created gid members (create_group w group rows s2)

  abbrev pub create_decoded : ℤ → Option (Bytes × List ℤ) → State → State
  create_decoded uid none s = write_json 400 code_bad_param no_data s
  create_decoded uid (some (name, uids)) s =
      let trimmed = w.trim_space name in
      if ltb (length trimmed) 1 || ltb 64 (length trimmed)
      then write_json 400 code_group_name_bad no_data s
      else create_named trimmed (distinct (uid ∷ []) uids) uid s

  unfoldable pub handle_create_group : Bytes → ℤ → State → State
  handle_create_group body uid s = create_decoded uid (w.decode_create body) s

  abbrev pub write_group_err : Lookup → State → State
  write_group_err no_rows s = write_json 404 code_group_not_found no_data s
  write_group_err _ s = write_json 500 code_storage_error no_data s

  -- handleListMembers
  abbrev pub list_found : ℤ → Lookup × State → State
  list_found gid (found owner, s) =
      let s' = record_call (select_members gid) s in
      if w.on_sql s'.calls
      then write_json 200 code_ok (listed (rows_of gid s.members)) s'
      else storage_failed s'
  list_found gid (no_rows, s) = write_group_err no_rows s
  list_found gid (failed, s) = write_group_err failed s

  abbrev pub list_at : Option ℤ → State → State
  list_at none s = bad_path s
  list_at (some gid) s = list_found gid (get_group w gid s)

  unfoldable pub handle_list_members : Bytes → ℤ → State → State
  handle_list_members gid_text uid s = list_at (path_id gid_text) s

  -- handleAddMember
  abbrev pub added : ℤ → ℤ → Bool × State → State
  added gid target (false, s) = storage_failed s
  added gid target (true, s) = ok_response (emit_group_event (codes "join") gid target s)

  abbrev pub add_ranked : ℤ → ℤ → Option ℤ × State → State
  add_ranked gid target (none, s) = storage_failed s
  add_ranked gid target (some role, s) =
      if ltb_ℤ role role_admin
      then write_json 403 code_group_forbidden no_data s
      else added gid target (add_member w gid target s)

  abbrev pub add_found : ℤ → ℤ → ℤ → Lookup × State → State
  add_found gid target uid (found owner, s) = add_ranked gid target (member_role w gid uid s)
  add_found gid target uid (no_rows, s) = write_group_err no_rows s
  add_found gid target uid (failed, s) = write_group_err failed s

  abbrev pub bad_uid : State → State
  bad_uid s = write_json 400 code_bad_param no_data s

  -- A body that does not decode has been answered by decodeBody already.
  abbrev pub add_decoded : ℤ → ℤ → Option ℤ → State → State
  add_decoded gid uid none s = bad_uid (write_json 400 code_bad_param no_data s)
  add_decoded gid uid (some target) s =
      if leb_ℤ target (pos 0) then bad_uid s else add_found gid target uid (get_group w gid s)

  abbrev pub add_at : Bytes → ℤ → Option ℤ → State → State
  add_at body uid none s = bad_path s
  add_at body uid (some gid) s = add_decoded gid uid (w.decode_uid body) s

  unfoldable pub handle_add_member : Bytes → Bytes → ℤ → State → State
  handle_add_member gid_text body uid s = add_at body uid (path_id gid_text) s

  -- handleRemoveMember
  abbrev pub removed : ℤ → ℤ → ℤ → Bool × State → State
  removed gid target uid (false, s) = storage_failed s
  removed gid target uid (true, s) =
      ok_response
        (emit_group_event (if eq_ℤ uid target then codes "quit" else codes "leave") gid target s)

  abbrev pub remove_ranked : ℤ → ℤ → ℤ → Option ℤ × State → State
  remove_ranked gid target uid (none, s) = storage_failed s
  remove_ranked gid target uid (some role, s) =
      if ltb_ℤ role role_admin && not (eq_ℤ uid target)
      then write_json 403 code_group_forbidden no_data s
      else removed gid target uid (remove_member w gid target s)

  abbrev pub remove_at : ℤ → Option ℤ → Option ℤ → State → State
  remove_at uid none target s = bad_path s
  remove_at uid (some gid) none s = bad_path s
  remove_at uid (some gid) (some target) s = remove_ranked gid target uid (member_role w gid uid s)

  unfoldable pub handle_remove_member : Bytes → Bytes → ℤ → State → State
  handle_remove_member gid_text uid_text uid s =
      remove_at uid (path_id gid_text) (path_id uid_text) s

-- The routes of NewRouter that jwtAuth guards, with the path values and the body of a request.
pub data Request : Type 0 where
  create_group_request : Bytes → Request
  list_members_request : Bytes → Request
  add_member_request : Bytes → Bytes → Request
  remove_member_request : Bytes → Bytes → Request

module _ (w : World) where
  unfoldable pub route : Request → ℤ → State → State
  route (create_group_request body) uid s = handle_create_group w body uid s
  route (list_members_request gid) uid s = handle_list_members w gid uid s
  route (add_member_request gid body) uid s = handle_add_member w gid body uid s
  route (remove_member_request gid target) uid s = handle_remove_member w gid target uid s

  -- One request, with its Authorization header.
  unfoldable pub serve : Bytes × Request → State → State
  serve (header, r) s = jwt_auth w header (route r) s

  unfoldable pub serve_all : List (Bytes × Request) → State → State
  serve_all [] s = s
  serve_all (r ∷ rs) s = serve_all rs (serve r s)
