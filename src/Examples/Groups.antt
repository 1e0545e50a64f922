-- ===== src/Examples/Groups.antt =====
-- A group of users 1 and 2, whom an administrator's requests change.
use link_im.Prelude.{true, [], ◌∷◌, none, some, ◌≡◌, ◌⊎◌, refl}
use link_im.Prelude.Int.{ℤ, pos}
use link_im.Prelude.Bytes.{codes}
use link_im.Decimal.{parse_int}
use link_im.Account.Tables.{MemberRow, role_of, role_owner, role_member, delete_member}
use link_im.Account.Session.{World, State, path_id}
use link_im.Account.Groups.{
  handle_create_group, handle_add_member, handle_remove_member, distinct, is_in,
}
use link_im.Account.Groups.Access.{
  Joins, Leaves, handle_add_member-Joins, handle_remove_member-Leaves,
}
use link_im.Account.Groups.Distinct.{IsDistinct}
use link_im.Account.Groups.Inserts.{Same}
use link_im.Account.Groups.Creation.{Created, handle_create_group-Created}

abbrev world : World
world = record {
  on_parse = λ h. some (record { uid = pos 1; token_type = codes "access" });
  on_get_digest = λ h. some [];
  on_next_id = λ h. pos 90;
  on_now = λ h. 5;
  on_sql = λ h. true;
  digest = λ t. t;
  trim_space = λ t. t;
  decode_create = λ b. some (codes "team", pos 3 ∷ pos 1 ∷ pos 3 ∷ []);
  decode_uid = λ b. some (pos 3);
}

abbrev row : ℤ → ℤ → MemberRow
row uid role = record { group_id = pos 9; uid = uid; role = role; join_at = 0 }

abbrev state : State
state = record {
  groups = record { id = pos 9; name = codes "g"; owner_uid = pos 1; max_members = 500 } ∷ [];
  members = row (pos 1) role_owner ∷ row (pos 2) role_member ∷ [];
  sending = [];
  responses = [];
  calls = [];
}

handle_add_member-Joins_example :
    (role_of (pos 9) (pos 3) (handle_add_member world (codes "9") [] (pos 1) state).members
      ≡ role_of (pos 9) (pos 3) state.members)
    ⊎ Joins (pos 1) (pos 9) (pos 3) state (handle_add_member world (codes "9") [] (pos 1) state)
handle_add_member-Joins_example =
    handle_add_member-Joins world (pos 9) (pos 3) (pos 1) state (codes "9") []

handle_remove_member-Leaves_example :
    (role_of
        (pos 9)
        (pos 2)
        (handle_remove_member world (codes "9") (codes "2") (pos 1) state).members
      ≡ role_of (pos 9) (pos 2) state.members)
    ⊎ Leaves
        (pos 1)
        (pos 9)
        (pos 2)
        state
        (handle_remove_member world (codes "9") (codes "2") (pos 1) state)
handle_remove_member-Leaves_example =
    handle_remove_member-Leaves world (pos 9) (pos 2) (pos 1) state (codes "9") (codes "2")

-- The request to remove user 2 is carried out.
removes :
    role_of
      (pos 9)
      (pos 2)
      (handle_remove_member world (codes "9") (codes "2") (pos 1) state).members
    ≡ none
unfolding role_of handle_remove_member path_id parse_int delete_member
removes = refl

handle_create_group-Created_example :
    (Same state (handle_create_group world [] (pos 1) state)
      ⊎ Created
          (pos 1)
          (pos 90)
          (codes "team")
          (distinct (pos 1 ∷ []) (pos 3 ∷ pos 1 ∷ pos 3 ∷ []))
          state
          (handle_create_group world [] (pos 1) state))
    × (is_in (pos 3) (distinct (pos 1 ∷ []) (pos 3 ∷ pos 1 ∷ pos 3 ∷ [])) ≡ true)
    × IsDistinct (distinct (pos 1 ∷ []) (pos 3 ∷ pos 1 ∷ pos 3 ∷ []))
handle_create_group-Created_example =
    handle_create_group-Created world [] (codes "team") (pos 3 ∷ pos 1 ∷ pos 3 ∷ []) (pos 1) (pos 3)
      state refl
