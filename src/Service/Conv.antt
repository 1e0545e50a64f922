-- ===== src/Service/Conv.antt =====
-- internal/service/conv.go. An error value is only ever compared with nil by the callers, so a
-- parser returns an `Option`; the texts of the errors are left out.
pub mod RoundTrip
use link_im.Prelude.{
  ℕ, Bool, true, false, Option, none, some, List, [], ◌∷◌, ◌++◌, ◌≡◌, refl, if◌then◌else◌, ◌>>=◌,
  not,
}
use link_im.Prelude.Int.{ℤ, pos, negsuc, ltb_ℤ, leb_ℤ}
use link_im.Prelude.Bytes.{Bytes, codes, bytes_eq, split}
use link_im.Decimal.{format_int, parse_int}

abbrev pub colon : ℕ
colon = b':'

-- fmt.Sprintf("c:%d:%d", a, b)
p2p_text : ℤ → ℤ → Bytes
p2p_text a b = codes "c" ++ colon ∷ (format_int a ++ colon ∷ format_int b)

-- The smaller uid comes first.
unfoldable pub conv_id_for_p2p : ℤ → ℤ → Bytes
unfolding p2p_text
conv_id_for_p2p a b = if ltb_ℤ b a then p2p_text b a else p2p_text a b

-- The tests on the parts of the id, in the order of the source.
p2p_of_parts : List Bytes → Option (ℤ × ℤ)
p2p_of_parts (t ∷ x ∷ y ∷ []) =
    if bytes_eq t (codes "c")
    then (do a ← parse_int x; b ← parse_int y; if leb_ℤ b a then none else some (a, b))
    else none
p2p_of_parts _ = none

unfoldable pub parse_p2p_conv : Bytes → Option (ℤ × ℤ)
unfolding p2p_of_parts
parse_p2p_conv conv_id = p2p_of_parts (split colon conv_id)

abbrev pub conv_type_p2p : ℤ
conv_type_p2p = pos 1

abbrev pub conv_type_group : ℤ
conv_type_group = pos 2

-- fmt.Sprintf("g:%d", gid)
unfoldable pub conv_id_for_group : ℤ → Bytes
conv_id_for_group gid = codes "g" ++ colon ∷ format_int gid

group_of_parts : List Bytes → Option ℤ
group_of_parts (t ∷ x ∷ []) =
    if bytes_eq t (codes "g")
    then (do gid ← parse_int x; if leb_ℤ gid (pos 0) then none else some gid)
    else none
group_of_parts _ = none

unfoldable pub parse_group_conv : Bytes → Option ℤ
unfolding group_of_parts
parse_group_conv conv_id = group_of_parts (split colon conv_id)

printed : conv_id_for_p2p (pos 1002) (pos 1001) ≡ codes "c:1001:1002"
unfolding conv_id_for_p2p format_int
printed = refl

three_parts : parse_p2p_conv (codes "c:7:12") ≡ some (pos 7, pos 12)
unfolding parse_p2p_conv split parse_int
three_parts = refl

equal_uids : parse_p2p_conv (codes "c:7:7") ≡ none
unfolding parse_p2p_conv split parse_int
equal_uids = refl

zero_group : parse_group_conv (codes "g:0") ≡ none
unfolding parse_group_conv split parse_int
zero_group = refl
