-- ===== src/Service/Conv/RoundTrip.antt =====
-- Conversation ids name their members: printing and parsing undo one another.
use link_im.Prelude.{
  true, none, some, List, [], ◌∷◌, ◌++◌, ◌≡◌, ◌≢◌, ◌∙◌, refl, inl, inr, arith, Bool-cases,
  Option-cases, if◌then◌else◌,
}
use link_im.Prelude.Int.{
  ℤ, pos, negsuc, ltb_ℤ, leb_ℤ, IsInt64, ltb_ℤ-false-ne, less, greater, equal, trichotomy,
  leb_ℤ-false_iff,
}
use link_im.Prelude.Bytes.{Bytes, codes, split, split-append, split-Lacks}
use link_im.Decimal.{format_int, parse_int}
use link_im.Decimal.Range.{parse_int-IsInt64}
use link_im.Decimal.RoundTrip.{parse_int-format_int, format_int-Lacks_colon}
use link_im.Service.Conv.{
  colon, p2p_text, conv_id_for_p2p, p2p_of_parts, parse_p2p_conv, conv_id_for_group, group_of_parts,
  parse_group_conv,
}

split-p2p_text :
    (a b : ℤ) → split colon (p2p_text a b) ≡ codes "c" ∷ format_int a ∷ format_int b ∷ []
unfolding p2p_text
split-p2p_text a b = rw (
  split-append colon (codes "c") (format_int a ++ colon ∷ format_int b) (omega arith),
  split-append colon (format_int a) (format_int b) (format_int-Lacks_colon a),
  split-Lacks colon (format_int b) (format_int-Lacks_colon b),
)

split-group : (gid : ℤ) → split colon (conv_id_for_group gid) ≡ codes "g" ∷ format_int gid ∷ []
unfolding conv_id_for_group
split-group gid = rw (
  split-append colon (codes "g") (format_int gid) (omega arith),
  split-Lacks colon (format_int gid) (format_int-Lacks_colon gid),
)

parse-p2p_text :
    (a b : ℤ)
    → IsInt64 a
    → IsInt64 b
    → parse_p2p_conv (p2p_text a b) ≡ (if leb_ℤ b a then none else some (a, b))
unfolding parse_p2p_conv
parse-p2p_text a b ha hb =
    rw (split-p2p_text a b, parse_int-format_int a ha, parse_int-format_int b hb)

parse-conv_id_for_group :
    (gid : ℤ)
    → IsInt64 gid
    → parse_group_conv (conv_id_for_group gid) ≡ (if leb_ℤ gid (pos 0) then none else some gid)
unfolding parse_group_conv
parse-conv_id_for_group gid h = rw (split-group gid, parse_int-format_int gid h)

-- For two different int64 uids, the conversation id is parsed into the two, the smaller first.
pub parse-conv_id_for_p2p :
    (a b : ℤ)
    → IsInt64 a
    → IsInt64 b
    → a ≢ b
    → parse_p2p_conv (conv_id_for_p2p a b) ≡ (if ltb_ℤ b a then some (b, a) else some (a, b))
unfolding conv_id_for_p2p
parse-conv_id_for_p2p a b ha hb ne = elim (Bool-cases (ltb_ℤ b a)) [
  | inl h ↦ rw (h, parse-p2p_text b a hb ha) (rw ((leb_ℤ-false_iff a b).1 h))
  | inr h ↦ rw (h, parse-p2p_text a b ha hb) (rw (ltb_ℤ-false-ne a b h ne))
]

-- The id of a conversation does not depend on who of the two asks.
pub conv_id_for_p2p_comm : (a b : ℤ) → conv_id_for_p2p a b ≡ conv_id_for_p2p b a
unfolding conv_id_for_p2p
conv_id_for_p2p_comm a b = elim (trichotomy a b) [
  | less h k ↦ rw (h, k)
  | greater h k ↦ rw (h, k)
  | equal e ↦ rw e
]

p2p_of_parts_sound :
    (parts : List Bytes) (a b : ℤ)
    → p2p_of_parts parts ≡ some (a, b)
    → (ltb_ℤ a b ≡ true) × IsInt64 a × IsInt64 b
unfolding p2p_of_parts
p2p_of_parts_sound (t ∷ x ∷ y ∷ []) a b h = elim (Option-cases (parse_int x)) [
  | inl e ↦ ground arith
  | inr (a', ea) ↦ elim (Option-cases (parse_int y)) [
    | inl e ↦ ground arith
    | inr (b', eb) ↦
        ground
          (arith, parse_int-IsInt64 x a' ea, parse_int-IsInt64 y b' eb, (leb_ℤ-false_iff b' a').0)
  ]
]
p2p_of_parts_sound _ a b h = ground arith

-- What is parsed from any text is in order and in the range of int64.
pub parse_p2p_conv_sound :
    (conv_id : Bytes) (a b : ℤ)
    → parse_p2p_conv conv_id ≡ some (a, b)
    → (ltb_ℤ a b ≡ true) × IsInt64 a × IsInt64 b
unfolding parse_p2p_conv
parse_p2p_conv_sound conv_id a b h = p2p_of_parts_sound (split colon conv_id) a b h

shape : (parts : List Bytes) {p : ℤ × ℤ} → p2p_of_parts parts ≡ some p → group_of_parts parts ≡ none
unfolding p2p_of_parts group_of_parts
shape [] h = refl
shape (t ∷ []) h = refl
shape (t ∷ x ∷ []) h = ground arith
shape (t ∷ x ∷ y ∷ r) h = refl

-- No text is both a single chat's id and a group's.
pub parse_p2p_conv-parse_group_conv :
    (conv_id : Bytes) {p : ℤ × ℤ}
    → parse_p2p_conv conv_id ≡ some p
    → parse_group_conv conv_id ≡ none
unfolding parse_p2p_conv parse_group_conv
parse_p2p_conv-parse_group_conv conv_id h = shape (split colon conv_id) h

positive_test :
    (gid : ℤ)
    → (if leb_ℤ gid (pos 0) then none else some gid)
      ≡ (if ltb_ℤ (pos 0) gid then some gid else none)
positive_test (pos n) = ground arith
positive_test (negsuc n) = refl

-- Every positive int64 group id is read back from its conversation id, and no other int64 is.
pub parse-conv_id_for_group_pos :
    (gid : ℤ)
    → IsInt64 gid
    → parse_group_conv (conv_id_for_group gid) ≡ (if ltb_ℤ (pos 0) gid then some gid else none)
parse-conv_id_for_group_pos gid h = parse-conv_id_for_group gid h ∙ positive_test gid
