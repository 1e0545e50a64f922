-- ===== src/Job/Rows/Counters.antt =====
-- Whose unread counter a message of a single chat advances.
use link_im.Prelude.{
  ◌++◌, ℕ, true, false, List, [], ◌∷◌, none, some, ◌≡◌, ◌⊎◌, refl, ap, arith, inl, inr,
  Option-cases, if◌then◌else◌,
}
use link_im.Prelude.Int.{ℤ, pos, negsuc, eq_ℤ, eq_ℤ_refl, ltb_ℤ}
use link_im.Service.Conv.{parse_p2p_conv}
use link_im.Service.Conv.RoundTrip.{parse_p2p_conv_sound}
use link_im.Logic.World.{PbMsg}
use link_im.Job.World.{ConvRow}
use link_im.Job.Receiver.{receiver_of, other_of_cases}
use link_im.Job.Rows.{chat_row, conversation_rows}

-- The row of one side of a chat.
abbrev pub side : PbMsg → ℤ → ℤ → ℕ → ConvRow
side m uid target unread = record {
  uid = uid;
  conv_id = m.conv_id;
  conv_type = m.conv_type;
  target_id = target;
  last_seq = m.seq;
  unread = unread;
  updated_at = m.timestamp;
}

-- The smaller uid's row first; the receiver's counter advances by one, the sender's does not.
abbrev pub both_sides : PbMsg → ℤ → List ConvRow
both_sides m r =
    if ltb_ℤ m.sender_id r
    then side m m.sender_id r 0 ∷ side m r m.sender_id 1 ∷ []
    else side m r m.sender_id 1 ∷ side m m.sender_id r 0 ∷ []

ltb_ℤ-ne :
    (a b : ℤ) → ltb_ℤ a b ≡ true → (eq_ℤ a b ≡ false) × (eq_ℤ b a ≡ false) × (ltb_ℤ b a ≡ false)
ltb_ℤ-ne (pos a) (pos b) h = ground arith
ltb_ℤ-ne (pos a) (negsuc b) h = ground arith
ltb_ℤ-ne (negsuc a) (pos b) h = ground arith
ltb_ℤ-ne (negsuc a) (negsuc b) h = ground arith

rows_of_chat :
    (m : PbMsg) (a b r : ℤ)
    → ltb_ℤ a b ≡ true
    → ((m.sender_id ≡ a) × (r ≡ b)) ⊎ ((m.sender_id ≡ b) × (r ≡ a))
    → chat_row m r a b a ∷ chat_row m r a b b ∷ [] ≡ both_sides m r
rows_of_chat m a b r h (inl (s, e)) =
    let (ab, ba, gt) = ltb_ℤ-ne a b h in rw (s, e, ab, eq_ℤ_refl b, h) refl
rows_of_chat m a b r h (inr (s, e)) =
    let (ab, ba, gt) = ltb_ℤ-ne a b h in rw (s, e, ab, ba, eq_ℤ_refl b, eq_ℤ_refl a, gt) refl

rows_of_parsed :
    (m : PbMsg) (a b r : ℤ)
    → parse_p2p_conv m.conv_id ≡ some (a, b)
    → receiver_of m ≡ some r
    → chat_row m r a b a ∷ chat_row m r a b b ∷ [] ≡ both_sides m r
unfolding receiver_of
rows_of_parsed m a b r p e =
    let (lt, ha, hb) = parse_p2p_conv_sound m.conv_id a b p in
    rows_of_chat m a b r lt (other_of_cases m.sender_id a b r (rw p at e))

receiver_of-none :
    (m : PbMsg) {r : ℤ} → parse_p2p_conv m.conv_id ≡ none → receiver_of m ≡ some r → ⊥
unfolding receiver_of
receiver_of-none m p e = cc (rw p at e)

-- A message of a single chat with a receiver gives two rows: the receiver's, whose target is the
-- sender and whose unread counter advances by one, and the sender's, whose target is the receiver
-- and whose counter stays; the row of the smaller uid stands first. The rows of the messages
-- after it follow.
pub conversation_rows_chat :
    (m : PbMsg) (ms : List PbMsg) (r : ℤ) (rows : List ConvRow)
    → receiver_of m ≡ some r
    → conversation_rows ms ≡ some rows
    → conversation_rows (m ∷ ms) ≡ some (both_sides m r ++ rows)
conversation_rows_chat m ms r rows e more = elim (Option-cases (parse_p2p_conv m.conv_id)) [
  | inl p ↦ absurd (receiver_of-none m p e)
  | inr ((a, b), p) ↦
      unfold conversation_rows in
      rw (p, conversation_rows, e, more) (ap (λ l. some (l ++ rows)) (rows_of_parsed m a b r p e))
]
