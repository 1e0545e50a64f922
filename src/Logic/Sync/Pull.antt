-- ===== src/Logic/Sync/Pull.antt =====
-- Who may pull a conversation, how much, and what reading does to the counter.
use link_im.Prelude.{
  ℕ, ◌+◌, ◌≤◌, Bool, true, false, Option, none, some, ◌≡◌, ◌⊎◌, refl, ap, inl, inr, arith,
  Bool-cases, Option-cases,
}
use link_im.Prelude.Int.{ℤ, pos, negsuc, leb_ℤ, eq_ℤ_iff}
use link_im.Prelude.Bytes.{Bytes}
use link_im.Service.Conv.{parse_p2p_conv, parse_group_conv}
use link_im.Logic.SendMsg.{accepted}
use link_im.Logic.Sync.{
  SyncWorld, SyncPullReq, Cursor, clamp_limit, sync_max_limit, check_sync_member, one_of, granted,
  sync_pull, mark_read,
}

-- The limit of a query is between 1 and 100: it is 1 for a request of at most 1, 100 for one of at
-- least 100, and otherwise the requested one.
pub clamp_limit_bounds :
    (n : ℤ)
    → (1 ≤ clamp_limit n)
      × (clamp_limit n ≤ sync_max_limit)
      × (((leb_ℤ n (pos 1) ≡ true) × (clamp_limit n ≡ 1))
          ⊎ (((leb_ℤ (pos 100) n ≡ true) × (clamp_limit n ≡ 100)) ⊎ (n ≡ pos (clamp_limit n))))
unfolding clamp_limit
clamp_limit_bounds (negsuc n) = (omega arith, omega arith, inl (refl, refl))
clamp_limit_bounds (pos n) = (ground arith, ground arith, ground arith)

-- The caller is a member of the group, or one of the two of the single chat.
abbrev pub Belongs : SyncWorld → ℤ → Bytes → Type 0
Belongs w uid conv_id =
    ((gid : ℤ) × (parse_group_conv conv_id ≡ some gid) × (w.is_member gid uid ≡ some true))
    ⊎ ((a : ℤ) × (b : ℤ) × (parse_p2p_conv conv_id ≡ some (a, b)) × ((uid ≡ a) ⊎ (uid ≡ b)))

granted-some : (o : Option Bool) → granted o ≡ true → o ≡ some true
granted-some none e = cc e
granted-some (some b) e = ap some e

one_of-or : (uid a b : ℤ) → one_of uid (some (a, b)) ≡ true → (uid ≡ a) ⊎ (uid ≡ b)
one_of-or uid a b e = ground (arith, eq_ℤ_iff uid a, eq_ℤ_iff uid b)

chat-Belongs :
    (w : SyncWorld) (uid : ℤ) (conv_id : Bytes)
    → one_of uid (parse_p2p_conv conv_id) ≡ true
    → Belongs w uid conv_id
chat-Belongs w uid conv_id e = elim (Option-cases (parse_p2p_conv conv_id)) [
  | inl p ↦ absurd (cc (rw p at e))
  | inr ((a, b), p) ↦ inr (a, b, p, one_of-or uid a b (rw p at e))
]

member-Belongs :
    (w : SyncWorld) (uid : ℤ) (conv_id : Bytes)
    → check_sync_member w uid conv_id ≡ true
    → Belongs w uid conv_id
unfolding check_sync_member
member-Belongs w uid conv_id e = elim (Option-cases (parse_group_conv conv_id)) [
  | inl g ↦ chat-Belongs w uid conv_id (rw (g, check_sync_member) at e)
  | inr (gid, g) ↦ inl (gid, g, granted-some (w.is_member gid uid) (rw (g, check_sync_member) at e))
]

-- A pull is answered with success only for a positive uid that belongs to the conversation.
pub sync_pull-Belongs :
    (w : SyncWorld) (req : SyncPullReq)
    → (sync_pull w req).code ≡ accepted
    → (leb_ℤ req.uid (pos 0) ≡ false) × Belongs w req.uid req.conv_id
unfolding sync_pull
sync_pull-Belongs w req e = elim (Bool-cases (leb_ℤ req.uid (pos 0))) [
  | inl u ↦ absurd (cc (rw u at e))
  | inr u ↦ elim (Bool-cases (check_sync_member w req.uid req.conv_id)) [
    | inl m ↦ (u, member-Belongs w req.uid req.conv_id m)
    | inr m ↦ absurd (cc (rw (u, m) at e))
  ]
]

-- If the unread counter is what lies between the cursor and the last message, then it is so
-- again after reading up to a message that exists; the cursor never goes back, reaches that
-- message, and reading the same again changes nothing.
pub mark_read_lem :
    (seq last : ℕ) (c : Cursor)
    → c.unread + c.read_seq ≡ last
    → seq ≤ last
    → ((mark_read seq c).unread + (mark_read seq c).read_seq ≡ last)
      × (c.read_seq ≤ (mark_read seq c).read_seq)
      × (seq ≤ (mark_read seq c).read_seq)
      × (mark_read seq (mark_read seq c) ≡ mark_read seq c)
unfolding mark_read
mark_read_lem seq last c h b = ground arith
