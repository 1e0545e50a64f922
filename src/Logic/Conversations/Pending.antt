-- ===== src/Logic/Conversations/Pending.antt =====
-- Reading a conversation and being told of it: MarkRead and OnlineEvent of internal/logic/sync.go
-- together.
use link_im.Prelude.{
  ℕ, ◌<◌, true, false, ◌||◌, List, [], ◌∷◌, Option, none, some, ◌≡◌, ◌⊎◌, ◌∙◌, refl, sym, ap, subst,
  inl, inr, arith, ltb, ◌==◌, All, Bool-cases, if◌then◌else◌,
}
use link_im.Prelude.Int.{ℤ, pos, leb_ℤ, eq_ℤ}
use link_im.Prelude.Bytes.{Bytes, bytes_eq}
use link_im.Logic.Sync.{Cursor, mark_read}
use link_im.Logic.Conversations.{
  ConvRow, ConvBrief, World, State, mark_rows, pending_rows, pending_convs, ensure_presence,
  write_presence, or_empty, handle_mark_read, online_event, update_read, select_pending, exists_key,
  record_call, store_mark_read,
}
use link_im.Comet.Server.{presence_key}

-- A conversation that is the given one has messages after `seq`.
abbrev pub Newer : Bytes → ℕ → ConvBrief → Type 0
Newer conv_id seq b = (bytes_eq b.conv_id conv_id ≡ false) ⊎ (seq < b.max_seq)

marked-read_seq :
    (seq last : ℕ) (c : Cursor) → ltb (mark_read seq c).read_seq last ≡ true → seq < last
unfolding mark_read
marked-read_seq seq last c h = ground arith

pending-Newer :
    (uid : ℤ) (conv_id : Bytes) (seq : ℕ) (rs : List ConvRow)
    → All (Newer conv_id seq) (pending_rows uid (mark_rows uid conv_id seq rs))
unfolding mark_rows pending_rows
pending-Newer uid conv_id seq [] = tt
pending-Newer uid conv_id seq (r ∷ rs) =
    let rest = pending-Newer uid conv_id seq rs in
    elim (Bool-cases (eq_ℤ r.uid uid)) [
      | inr a ↦ rw a (rw a rest)
      | inl a ↦ elim (Bool-cases (bytes_eq r.conv_id conv_id)) [
        | inl b ↦
            rw (a, b)
              (elim (Bool-cases (ltb (mark_read seq r.cursor).read_seq r.last_seq)) [
                | inl c ↦ rw (a, c) (inr (marked-read_seq seq r.last_seq r.cursor c), rest)
                | inr c ↦ rw (a, c) rest
              ])
        | inr b ↦
            rw (a, b)
              (elim (Bool-cases (ltb r.cursor.read_seq r.last_seq)) [
                | inl c ↦ rw (a, c) (inl b, rest)
                | inr c ↦ rw (a, c) rest
              ])
      ]
    ]

module _ (w : World) (P : ConvBrief → Type 0) (uid : ℤ) where
  presence-rows : (s : State) → (ensure_presence w uid s).rows ≡ s.rows
  presence-rows s = written-rows (w.on_exists (exists_key (presence_key uid) ∷ s.calls))
    where
      written-rows :
          (o : Option ℕ)
          → (write_presence w
              (presence_key uid)
              o
              (record_call (exists_key (presence_key uid)) s)).rows
            ≡ s.rows
      written-rows none = refl
      written-rows (some n) = elim (Bool-cases (n == 0)) [ inl e ↦ rw e refl | inr e ↦ rw e refl ]

  -- What holds of the rows that are pending holds of every conversation of the reply.
  pending-All :
      (s : State) → All P (pending_rows uid s.rows) → All P (or_empty w (pending_convs w uid s)).0
  pending-All s h = elim (Bool-cases (w.on_sql (select_pending uid ∷ s.calls))) [
    | inl e ↦ rw e h
    | inr e ↦ rw e tt
  ]

  online-All : (s : State) → All P (pending_rows uid s.rows) → All P (online_event w uid true s).0
  unfolding online_event
  online-All s h = elim (Bool-cases (leb_ℤ uid (pos 0))) [
    | inl e ↦ rw e tt
    | inr e ↦ rw e (
        pending-All (ensure_presence w uid s)
          (subst (λ rs. All P (pending_rows uid rs)) (sym (presence-rows s)) h))
  ]

-- When a client has reported that it has read a conversation up to a sequence number, and the
-- database has taken the report, then the list that it gets when it comes online names this
-- conversation only if there are messages after that number.
pub handle_mark_read-online_event :
    (w : World) (uid : ℤ) (conv_id : Bytes) (seq : ℕ) (s : State)
    → leb_ℤ uid (pos 0) || bytes_eq conv_id [] ≡ false
    → w.on_sql (update_read uid conv_id seq ∷ s.calls) ≡ true
    → All
        (Newer conv_id seq)
        (online_event w uid true (handle_mark_read w uid conv_id (pos seq) s)).0
unfolding handle_mark_read
handle_mark_read-online_event w uid conv_id seq s valid written =
    let called = record_call (update_read uid conv_id seq) s in
    let marked = record called { rows = mark_rows uid conv_id seq s.rows } in
    subst (λ t. All (Newer conv_id seq) (online_event w uid true t).0)
      (sym (
        ap (λ b. if b then s else store_mark_read w uid conv_id seq s) valid
        ∙ ap (λ b. if b then marked else called) written))
      (online-All w (Newer conv_id seq) uid marked (pending-Newer uid conv_id seq s.rows))
