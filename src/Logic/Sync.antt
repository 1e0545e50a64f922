-- ===== src/Logic/Sync.antt =====
-- internal/logic/sync.go: the pull of missed messages and the read cursor. MySQL and the member
-- source are parameters; a query gives the rows it selects.
pub mod Pull
use link_im.Prelude.{
  ℕ, ◌-◌, ◌+◌, Bool, true, false, ◌||◌, not, List, [], ◌∷◌, Option, none, some, map, length,
  if◌then◌else◌, ltb,
}
use link_im.Prelude.Int.{ℤ, pos, negsuc, ltb_ℤ, leb_ℤ, eq_ℤ}
use link_im.Prelude.Bytes.{Bytes, bytes_eq}
use link_im.Decimal.{format_nat}
use link_im.Service.Conv.{parse_p2p_conv, parse_group_conv}
use link_im.Logic.World.{PbMsg}
use link_im.Logic.SendMsg.{Code, accepted, bad_param, redis_err}

abbrev pub sync_max_limit : ℕ
sync_max_limit = 100

unfoldable pub clamp_limit : ℤ → ℕ
clamp_limit (negsuc n) = 1
clamp_limit (pos n) = if ltb n 1 then 1 else if ltb sync_max_limit n then sync_max_limit else n

pub record SyncPullReq : Type 0 where
  pub uid : ℤ
  pub conv_id : Bytes
  pub local_max_seq : ℤ
  pub limit : ℤ

pub record SyncPullResp : Type 0 where
  pub code : Code
  pub messages : List PbMsg
  pub max_seq : ℤ

-- messageRow, as far as PullMessages copies it into a PbMsg of the model.
pub record StoredRow : Type 0 where
  pub id : ℕ
  pub conv_id : Bytes
  pub seq : ℤ
  pub sender_id : ℤ
  pub msg_type : ℤ
  pub payload : Bytes
  pub created_at : ℤ

-- `select_messages conv_id after limit` is the range query on the message table, and
-- `select_last_seq uid conv_id` the one on the conversation table; `none` is an error.
pub record SyncWorld : Type 0 where
  pub is_member : ℤ → ℤ → Option Bool
  pub select_messages : Bytes → ℤ → ℕ → Option (List StoredRow)
  pub select_last_seq : ℤ → Bytes → Option ℤ

-- ConvType is 1 for every row.
abbrev pub pb_of_row : StoredRow → PbMsg
pb_of_row r = record {
  msg_id = format_nat r.id;
  conv_id = r.conv_id;
  conv_type = pos 1;
  sender_id = r.sender_id;
  msg_type = r.msg_type;
  payload = r.payload;
  seq = r.seq;
  timestamp = r.created_at;
}

abbrev smaller_of : Option (ℤ × ℤ) → ℤ
smaller_of none = pos 0
smaller_of (some (a, b)) = a

unfoldable pub conv_member_uid : Bytes → ℤ
conv_member_uid conv_id = smaller_of (parse_p2p_conv conv_id)

abbrev or_zero : Option ℤ → ℤ
or_zero none = pos 0
or_zero (some s) = s

abbrev one_of : ℤ → Option (ℤ × ℤ) → Bool
one_of uid none = false
one_of uid (some (a, b)) = eq_ℤ uid a || eq_ℤ uid b

abbrev pub granted : Option Bool → Bool
granted none = false
granted (some b) = b

module _ (w : SyncWorld) where
  -- checkSyncMember; the group's form is tried first.
  unfoldable pub check_sync_member : ℤ → Bytes → Bool
  check_sync_member uid conv_id = elim (parse_group_conv conv_id) [
    | some gid ↦ granted (w.is_member gid uid)
    | none ↦ one_of uid (parse_p2p_conv conv_id)
  ]

  unfoldable pub pull_messages : Bytes → ℤ → ℕ → Option (List PbMsg × ℤ)
  pull_messages conv_id after limit = elim (w.select_messages conv_id after limit) [
    | none ↦ none
    | some rows ↦
        some (map pb_of_row rows, or_zero (w.select_last_seq (conv_member_uid conv_id) conv_id))
  ]

  abbrev pub refusal : Code → SyncPullResp
  refusal c = record { code = c; messages = []; max_seq = pos 0 }

  abbrev pub pulled : Option (List PbMsg × ℤ) → SyncPullResp
  pulled none = refusal redis_err
  pulled (some (ms, max_seq)) = record { code = accepted; messages = ms; max_seq = max_seq }

  unfoldable pub sync_pull : SyncPullReq → SyncPullResp
  sync_pull req =
      if leb_ℤ req.uid (pos 0)
      then refusal bad_param
      else if check_sync_member req.uid req.conv_id
      then pulled (pull_messages req.conv_id req.local_max_seq (clamp_limit req.limit))
      else refusal bad_param

-- The row of a conversation that the UPDATE of MarkRead reads and writes.
pub record Cursor : Type 0 where
  pub read_seq : ℕ
  pub unread : ℕ

-- SET unread = GREATEST(unread - (? - read_seq), 0), read_seq = ? WHERE read_seq < ?, with the
-- assignments from left to right. `unread` is an unsigned count here, as is the cursor.
unfoldable pub mark_read : ℕ → Cursor → Cursor
mark_read seq c =
    if ltb c.read_seq seq
    then record c { unread = c.unread - (seq - c.read_seq); read_seq = seq }
    else c
