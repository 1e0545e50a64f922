-- ===== src/Job/Rows.antt =====
-- internal/job/store.go: the rows that a batch writes, and ShardTable of pkg/mysqlx.
pub mod Batches
pub mod Shards
pub mod Counters
use link_im.Prelude.{
  ℕ, zero, suc, ◌+◌, ◌*◌, ◌/◌, ◌%◌, ◌-◌, Bool, true, false, List, [], ◌∷◌, ◌++◌, Option, none, some,
  ◌>>=◌, map, length, take, drop, if◌then◌else◌, ltb, ◌==◌,
}
use link_im.Prelude.Int.{ℤ, pos, eq_ℤ}
use link_im.Prelude.Bytes.{Bytes, codes, bytes_eq}
use link_im.Decimal.{parse_uint}
use link_im.Service.Conv.{parse_p2p_conv, parse_group_conv}
use link_im.Logic.World.{PbMsg}
use link_im.Job.World.{KafkaMessage, MessageRow, ConvRow, Groups, Statement, insert_ignore, upsert}
use link_im.Job.Receiver.{receiver_of}

abbrev pub shard_count : ℕ
shard_count = 64

-- fmt.Sprintf("message_%02d", crc32 % 64); the checksum is a parameter.
unfoldable pub shard_table : (Bytes → ℕ) → Bytes → Bytes
shard_table checksum conv_id =
    let n = checksum conv_id % shard_count in codes "message_" ++ (48 + n / 10) ∷ (48 + n % 10) ∷ []

-- One message taken from Kafka; `none` where it was not decoded.
pub record StoreItem : Type 0 where
  pub msg : Option PbMsg
  pub km : KafkaMessage

unfoldable pub parse_store_item : (Bytes → Option PbMsg) → KafkaMessage → StoreItem
parse_store_item unmarshal km = record { msg = unmarshal km.value; km = km }

-- groups[table] = append(groups[table], msg)
unfoldable pub append_to : Bytes → PbMsg → Groups → Groups
append_to table m [] = (table, m ∷ []) ∷ []
append_to table m ((t, ms) ∷ groups) =
    let rest = append_to table m groups in
    if bytes_eq t table then (t, ms ++ m ∷ []) ∷ groups else (t, ms) ∷ rest

abbrev pub add_item : (Bytes → ℕ) → Option PbMsg → Groups → Groups
add_item checksum none groups = groups
add_item checksum (some m) groups = append_to (shard_table checksum m.conv_id) m groups

unfoldable pub group_from : (Bytes → ℕ) → Groups → List StoreItem → Groups
group_from checksum groups [] = groups
group_from checksum groups (it ∷ items) =
    group_from checksum (add_item checksum it.msg groups) items

abbrev pub group_by_shard : (Bytes → ℕ) → List StoreItem → Groups
group_by_shard checksum items = group_from checksum [] items

abbrev message_row : PbMsg → ℕ → MessageRow
message_row m id = record {
  id = id;
  conv_id = m.conv_id;
  seq = m.seq;
  sender_id = m.sender_id;
  msg_type = m.msg_type;
  payload = m.payload;
  status = 0;
  created_at = m.timestamp;
}

unfoldable pub message_rows : List PbMsg → Option (List MessageRow)
message_rows [] = some []
message_rows (m ∷ ms) = do
  id ← parse_uint m.msg_id
  rows ← message_rows ms
  some (message_row m id ∷ rows)

-- `none` where an id is not a number.
unfoldable pub build_message_insert : Bytes → List PbMsg → Option Statement
build_message_insert table ms = do rows ← message_rows ms; some (insert_ignore table rows)

-- One row of a single chat, for `uid`, one of `a` and `b`.
abbrev pub chat_row : PbMsg → ℤ → ℤ → ℤ → ℤ → ConvRow
chat_row m recv a b uid = record {
  uid = uid;
  conv_id = m.conv_id;
  conv_type = m.conv_type;
  target_id = if eq_ℤ uid b then a else b;
  last_seq = m.seq;
  unread = if eq_ℤ uid recv then 1 else 0;
  updated_at = m.timestamp;
}

unfoldable pub conversation_rows : List PbMsg → Option (List ConvRow)
conversation_rows [] = some []
conversation_rows (m ∷ ms) = do
  (a, b) ← parse_p2p_conv m.conv_id
  recv ← receiver_of m
  rows ← conversation_rows ms
  some (chat_row m recv a b a ∷ chat_row m recv a b b ∷ rows)

unfoldable pub build_conversation_upsert : List PbMsg → Option Statement
build_conversation_upsert ms = do rows ← conversation_rows ms; some (upsert rows)

abbrev or_zero : Option ℤ → ℤ
or_zero none = pos 0
or_zero (some gid) = gid

unfoldable pub gid_of_conv : Bytes → ℤ
gid_of_conv conv_id = or_zero (parse_group_conv conv_id)

unfoldable pub group_row : PbMsg → ℤ → ConvRow
group_row m uid = record {
  uid = uid;
  conv_id = m.conv_id;
  conv_type = m.conv_type;
  target_id = gid_of_conv m.conv_id;
  last_seq = m.seq;
  unread = if eq_ℤ uid m.sender_id then 0 else 1;
  updated_at = m.timestamp;
}

-- `for start := 0; start < len(members); start += batch`, on the members that are left.
unfoldable pub batches_from : ℕ → PbMsg → List ℤ → ℕ → List Statement
batches_from zero m members batch = []
batches_from (suc fuel) m [] batch = []
batches_from (suc fuel) m (u ∷ us) batch =
    upsert (map (group_row m) (take batch (u ∷ us)))
    ∷ batches_from fuel m (drop batch (u ∷ us)) batch

abbrev pub build_group_conversation_upserts : PbMsg → List ℤ → ℕ → List Statement
build_group_conversation_upserts m members batch = batches_from (length members) m members batch
