-- ===== src/Job/Rows/Shards.antt =====
-- GroupByShard against a filter of the batch.
use link_im.Prelude.{
  ℕ, List, [], ◌∷◌, ◌++◌, Option, none, some, ◌≡◌, ◌∙◌, sym, ap, arith, if◌then◌else◌, append_assoc,
  append-nil,
}
use link_im.Prelude.Bytes.{Bytes, bytes_eq, bytes_eq_iff}
use link_im.Logic.World.{PbMsg}
use link_im.Job.World.{Groups}
use link_im.Job.Rows.{StoreItem, shard_table, append_to, add_item, group_from, group_by_shard}

-- What a map lookup gives: the empty slice for a missing key.
unfoldable pub messages_in : Bytes → Groups → List PbMsg
messages_in table [] = []
messages_in table ((t, ms) ∷ groups) = if bytes_eq t table then ms else messages_in table groups

abbrev if_shard : (Bytes → ℕ) → Bytes → Option PbMsg → List PbMsg
if_shard checksum table none = []
if_shard checksum table (some m) =
    if bytes_eq (shard_table checksum m.conv_id) table then m ∷ [] else []

-- The decoded messages of a batch whose conversation belongs to the table, in order.
unfoldable pub shard_messages : (Bytes → ℕ) → Bytes → List StoreItem → List PbMsg
shard_messages checksum table [] = []
shard_messages checksum table (it ∷ items) =
    if_shard checksum table it.msg ++ shard_messages checksum table items

messages_in-append_to :
    (table u : Bytes) (m : PbMsg) (groups : Groups)
    → messages_in table (append_to u m groups)
      ≡ messages_in table groups ++ (if bytes_eq u table then m ∷ [] else [])
unfolding messages_in append_to
messages_in-append_to table u m [] = ground arith
messages_in-append_to table u m ((t, ms) ∷ groups) = ground (
  arith,
  messages_in-append_to table u m groups,
  bytes_eq_iff t u,
  bytes_eq_iff t table,
  bytes_eq_iff u table,
  append-nil ms,
  append-nil (messages_in table groups),
)

messages_in-add_item :
    (checksum : Bytes → ℕ) (table : Bytes) (o : Option PbMsg) (groups : Groups)
    → messages_in table (add_item checksum o groups)
      ≡ messages_in table groups ++ if_shard checksum table o
messages_in-add_item checksum table none groups = sym (append-nil (messages_in table groups))
messages_in-add_item checksum table (some m) groups =
    messages_in-append_to table (shard_table checksum m.conv_id) m groups

messages_in-group_from :
    (checksum : Bytes → ℕ) (table : Bytes) (groups : Groups) (items : List StoreItem)
    → messages_in table (group_from checksum groups items)
      ≡ messages_in table groups ++ shard_messages checksum table items
unfolding group_from shard_messages
messages_in-group_from checksum table groups [] = sym (append-nil (messages_in table groups))
messages_in-group_from checksum table groups (it ∷ items) =
    messages_in-group_from checksum table (add_item checksum it.msg groups) items
    ∙ ap (λ l. l ++ shard_messages checksum table items)
        (messages_in-add_item checksum table it.msg groups)
    ∙ append_assoc (messages_in table groups) (if_shard checksum table it.msg)
        (shard_messages checksum table items)

-- For every table name, the group of that name holds exactly the decoded messages of the batch
-- whose conversation belongs to that table, in the order of the batch.
pub messages_in-group_by_shard :
    (checksum : Bytes → ℕ) (table : Bytes) (items : List StoreItem)
    → messages_in table (group_by_shard checksum items) ≡ shard_messages checksum table items
unfolding messages_in
messages_in-group_by_shard checksum table items = messages_in-group_from checksum table [] items
