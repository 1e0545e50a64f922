-- ===== src/Logic/Conversations.antt =====
-- The conversation table behind internal/logic/sync.go, and the gRPC handlers on it: MarkRead,
-- GetPendingConvs and OnlineEvent of sync.go, and ReportDelivered of delivered.go. A statement or
-- a call of Redis fails where its answer says so; every call is recorded, the latest first, and its
-- answer may depend on all calls made before. Errors are logged, and the replies do not show them.
pub mod Pending
use link_im.Prelude.{
  ℕ, Bool, true, false, ◌&&◌, ◌||◌, List, [], ◌∷◌, ◌++◌, Option, none, some, ltb, ◌==◌,
  if◌then◌else◌,
}
use link_im.Prelude.Int.{ℤ, pos, negsuc, leb_ℤ, eq_ℤ}
use link_im.Prelude.Bytes.{Bytes, codes, bytes_eq}
use link_im.Decimal.{format_int}
use link_im.Comet.Server.{presence_key}
use link_im.Logic.Sync.{Cursor, mark_read}

pub record ConvRow : Type 0 where
  pub uid : ℤ
  pub conv_id : Bytes
  pub conv_type : ℤ
  pub last_seq : ℕ
  pub cursor : Cursor

-- pb.ConvBrief
pub record ConvBrief : Type 0 where
  pub conv_id : Bytes
  pub conv_type : ℤ
  pub max_seq : ℕ
  pub unread : ℕ

pub data Call : Type 0 where
  update_read : ℤ → Bytes → ℕ → Call
  select_pending : ℤ → Call
  exists_key : Bytes → Call
  set_key : Bytes → Bytes → Call

pub record World : Type 0 where
  pub on_sql : List Call → Bool
  pub on_exists : List Call → Option ℕ

pub record State : Type 0 where
  pub rows : List ConvRow
  pub calls : List Call

abbrev pub record_call : Call → State → State
record_call c s = record s { calls = c ∷ s.calls }

-- redisx.DeliveredKey
unfoldable pub delivered_key : ℤ → Bytes → Bytes
delivered_key uid msg_id = codes "delivered:" ++ (format_int uid ++ (codes ":" ++ msg_id))

abbrev pub is_row : ℤ → Bytes → ConvRow → Bool
is_row uid conv_id r = eq_ℤ r.uid uid && bytes_eq r.conv_id conv_id

-- The UPDATE of MySQLSyncStore.MarkRead, with its WHERE.
unfoldable pub mark_rows : ℤ → Bytes → ℕ → List ConvRow → List ConvRow
mark_rows uid conv_id seq [] = []
mark_rows uid conv_id seq (r ∷ rs) =
    let rest = mark_rows uid conv_id seq rs in
    (if is_row uid conv_id r then record r { cursor = mark_read seq r.cursor } else r) ∷ rest

abbrev pub brief_of : ConvRow → ConvBrief
brief_of r = record {
  conv_id = r.conv_id;
  conv_type = r.conv_type;
  max_seq = r.last_seq;
  unread = r.cursor.unread;
}

-- The SELECT of PendingConvs: WHERE uid = ? AND last_seq > read_seq
unfoldable pub pending_rows : ℤ → List ConvRow → List ConvBrief
pending_rows uid [] = []
pending_rows uid (r ∷ rs) =
    let rest = pending_rows uid rs in
    if eq_ℤ r.uid uid && ltb r.cursor.read_seq r.last_seq then brief_of r ∷ rest else rest

module _ (w : World) where
  -- MySQLSyncStore.MarkRead and PendingConvs.
  abbrev pub store_mark_read : ℤ → Bytes → ℕ → State → State
  store_mark_read uid conv_id seq s =
      let s' = record_call (update_read uid conv_id seq) s in
      if w.on_sql s'.calls then record s' { rows = mark_rows uid conv_id seq s.rows } else s'

  abbrev pub pending_convs : ℤ → State → Option (List ConvBrief) × State
  pending_convs uid s =
      let s' = record_call (select_pending uid) s in
      (if w.on_sql s'.calls then some (pending_rows uid s.rows) else none, s')

  -- MarkRead; the reply is empty in every case.
  abbrev pub mark_read_from : ℤ → Bytes → ℤ → State → State
  mark_read_from uid conv_id (negsuc n) s = s
  mark_read_from uid conv_id (pos seq) s = store_mark_read uid conv_id seq s

  unfoldable pub handle_mark_read : ℤ → Bytes → ℤ → State → State
  handle_mark_read uid conv_id seq s =
      if leb_ℤ uid (pos 0) || bytes_eq conv_id [] then s else mark_read_from uid conv_id seq s

  abbrev pub or_empty : Option (List ConvBrief) × State → List ConvBrief × State
  or_empty (none, s) = ([], s)
  or_empty (some convs, s) = (convs, s)

  unfoldable pub get_pending_convs : ℤ → State → List ConvBrief × State
  get_pending_convs uid s = if leb_ℤ uid (pos 0) then ([], s) else or_empty (pending_convs uid s)

  -- The presence is written only where there is none.
  abbrev pub write_presence : Bytes → Option ℕ → State → State
  write_presence key none s = s
  write_presence key (some n) s = if n == 0 then record_call (set_key key (codes "online")) s else s

  abbrev pub ensure_presence : ℤ → State → State
  ensure_presence uid s =
      let s' = record_call (exists_key (presence_key uid)) s in
      write_presence (presence_key uid) (w.on_exists s'.calls) s'

  unfoldable pub online_event : ℤ → Bool → State → List ConvBrief × State
  online_event uid online s =
      if leb_ℤ uid (pos 0)
      then ([], s)
      else if online
      then or_empty (pending_convs uid (ensure_presence uid s))
      else ([], s)

  unfoldable pub report_delivered : ℤ → Bytes → State → State
  report_delivered uid msg_id s =
      if leb_ℤ uid (pos 0) || bytes_eq msg_id []
      then s
      else record_call (set_key (delivered_key uid msg_id) (codes "1")) s
