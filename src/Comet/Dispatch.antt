-- ===== src/Comet/Dispatch.antt =====
-- internal/comet/dispatch.go: the business frames of a connection, and the push of a client's
-- unread conversations when it comes online. The logic service and the codec of protobuf are
-- parameters; every call is recorded, the latest first, and its answer may depend on all calls made
-- before. A message that cannot be decoded leaves what was decoded until then.
pub mod Own
pub mod Replies
use link_im.Prelude.{
  ℕ, Bool, true, false, List, [], ◌∷◌, Option, none, some, map, ◌==◌, if◌then◌else◌,
}
use link_im.Prelude.Int.{ℤ, pos}
use link_im.Prelude.Bytes.{Bytes}
use link_im.Protocol.Cmd.{
  cmd_msg_send, cmd_msg_send_ack, cmd_msg_received_ack, cmd_sync_pull, cmd_sync_resp,
  cmd_sync_notify,
}
use link_im.Protocol.Frame.{Frame, Result, ok, err, encode, ver}
use link_im.Comet.Conn.{Conn, push}

abbrev pub code_auth_failed : ℕ
code_auth_failed = 40101

abbrev pub code_logic_unavailable : ℕ
code_logic_unavailable = 50101

-- The client's pb.MsgSendReq, pb.ReceivedAckReq and pb.SyncPullReq.
pub record MsgSendReq : Type 0 where
  pub client_msg_id : Bytes
  pub conv_id : Bytes
  pub conv_type : ℤ
  pub msg_type : ℤ
  pub payload : Bytes

pub record ReceivedAckReq : Type 0 where
  pub msg_id : Bytes
  pub conv_id : Bytes
  pub seq : ℤ

pub record PullReq : Type 0 where
  pub conv_id : Bytes
  pub local_max_seq : ℤ
  pub limit : ℤ

-- pb.MsgSendAck; the fields of pb.SendMsgAck that are read are those without `client_msg_id`.
pub record MsgSendAck : Type 0 where
  pub code : ℕ
  pub client_msg_id : Bytes
  pub msg_id : Bytes
  pub seq : ℤ
  pub timestamp : ℤ

pub record SendMsgAck : Type 0 where
  pub code : ℕ
  pub msg_id : Bytes
  pub seq : ℤ
  pub timestamp : ℤ

-- pb.MsgPush, and pb.PbMsg as far as it is read.
pub record MsgPush : Type 0 where
  pub msg_id : Bytes
  pub conv_id : Bytes
  pub conv_type : ℤ
  pub sender_id : ℤ
  pub msg_type : ℤ
  pub payload : Bytes
  pub seq : ℤ
  pub timestamp : ℤ

pub record PbMsg : Type 0 where
  pub msg_id : Bytes
  pub conv_id : Bytes
  pub conv_type : ℤ
  pub sender_id : ℤ
  pub msg_type : ℤ
  pub payload : Bytes
  pub seq : ℤ
  pub timestamp : ℤ

pub record SyncPullResp : Type 0 where
  pub code : ℕ
  pub messages : List PbMsg
  pub max_seq : ℤ

pub record SyncResp : Type 0 where
  pub conv_id : Bytes
  pub messages : List MsgPush
  pub max_seq : ℤ
  pub code : ℕ

pub record ConvBrief : Type 0 where
  pub conv_id : Bytes
  pub conv_type : ℤ
  pub max_seq : ℤ
  pub unread : ℤ

-- The calls of pb.LogicClient, with the uid first.
pub data LogicCall : Type 0 where
  send_msg : ℤ → Bytes → MsgSendReq → LogicCall
  mark_read : ℤ → Bytes → ℤ → LogicCall
  report_delivered : ℤ → Bytes → Bytes → LogicCall
  sync_pull : ℤ → PullReq → LogicCall
  online_event : ℤ → Bytes → ℤ → Bytes → LogicCall

-- A decoder tells whether it succeeded, and what it filled in.
pub record DispatchWorld : Type 0 where
  pub on_send_msg : List LogicCall → Option SendMsgAck
  pub on_sync_pull : List LogicCall → Option SyncPullResp
  pub on_online_event : List LogicCall → Option (List ConvBrief)
  pub unmarshal_msg_send : Bytes → Bool × MsgSendReq
  pub unmarshal_received_ack : Bytes → Bool × ReceivedAckReq
  pub unmarshal_pull : Bytes → Bool × PullReq
  pub marshal_send_ack : MsgSendAck → Bytes
  pub marshal_sync_resp : SyncResp → Bytes
  pub marshal_notify : List ConvBrief → Bytes

pub record State : Type 0 where
  pub conn : Conn
  pub calls : List LogicCall

abbrev pub called : LogicCall → State → State
called c s = record s { calls = c ∷ s.calls }

abbrev pub pushed : Result Bytes → State → State
pushed (err e) s = s
pushed (ok f) s = record s { conn = (push f s.conn).1 }

-- replyAck
abbrev pub reply_ack : ℕ → ℕ → Bytes → State → State
reply_ack cmd seq body s =
    pushed (encode (record { ver = ver; cmd = cmd; seq = seq; body = body })) s

abbrev pub or_unavailable : Option SendMsgAck → SendMsgAck
or_unavailable none = record {
  code = code_logic_unavailable;
  msg_id = [];
  seq = pos 0;
  timestamp = pos 0;
}
or_unavailable (some a) = a

abbrev pub push_of : PbMsg → MsgPush
push_of m = record {
  msg_id = m.msg_id;
  conv_id = m.conv_id;
  conv_type = m.conv_type;
  sender_id = m.sender_id;
  msg_type = m.msg_type;
  payload = m.payload;
  seq = m.seq;
  timestamp = m.timestamp;
}

abbrev pub empty_resp : ℕ → SyncResp
empty_resp code = record { conv_id = []; messages = []; max_seq = pos 0; code = code }

module _ (w : DispatchWorld) where
  abbrev pub msg_send_decoded : ℕ → Bool × MsgSendReq → State → State
  msg_send_decoded seq (false, req) s =
      reply_ack cmd_msg_send_ack seq
        (w.marshal_send_ack (record {
          code = code_auth_failed;
          client_msg_id = req.client_msg_id;
          msg_id = [];
          seq = pos 0;
          timestamp = pos 0;
        }))
        s
  msg_send_decoded seq (true, req) s =
      let s' = called (send_msg s.conn.uid s.conn.device_id req) s in
      let a = or_unavailable (w.on_send_msg s'.calls) in
      reply_ack cmd_msg_send_ack seq
        (w.marshal_send_ack (record {
          code = a.code;
          client_msg_id = req.client_msg_id;
          msg_id = a.msg_id;
          seq = a.seq;
          timestamp = a.timestamp;
        }))
        s'

  unfoldable pub handle_msg_send : Frame → State → State
  handle_msg_send frame s = msg_send_decoded frame.seq (w.unmarshal_msg_send frame.body) s

  abbrev pub received_ack_decoded : Bool × ReceivedAckReq → State → State
  received_ack_decoded (false, req) s = s
  received_ack_decoded (true, req) s =
      called (report_delivered s.conn.uid req.msg_id req.conv_id)
        (called (mark_read s.conn.uid req.conv_id req.seq) s)

  unfoldable pub handle_msg_received_ack : Frame → State → State
  handle_msg_received_ack frame s = received_ack_decoded (w.unmarshal_received_ack frame.body) s

  abbrev pub sync_answered : ℕ → PullReq → Option SyncPullResp → State → State
  sync_answered seq req none s =
      reply_ack cmd_sync_resp seq (w.marshal_sync_resp (empty_resp code_logic_unavailable)) s
  sync_answered seq req (some resp) s =
      reply_ack cmd_sync_resp seq
        (w.marshal_sync_resp (record {
          conv_id = req.conv_id;
          messages = map push_of resp.messages;
          max_seq = resp.max_seq;
          code = resp.code;
        }))
        s

  abbrev pub pull_decoded : ℕ → Bool × PullReq → State → State
  pull_decoded seq (false, req) s =
      reply_ack cmd_sync_resp seq (w.marshal_sync_resp (empty_resp code_auth_failed)) s
  pull_decoded seq (true, req) s =
      let s' = called (sync_pull s.conn.uid req) s in
      sync_answered seq req (w.on_sync_pull s'.calls) s'

  unfoldable pub handle_sync_pull : Frame → State → State
  handle_sync_pull frame s = pull_decoded frame.seq (w.unmarshal_pull frame.body) s

  -- The switch of NewLogicDispatcher.
  unfoldable pub dispatch : Frame → State → State
  dispatch frame s =
      if frame.cmd == cmd_msg_send
      then handle_msg_send frame s
      else if frame.cmd == cmd_msg_received_ack
      then handle_msg_received_ack frame s
      else if frame.cmd == cmd_sync_pull
      then handle_sync_pull frame s
      else s

  abbrev pub notified : Option (List ConvBrief) → State → State
  notified none s = s
  notified (some []) s = s
  notified (some (c ∷ cs)) s = reply_ack cmd_sync_notify 0 (w.marshal_notify (c ∷ cs)) s

  unfoldable pub notify_online : ℤ → Bytes → State → State
  notify_online platform addr s =
      let s' = called (online_event s.conn.uid s.conn.device_id platform addr) s in
      notified (w.on_online_event s'.calls) s'

  -- The business frames of a connection, one after the other.
  unfoldable pub dispatch_all : List Frame → State → State
  dispatch_all [] s = s
  dispatch_all (f ∷ fs) s = dispatch_all fs (dispatch f s)
