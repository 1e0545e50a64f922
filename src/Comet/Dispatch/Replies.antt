-- ===== src/Comet/Dispatch/Replies.antt =====
-- What a client gets for its business frames from internal/comet/dispatch.go.
use link_im.Prelude.{
  ℕ, ◌<◌, ◌≤◌, ◌^◌, Bool, true, false, [], ◌∷◌, ◌++◌, ◌≡◌, ◌∙◌, ◌⊎◌, ap, arith, length, Option,
  none, some, inl, inr, leb, Bool-cases, Option-cases,
}
use link_im.Prelude.Int.{pos}
use link_im.Prelude.Bytes.{Bytes}
use link_im.Protocol.Cmd.{cmd_msg_send_ack}
use link_im.Protocol.Frame.{Frame, ok, encode, decode, ver, max_body_len}
use link_im.Protocol.Frame.RoundTrip.{decode-encode}
use link_im.Comet.Conn.{send_chan_size}
use link_im.Comet.Server.Push.{push-sent}
use link_im.Comet.Dispatch.{
  send_msg, SendMsgAck, called, DispatchWorld, MsgSendReq, MsgSendAck, State, pushed, reply_ack,
  msg_send_decoded, handle_msg_send,
}

-- The queue gets one more frame, which reads as the command, the sequence number and the body.
pub record Replied (cmd seq : ℕ) (body : Bytes) (s t : State) : Type 0 where
  pub wire : Bytes
  pub reads : decode wire ≡ ok (record { ver = ver; cmd = cmd; seq = seq; body = body })
  pub queue : t.conn.send ≡ s.conn.send ++ wire ∷ []

reply_ack-Replied :
    (cmd seq : ℕ) (body : Bytes) (s : State)
    → s.conn.closed ≡ false
    → length s.conn.send < send_chan_size
    → seq < 2 ^ 32
    → cmd < 2 ^ 16
    → length body ≤ max_body_len
    → Replied cmd seq body s (reply_ack cmd seq body s)
reply_ack-Replied cmd seq body s opened room width c short =
    let f : Frame = record { ver = ver; cmd = cmd; seq = seq; body = body } in
    let (wire, encoded, decoded) =
      decode-encode f (record { ver = omega arith; cmd = c; seq = width; short = short }) in
    record {
      wire = wire;
      reads = decoded;
      queue =
          ap (λ r. (pushed r s).conn.send) encoded
          ∙ ap (λ p. p.1.send) (push-sent wire s.conn opened room);
    }

-- The acknowledgement that the client is owed: 40101 without an id where its body does not decode,
-- else what the logic service answers to the call made for it, or 50101 where it does not answer.
abbrev pub unanswered : ℕ → MsgSendReq → MsgSendAck
unanswered code req = record {
  code = code;
  client_msg_id = req.client_msg_id;
  msg_id = [];
  seq = pos 0;
  timestamp = pos 0;
}

abbrev pub answered : MsgSendReq → Option SendMsgAck → MsgSendAck
answered req none = unanswered 50101 req
answered req (some a) = record {
  code = a.code;
  client_msg_id = req.client_msg_id;
  msg_id = a.msg_id;
  seq = a.seq;
  timestamp = a.timestamp;
}

abbrev pub owed_to : DispatchWorld → Bool × MsgSendReq → State → MsgSendAck
owed_to w (false, req) s = unanswered 40101 req
owed_to w (true, req) s =
    answered req (w.on_send_msg (send_msg s.conn.uid s.conn.device_id req ∷ s.calls))

abbrev pub owed_ack : DispatchWorld → Bytes → State → MsgSendAck
owed_ack w body s = owed_to w (w.unmarshal_msg_send body) s

-- A body that fits is sent; nothing is sent of one that does not.
abbrev pub RepliedIfShort : ℕ → ℕ → Bytes → State → State → Type 0
RepliedIfShort cmd seq body s t =
    ((length body ≤ max_body_len) × Replied cmd seq body s t)
    ⊎ ((max_body_len < length body) × (t.conn ≡ s.conn))

reply_ack-long :
    (cmd seq : ℕ) (body : Bytes) (s : State)
    → max_body_len < length body
    → reply_ack cmd seq body s ≡ s
unfolding encode
reply_ack-long cmd seq body s long = ground arith

reply_ack-RepliedIfShort :
    (cmd seq : ℕ) (body : Bytes) (s : State)
    → s.conn.closed ≡ false
    → length s.conn.send < send_chan_size
    → seq < 2 ^ 32
    → cmd < 2 ^ 16
    → RepliedIfShort cmd seq body s (reply_ack cmd seq body s)
reply_ack-RepliedIfShort cmd seq body s opened room width c =
    elim (Bool-cases (leb (length body) max_body_len)) [
      | inl e ↦
          let short : length body ≤ max_body_len = ground arith in
          inl (short, reply_ack-Replied cmd seq body s opened room width c short)
      | inr e ↦
          let long : max_body_len < length body = ground arith in
          inr (long, ap (λ t. t.conn) (reply_ack-long cmd seq body s long))
    ]

owed-RepliedIfShort :
    (w : DispatchWorld) (seq : ℕ) (p : Bool × MsgSendReq) (s : State)
    → s.conn.closed ≡ false
    → length s.conn.send < send_chan_size
    → seq < 2 ^ 32
    → RepliedIfShort cmd_msg_send_ack seq
        (w.marshal_send_ack (owed_to w p s))
        s
        (msg_send_decoded w seq p s)
owed-RepliedIfShort w seq (false, req) s opened room width =
    reply_ack-RepliedIfShort cmd_msg_send_ack seq _ s opened room width (omega arith)
owed-RepliedIfShort w seq (true, req) s opened room width =
    let s' = called (send_msg s.conn.uid s.conn.device_id req) s in
    elim (Option-cases (w.on_send_msg s'.calls)) [
      | inl e ↦ rw e (
          same_conn (
            reply_ack-RepliedIfShort cmd_msg_send_ack seq
              (w.marshal_send_ack (unanswered 50101 req)) s' opened room width (omega arith)))
      | inr (a, e) ↦ rw e (
          same_conn (
            reply_ack-RepliedIfShort cmd_msg_send_ack seq
              (w.marshal_send_ack (answered req (some a))) s' opened room width (omega arith)))
    ]
  where
    same_conn :
        {body : Bytes} {t : State}
        → RepliedIfShort cmd_msg_send_ack seq body
            (called (send_msg s.conn.uid s.conn.device_id req) s)
            t
        → RepliedIfShort cmd_msg_send_ack seq body s t
    same_conn (inl (short, r)) =
        inl (short, record { wire = r.wire; reads = r.reads; queue = r.queue })
    same_conn (inr x) = inr x

-- Every MSG_SEND of an open connection whose queue has room is answered by exactly one
-- MSG_SEND_ACK with the sequence number of the frame and the acknowledgement that is owed, if that
-- fits into a frame; if it does not, the connection gets nothing.
pub handle_msg_send-Acks :
    (w : DispatchWorld) (frame : Frame) (s : State)
    → s.conn.closed ≡ false
    → length s.conn.send < send_chan_size
    → frame.seq < 2 ^ 32
    → RepliedIfShort cmd_msg_send_ack frame.seq
        (w.marshal_send_ack (owed_ack w frame.body s))
        s
        (handle_msg_send w frame s)
unfolding handle_msg_send
handle_msg_send-Acks w frame s opened room width =
    owed-RepliedIfShort w frame.seq (w.unmarshal_msg_send frame.body) s opened room width
