-- ===== src/Comet/Dispatch/Own.antt =====
-- The identity under which internal/comet/dispatch.go calls the logic service.
use link_im.Prelude.{
  ℕ, Bool, true, false, List, [], ◌∷◌, Option, none, some, ◌==◌, ◌≡◌, ◌∙◌, inl, inr, All,
  Bool-cases,
}
use link_im.Prelude.Int.{ℤ}
use link_im.Prelude.Bytes.{Bytes}
use link_im.Protocol.Cmd.{cmd_msg_send, cmd_msg_received_ack, cmd_sync_pull}
use link_im.Protocol.Frame.{Frame, Result, ok, err, encode, ver}
use link_im.Comet.Auth.Identity.{push-SameConn}
use link_im.Comet.Dispatch.{
  LogicCall, send_msg, mark_read, report_delivered, sync_pull, online_event, DispatchWorld,
  MsgSendReq, ReceivedAckReq, PullReq, SyncPullResp, State, pushed, reply_ack, msg_send_decoded,
  handle_msg_send, received_ack_decoded, handle_msg_received_ack, sync_answered, pull_decoded,
  handle_sync_pull, dispatch, dispatch_all,
}

-- A call that is made for a user.
abbrev pub IsFor : ℤ → LogicCall → Type 0
IsFor uid (send_msg u d r) = u ≡ uid
IsFor uid (mark_read u c n) = u ≡ uid
IsFor uid (report_delivered u m c) = u ≡ uid
IsFor uid (sync_pull u r) = u ≡ uid
IsFor uid (online_event u d p a) = u ≡ uid

pub record Owned (uid : ℤ) (s : State) : Type 0 where
  pub owner : s.conn.uid ≡ uid
  pub calls : All (IsFor uid) s.calls

reply_ack-Owned :
    (uid : ℤ) (cmd seq : ℕ) (body : Bytes) (s : State)
    → Owned uid s
    → Owned uid (reply_ack cmd seq body s)
reply_ack-Owned uid cmd seq body s h =
    pushed-Owned (encode (record { ver = ver; cmd = cmd; seq = seq; body = body }))
  where
    pushed-Owned : (r : Result Bytes) → Owned uid (pushed r s)
    pushed-Owned (err e) = h
    pushed-Owned (ok f) = record { owner = (push-SameConn f s.conn).uid ∙ h.owner; calls = h.calls }

module _ (w : DispatchWorld) (uid : ℤ) where
  send-Owned :
      (seq : ℕ) (b : Bool) (req : MsgSendReq) (s : State)
      → Owned uid s
      → Owned uid (msg_send_decoded w seq (b, req) s)
  send-Owned seq false req s h = reply_ack-Owned uid _ seq _ s h
  send-Owned seq true req s h =
      reply_ack-Owned uid _ seq _ _ (record { owner = h.owner; calls = (h.owner, h.calls) })

  received-Owned :
      (b : Bool) (req : ReceivedAckReq) (s : State)
      → Owned uid s
      → Owned uid (received_ack_decoded w (b, req) s)
  received-Owned false req s h = h
  received-Owned true req s h = record { owner = h.owner; calls = (h.owner, (h.owner, h.calls)) }

  answered-Owned :
      (seq : ℕ) (req : PullReq) (o : Option SyncPullResp) (s : State)
      → Owned uid s
      → Owned uid (sync_answered w seq req o s)
  answered-Owned seq req none s h = reply_ack-Owned uid _ seq _ s h
  answered-Owned seq req (some resp) s h = reply_ack-Owned uid _ seq _ s h

  pull-Owned :
      (seq : ℕ) (b : Bool) (req : PullReq) (s : State)
      → Owned uid s
      → Owned uid (pull_decoded w seq (b, req) s)
  pull-Owned seq false req s h = reply_ack-Owned uid _ seq _ s h
  pull-Owned seq true req s h =
      answered-Owned seq req _ _ (record { owner = h.owner; calls = (h.owner, h.calls) })

  dispatch-Owned : (f : Frame) (s : State) → Owned uid s → Owned uid (dispatch w f s)
  unfolding dispatch handle_msg_send handle_msg_received_ack handle_sync_pull
  dispatch-Owned f s h = elim (Bool-cases (f.cmd == cmd_msg_send)) [
    | inl a ↦
        rw a (send-Owned f.seq (w.unmarshal_msg_send f.body).0 (w.unmarshal_msg_send f.body).1 s h)
    | inr a ↦ rw a (elim (Bool-cases (f.cmd == cmd_msg_received_ack)) [
      | inl b ↦ rw b (
          received-Owned (w.unmarshal_received_ack f.body).0 (w.unmarshal_received_ack f.body).1 s
            h)
      | inr b ↦ rw b (elim (Bool-cases (f.cmd == cmd_sync_pull)) [
        | inl c ↦
            rw c (pull-Owned f.seq (w.unmarshal_pull f.body).0 (w.unmarshal_pull f.body).1 s h)
        | inr c ↦ rw c h
      ])
    ])
  ]

  -- Whatever frames a connection sends, every call of the logic service is made for the user of the
  -- connection, and the user of the connection stays the same.
  pub dispatch_all-Owned :
      (fs : List Frame) (s : State) → Owned uid s → Owned uid (dispatch_all w fs s)
  unfolding dispatch_all
  dispatch_all-Owned [] s h = h
  dispatch_all-Owned (f ∷ fs) s h = dispatch_all-Owned fs (dispatch w f s) (dispatch-Owned f s h)
