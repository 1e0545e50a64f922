-- ===== src/Comet/Auth.antt =====
-- internal/comet/server.go: authentication, the kicking of the other devices of a platform, and
-- the read loop's handling of one frame.
pub mod Identity
pub mod Reconnect
pub mod Leak
use link_im.Prelude.{
  ℕ, suc, ◌+◌, ◌<◌, Bool, true, false, ◌&&◌, not, List, [], ◌∷◌, ◌++◌, Option, none, some, ltb,
  ◌==◌, if◌then◌else◌, length, take, drop,
}
use link_im.Prelude.Int.{ℤ, pos}
use link_im.Prelude.Bytes.{Bytes, codes, bytes_eq}
use link_im.Decimal.{format_int}
use link_im.Protocol.Cmd.{
  cmd_auth, cmd_auth_ack, cmd_heartbeat, cmd_heartbeat_ack, cmd_msg_send, cmd_msg_received_ack,
  cmd_sync_pull,
}
use link_im.Protocol.Frame.{Frame}
use link_im.Comet.Conn
use link_im.Comet.Conn.{Conn, device_key}
use link_im.Comet.Bucket
use link_im.Comet.Bucket.{route_field}
use link_im.Comet.Server.{
  Server, World, Call, hget_all, kick_remote, verify_token, register, renew_presence, AuthReq,
  AuthAck, VerifyTokenResp, route_key, presence_key, with_conn, with_bucket, record_call, bucket,
  find, close, reply, kick_conn,
}

abbrev pub code_auth_failed : ℕ
code_auth_failed = 40101

abbrev pub kick_reason : Bytes
kick_reason = codes "same-platform login"

-- The device of a route field, if the field begins with "platform:" and goes on after it.
unfoldable pub device_on : ℤ → Bytes → Option Bytes
device_on platform field =
    let want = format_int platform ++ codes ":" in
    if ltb (length want) (length field) && bytes_eq (take (length want) field) want
    then some (drop (length want) field)
    else none

module _ (w : World) where
  abbrev kick_local : Option ℕ → ℕ × Server → ℕ × Server
  kick_local none (n, s) = (n, s)
  kick_local (some old) (n, s) = (n + 1, kick_conn w old kick_reason s)

  -- A device of the platform that is not the current one, on this instance or on another.
  unfoldable pub kick_device : ℤ → Bytes → Bytes → Bytes → ℕ × Server → ℕ × Server
  kick_device uid current device addr (n, s) =
      let called = record_call (kick_remote addr uid device) s in
      if bytes_eq device current
      then (n, s)
      else if bytes_eq addr s.advertise_addr
      then kick_local (find uid device s) (n, s)
      else (if w.on_kick_remote called.calls then n + 1 else n, called)

  abbrev kick_field : ℤ → Bytes → Bytes → Option Bytes → ℕ × Server → ℕ × Server
  kick_field uid current addr none ns = ns
  kick_field uid current addr (some device) ns = kick_device uid current device addr ns

  -- The loop over the route, in the order in which its entries come.
  unfoldable pub kick_each : ℤ → ℤ → Bytes → List (Bytes × Bytes) → ℕ × Server → ℕ × Server
  kick_each uid platform current [] ns = ns
  kick_each uid platform current ((field, addr) ∷ route) ns =
      kick_each uid platform current route
        (kick_field uid current addr (device_on platform field) ns)

  abbrev kick_route : ℤ → ℤ → Bytes → Option (List (Bytes × Bytes)) → Server → ℕ × Server
  kick_route uid platform current none s = (0, s)
  kick_route uid platform current (some route) s = kick_each uid platform current route (0, s)

  -- The number of connections that were kicked.
  unfoldable pub kick_same_platform : ℤ → ℤ → Bytes → Server → ℕ × Server
  kick_same_platform uid platform current s =
      let s' = record_call (hget_all (route_key uid)) s in
      kick_route uid platform current (w.on_hget_all s'.calls) s'

  abbrev pub answer : ℕ → ℕ → ℕ → Bytes → ℤ → Server → Server
  answer i seq code msg uid s =
      reply w i cmd_auth_ack seq
        (w.marshal_auth_ack (record { code = code; msg = msg; uid = uid; kick_reason = 0 })) s

  -- The frame that replaces an older one of the same device closes it.
  abbrev pub close_replaced : ℕ → Option ℕ → Server → Server
  close_replaced i none s = s
  close_replaced i (some old) s = if old == i then s else close w old s

  -- Same-device reconnection: the new connection takes the key, and the old one is closed.
  unfoldable pub take_over : ℕ → ℤ → Bytes → Server → Server
  take_over i uid device_id s =
      let (old, b) = Bucket.put (device_key uid device_id) i (bucket uid s) in
      close_replaced i old (with_bucket uid b s)

  -- The part after a valid answer of the logic service.
  unfoldable pub admit : ℕ → ℕ → AuthReq → ℤ → Server → Server
  admit i seq req uid s =
      let identified =
        with_conn i (Conn.set_identity uid req.device_id req.platform (s.conns i)) s in
      let kicked = (kick_same_platform uid req.platform req.device_id identified).1 in
      let placed = take_over i uid req.device_id kicked in
      let registered =
        record_call
          (register (route_key uid) (route_field req.platform req.device_id) placed.advertise_addr
            (presence_key uid))
          placed in
      let authed = with_conn i (Conn.mark_authed (registered.conns i)) registered in
      let acked = answer i seq 0 (codes "ok") uid authed in
      record acked { notifying = i ∷ acked.notifying }

  abbrev pub reject : ℕ → ℕ → ℕ → Bytes → Server → Server
  reject i seq code msg s = close w i (answer i seq code msg (pos 0) s)

  abbrev pub judged : ℕ → ℕ → AuthReq → Option VerifyTokenResp → Server → Server
  judged i seq req none s = reject i seq code_auth_failed (codes "verify failed") s
  judged i seq req (some resp) s =
      if resp.valid
      then admit i seq req resp.uid s
      else reject i seq resp.code (codes "verify failed") s

  abbrev pub authenticate : ℕ → ℕ → Option AuthReq → Server → Server
  authenticate i seq none s = reject i seq code_auth_failed (codes "auth frame malformed") s
  authenticate i seq (some req) s =
      let s' = record_call (verify_token req.uid req.token) s in
      judged i seq req (w.on_verify_token s'.calls) s'

  unfoldable pub handle_auth : ℕ → Frame → Server → Server
  handle_auth i frame s = authenticate i frame.seq (w.unmarshal_auth_req frame.body) s

  abbrev pub is_business : ℕ → Bool
  is_business cmd =
      if cmd == cmd_msg_send
      then true
      else if cmd == cmd_msg_received_ack
      then true
      else cmd == cmd_sync_pull

  -- A frame of an authenticated connection.
  unfoldable pub serve_frame : ℕ → Frame → Server → Server
  serve_frame i frame s =
      if frame.cmd == cmd_heartbeat
      then record_call (renew_presence (presence_key (s.conns i).uid))
          (reply w i cmd_heartbeat_ack frame.seq [] s)
      else if frame.cmd == cmd_auth
      then s
      else if is_business frame.cmd
      then record s { dispatched = (i, frame) ∷ s.dispatched }
      else s

  -- One round of readLoop, with a frame that was read at the second `now`.
  unfoldable pub on_frame : ℕ → ℕ → Frame → Server → Server
  on_frame now i frame s =
      let s' = with_conn i (Conn.touch now (s.conns i)) s in
      if (s.conns i).authed
      then serve_frame i frame s'
      else if frame.cmd == cmd_auth
      then handle_auth i frame s'
      else close w i s'
