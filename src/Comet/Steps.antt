-- ===== src/Comet/Steps.antt =====
-- An instance as a transition system: what may happen to the server of internal/comet/server.go,
-- one event at a time. handleAuth is several steps, between which any other step may come, as the
-- watchdog and the write loop run in other goroutines: the call of VerifyToken, its answer, the
-- kicks of the platform, the entry into the bucket with the close of the replaced connection, and
-- what follows. Another handler, and a Close, is one step. A closed connection may still deliver the
-- frames that its stream reader holds.
pub mod Stages
pub mod Table
pub mod Holds
pub mod Admission
pub mod Handlers
pub mod Invariant
pub mod Owners
pub mod Timers
use link_im.Prelude.{
  ℕ, suc, ◌<◌, Bool, true, false, List, [], ◌∷◌, Option, none, some, ◌≡◌, if◌then◌else◌, ◌==◌,
}
use link_im.Prelude.Int.{ℤ}
use link_im.Prelude.Bytes.{Bytes, codes}
use link_im.Protocol.Cmd.{cmd_auth}
use link_im.Protocol.Frame.{Frame}
use link_im.Comet.Conn.{
  Conn, new_conn, idle_timeout, is_idle, check_slow, touch, set_identity, mark_authed,
}
use link_im.Comet.Bucket.{route_field}
use link_im.Comet.Server.{
  Server, World, AuthReq, VerifyTokenResp, update, record_call, verify_token, register, route_key,
  presence_key, with_conn, close, run_pending, push_to, push_frames, kick,
}
use link_im.Comet.Auth.{on_frame, reject, answer, take_over, kick_same_platform, code_auth_failed}
use link_im.Comet.Drain.{broadcast}

-- Where the read loop of a connection is: before its next frame, or in handleAuth, with the
-- frame's sequence number and request, and then the uid of the answer. `late` is a read loop whose
-- handleAuth has marked the connection as authenticated when it was closed already.
pub data Stage : Type 0 where
  reading : Stage
  asking : ℕ → AuthReq → Stage
  named swept placed : ℕ → AuthReq → ℤ → Stage
  late : Stage

-- It stands in the bucket and is not marked yet.
abbrev pub is_placed : Stage → Bool
is_placed (placed seq req uid) = true
is_placed _ = false

abbrev pub is_racing : Stage → Bool
is_racing (placed seq req uid) = true
is_racing late = true
is_racing _ = false

-- The read loop is not in handleAuth.
abbrev pub is_free : Stage → Bool
is_free reading = true
is_free late = true
is_free _ = false

-- The connections are numbered in the order in which ServeWS accepted them.
pub record System : Type 0 where
  pub server : Server
  pub accepted : ℕ
  pub stage : ℕ → Stage

abbrev pub set_server : System → Server → System
set_server s t = record s { server = t }

abbrev pub set_stage : ℕ → Stage → System → System
set_stage i st s = record s { stage = update s.stage i st }

-- newServer: no connection, and empty buckets.
unfoldable pub initial : Bytes → (ℕ → Conn) → System
initial addr conns = record {
  server = record {
    advertise_addr = addr;
    conns = conns;
    buckets = λ b. [];
    pending = [];
    notifying = [];
    dispatched = [];
    calls = [];
  };
  accepted = 0;
  stage = λ i. reading;
}

unfoldable pub accept : ℕ → System → System
accept now s = record {
  server = with_conn s.accepted (new_conn now) s.server;
  accepted = suc s.accepted;
  stage = update s.stage s.accepted reading;
}

-- The write loop takes the oldest frame.
abbrev pub written : Conn → Conn
written c = elim c.send [ [] ↦ c | f ∷ fs ↦ record c { send = fs } ]

module _ (w : World) where
  -- The write loop's check of the second.
  unfoldable pub slow_tick : ℕ → ℕ → Server → Server
  slow_tick now i s =
      let (slow, c) = check_slow now (s.conns i) in
      let s' = with_conn i c s in if slow then close w i s' else s'

  -- The watchdog of ServeWS, 10 s after the upgrade.
  unfoldable pub watchdog : ℕ → Server → Server
  watchdog i s = if (s.conns i).authed then s else close w i s

  -- One round of the idle scan, for one connection.
  unfoldable pub idle_tick : ℕ → ℕ → Server → Server
  idle_tick now i s = if is_idle now idle_timeout (s.conns i) then close w i s else s

  -- The request that makes handleAuth call the logic service.
  abbrev pub awaits : Conn → Frame → Option AuthReq
  awaits c f =
      if c.authed then none else if f.cmd == cmd_auth then w.unmarshal_auth_req f.body else none

  unfoldable pub ask : ℕ → ℕ → ℕ → AuthReq → System → System
  ask now i seq req s = set_stage i (asking seq req) (
      set_server s (
        record_call (verify_token req.uid req.token)
          (with_conn i (touch now (s.server.conns i)) s.server)))

  abbrev pub refuse : ℕ → ℕ → ℕ → System → System
  refuse i seq code s =
      set_stage i reading (set_server s (reject w i seq code (codes "verify failed") s.server))

  abbrev pub identify : ℕ → AuthReq → ℤ → Server → Server
  identify i req uid s = with_conn i (set_identity uid req.device_id req.platform (s.conns i)) s

  -- The answer of VerifyToken, or an error.
  unfoldable pub judge : ℕ → ℕ → AuthReq → Option VerifyTokenResp → System → System
  judge i seq req none s = refuse i seq code_auth_failed s
  judge i seq req (some r) s =
      if r.valid
      then set_stage i (named seq req r.uid) (set_server s (identify i req r.uid s.server))
      else refuse i seq r.code s

  unfoldable pub sweep : ℕ → ℕ → AuthReq → ℤ → System → System
  sweep i seq req uid s =
      set_stage i (swept seq req uid)
        (set_server s (kick_same_platform w uid req.platform req.device_id s.server).1)

  unfoldable pub place : ℕ → ℕ → AuthReq → ℤ → System → System
  place i seq req uid s =
      set_stage i (placed seq req uid) (set_server s (take_over w i uid req.device_id s.server))

  -- The route, the mark, the acknowledgement and NotifyOnline.
  abbrev pub enroll : ℕ → ℕ → AuthReq → ℤ → Server → Server
  enroll i seq req uid s =
      let registered =
        record_call
          (register (route_key uid) (route_field req.platform req.device_id) s.advertise_addr
            (presence_key uid))
          s in
      let authed = with_conn i (mark_authed (registered.conns i)) registered in
      let acked = answer w i seq 0 (codes "ok") uid authed in
      record acked { notifying = i ∷ acked.notifying }

  unfoldable pub finish : ℕ → ℕ → AuthReq → ℤ → System → System
  finish i seq req uid s =
      set_stage i (if (s.server.conns i).closed then late else reading)
        (set_server s (enroll i seq req uid s.server))

  -- `answers` and the three after it are the rest of a handleAuth, with any answer of VerifyToken;
  -- `queues` is a frame of the dispatcher or of NotifyOnline.
  pub data Step (s : System) : System → Type 0 where
    accepts : (now : ℕ) → Step s (accept now s)
    frame :
        (now i : ℕ) (f : Frame)
        → i < s.accepted
        → is_free (s.stage i) ≡ true
        → awaits (s.server.conns i) f ≡ none
        → Step s (set_server s (on_frame w now i f s.server))
    asks :
        (now i : ℕ) (f : Frame) (req : AuthReq)
        → i < s.accepted
        → is_free (s.stage i) ≡ true
        → awaits (s.server.conns i) f ≡ some req
        → Step s (ask now i f.seq req s)
    answers :
        (i seq : ℕ) (req : AuthReq) (o : Option VerifyTokenResp)
        → i < s.accepted
        → s.stage i ≡ asking seq req
        → Step s (judge i seq req o s)
    sweeps :
        (i seq : ℕ) (req : AuthReq) (uid : ℤ)
        → i < s.accepted
        → s.stage i ≡ named seq req uid
        → Step s (sweep i seq req uid s)
    places :
        (i seq : ℕ) (req : AuthReq) (uid : ℤ)
        → i < s.accepted
        → s.stage i ≡ swept seq req uid
        → Step s (place i seq req uid s)
    finishes :
        (i seq : ℕ) (req : AuthReq) (uid : ℤ)
        → i < s.accepted
        → s.stage i ≡ placed seq req uid
        → Step s (finish i seq req uid s)
    breaks : (i : ℕ) → i < s.accepted → Step s (set_server s (close w i s.server))
    writes : (i : ℕ) → Step s (set_server s (with_conn i (written (s.server.conns i)) s.server))
    ticks : (now i : ℕ) → Step s (set_server s (slow_tick now i s.server))
    watches : (i : ℕ) → Step s (set_server s (watchdog i s.server))
    scans : (now i : ℕ) → Step s (set_server s (idle_tick now i s.server))
    queues : (i : ℕ) (f : Bytes) → Step s (set_server s (push_to w i f s.server))
    fires : Step s (set_server s (run_pending w s.server))
    pushes :
        (uid : ℤ) (d : Bytes) (fs : List Bytes)
        → Step s (set_server s (push_frames uid d fs s.server).1)
    drains : (bodies : ℕ → Bytes) → Step s (set_server s (broadcast w bodies s.server))
    kicks : (uid : ℤ) (d reason : Bytes) → Step s (set_server s (kick w uid d reason s.server))

  pub data Reachable (start : System) : System → Type 0 where
    starts : Reachable start start
    steps : (s t : System) → Reachable start s → Step s t → Reachable start t
