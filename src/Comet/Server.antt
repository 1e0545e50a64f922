-- ===== src/Comet/Server.antt =====
-- internal/comet/server.go and grpc.go: the connection table of an instance, and the operations
-- on it that do not authenticate. Redis, the other instances and the codec of protobuf are
-- parameters: every call is recorded, the latest first, and its answer may depend on all calls
-- made before. The model takes the configuration of production, in which Redis is there; logs and
-- metrics are left out.
pub mod Push
pub mod Close
use link_im.Prelude.{
  ℕ, Bool, true, false, List, [], ◌∷◌, ◌++◌, Option, none, some, ◌==◌, if◌then◌else◌,
}
use link_im.Prelude.Int.{ℤ, pos}
use link_im.Prelude.Bytes.{Bytes, codes}
use link_im.Decimal.{format_int}
use link_im.Protocol.Cmd.{cmd_auth_ack}
use link_im.Protocol.Frame.{Frame, Result, ok, err, encode, ver}
use link_im.Comet.Conn
use link_im.Comet.Conn.{Conn, PushResult, sent, conn_closed, slow_consumer, push, device_key}
use link_im.Comet.Bucket
use link_im.Comet.Bucket.{Bucket, bucket_index, route_field}

-- redisx.RouteKey and PresenceKey
unfoldable pub route_key : ℤ → Bytes
route_key uid = codes "route:" ++ format_int uid

unfoldable pub presence_key : ℤ → Bytes
presence_key uid = codes "presence:" ++ format_int uid

pub data Call : Type 0 where
  hget_all : Bytes → Call
  hdel : Bytes → Bytes → Call
  hlen : Bytes → Call
  del : Bytes → Call
  register : Bytes → Bytes → Bytes → Bytes → Call
  kick_remote : Bytes → ℤ → Bytes → Call
  verify_token : ℤ → Bytes → Call
  renew_presence : Bytes → Call

-- pb.AuthReq and pb.AuthAck
pub record AuthReq : Type 0 where
  pub uid : ℤ
  pub token : Bytes
  pub device_id : Bytes
  pub platform : ℤ

pub record AuthAck : Type 0 where
  pub code : ℕ
  pub msg : Bytes
  pub uid : ℤ
  pub kick_reason : ℕ

pub record VerifyTokenResp : Type 0 where
  pub valid : Bool
  pub code : ℕ
  pub uid : ℤ

pub record World : Type 0 where
  pub on_hget_all : List Call → Option (List (Bytes × Bytes))
  pub on_hlen : List Call → Option ℕ
  pub on_kick_remote : List Call → Bool
  pub on_verify_token : List Call → Option VerifyTokenResp
  pub unmarshal_auth_req : Bytes → Option AuthReq
  pub marshal_auth_ack : AuthAck → Bytes

-- `pending` are the connections whose delayed close, 200 ms after a kick, has not run yet,
-- `notifying` those for which NotifyOnline was started, and `dispatched` the business frames that
-- were handed to the dispatcher.
pub record Server : Type 0 where
  pub advertise_addr : Bytes
  pub conns : ℕ → Conn
  pub buckets : ℕ → Bucket
  pub pending : List ℕ
  pub notifying : List ℕ
  pub dispatched : List (ℕ × Frame)
  pub calls : List Call

abbrev pub update {ℓ} : {A : Type ℓ} → (ℕ → A) → ℕ → A → ℕ → A
update f i a j = if j == i then a else f j

abbrev pub with_conn : ℕ → Conn → Server → Server
with_conn i c s = record s { conns = update s.conns i c }

abbrev pub with_bucket : ℤ → Bucket → Server → Server
with_bucket uid b s = record s { buckets = update s.buckets (bucket_index uid) b }

abbrev pub record_call : Call → Server → Server
record_call c s = record s { calls = c ∷ s.calls }

-- The bucket of a uid, `s.bucket(uid)`.
abbrev pub bucket : ℤ → Server → Bucket
bucket uid s = s.buckets (bucket_index uid)

-- The conn that stands under (uid, device_id) on this instance.
abbrev pub find : ℤ → Bytes → Server → Option ℕ
find uid device_id s = Bucket.get (device_key uid device_id) (bucket uid s)

abbrev pub drop_presence : ℤ → Option ℕ → Server → Server
drop_presence uid none s = s
drop_presence uid (some n) s = if n == 0 then record_call (del (presence_key uid)) s else s

module _ (w : World) where
  -- removeConn: the table, the route, and the presence if no device is left.
  unfoldable pub remove_conn : Conn → Server → Server
  remove_conn c s =
      let key = device_key c.uid c.device_id in
      let s1 = with_bucket c.uid (Bucket.del key (bucket c.uid s)).1 s in
      let s2 = record_call (hdel (route_key c.uid) (route_field c.platform c.device_id)) s1 in
      let s3 = record_call (hlen (route_key c.uid)) s2 in
      drop_presence c.uid (w.on_hlen s3.calls) s3

  -- Close, with its Once.
  unfoldable pub close : ℕ → Server → Server
  close i s =
      let c = s.conns i in
      let s' = if c.authed then remove_conn c s else s in
      if c.closed then s else with_conn i (record c { closed = true }) s'

  abbrev pub push_to : ℕ → Bytes → Server → Server
  push_to i frame s = with_conn i (push frame (s.conns i)).1 s

  abbrev pub push_encoded : ℕ → Result Bytes → Server → Server
  push_encoded i (err e) s = s
  push_encoded i (ok frame) s = push_to i frame s

  -- replyAck, and the frames of the same form that KickConn builds.
  unfoldable pub reply : ℕ → ℕ → ℕ → Bytes → Server → Server
  reply i cmd seq body s =
      push_encoded i (encode (record { ver = ver; cmd = cmd; seq = seq; body = body })) s

  abbrev pub code_kicked : ℕ
  code_kicked = 40103

  unfoldable pub kick_conn : ℕ → Bytes → Server → Server
  kick_conn i reason s =
      let body =
        w.marshal_auth_ack
          (record { code = code_kicked; msg = reason; uid = pos 0; kick_reason = 1 }) in
      let s' = reply i cmd_auth_ack 0 body s in record s' { pending = s'.pending ++ i ∷ [] }

  -- A timer of KickConn fires.
  unfoldable pub run_pending : Server → Server
  run_pending s = elim s.pending [ [] ↦ s | i ∷ rest ↦ close i (record s { pending = rest }) ]

-- The loop of PushFrames over the frames, on the connection that was found.
unfoldable pub push_each : List Bytes → Conn → Bool × Conn
push_each [] c = (true, c)
push_each (f ∷ fs) c = elim (push f c).0 [
  | sent ↦ push_each fs (push f c).1
  | conn_closed ↦ (false, (push f c).1)
  | slow_consumer ↦ (false, (push f c).1)
]

abbrev pub push_found : List Bytes → Option ℕ → Server → Bool × Server
push_found fs none s = (false, s)
push_found fs (some i) s =
    ((push_each fs (s.conns i)).0, with_conn i (push_each fs (s.conns i)).1 s)

-- The gRPC PushFrames; the result is `online`.
unfoldable pub push_frames : ℤ → Bytes → List Bytes → Server → Bool × Server
push_frames uid device_id fs s = push_found fs (find uid device_id s) s

abbrev pub kick_found : World → Bytes → Option ℕ → Server → Server
kick_found w reason none s = s
kick_found w reason (some i) s = kick_conn w i reason s

-- The gRPC Kick.
unfoldable pub kick : World → ℤ → Bytes → Bytes → Server → Server
kick w uid device_id reason s = kick_found w reason (find uid device_id s) s
