-- ===== src/Comet/Steps/Handlers.antt =====
-- The handlers of an instance that no other step may interrupt keep its invariant.
use link_im.Prelude.{
  ℕ, Bool, true, false, List, [], ◌∷◌, Option, none, some, ◌≡◌, refl, sym, subst, inl, inr, arith,
  ◌==◌, Bool-cases, if◌then◌else◌,
}
use link_im.Prelude.Bytes.{Bytes, codes}
use link_im.Protocol.Cmd.{cmd_auth, cmd_heartbeat, cmd_heartbeat_ack}
use link_im.Protocol.Frame.{Frame}
use link_im.Comet.Conn.{
  Conn, PushResult, sent, conn_closed, slow_consumer, touch, push, check_slow, is_idle,
  idle_timeout,
}
use link_im.Comet.Server.{
  Server, World, with_conn, close, reply, run_pending, push_each, push_found, kick_found,
}
use link_im.Comet.Auth.{
  is_business, serve_frame, handle_auth, authenticate, code_auth_failed, on_frame,
}
use link_im.Comet.Auth.Identity.{
  SameConn, SameConn-refl, SameConn-trans, SameIds, SameIds-refl, reply-SameIds, kick_conn-SameIds,
  push-SameConn, with_conn-SameIds,
}
use link_im.Comet.Steps.{Stage, written, slow_tick, watchdog, idle_tick, awaits}
use link_im.Comet.Steps.Holds.{Holds, SameIds-Holds, close-Holds}
use link_im.Comet.Steps.Admission.{reject-Holds}

pub written-SameConn : (c : Conn) → SameConn (written c) c
written-SameConn c = ground arith

check_slow-SameConn : (now : ℕ) (c : Conn) → SameConn (check_slow now c).1 c
unfolding check_slow
check_slow-SameConn now c = ground arith

touch-SameConn : (now : ℕ) (c : Conn) → SameConn (touch now c) c
unfolding touch
touch-SameConn now c = record {
  uid = refl;
  device_id = refl;
  platform = refl;
  authed = refl;
  closed = refl;
}

-- What push_each does after a frame, by the result of its push.
rest-SameConn :
    (fs : List Bytes) (r : PushResult) (d c : Conn)
    → SameConn (push_each fs d).1 c
    → SameConn d c
    → SameConn
        (elim r as (λ x. Bool × Conn) [
          | sent ↦ push_each fs d
          | conn_closed ↦ (false, d)
          | slow_consumer ↦ (false, d)
        ]).1
        c
rest-SameConn fs sent d c rest first = rest
rest-SameConn fs conn_closed d c rest first = first
rest-SameConn fs slow_consumer d c rest first = first

push_each-SameConn : (fs : List Bytes) (c : Conn) → SameConn (push_each fs c).1 c
unfolding push_each
push_each-SameConn [] c = SameConn-refl c
push_each-SameConn (f ∷ fs) c =
    let d = (push f c).1 in
    let first = push-SameConn f c in
    rest-SameConn fs (push f c).0 d c
      (SameConn-trans (push_each fs d).1 d c (push_each-SameConn fs d) first) first

pub found-SameIds : (fs : List Bytes) (o : Option ℕ) (s : Server) → SameIds s (push_found fs o s).1
found-SameIds fs none s = SameIds-refl s
found-SameIds fs (some i) s =
    with_conn-SameIds i (push_each fs (s.conns i)).1 s (push_each-SameConn fs (s.conns i))

pub kicked-SameIds :
    (w : World) (reason : Bytes) (o : Option ℕ) (s : Server) → SameIds s (kick_found w reason o s)
kicked-SameIds w reason none s = SameIds-refl s
kicked-SameIds w reason (some i) s = kick_conn-SameIds w i reason s

serve_frame-Holds :
    (w : World) (n : ℕ) (stage : ℕ → Stage) (i : ℕ) (f : Frame) (s : Server)
    → Holds n stage s
    → Holds n stage (serve_frame w i f s)
unfolding serve_frame
serve_frame-Holds w n stage i f s h = elim (Bool-cases (f.cmd == cmd_heartbeat)) [
  | inl e ↦ rw e (
      SameIds-Holds n stage s (reply w i cmd_heartbeat_ack f.seq [] s)
        (reply-SameIds w i cmd_heartbeat_ack f.seq [] s) h)
  | inr e ↦ rw e (elim (Bool-cases (f.cmd == cmd_auth)) [
    | inl a ↦ rw a h
    | inr a ↦ rw a (elim (Bool-cases (is_business w f.cmd)) [ inl b ↦ rw b h | inr b ↦ rw b h ])
  ])
]

abbrev pub touched : ℕ → ℕ → Server → Server
touched now i s = with_conn i (touch now (s.conns i)) s

pub touched-SameIds : (now i : ℕ) (s : Server) → SameIds s (touched now i s)
touched-SameIds now i s =
    with_conn-SameIds i (touch now (s.conns i)) s (touch-SameConn now (s.conns i))

malformed-Holds :
    (w : World) (n : ℕ) (stage : ℕ → Stage) (i : ℕ) (f : Frame) (s : Server)
    → w.unmarshal_auth_req f.body ≡ none
    → Holds n stage s
    → Holds n stage (handle_auth w i f s)
unfolding handle_auth
malformed-Holds w n stage i f s e h =
    subst (λ o. Holds n stage (authenticate w i f.seq o s)) (sym e)
      (reject-Holds w n stage i f.seq code_auth_failed (codes "auth frame malformed") s h)

-- A frame that does not make handleAuth wait.
pub on_frame-Holds :
    (w : World) (n : ℕ) (stage : ℕ → Stage) (now i : ℕ) (f : Frame) (s : Server)
    → awaits w (s.conns i) f ≡ none
    → Holds n stage s
    → Holds n stage (on_frame w now i f s)
unfolding on_frame
on_frame-Holds w n stage now i f s e h = handled (s.conns i).authed (f.cmd == cmd_auth) e
  where
    t : Server
    t = touched now i s

    held : Holds n stage t
    held = SameIds-Holds n stage s t (touched-SameIds now i s) h

    handled :
        (authed is_auth : Bool)
        → (if authed then none else if is_auth then w.unmarshal_auth_req f.body else none) ≡ none
        → Holds n stage (
            if authed
            then serve_frame w i f t
            else if is_auth
            then handle_auth w i f t
            else close w i t)
    handled true is_auth a = serve_frame-Holds w n stage i f t held
    handled false true a = malformed-Holds w n stage i f t a held
    handled false false a = close-Holds w n stage i t held

module _ (w : World) (n : ℕ) (stage : ℕ → Stage) (s : Server) (h : Holds n stage s) where
  pub slow_tick-Holds : (now i : ℕ) → Holds n stage (slow_tick w now i s)
  unfolding slow_tick
  slow_tick-Holds now i =
      let c = (check_slow now (s.conns i)).1 in
      let t = with_conn i c s in
      let held =
        SameIds-Holds n stage s t (with_conn-SameIds i c s (check_slow-SameConn now (s.conns i)))
          h in
      elim (Bool-cases (check_slow now (s.conns i)).0) [
        | inl e ↦ rw e (close-Holds w n stage i t held)
        | inr e ↦ rw e held
      ]

  pub watchdog-Holds : (i : ℕ) → Holds n stage (watchdog w i s)
  unfolding watchdog
  watchdog-Holds i = elim (Bool-cases (s.conns i).authed) [
    | inl e ↦ rw e h
    | inr e ↦ rw e (close-Holds w n stage i s h)
  ]

  pub idle_tick-Holds : (now i : ℕ) → Holds n stage (idle_tick w now i s)
  unfolding idle_tick
  idle_tick-Holds now i = elim (Bool-cases (is_idle now idle_timeout (s.conns i))) [
    | inl e ↦ rw e (close-Holds w n stage i s h)
    | inr e ↦ rw e h
  ]

  pub fires-Holds : Holds n stage (run_pending w s)
  unfolding run_pending
  fires-Holds = popped-Holds s.pending
    where
      popped-Holds :
          (p : List ℕ)
          → Holds n stage (elim p as (λ x. Server) [
            | [] ↦ s
            | i ∷ rest ↦ close w i (record s { pending = rest })
          ])
      popped-Holds [] = h
      popped-Holds (i ∷ rest) = close-Holds w n stage i (record s { pending = rest }) h
