-- ===== src/Comet/Auth/Identity.antt =====
-- Replies and kicks change queues, timers and calls, and leave the tables and the identities of
-- all connections as they are.
use link_im.Prelude.{
  ℕ, List, [], ◌∷◌, Option, none, some, ◌≡◌, ◌∙◌, refl, inl, inr, subst, sym, arith, ◌==◌,
  Bool-cases, ==_iff, ==_iff,
}
use link_im.Prelude.Int.{ℤ}
use link_im.Prelude.Bytes.{Bytes, bytes_eq}
use link_im.Protocol.Frame.{Result, ok, err}
use link_im.Comet.Conn.{Conn, push}
use link_im.Comet.Server.{
  Server, World, hget_all, route_key, record_call, update, with_conn, reply, kick_conn, find,
  push_encoded,
}
use link_im.Comet.Auth.{
  kick_device, kick_each, kick_same_platform, device_on, kick_local, kick_field, kick_route,
  kick_reason,
}

-- Who a connection belongs to, and whether it is authenticated and open.
pub record SameConn (c d : Conn) : Type 0 where
  pub uid : c.uid ≡ d.uid
  pub device_id : c.device_id ≡ d.device_id
  pub platform : c.platform ≡ d.platform
  pub authed : c.authed ≡ d.authed
  pub closed : c.closed ≡ d.closed

pub SameConn-refl : (c : Conn) → SameConn c c
SameConn-refl c = record {
  uid = refl;
  device_id = refl;
  platform = refl;
  authed = refl;
  closed = refl;
}

pub SameConn-trans : (c d e : Conn) → SameConn c d → SameConn d e → SameConn c e
SameConn-trans c d e p q = record {
  uid = p.uid ∙ q.uid;
  device_id = p.device_id ∙ q.device_id;
  platform = p.platform ∙ q.platform;
  authed = p.authed ∙ q.authed;
  closed = p.closed ∙ q.closed;
}

pub record SameIds (s t : Server) : Type 0 where
  pub buckets : t.buckets ≡ s.buckets
  pub addr : t.advertise_addr ≡ s.advertise_addr
  pub conns : (j : ℕ) → SameConn (t.conns j) (s.conns j)

pub SameIds-refl : (s : Server) → SameIds s s
SameIds-refl s = record { buckets = refl; addr = refl; conns = λ j. SameConn-refl (s.conns j) }

pub SameIds-trans : (s t u : Server) → SameIds s t → SameIds t u → SameIds s u
SameIds-trans s t u p q = record {
  buckets = q.buckets ∙ p.buckets;
  addr = q.addr ∙ p.addr;
  conns = λ j. SameConn-trans (u.conns j) (t.conns j) (s.conns j) (q.conns j) (p.conns j);
}

pub push-SameConn : (f : Bytes) (c : Conn) → SameConn (push f c).1 c
unfolding push
push-SameConn f c = record {
  uid = ground arith;
  device_id = ground arith;
  platform = ground arith;
  authed = ground arith;
  closed = ground arith;
}

update-SameConn :
    (conns : ℕ → Conn) (i : ℕ) (c : Conn) (j : ℕ)
    → SameConn c (conns i)
    → SameConn (update conns i c j) (conns j)
update-SameConn conns i c j p = elim (Bool-cases (j == i)) [
  | inl e ↦ rw e (subst (λ k. SameConn c (conns k)) (sym ((==_iff j i).0 e)) p)
  | inr e ↦ rw e (SameConn-refl (conns j))
]

-- A connection is replaced by one of the same identity.
pub with_conn-SameIds :
    (i : ℕ) (c : Conn) (s : Server) → SameConn c (s.conns i) → SameIds s (with_conn i c s)
with_conn-SameIds i c s p = record {
  buckets = refl;
  addr = refl;
  conns = λ j. update-SameConn s.conns i c j p;
}

encoded-SameIds :
    (w : World) (i : ℕ) (r : Result Bytes) (s : Server) → SameIds s (push_encoded w i r s)
encoded-SameIds w i (err e) s = SameIds-refl s
encoded-SameIds w i (ok f) s =
    with_conn-SameIds i (push f (s.conns i)).1 s (push-SameConn f (s.conns i))

pub reply-SameIds :
    (w : World) (i cmd seq : ℕ) (body : Bytes) (s : Server) → SameIds s (reply w i cmd seq body s)
unfolding reply
reply-SameIds w i cmd seq body s = encoded-SameIds w i _ s

pub kick_conn-SameIds :
    (w : World) (i : ℕ) (reason : Bytes) (s : Server) → SameIds s (kick_conn w i reason s)
unfolding kick_conn
kick_conn-SameIds w i reason s =
    let r = reply-SameIds w i _ 0 _ s in
    record { buckets = r.buckets; addr = r.addr; conns = r.conns }

module _ (w : World) (uid : ℤ) (current : Bytes) where
  local-SameIds : (o : Option ℕ) (n : ℕ) (s : Server) → SameIds s (kick_local w o (n, s)).1
  local-SameIds none n s = SameIds-refl s
  local-SameIds (some old) n s = kick_conn-SameIds w old kick_reason s

  device-SameIds :
      (device addr : Bytes) (n : ℕ) (s : Server)
      → SameIds s (kick_device w uid current device addr (n, s)).1
  unfolding kick_device
  device-SameIds device addr n s = elim (Bool-cases (bytes_eq device current)) [
    | inl e ↦ rw e (SameIds-refl s)
    | inr e ↦ elim (Bool-cases (bytes_eq addr s.advertise_addr)) [
      | inl f ↦ rw (e, f) (local-SameIds (find uid device s) n s)
      | inr f ↦
          rw (e, f) (record { buckets = refl; addr = refl; conns = λ j. SameConn-refl (s.conns j) })
    ]
  ]

  field-SameIds :
      (addr : Bytes) (o : Option Bytes) (n : ℕ) (s : Server)
      → SameIds s (kick_field w uid current addr o (n, s)).1
  field-SameIds addr none n s = SameIds-refl s
  field-SameIds addr (some device) n s = device-SameIds device addr n s

  each-SameIds :
      (platform : ℤ) (route : List (Bytes × Bytes)) (n : ℕ) (s : Server)
      → SameIds s (kick_each w uid platform current route (n, s)).1
  unfolding kick_each
  each-SameIds platform [] n s = SameIds-refl s
  each-SameIds platform ((field, addr) ∷ route) n s =
      let (m, t) = kick_field w uid current addr (device_on platform field) (n, s) in
      SameIds-trans s t _ (field-SameIds addr (device_on platform field) n s)
        (each-SameIds platform route m t)

  route-SameIds :
      (platform : ℤ) (o : Option (List (Bytes × Bytes))) (s : Server)
      → SameIds s (kick_route w uid platform current o s).1
  route-SameIds platform none s = SameIds-refl s
  route-SameIds platform (some route) s = each-SameIds platform route 0 s

  -- Kicking the other devices of a platform leaves the buckets, and the identity, the
  -- authentication and the openness of every connection, as they were: a kicked connection goes
  -- by its timer.
  pub kick_same_platform-SameIds :
      (platform : ℤ) (s : Server) → SameIds s (kick_same_platform w uid platform current s).1
  unfolding kick_same_platform
  kick_same_platform-SameIds platform s =
      let called = record_call (hget_all (route_key uid)) s in
      SameIds-trans s called _
        (record { buckets = refl; addr = refl; conns = λ j. SameConn-refl (s.conns j) })
        (route-SameIds platform (w.on_hget_all called.calls) called)
