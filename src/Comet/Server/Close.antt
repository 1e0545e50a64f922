-- ===== src/Comet/Server/Close.antt =====
-- What closing a connection does to the tables.
use link_im.Prelude.{
  ℕ, true, false, Option, none, some, ◌≡◌, ◌≢◌, ◌∙◌, refl, ap, inl, inr, ◌==◌, ==_refl, ==_false,
  Bool-cases, if◌then◌else◌,
}
use link_im.Prelude.Int.{ℤ}
use link_im.Prelude.Bytes.{bytes_eq_refl}
use link_im.Comet.Bucket.Laws.{get-del}
use link_im.Comet.Conn.{Conn, device_key}
use link_im.Comet.Bucket
use link_im.Comet.Bucket.{Bucket, bucket_index, route_field}
use link_im.Comet.Server.{
  Server, World, with_bucket, with_conn, record_call, hdel, hlen, route_key, update, bucket, find,
  drop_presence, remove_conn, close,
}

drop_presence-buckets :
    (uid : ℤ) (o : Option ℕ) (s : Server) → (drop_presence uid o s).buckets ≡ s.buckets
drop_presence-buckets uid none s = refl
drop_presence-buckets uid (some n) s = elim (Bool-cases (n == 0)) [ inl e ↦ rw e | inr e ↦ rw e ]

-- The server before the presence is looked at.
abbrev pub removed : Conn → Server → Server
removed c s = record_call (hlen (route_key c.uid)) (
    record_call (hdel (route_key c.uid) (route_field c.platform c.device_id))
      (with_bucket c.uid (Bucket.del (device_key c.uid c.device_id) (bucket c.uid s)).1 s))

pub remove_conn-buckets :
    (w : World) (c : Conn) (s : Server)
    → (remove_conn w c s).buckets
      ≡ update s.buckets
          (bucket_index c.uid)
          (Bucket.del (device_key c.uid c.device_id) (bucket c.uid s)).1
unfolding remove_conn
remove_conn-buckets w c s =
    drop_presence-buckets c.uid (w.on_hlen (removed c s).calls) (removed c s)

drop_presence-conns :
    (uid : ℤ) (o : Option ℕ) (s : Server) → (drop_presence uid o s).conns ≡ s.conns
drop_presence-conns uid none s = refl
drop_presence-conns uid (some m) s = elim (Bool-cases (m == 0)) [ inl e ↦ rw e | inr e ↦ rw e ]

remove_conn-conns : (w : World) (c : Conn) (s : Server) → (remove_conn w c s).conns ≡ s.conns
unfolding remove_conn
remove_conn-conns w c s = drop_presence-conns c.uid (w.on_hlen (removed c s).calls) (removed c s)

-- An open connection is marked as closed, after its entries are removed if it is authenticated.
abbrev pub closing : World → ℕ → Server → Server
closing w i s =
    with_conn i (record (s.conns i) { closed = true })
      (if (s.conns i).authed then remove_conn w (s.conns i) s else s)

pub close_closed : (w : World) (i : ℕ) (s : Server) → (s.conns i).closed ≡ true → close w i s ≡ s
unfolding close
close_closed w i s c = ap (λ b. if b then s else closing w i s) c

pub close_open :
    (w : World) (i : ℕ) (s : Server) → (s.conns i).closed ≡ false → close w i s ≡ closing w i s
unfolding close
close_open w i s c = ap (λ b. if b then s else closing w i s) c

closing-conns : (w : World) (i j : ℕ) (s : Server) → j ≢ i → (closing w i s).conns j ≡ s.conns j
closing-conns w i j s ne =
    ap
      (λ b.
        if b
        then record (s.conns i) { closed = true }
        else (if (s.conns i).authed then remove_conn w (s.conns i) s else s).conns j)
      (==_false ne)
    ∙ elim (Bool-cases (s.conns i).authed) [
      | inl a ↦
          ap (λ b. (if b then remove_conn w (s.conns i) s else s).conns j) a
          ∙ ap (λ f. f j) (remove_conn-conns w (s.conns i) s)
      | inr a ↦ ap (λ b. (if b then remove_conn w (s.conns i) s else s).conns j) a
    ]

-- A close changes no other connection.
pub close-conns : (w : World) (i j : ℕ) (s : Server) → j ≢ i → (close w i s).conns j ≡ s.conns j
close-conns w i j s ne = elim (Bool-cases (s.conns i).closed) [
  | inl c ↦ ap (λ t. t.conns j) (close_closed w i s c)
  | inr c ↦ ap (λ t. t.conns j) (close_open w i s c) ∙ closing-conns w i j s ne
]

-- The close of a connection that is not authenticated leaves the tables alone.
pub close_fresh-buckets :
    (w : World) (i : ℕ) (s : Server)
    → (s.conns i).authed ≡ false
    → (s.conns i).closed ≡ false
    → (close w i s).buckets ≡ s.buckets
close_fresh-buckets w i s a c =
    ap (λ t. t.buckets) (close_open w i s c)
    ∙ ap (λ b. (if b then remove_conn w (s.conns i) s else s).buckets) a

-- An authenticated open connection takes the entry of its key with it, whatever stands there.
pub close-buckets :
    (w : World) (i : ℕ) (s : Server)
    → (s.conns i).authed ≡ true
    → (s.conns i).closed ≡ false
    → (close w i s).buckets
      ≡ update s.buckets
          (bucket_index (s.conns i).uid)
          (Bucket.del
            (device_key (s.conns i).uid (s.conns i).device_id)
            (bucket (s.conns i).uid s)).1
unfolding close
close-buckets w i s a c =
    ap
      (λ b.
        (if b
          then s
          else with_conn i (record (s.conns i) { closed = true })
              (if (s.conns i).authed then remove_conn w (s.conns i) s else s)).buckets)
      c
    ∙ ap (λ b. (if b then remove_conn w (s.conns i) s else s).buckets) a
    ∙ remove_conn-buckets w (s.conns i) s

-- After the close of an authenticated open connection, nothing stands under its user and device.
pub find-close :
    (w : World) (i : ℕ) (s : Server)
    → (s.conns i).authed ≡ true
    → (s.conns i).closed ≡ false
    → find (s.conns i).uid (s.conns i).device_id (close w i s) ≡ none
find-close w i s a c =
    let uid = (s.conns i).uid in
    let key = device_key uid (s.conns i).device_id in
    ap (λ t. Bucket.get key (t (bucket_index uid))) (close-buckets w i s a c)
    ∙ ap
        (λ b.
          Bucket.get key
            (if b then (Bucket.del key (bucket uid s)).1 else s.buckets (bucket_index uid)))
        (==_refl (bucket_index uid))
    ∙ get-del key key (bucket uid s)
    ∙ ap (λ b. if b then none else Bucket.get key (bucket uid s)) (bytes_eq_refl key)

-- Closing a connection twice is closing it once: the tables, the Redis calls and the timers are
-- those after the first close.
pub close_idem : (w : World) (i : ℕ) (s : Server) → close w i (close w i s) ≡ close w i s
unfolding close
close_idem w i s = elim (Bool-cases (s.conns i).closed) [
  | inl e ↦ rw e (rw e)
  | inr e ↦ rw (e, ==_refl i)
]
