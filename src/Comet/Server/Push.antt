-- ===== src/Comet/Server/Push.antt =====
-- What PushFrames of internal/comet/grpc.go delivers.
use link_im.Prelude.{
  ℕ, ◌+◌, ◌≤◌, ◌<◌, Bool, true, false, List, [], ◌∷◌, ◌++◌, some, ◌≡◌, ◌∙◌, ap, ap₂, inl, inr, sym,
  subst, arith, leb, ltb, length, length-append, take, take_all, take-append_length, append_assoc,
  append-nil, Bool-cases,
}
use link_im.Prelude.Int.{ℤ}
use link_im.Prelude.Bytes.{Bytes}
use link_im.Comet.Conn.{Conn, PushResult, push, sent, conn_closed, slow_consumer, send_chan_size}
use link_im.Comet.Server.{Server, with_conn, find, push_each, push_found, push_frames}

abbrev pub with_send : List Bytes → Conn → Conn
with_send fs c = record c { send = fs }

-- The loop after the first push.
abbrev step : List Bytes → PushResult × Conn → Bool × Conn
step fs r = elim r.0 [
  | sent ↦ push_each fs r.1
  | conn_closed ↦ (false, r.1)
  | slow_consumer ↦ (false, r.1)
]

pub push-sent :
    (f : Bytes) (c : Conn)
    → c.closed ≡ false
    → length c.send < send_chan_size
    → push f c ≡ (sent, with_send (c.send ++ f ∷ []) c)
unfolding push
push-sent f c o h = ground arith

push-full :
    (f : Bytes) (c : Conn)
    → c.closed ≡ false
    → length c.send ≡ send_chan_size
    → push f c ≡ (slow_consumer, c)
unfolding push
push-full f c o h = ground arith

push_each-closed :
    (f : Bytes) (fs : List Bytes) (c : Conn) → c.closed ≡ true → push_each (f ∷ fs) c ≡ (false, c)
unfolding push_each push
push_each-closed f fs c o = ground arith

take-full : (xs ys : List Bytes) → length xs ≡ send_chan_size → take send_chan_size (xs ++ ys) ≡ xs
take-full xs ys h = subst (λ n. take n (xs ++ ys) ≡ xs) h (take-append_length xs ys)

leb-true : {a : ℕ} → a ≤ send_chan_size → leb (a + 0) send_chan_size ≡ true
leb-true h = ground arith

ltb-less : {a b : ℕ} → ltb a b ≡ true → a < b
ltb-less h = ground arith

leb-false : {a b : ℕ} → b < a → leb a b ≡ false
leb-false h = ground arith

full-length : {a : ℕ} → a ≤ send_chan_size → ltb a send_chan_size ≡ false → a ≡ send_chan_size
full-length h ge = ground arith

-- Frames go to an open connection until its queue is full.
pub push_each-open :
    (fs : List Bytes) (c : Conn)
    → c.closed ≡ false
    → length c.send ≤ send_chan_size
    → push_each fs c ≡ (
      leb (length c.send + length fs) send_chan_size,
      with_send (take send_chan_size (c.send ++ fs)) c,
    )
unfolding push_each
push_each-open [] c o h =
    ap₂ (λ b q. (b, with_send q c)) (sym (leb-true h))
      (sym (
        take_all send_chan_size (c.send ++ []) (omega (arith, length-append c.send []))
        ∙ append-nil c.send))
push_each-open (f ∷ fs) c o h = elim (Bool-cases (ltb (length c.send) send_chan_size)) [
  | inl lt ↦
      let small = ltb-less lt in
      ap (step fs) (push-sent f c o small)
      ∙ (push_each-open fs (with_send (c.send ++ f ∷ []) c) o
            (omega (arith, length-append c.send (f ∷ [])))
          ∙ ap₂ (λ n q. (leb n send_chan_size, with_send (take send_chan_size q) c))
              (omega (arith, length-append c.send (f ∷ []))) (append_assoc c.send (f ∷ []) fs))
  | inr ge ↦
      let full = full-length h ge in
      ap (step fs) (push-full f c o full)
      ∙ (ap₂ (λ b q. (b, with_send q c)) (sym (leb-false (omega arith)))
          (sym (take-full c.send (f ∷ fs) full)))
]

-- If an open connection stands under (uid, device_id), with its queue within its capacity,
-- PushFrames appends the frames in order until the queue is full, changes no other connection,
-- and answers that the device is online exactly if all of them fitted.
pub push_frames-sent :
    (uid : ℤ) (device_id : Bytes) (fs : List Bytes) (i : ℕ) (s : Server)
    → find uid device_id s ≡ some i
    → (s.conns i).closed ≡ false
    → length (s.conns i).send ≤ send_chan_size
    → push_frames uid device_id fs s ≡ (
      leb (length (s.conns i).send + length fs) send_chan_size,
      with_conn i (with_send (take send_chan_size ((s.conns i).send ++ fs)) (s.conns i)) s,
    )
unfolding push_frames
push_frames-sent uid device_id fs i s f o h =
    ap (λ t. push_found fs t s) f
    ∙ ap (λ r. (r.0, with_conn i r.1 s)) (push_each-open fs (s.conns i) o h)
