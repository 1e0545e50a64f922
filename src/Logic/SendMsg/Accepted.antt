-- ===== src/Logic/SendMsg/Accepted.antt =====
-- What an accepted message has done, call by call.
use link_im.Prelude.{
  Bool, true, false, List, [], ◌∷◌, some, ◌≡◌, ◌≢◌, inl, inr, refl, subst, arith, Bool-cases,
  Option-cases,
}
use link_im.Prelude.Int.{ℤ}
use link_im.Prelude.Bytes.{Bytes}
use link_im.Logic.World.{
  World, Call, set, next_id, now_ms, incr_seq, send, msg_store, msg_push, Headers, PbMsg,
}
use link_im.Logic.SendMsg.{
  SendMsgReq, SendMsgAck, Code, accepted, Outcome, ack, panic, Target, peer, group, conv_of,
  idem_key, resolve,
}
use link_im.Logic.SendMsg.Run.{
  settled, publish, produce, number, process, relation, relation_call, refused, allowed, push_all,
  push_key, headers, store_message, claim_call, send_msg,
}
use link_im.Logic.SendMsg.RollBack.{Checked-cases}

-- From the history `h` to the last one, exactly one successful push for each receiver, in order.
pub data Pushed (w : World) (t : Target) (hd : Headers) (msg : PbMsg)
    : List ℤ → List Call → List Call → Type 0 where
  done : (h : List Call) → Pushed w t hd msg [] h h
  push :
      (recv : ℤ) (rs : List ℤ) (env : Bytes) (h h' : List Call)
      → w.marshal_envelope recv msg ≡ some env
      → w.on_send (send msg_push (push_key t recv) env hd ∷ h) ≡ true
      → Pushed w t hd msg rs (send msg_push (push_key t recv) env hd ∷ h) h'
      → Pushed w t hd msg (recv ∷ rs) h h'

module _ (w : World) (t : Target) (hd : Headers) (msg : PbMsg) where
  abbrev PushedIf : List ℤ → List Call → Bool × List Call → Type 0
  PushedIf rs h (true, h') = Pushed w t hd msg rs h h'
  PushedIf rs h (false, h') = Unit

  PushedIf-push :
      (recv : ℤ) (rs : List ℤ) (env : Bytes) (h : List Call) (rest : Bool × List Call)
      → w.marshal_envelope recv msg ≡ some env
      → w.on_send (send msg_push (push_key t recv) env hd ∷ h) ≡ true
      → PushedIf rs (send msg_push (push_key t recv) env hd ∷ h) rest
      → PushedIf (recv ∷ rs) h rest
  PushedIf-push recv rs env h (true, h') m e p = push recv rs env h h' m e p
  PushedIf-push recv rs env h (false, h') m e p = tt

  push_all-Pushed : (rs : List ℤ) (h : List Call) → PushedIf rs h (push_all w t hd msg rs h)
  unfolding push_all
  push_all-Pushed [] h = done h
  push_all-Pushed (recv ∷ rs) h = elim (Option-cases (w.marshal_envelope recv msg)) [
    | inl m ↦ rw (m, push_all) tt
    | inr (env, m) ↦
        let h' = send msg_push (push_key t recv) env hd ∷ h in
        elim (Bool-cases (w.on_send h')) [
          | inl e ↦
              rw (m, push_all, e)
                (PushedIf-push recv rs env h (push_all w t hd msg rs h') m e
                  (push_all-Pushed rs h'))
          | inr e ↦ rw (m, push_all, e) tt
        ]
  ]

abbrev relation_history : SendMsgReq → Target → List Call → List Call
relation_history req t h = relation_call req.sender_id t ∷ claim_call req ∷ h

abbrev numbered_history : SendMsgReq → Target → List Call → List Call
numbered_history req t h = incr_seq (conv_of t) ∷ relation_history req t h

-- The stored message, the pushes and the replay value, with the answers that they rest on. `h` is
-- the history before the request, `after` the one behind it.
pub record Delivered (w : World) (req : SendMsgReq) (t : Target) (h : List Call) (a : SendMsgAck)
    (after : List Call) : Type 0 where
  pub receivers : List ℤ
  pub checked : relation w req.sender_id t (relation_history req t h) ≡ allowed receivers
  pub numbered : w.on_incr_seq (numbered_history req t h) ≡ some a.seq
  pub msg_id : a.msg_id ≡ (store_message w req (conv_of t) a.seq (numbered_history req t h)).msg_id
  pub value : Bytes
  pub marshalled :
      w.marshal_msg (store_message w req (conv_of t) a.seq (numbered_history req t h)) ≡ some value
  pub stored :
      w.on_send (
        send msg_store (conv_of t) value (headers req)
        ∷ now_ms
        ∷ next_id
        ∷ numbered_history req t h)
      ≡ true
  pub before : List Call
  pub pushed :
      Pushed w t
        (headers req)
        (store_message w req (conv_of t) a.seq (numbered_history req t h))
        receivers
        (send msg_store (conv_of t) value (headers req)
          ∷ now_ms
          ∷ next_id
          ∷ numbered_history req t h)
        before
  pub recorded :
      after
      ≡ set
          (idem_key req.sender_id req.client_msg_id)
          (w.marshal_idem (record { msg_id = a.msg_id; seq = a.seq }))
        ∷ before

refused-ne-accepted :
    (w : World) (sender : ℤ) (t : Target) (h : List Call) {c : Code}
    → relation w sender t h ≡ refused c
    → c ≢ accepted
unfolding relation
refused-ne-accepted w sender (peer c p) h e q = ground arith
refused-ne-accepted w sender (group c gid) h e q = ground arith

abbrev AcceptedIf : (SendMsgAck → List Call → Type 0) → Outcome × List Call → Type 0
AcceptedIf P (panic, h) = Unit
AcceptedIf P (ack a, h) = a.code ≡ accepted → P a h

abbrev acceptance : PbMsg → SendMsgAck
acceptance msg = record {
  code = accepted;
  msg_id = msg.msg_id;
  seq = msg.seq;
  timestamp = msg.timestamp;
}

module _ (w : World) (req : SendMsgReq) (t : Target) (P : SendMsgAck → List Call → Type 0) where
  abbrev key : Bytes
  key = idem_key req.sender_id req.client_msg_id

  -- What remains to be shown once the pushes are made.
  abbrev Suffices : PbMsg → List ℤ → List Call → Type 0
  Suffices msg rs h =
      (before : List Call)
      → Pushed w t (headers req) msg rs h before
      → P (acceptance msg)
          (set key (w.marshal_idem (record { msg_id = msg.msg_id; seq = msg.seq })) ∷ before)

  settled-AcceptedIf :
      (msg : PbMsg) (rs : List ℤ) (h : List Call) (pushed : Bool × List Call)
      → PushedIf w t (headers req) msg rs h pushed
      → Suffices msg rs h
      → AcceptedIf P (settled w key msg rs pushed)
  settled-AcceptedIf msg [] h (true, h') p k = tt
  settled-AcceptedIf msg (recv ∷ rs) h (true, h') p k = λ _. k h' p
  settled-AcceptedIf msg rs h (false, h') p k = λ e. absurd (cc e)

  publish-AcceptedIf :
      (rs : List ℤ) (msg : PbMsg) (value : Bytes) (h : List Call)
      → (w.on_send (send msg_store (conv_of t) value (headers req) ∷ h) ≡ true
          → Suffices msg rs (send msg_store (conv_of t) value (headers req) ∷ h))
      → AcceptedIf P (publish w key req t rs msg value h)
  unfolding publish
  publish-AcceptedIf rs msg value h k =
      let stored = send msg_store (conv_of t) value (headers req) ∷ h in
      elim (Bool-cases (w.on_send stored)) [
        | inl e ↦ rw e (
            settled-AcceptedIf msg rs stored (push_all w t (headers req) msg rs stored)
              (push_all-Pushed w t (headers req) msg rs stored) (k e))
        | inr e ↦ rw e (λ q. absurd (cc q))
      ]

  -- The answers before the first write, each with its equation.
  process-AcceptedIf :
      (h : List Call)
      → ((rs : List ℤ) (seq : ℤ) (value : Bytes)
          → relation w req.sender_id t (relation_call req.sender_id t ∷ h) ≡ allowed rs
          → w.on_incr_seq (incr_seq (conv_of t) ∷ relation_call req.sender_id t ∷ h) ≡ some seq
          → w.marshal_msg (
              store_message w req
                (conv_of t)
                seq
                (incr_seq (conv_of t) ∷ relation_call req.sender_id t ∷ h))
            ≡ some value
          → w.on_send (
              send msg_store (conv_of t) value (headers req)
              ∷ now_ms
              ∷ next_id
              ∷ incr_seq (conv_of t)
              ∷ relation_call req.sender_id t
              ∷ h)
            ≡ true
          → Suffices
              (store_message w req
                (conv_of t)
                seq
                (incr_seq (conv_of t) ∷ relation_call req.sender_id t ∷ h))
              rs
              (send msg_store (conv_of t) value (headers req)
                ∷ now_ms
                ∷ next_id
                ∷ incr_seq (conv_of t)
                ∷ relation_call req.sender_id t
                ∷ h))
      → AcceptedIf P (process w key req t h)
  process-AcceptedIf h k =
      let related = relation_call req.sender_id t ∷ h in
      let numbered = incr_seq (conv_of t) ∷ related in
      elim (Checked-cases (relation w req.sender_id t related)) [
        | inl (c, e) ↦
            unfold process in
            rw (e, process) (λ q. absurd (refused-ne-accepted w req.sender_id t related e q))
        | inr (rs, e) ↦ elim (Option-cases (w.on_incr_seq numbered)) [
          | inl n ↦ unfold process number in rw (e, process, n, number) (λ q. absurd (cc q))
          | inr (seq, n) ↦
              let msg = store_message w req (conv_of t) seq numbered in
              elim (Option-cases (w.marshal_msg msg)) [
                | inl m ↦
                    unfold process number produce in
                    rw (e, process, n, number, m, produce) (λ q. absurd (cc q))
                | inr (value, m) ↦
                    unfold process number produce in
                    rw (e, process, n, number, m, produce)
                      (publish-AcceptedIf rs msg value (now_ms ∷ next_id ∷ numbered)
                        (λ s. k rs seq value e n m s))
              ]
        ]
      ]

-- A request that claimed its key and is acknowledged as accepted has passed the check of the
-- relation, was stored once and then pushed once to each receiver, in order, every write answered
-- with success, before its replay value was written; its acknowledgement has the id and the seq of
-- the stored message, and between the claim and the last write no other call was made than those.
pub send_msg-Delivered :
    (w : World) (req : SendMsgReq) (t : Target) (h : List Call) (a : SendMsgAck) (after : List Call)
    → resolve req ≡ some t
    → w.on_set_nx (claim_call req ∷ h) ≡ some true
    → send_msg w req h ≡ (ack a, after)
    → a.code ≡ accepted
    → Delivered w req t h a after
send_msg-Delivered w req t h a after r e s q = subst (AcceptedIf (Delivered w req t h)) s ran q
  where
    ran : AcceptedIf (Delivered w req t h) (send_msg w req h)
    ran =
        unfold send_msg in
        rw (r, send_msg, e)
          (process-AcceptedIf w req t (Delivered w req t h) (claim_call req ∷ h)
            λ rs seq value c n m st before p. record {
              receivers = rs;
              checked = c;
              numbered = n;
              msg_id = refl;
              value = value;
              marshalled = m;
              stored = st;
              before = before;
              pushed = p;
              recorded = refl;
            })
