-- ===== src/Logic/SendMsg/RollBack.antt =====
-- Every failure after the idempotency key was taken gives the key back.
use link_im.Prelude.{
  Bool, true, false, List, [], ◌∷◌, some, ◌≡◌, ◌⊎◌, inl, inr, refl, Bool-cases, Option-cases,
}
use link_im.Prelude.Int.{ℤ}
use link_im.Prelude.Bytes.{Bytes}
use link_im.Logic.World.{World, Call, del, next_id, now_ms, incr_seq, send, msg_store, PbMsg}
use link_im.Logic.SendMsg.{
  SendMsgReq, Code, accepted, Outcome, ack, panic, Target, conv_of, idem_key, resolve,
}
use link_im.Logic.SendMsg.Run.{
  finish, settled, publish, produce, number, process, relation, relation_call, Checked, refused,
  allowed, push_all, headers, store_message, claim_call, send_msg,
}

-- An acknowledgement is an acceptance, or the key's deletion was the last call.
abbrev pub GivesBack : Bytes → Outcome × List Call → Type 0
GivesBack key (panic, h) = Unit
GivesBack key (ack a, h) = (a.code ≡ accepted) ⊎ ((before : List Call) × (h ≡ del key ∷ before))

pub Checked-cases :
    (c : Checked) → ((code : Code) × (c ≡ refused code)) ⊎ ((rs : List ℤ) × (c ≡ allowed rs))
Checked-cases (refused code) = inl (code, refl)
Checked-cases (allowed rs) = inr (rs, refl)

module _ (w : World) (key : Bytes) (req : SendMsgReq) (t : Target) where
  finish-GivesBack :
      (msg : PbMsg) (rs : List ℤ) (h : List Call) → GivesBack key (finish w key msg rs h)
  finish-GivesBack msg [] h = tt
  finish-GivesBack msg (r ∷ rs) h = inl refl

  settled-GivesBack :
      (msg : PbMsg) (rs : List ℤ) (pushed : Bool × List Call)
      → GivesBack key (settled w key msg rs pushed)
  settled-GivesBack msg rs (true, h) = finish-GivesBack msg rs h
  settled-GivesBack msg rs (false, h) = inr (h, refl)

  publish-GivesBack :
      (rs : List ℤ) (msg : PbMsg) (value : Bytes) (h : List Call)
      → GivesBack key (publish w key req t rs msg value h)
  unfolding publish
  publish-GivesBack rs msg value h =
      let stored = send msg_store (conv_of t) value (headers req) ∷ h in
      elim (Bool-cases (w.on_send stored)) [
        | inl e ↦ rw e (settled-GivesBack msg rs (push_all w t (headers req) msg rs stored))
        | inr e ↦ rw e (inr (stored, refl))
      ]

  produce-GivesBack :
      (rs : List ℤ) (msg : PbMsg) (h : List Call) → GivesBack key (produce w key req t rs msg h)
  produce-GivesBack rs msg h = elim (Option-cases (w.marshal_msg msg)) [
    | inl e ↦ unfold produce in rw (e, produce) (inr (h, refl))
    | inr (v, e) ↦ unfold produce in rw (e, produce) (publish-GivesBack rs msg v h)
  ]

  number-GivesBack : (rs : List ℤ) (h : List Call) → GivesBack key (number w key req t rs h)
  number-GivesBack rs h =
      let h' = incr_seq (conv_of t) ∷ h in
      elim (Option-cases (w.on_incr_seq h')) [
        | inl e ↦ unfold number in rw (e, number) (inr (h', refl))
        | inr (seq, e) ↦
            unfold number in
            rw (e, number)
              (produce-GivesBack rs (store_message w req (conv_of t) seq h')
                (now_ms ∷ next_id ∷ h'))
      ]

  process-GivesBack : (h : List Call) → GivesBack key (process w key req t h)
  process-GivesBack h =
      let h' = relation_call req.sender_id t ∷ h in
      elim (Checked-cases (relation w req.sender_id t h')) [
        | inl (c, e) ↦ unfold process in rw (e, process) (inr (h', refl))
        | inr (rs, e) ↦ unfold process in rw (e, process) (number-GivesBack rs h')
      ]

-- Once the key was taken, a request that returns a code other than accepted has deleted the key as
-- its last call, whatever failed.
pub send_msg-GivesBack :
    (w : World) (req : SendMsgReq) (t : Target) (h : List Call)
    → resolve req ≡ some t
    → w.on_set_nx (claim_call req ∷ h) ≡ some true
    → GivesBack (idem_key req.sender_id req.client_msg_id) (send_msg w req h)
send_msg-GivesBack w req t h r e =
    unfold send_msg in
    rw (r, send_msg, e)
      (process-GivesBack w (idem_key req.sender_id req.client_msg_id) req t (claim_call req ∷ h))
