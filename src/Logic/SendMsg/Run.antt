-- ===== src/Logic/SendMsg/Run.antt =====
-- internal/logic/sendmsg.go, steps 3 to 8: the calls that a request makes, with the history of
-- all calls passed along.
use link_im.Prelude.{Bool, true, false, List, [], ◌∷◌, Option, none, some, if◌then◌else◌}
use link_im.Prelude.Int.{ℤ, eq_ℤ}
use link_im.Prelude.Bytes.{Bytes}
use link_im.Decimal.{format_int}
use link_im.Logic.World.{
  World, Call, set_nx, get, set, del, is_friend, members, incr_seq, next_id, now_ms, send,
  msg_store, msg_push, Headers, PbMsg, IdemValue,
}
use link_im.Logic.SendMsg.{
  SendMsgReq, Code, accepted, bad_param, not_friend, kafka_err, redis_err, in_flight, Outcome, ack,
  panic, failed, Target, peer, group, conv_of, idem_key, resolve,
}

-- The loop over the members: whether the sender is one, and all the others.
unfoldable pub fan_out : ℤ → List ℤ → Bool × List ℤ
fan_out sender [] = (false, [])
fan_out sender (m ∷ ms) =
    let (is_member, receivers) = fan_out sender ms in
    if eq_ℤ m sender then (true, receivers) else (is_member, m ∷ receivers)

-- Step 4's result.
pub data Checked : Type 0 where
  refused : Code → Checked
  allowed : List ℤ → Checked

abbrev friend_checked : ℤ → Option Bool → Checked
friend_checked p none = refused redis_err
friend_checked p (some false) = refused not_friend
friend_checked p (some true) = allowed (p ∷ [])

abbrev group_checked : ℤ → Option (List ℤ) → Checked
group_checked sender none = refused redis_err
group_checked sender (some ms) =
    if (fan_out sender ms).0 then allowed (fan_out sender ms).1 else refused not_friend

abbrev pub relation_call : ℤ → Target → Call
relation_call sender (peer c p) = is_friend sender p
relation_call sender (group c gid) = members gid

-- A group's copy is keyed by its receiver, a single chat's by the conversation.
abbrev pub push_key : Target → ℤ → Bytes
push_key (peer c p) recv = c
push_key (group c gid) recv = format_int recv

-- The deferred `rollback()` and the code that follows it.
abbrev pub roll_back : Bytes → Code → List Call → Outcome × List Call
roll_back key code h = (failed code, del key ∷ h)

abbrev pub headers : SendMsgReq → Headers
headers req = record { trace_id = req.client_msg_id; conv_type = format_int req.conv_type }

abbrev pub claim_call : SendMsgReq → Call
claim_call req = set_nx (idem_key req.sender_id req.client_msg_id) []

module _ (w : World) where
  unfoldable pub relation : ℤ → Target → List Call → Checked
  relation sender (peer c p) h = friend_checked p (w.on_is_friend h)
  relation sender (group c gid) h = group_checked sender (w.on_members h)

  abbrev pub store_message : SendMsgReq → Bytes → ℤ → List Call → PbMsg
  store_message req conv_id seq h = record {
    msg_id = format_int (w.on_next_id (next_id ∷ h));
    conv_id = conv_id;
    conv_type = req.conv_type;
    sender_id = req.sender_id;
    msg_type = req.msg_type;
    payload = req.payload;
    seq = seq;
    timestamp = w.on_now_ms (now_ms ∷ next_id ∷ h);
  }

  -- The loop that fans the message out; false on the first failure.
  unfoldable pub push_all : Target → Headers → PbMsg → List ℤ → List Call → Bool × List Call
  push_all t hd msg [] h = (true, h)
  push_all t hd msg (recv ∷ rs) h = elim (w.marshal_envelope recv msg) [
    | none ↦ (false, h)
    | some env ↦
        let h' = send msg_push (push_key t recv) env hd ∷ h in
        let rest = push_all t hd msg rs h' in if w.on_send h' then rest else (false, h')
  ]

  -- Step 8. The log line that follows the write of the key reads `receivers[0]`.
  abbrev pub finish : Bytes → PbMsg → List ℤ → List Call → Outcome × List Call
  finish key msg [] h =
      (panic, set key (w.marshal_idem (record { msg_id = msg.msg_id; seq = msg.seq })) ∷ h)
  finish key msg (recv ∷ rs) h = (
    ack (record { code = accepted; msg_id = msg.msg_id; seq = msg.seq; timestamp = msg.timestamp }),
    set key (w.marshal_idem (record { msg_id = msg.msg_id; seq = msg.seq })) ∷ h,
  )

  abbrev pub settled : Bytes → PbMsg → List ℤ → Bool × List Call → Outcome × List Call
  settled key msg receivers (true, h) = finish key msg receivers h
  settled key msg receivers (false, h) = roll_back key kafka_err h

  -- Step 7: the stored copy first, then one for each receiver.
  unfoldable pub publish :
      Bytes → SendMsgReq → Target → List ℤ → PbMsg → Bytes → List Call → Outcome × List Call
  publish key req t receivers msg value h =
      let stored = send msg_store (conv_of t) value (headers req) ∷ h in
      if w.on_send stored
      then settled key msg receivers (push_all t (headers req) msg receivers stored)
      else roll_back key kafka_err stored

  unfoldable pub produce :
      Bytes → SendMsgReq → Target → List ℤ → PbMsg → List Call → Outcome × List Call
  produce key req t receivers msg h = elim (w.marshal_msg msg) [
    | none ↦ roll_back key kafka_err h
    | some value ↦ publish key req t receivers msg value h
  ]

  -- Steps 5 and 6.
  unfoldable pub number : Bytes → SendMsgReq → Target → List ℤ → List Call → Outcome × List Call
  number key req t receivers h =
      let h' = incr_seq (conv_of t) ∷ h in
      elim (w.on_incr_seq h') [
        | none ↦ roll_back key redis_err h'
        | some seq ↦
            produce key req t receivers (store_message req (conv_of t) seq h')
              (now_ms ∷ next_id ∷ h')
      ]

  -- Steps 4 to 8, once the key is taken.
  unfoldable pub process : Bytes → SendMsgReq → Target → List Call → Outcome × List Call
  process key req t h =
      let h' = relation_call req.sender_id t ∷ h in
      elim (relation req.sender_id t h') [
        | refused code ↦ roll_back key code h'
        | allowed receivers ↦ number key req t receivers h'
      ]

  abbrev pub replayed : Option IdemValue → List Call → Outcome × List Call
  replayed none h = (failed redis_err, h)
  replayed (some v) h = (
    ack (record {
      code = accepted;
      msg_id = v.msg_id;
      seq = v.seq;
      timestamp = w.on_now_ms (now_ms ∷ h);
    }),
    now_ms ∷ h,
  )

  abbrev pub replay_value : Option Bytes → List Call → Outcome × List Call
  replay_value none h = (failed redis_err, h)
  replay_value (some []) h = (failed in_flight, h)
  replay_value (some (b ∷ bs)) h = replayed (w.unmarshal_idem (b ∷ bs)) h

  unfoldable pub replay_or_busy : Bytes → List Call → Outcome × List Call
  replay_or_busy key h = replay_value (w.on_get (get key ∷ h)) (get key ∷ h)

  abbrev taken : Bytes → SendMsgReq → Target → List Call → Option Bool → Outcome × List Call
  taken key req t h none = (failed redis_err, h)
  taken key req t h (some false) = replay_or_busy key h
  taken key req t h (some true) = process key req t h

  unfoldable pub send_msg : SendMsgReq → List Call → Outcome × List Call
  send_msg req h = elim (resolve req) [
    | none ↦ (failed bad_param, h)
    | some t ↦
        taken (idem_key req.sender_id req.client_msg_id) req t (claim_call req ∷ h)
          (w.on_set_nx (claim_call req ∷ h))
  ]
