-- ===== src/Logic/SendMsg.antt =====
-- internal/logic/sendmsg.go: the path of a message from the client to Kafka. Logging and metrics
-- are left out.
pub mod Resolve
pub mod Run
pub mod FanOut
pub mod RollBack
pub mod Accepted
pub mod Replay
pub mod Alone
use link_im.Prelude.{
  ℕ, ◌*◌, ◌+◌, Bool, true, false, ◌||◌, not, List, [], ◌∷◌, ◌++◌, Option, none, some, ◌≡◌, refl,
  ltb, ◌==◌, if◌then◌else◌, length,
}
use link_im.Prelude.Int.{ℤ, pos, negsuc, leb_ℤ, eq_ℤ}
use link_im.Prelude.Bytes.{Bytes, codes, bytes_eq}
use link_im.Decimal.{format_int}
use link_im.Service.Conv.{
  conv_id_for_p2p, parse_p2p_conv, conv_type_p2p, conv_type_group, conv_id_for_group,
  parse_group_conv,
}
use link_im.Protocol.Frame.{max_body_len}
use link_im.Logic.World.{
  World, Call, set_nx, get, set, del, is_friend, members, incr_seq, next_id, now_ms, send, Topic,
  msg_store, msg_push, Headers, PbMsg, IdemValue,
}

-- The fields of pb.SendMsgReq that sendMsg reads.
pub record SendMsgReq : Type 0 where
  pub sender_id : ℤ
  pub conv_id : Bytes
  pub conv_type : ℤ
  pub client_msg_id : Bytes
  pub msg_type : ℤ
  pub payload : Bytes

-- The business codes.
pub data Code : Type 0 where
  accepted bad_param not_friend kafka_err redis_err in_flight : Code

abbrev pub number_of : Code → ℕ
number_of accepted = 0
number_of bad_param = 40201
number_of not_friend = 40301
number_of kafka_err = 50201
number_of redis_err = 50202
number_of in_flight = 50203

pub record SendMsgAck : Type 0 where
  pub code : Code
  pub msg_id : Bytes
  pub seq : ℤ
  pub timestamp : ℤ

-- How a call ends: with an acknowledgement, or by the panic of an index out of range.
pub data Outcome : Type 0 where
  ack : SendMsgAck → Outcome
  panic : Outcome

abbrev pub failed : Code → Outcome
failed c = ack (record { code = c; msg_id = []; seq = pos 0; timestamp = pos 0 })

-- Step 2's result: the recomputed conversation id, and the peer or the group.
pub data Target : Type 0 where
  peer : Bytes → ℤ → Target
  group : Bytes → ℤ → Target

abbrev pub conv_of : Target → Bytes
conv_of (peer c p) = c
conv_of (group c g) = c

-- redisx.IdemKey
unfoldable pub idem_key : ℤ → Bytes → Bytes
idem_key sender client_msg_id = codes "idem:" ++ (format_int sender ++ (codes ":" ++ client_msg_id))

unfoldable pub valid_params : SendMsgReq → Bool
valid_params req = not (
    leb_ℤ req.sender_id (pos 0)
    || (bytes_eq req.client_msg_id []
        || (leb_ℤ req.msg_type (pos 0)
            || (length req.payload == 0 || ltb max_body_len (length req.payload)))))

unfoldable pub canonical : Bytes → Bytes → Target → Option Target
canonical conv_id given t = if bytes_eq conv_id given then some t else none

-- The sender must be one of the two, and the id must be the one that the server computes.
unfoldable pub p2p_target : ℤ → Bytes → Option (ℤ × ℤ) → Option Target
p2p_target sender given none = none
p2p_target sender given (some (a, b)) =
    if eq_ℤ sender a
    then canonical (conv_id_for_p2p sender b) given (peer (conv_id_for_p2p sender b) b)
    else if eq_ℤ sender b
    then canonical (conv_id_for_p2p sender a) given (peer (conv_id_for_p2p sender a) a)
    else none

unfoldable pub group_target : Bytes → Option ℤ → Option Target
group_target given none = none
group_target given (some gid) =
    canonical (conv_id_for_group gid) given (group (conv_id_for_group gid) gid)

-- Steps 1 and 2: `none` is CodeBadParam.
unfoldable pub resolve : SendMsgReq → Option Target
resolve req =
    if valid_params req
    then if eq_ℤ req.conv_type conv_type_p2p
      then p2p_target req.sender_id req.conv_id (parse_p2p_conv req.conv_id)
      else if eq_ℤ req.conv_type conv_type_group
      then group_target req.conv_id (parse_group_conv req.conv_id)
      else none
    else none
