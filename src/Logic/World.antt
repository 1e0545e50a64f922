-- ===== src/Logic/World.antt =====
-- What internal/logic calls and does not implement, for the sending of a message: Redis behind
-- IdemStore and SeqGen, the friend and member sources, Kafka behind Producer, the id generator,
-- the clock, and the codecs of protobuf and JSON. Every call is recorded, the latest first, and
-- its answer may depend on all calls made before it: nothing is assumed of an answer here.
use link_im.Prelude.{List, Option, Bool}
use link_im.Prelude.Int.{ℤ}
use link_im.Prelude.Bytes.{Bytes}

-- pb.PbMsg, as sendMsg fills it.
pub record PbMsg : Type 0 where
  pub msg_id : Bytes
  pub conv_id : Bytes
  pub conv_type : ℤ
  pub sender_id : ℤ
  pub msg_type : ℤ
  pub payload : Bytes
  pub seq : ℤ
  pub timestamp : ℤ

-- idemValue of sendmsg.go.
pub record IdemValue : Type 0 where
  pub msg_id : Bytes
  pub seq : ℤ

pub data Topic : Type 0 where
  msg_store msg_push : Topic

-- The headers "trace-id" and "conv-type".
pub record Headers : Type 0 where
  pub trace_id : Bytes
  pub conv_type : Bytes

pub data Call : Type 0 where
  set_nx : Bytes → Bytes → Call
  get : Bytes → Call
  set : Bytes → Bytes → Call
  del : Bytes → Call
  is_friend : ℤ → ℤ → Call
  members : ℤ → Call
  incr_seq : Bytes → Call
  next_id : Call
  now_ms : Call
  send : Topic → Bytes → Bytes → Headers → Call

-- The answers. The list that an answer may depend on begins with the call that is answered.
-- `none` is an error; a call that returns only an error answers by a Bool, true for nil.
pub record World : Type 0 where
  pub on_set_nx : List Call → Option Bool
  pub on_get : List Call → Option Bytes
  pub on_set : List Call → Bool
  pub on_del : List Call → Bool
  pub on_is_friend : List Call → Option Bool
  pub on_members : List Call → Option (List ℤ)
  pub on_incr_seq : List Call → Option ℤ
  pub on_next_id : List Call → ℤ
  pub on_now_ms : List Call → ℤ
  pub on_send : List Call → Bool
  pub marshal_msg : PbMsg → Option Bytes
  pub marshal_envelope : ℤ → PbMsg → Option Bytes
  pub marshal_idem : IdemValue → Bytes
  pub unmarshal_idem : Bytes → Option IdemValue
