-- ===== src/Job/World.antt =====
-- What the store consumer calls and does not implement: MySQL behind SQLExecer, the members of a
-- group, Kafka, the timers of the retry and the codec of protobuf. Every call is recorded, the
-- latest first, and its answer may depend on all calls made before it.
use link_im.Prelude.{ℕ, Bool, List, Option}
use link_im.Prelude.Int.{ℤ}
use link_im.Prelude.Bytes.{Bytes}
use link_im.Logic.World.{PbMsg}

-- kafka.Message, as far as the consumers read it.
pub record KafkaMessage : Type 0 where
  pub topic : Bytes
  pub key : Bytes
  pub value : Bytes

-- The arguments of one row of BuildMessageInsert.
pub record MessageRow : Type 0 where
  pub id : ℕ
  pub conv_id : Bytes
  pub seq : ℤ
  pub sender_id : ℤ
  pub msg_type : ℤ
  pub payload : Bytes
  pub status : ℕ
  pub created_at : ℤ

-- The arguments of one row of a conversation upsert; `unread` is the increment.
pub record ConvRow : Type 0 where
  pub uid : ℤ
  pub conv_id : Bytes
  pub conv_type : ℤ
  pub target_id : ℤ
  pub last_seq : ℤ
  pub unread : ℕ
  pub updated_at : ℤ

-- The two statements that the store consumer builds, with their arguments.
pub data Statement : Type 0 where
  insert_ignore : Bytes → List MessageRow → Statement
  upsert : List ConvRow → Statement

pub data Call : Type 0 where
  exec : Statement → Call
  members : ℤ → Call
  send : Bytes → KafkaMessage → Call
  wait : ℕ → Call
  commit : List KafkaMessage → Call

abbrev pub Groups : Type 0
Groups = List (Bytes × List PbMsg)

-- `on_wait` is false where the context is cancelled before the timer fires, and `order` is the
-- order in which a range over a Go map visits its entries. Kafka may refuse a message or a commit:
-- of `on_send` and `on_commit`, true for nil, the consumers of this program only log an error.
pub record World : Type 0 where
  pub unmarshal_msg : Bytes → Option PbMsg
  pub on_exec : List Call → Bool
  pub on_members : List Call → Option (List ℤ)
  pub on_wait : List Call → Bool
  pub on_send : List Call → Bool
  pub on_commit : List Call → Bool
  pub order : List Call → Groups → Groups
  pub checksum : Bytes → ℕ
