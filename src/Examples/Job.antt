-- ===== src/Examples/Job.antt =====
-- Two messages of a chat between users 7 and 12 on their way into the tables and to a device.
use link_im.Prelude.{◌++◌, Bool, true, false, List, [], ◌∷◌, none, some, ◌≡◌, refl}
use link_im.Prelude.Int.{pos}
use link_im.Prelude.Bytes.{Bytes, codes, split}
use link_im.Decimal.{parse_int}
use link_im.Service.Conv.{parse_p2p_conv}
use link_im.Logic.World.{PbMsg}
use link_im.Job.World.{World, KafkaMessage, Call, commit}
use link_im.Job.Store.Settled.{Settles, flush-Settles}
use link_im.Job.Receiver.{receiver_of}
use link_im.Job.Rows.{
  StoreItem, group_by_shard, conversation_rows, group_row, build_group_conversation_upserts,
}
use link_im.Job.Rows.Shards.{messages_in, shard_messages, messages_in-group_by_shard}
use link_im.Job.Rows.Counters.{both_sides, conversation_rows_chat}
use link_im.Job.Store.{
  Event, received, tick, closed, cancelled, batch_loop, flush, messages_of, store_batch_size,
}
use link_im.Job.Store.Commits.{committed, batch_loop-committed}
use link_im.Job.Push.{PushWorld, PushCall, Envelope, handle_push, check_alive, stale_fields}
use link_im.Job.Push.Delivery.{OnlyAlive, handle_push-OnlyAlive}

abbrev hello : PbMsg
hello = record {
  msg_id = codes "77";
  conv_id = codes "c:7:12";
  conv_type = pos 1;
  sender_id = pos 7;
  msg_type = pos 1;
  payload = codes "hi";
  seq = pos 5;
  timestamp = pos 1000;
}

abbrev first : KafkaMessage
first = record { topic = codes "msg.store"; key = codes "c:7:12"; value = codes "x" }

abbrev second : KafkaMessage
second = record first { value = codes "y" }

-- The first write fails, and the waiting is not interrupted.
abbrev world : World
world = record {
  unmarshal_msg = λ v. some hello;
  on_exec = λ h. false;
  on_members = λ h. none;
  on_wait = λ h. true;
  on_send = λ h. true;
  on_commit = λ h. true;
  order = λ h gs. gs;
  checksum = λ c. 3;
}

abbrev events : List (Event world)
events = received first ∷ tick ∷ received second ∷ closed ∷ []

batch_loop-committed_example :
    committed (batch_loop world events [] []).1 ++ messages_of (batch_loop world events [] []).0
    ≡ first ∷ second ∷ []
unfolding committed link_im.Job.Store.Commits.consumed
batch_loop-committed_example = batch_loop-committed world events [] []

flush-Settles_example :
    (before : List Call) × (flush world (record { msg = some hello; km = first } ∷ []) []
      ≡ commit (first ∷ []) ∷ before)
    × Settles world (record { msg = some hello; km = first } ∷ []) before
flush-Settles_example = flush-Settles world (record { msg = some hello; km = first }) [] []

abbrev items : List StoreItem
items = record { msg = some hello; km = first } ∷ record { msg = none; km = second } ∷ []

messages_in-group_by_shard_example :
    messages_in (codes "message_03") (group_by_shard (λ c. 3) items) ≡ hello ∷ []
unfolding shard_messages link_im.Job.Rows.shard_table
messages_in-group_by_shard_example = messages_in-group_by_shard (λ c. 3) (codes "message_03") items

abbrev in_group : PbMsg
in_group = record hello { conv_id = codes "g:3"; conv_type = pos 2 }

hello-receiver : receiver_of hello ≡ some (pos 12)
unfolding receiver_of parse_p2p_conv split parse_int
hello-receiver = refl

no_rows : conversation_rows [] ≡ some []
unfolding conversation_rows
no_rows = refl

conversation_rows_chat_example :
    conversation_rows (hello ∷ []) ≡ some (both_sides hello (pos 12) ++ [])
conversation_rows_chat_example = conversation_rows_chat hello [] (pos 12) [] hello-receiver no_rows

abbrev route : List (Bytes × Bytes)
route = (codes "1:a", codes "c1") ∷ (codes "1:b", codes "c2") ∷ []

abbrev push_world : PushWorld
push_world = record {
  unmarshal_envelope = λ v. some (record { recv_uid = pos 12; msg = some hello });
  marshal_msg = λ m. some m.payload;
  on_hget_all = λ h. some route;
  on_exists = λ h. some false;
  on_hdel = λ h. true;
  on_connect = λ h. true;
  on_push_frames = λ h. some true;
}

-- The same with all instances alive.
abbrev all_alive : PushWorld
all_alive = record push_world { on_exists = λ h. some true }

handle_push-OnlyAlive_example : OnlyAlive all_alive (handle_push all_alive (codes "x") [])
handle_push-OnlyAlive_example = handle_push-OnlyAlive all_alive (codes "x") [] tt

abbrev gone : List (Bytes × Bool)
gone = (codes "c2", false) ∷ (codes "c1", false) ∷ []

both_gone : (check_alive push_world route [] []).0 ≡ some gone
unfolding check_alive link_im.Job.Push.cached
both_gone = refl
