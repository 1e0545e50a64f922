-- ===== src/Examples/Reading.antt =====
-- User 7 has read a conversation up to its third message, and comes online.
use link_im.Prelude.{List, [], ◌∷◌, some, true, false, refl, All}
use link_im.Prelude.Int.{pos}
use link_im.Prelude.Bytes.{Bytes, codes, bytes_eq}
use link_im.Logic.Conversations.{World, State, ConvRow, handle_mark_read, online_event}
use link_im.Logic.Conversations.Pending.{Newer, handle_mark_read-online_event}
use link_im.Job.World.{KafkaMessage}
use link_im.Job.RunLoop.{Fetch, fetched, fetch_failed, Consumer}

abbrev world : World
world = record { on_sql = λ h. true; on_exists = λ h. some 0 }

abbrev row : ConvRow
row = record {
  uid = pos 7;
  conv_id = codes "c:7:12";
  conv_type = pos 1;
  last_seq = 5;
  cursor = record { read_seq = 1; unread = 4 };
}

abbrev state : State
state = record { rows = row ∷ []; calls = [] }

handle_mark_read-online_event_example :
    All
      (Newer (codes "c:7:12") 3)
      (online_event world
        (pos 7)
        true
        (handle_mark_read world (pos 7) (codes "c:7:12") (pos 3) state)).0
handle_mark_read-online_event_example =
    handle_mark_read-online_event world (pos 7) (codes "c:7:12") 3 state refl refl

-- A consumer that takes only the messages of one topic.
abbrev consumer : Consumer Unit
consumer = record {
  handle = λ km s. (bytes_eq km.topic (codes "a"), s);
  commit = λ km s. (true, s);
  cancelled = λ s. false;
}

abbrev message : Bytes → KafkaMessage
message topic = record { topic = topic; key = []; value = [] }

abbrev events : List Fetch
events = fetched (message (codes "a")) ∷ fetched (message (codes "b")) ∷ fetch_failed ∷ []
