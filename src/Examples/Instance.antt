-- ===== src/Examples/Instance.antt =====
-- An instance that accepts a connection, which authenticates and sends frames.
use link_im.Prelude.{
  ◌+◌, ◌++◌, ◌<◌, true, false, [], ◌∷◌, none, some, ◌≡◌, ◌⊎◌, Option, refl, arith, length, sym,
  subst,
}
use link_im.Prelude.Int.{pos, IsInt64}
use link_im.Prelude.Bytes.{codes}
use link_im.Decimal.{format_int}
use link_im.Protocol.Cmd.{cmd_msg_send_ack}
use link_im.Protocol.Frame.{Frame, encode}
use link_im.Comet.Conn.{device_key, new_conn, push, mark_authed, set_identity, touch}
use link_im.Comet.Bucket.{bucket_index, put, get}
use link_im.Comet.Server.{World, AuthReq, VerifyTokenResp, close, find, kick, reply}
use link_im.Comet.Auth.{kick_same_platform, take_over}
use link_im.Comet.Steps.{
  System, set_server, watchdog, watches, late, initial, accept, ask, judge, sweep, place, finish,
  is_placed, is_racing, Reachable, accepts, asks, answers, sweeps, places, finishes, starts, steps,
}
use link_im.Comet.Steps.Owners.{Reachable-find}
use link_im.Comet.Steps.Timers.{run_timers, kick-run_timers}
use link_im.Comet.Dispatch.{DispatchWorld, State, dispatch_all, handle_msg_send}
use link_im.Comet.Dispatch.Own.{Owned, dispatch_all-Owned}
use link_im.Comet.Dispatch.Replies.{RepliedIfShort, owed_ack, handle_msg_send-Acks}

abbrev world : World
world = record {
  on_hget_all = λ h. none;
  on_hlen = λ h. some 1;
  on_kick_remote = λ h. true;
  on_verify_token = λ h. some (record { valid = true; code = 0; uid = pos 7 });
  unmarshal_auth_req = λ bs.
      some (record { uid = pos 7; token = codes "t"; device_id = codes "a"; platform = pos 1 });
  marshal_auth_ack = λ a. a.msg;
}

abbrev auth_frame : Frame
auth_frame = record { ver = 1; cmd = 1; seq = 1; body = [] }

abbrev start : System
start = initial (codes "c1") (λ i. new_conn 0)

abbrev one : System
one = accept 3 start

abbrev login : AuthReq
login = record { uid = pos 7; token = codes "t"; device_id = codes "a"; platform = pos 1 }

abbrev seventh : Option VerifyTokenResp
seventh = some (record { valid = true; code = 0; uid = pos 7 })

abbrev asked : System
asked = ask world 4 0 1 login one

abbrev told : System
told = judge world 0 1 login seventh asked

abbrev cleared : System
cleared = sweep world 0 1 login (pos 7) told

abbrev stored : System
stored = place world 0 1 login (pos 7) cleared

abbrev joined : System
joined = finish world 0 1 login (pos 7) stored

joined-Reachable : Reachable world start joined
unfolding initial accept new_conn ask judge sweep place
joined-Reachable =
    steps stored joined
      (steps cleared stored
        (steps told cleared
          (steps asked told
            (steps one asked (steps start one starts (accepts 3))
              (asks 4 0 auth_frame login (omega arith) refl refl))
            (answers 0 1 login seventh (omega arith) refl))
          (sweeps 0 1 login (pos 7) (omega arith) refl))
        (places 0 1 login (pos 7) (omega arith) refl))
      (finishes 0 1 login (pos 7) (omega arith) refl)

found : find (pos 7) (codes "a") joined.server ≡ some 0
unfolding initial accept new_conn ask judge sweep place finish kick_same_platform reply encode push
    mark_authed set_identity touch take_over put get bucket_index device_key format_int
found = refl

uid_of_0 : (joined.server.conns 0).uid ≡ pos 7
unfolding initial accept new_conn ask judge sweep place finish kick_same_platform reply encode push
    mark_authed set_identity touch take_over put get bucket_index device_key format_int
uid_of_0 = refl

Reachable-find_example :
    (0 < joined.accepted)
    × (((joined.server.conns 0).authed ≡ true) ⊎ (is_placed (joined.stage 0) ≡ true))
    × (((joined.server.conns 0).closed ≡ false) ⊎ (is_racing (joined.stage 0) ≡ true))
    × ((joined.server.conns 0).uid ≡ pos 7)
    × ((joined.server.conns 0).device_id ≡ codes "a")
unfolding initial accept ask judge sweep place finish
Reachable-find_example =
    Reachable-find world (codes "c1") (λ i. new_conn 0) joined (pos 7) (codes "a") 0
      joined-Reachable (omega arith) (subst IsInt64 (sym uid_of_0) (omega arith)) found

-- The watchdog comes between the answer and the mark: the closed connection stays.
abbrev shut : System
shut = set_server cleared (watchdog world 0 cleared.server)

abbrev overtaken : System
overtaken = finish world 0 1 login (pos 7) (place world 0 1 login (pos 7) shut)

overtaken-Reachable : Reachable world start cleared → Reachable world start overtaken
unfolding initial accept new_conn ask judge sweep place
overtaken-Reachable r =
    steps (place world 0 1 login (pos 7) shut) overtaken
      (steps shut (place world 0 1 login (pos 7) shut) (steps cleared shut r (watches 0))
        (places 0 1 login (pos 7) (omega arith) refl))
      (finishes 0 1 login (pos 7) (omega arith) refl)

overtaken_found :
    (find (pos 7) (codes "a") overtaken.server ≡ some 0)
    × ((overtaken.server.conns 0).closed ≡ true)
    × (overtaken.stage 0 ≡ late)
unfolding initial accept new_conn ask judge sweep place finish kick_same_platform reply encode push
    mark_authed set_identity touch take_over put get bucket_index device_key format_int watchdog
    close
overtaken_found = (refl, refl, refl)

kick-run_timers_example :
    ((run_timers world
        (length joined.server.pending + 1)
        (kick world (pos 7) (codes "a") (codes "bye") joined.server)).conns
      0).closed
    ≡ true
kick-run_timers_example =
    kick-run_timers world (pos 7) (codes "a") (codes "bye") 0 joined.server found

abbrev logic : DispatchWorld
logic = record {
  on_send_msg =
      λ h. some (record { code = 0; msg_id = codes "55"; seq = pos 2; timestamp = pos 9 });
  on_sync_pull = λ h. some (record { code = 0; messages = []; max_seq = pos 2 });
  on_online_event = λ h. none;
  unmarshal_msg_send = λ b. (
    true,
    record {
      client_msg_id = codes "m";
      conv_id = codes "c:7:12";
      conv_type = pos 1;
      msg_type = pos 1;
      payload = b;
    },
  );
  unmarshal_received_ack =
      λ b. (true, record { msg_id = b; conv_id = codes "c:7:12"; seq = pos 2 });
  unmarshal_pull = λ b. (true, record { conv_id = b; local_max_seq = pos 0; limit = pos 10 });
  marshal_send_ack = λ a. a.client_msg_id ++ a.msg_id;
  marshal_sync_resp = λ r. r.conv_id;
  marshal_notify = λ cs. [];
}

abbrev online : State
online = record { conn = record (new_conn 3) { uid = pos 7; authed = true }; calls = [] }

abbrev message : Frame
message = record { ver = 1; cmd = 5; seq = 8; body = codes "hi" }

abbrev pull : Frame
pull = record { ver = 1; cmd = 9; seq = 9; body = codes "c:7:12" }

dispatch_all-Owned_example : Owned (pos 7) (dispatch_all logic (message ∷ pull ∷ []) online)
dispatch_all-Owned_example =
    dispatch_all-Owned logic (pos 7) (message ∷ pull ∷ []) online
      (record { owner = refl; calls = tt })

handle_msg_send-Acks_example :
    RepliedIfShort cmd_msg_send_ack 8
      (logic.marshal_send_ack (owed_ack logic (codes "hi") online))
      online
      (handle_msg_send logic message online)
unfolding new_conn
handle_msg_send-Acks_example =
    handle_msg_send-Acks logic message online refl (omega arith) (omega arith)
