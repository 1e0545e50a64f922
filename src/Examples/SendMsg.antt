-- ===== src/Examples/SendMsg.antt =====
-- The path of a message on one concrete world: a Redis that holds what the calls have written,
-- a Kafka that accepts everything, and fixed answers of the other services.
use link_im.Prelude.{
  zero, suc, Bool, true, false, List, [], ◌∷◌, Option, none, some, ◌≡◌, refl, if◌then◌else◌,
}
use link_im.Prelude.Int.{ℤ, pos, negsuc}
use link_im.Prelude.Bytes.{Bytes, codes, bytes_eq, split}
use link_im.Decimal.{format_int, parse_int}
use link_im.Service.Conv.{conv_id_for_p2p, parse_p2p_conv, conv_id_for_group, parse_group_conv}
use link_im.Logic.World.{
  World, Call, set_nx, get, set, del, send, msg_store, next_id, now_ms, IdemValue,
}
use link_im.Logic.SendMsg.{
  SendMsgReq, SendMsgAck, accepted, ack, panic, peer, group, idem_key, valid_params, p2p_target,
  group_target, resolve, canonical,
}
use link_im.Logic.SendMsg.Run.{
  claim_call, headers, send_msg, process, relation, number, produce, publish, push_all,
}
use link_im.Logic.SendMsg.Resolve.{IsChat, resolve-IsChat}
use link_im.Logic.SendMsg.RollBack.{GivesBack, send_msg-GivesBack}
use link_im.Logic.SendMsg.Accepted.{Delivered, send_msg-Delivered}
use link_im.Logic.SendMsg.Alone.{alone_history, send_msg_alone}

or_value : Bytes → Option Bytes → Option Bytes
or_value v none = some v
or_value v (some u) = some u

held : List Call → Bytes → Option Bytes
unfolding or_value
held [] k = none
held (set k v ∷ h) j = if bytes_eq k j then some v else held h j
held (set_nx k v ∷ h) j = let rest = held h j in if bytes_eq k j then or_value v rest else rest
held (del k ∷ h) j = if bytes_eq k j then none else held h j
held (c ∷ h) j = held h j

is_none : Option Bytes → Bool
is_none none = true
is_none (some v) = false

or_empty : Option Bytes → Bytes
or_empty none = []
or_empty (some v) = v

set_nx_answer : List Call → Option Bool
unfolding held is_none
set_nx_answer (set_nx k v ∷ h) = some (is_none (held h k))
set_nx_answer h = none

get_answer : List Call → Option Bytes
unfolding held or_empty
get_answer (get k ∷ h) = some (or_empty (held h k))
get_answer h = none

write_parts : ℤ → Bytes → Bytes
write_parts (pos n) m = 0 ∷ n ∷ m
write_parts (negsuc n) m = 1 ∷ n ∷ m

write_idem : IdemValue → Bytes
unfolding write_parts
write_idem v = write_parts v.seq v.msg_id

read_idem : Bytes → Option IdemValue
read_idem (zero ∷ n ∷ m) = some (record { msg_id = m; seq = pos n })
read_idem (suc k ∷ n ∷ m) = some (record { msg_id = m; seq = negsuc n })
read_idem bs = none

abbrev live : List ℤ → World
live group_members = record {
  on_set_nx = set_nx_answer;
  on_get = get_answer;
  on_set = λ h. true;
  on_del = λ h. true;
  on_is_friend = λ h. some true;
  on_members = λ h. some group_members;
  on_incr_seq = λ h. some (pos 5);
  on_next_id = λ h. pos 77;
  on_now_ms = λ h. pos 1000;
  on_send = λ h. true;
  marshal_msg = λ msg. some msg.payload;
  marshal_envelope = λ recv msg. some msg.payload;
  marshal_idem = write_idem;
  unmarshal_idem = read_idem;
}

abbrev hello : SendMsgReq
hello = record {
  sender_id = pos 7;
  conv_id = codes "c:7:12";
  conv_type = pos 1;
  client_msg_id = codes "m1";
  msg_type = pos 1;
  payload = codes "hi";
}

abbrev to_group : SendMsgReq
to_group = record hello { conv_id = codes "g:3"; conv_type = pos 2 }

hello_resolved : resolve hello ≡ some (peer (codes "c:7:12") (pos 12))
unfolding resolve valid_params p2p_target canonical parse_p2p_conv conv_id_for_p2p split parse_int
    format_int
hello_resolved = refl

hello_claimed : set_nx_answer (claim_call hello ∷ []) ≡ some true
unfolding set_nx_answer held is_none idem_key
hello_claimed = refl

abbrev hello_ack : SendMsgAck
hello_ack = record { code = accepted; msg_id = codes "77"; seq = pos 5; timestamp = pos 1000 }

abbrev after_hello : List Call
after_hello = (send_msg (live []) hello []).1

hello_run : send_msg (live []) hello [] ≡ (ack hello_ack, after_hello)
unfolding send_msg process relation number produce publish push_all set_nx_answer held is_none
    idem_key resolve valid_params p2p_target canonical parse_p2p_conv conv_id_for_p2p split
    parse_int format_int
hello_run = refl

send_msg-Delivered_example :
    Delivered (live []) hello (peer (codes "c:7:12") (pos 12)) [] hello_ack after_hello
send_msg-Delivered_example =
    send_msg-Delivered (live []) hello (peer (codes "c:7:12") (pos 12)) [] hello_ack after_hello
      hello_resolved hello_claimed hello_run refl

-- Kafka refuses.
abbrev down : World
down = record (live []) { on_send = λ h. false }

send_msg-GivesBack_example : GivesBack (idem_key (pos 7) (codes "m1")) (send_msg down hello [])
send_msg-GivesBack_example =
    send_msg-GivesBack down hello (peer (codes "c:7:12") (pos 12)) [] hello_resolved hello_claimed

group_resolved : resolve to_group ≡ some (group (codes "g:3") (pos 3))
unfolding resolve valid_params group_target canonical parse_group_conv conv_id_for_group split
    parse_int format_int
group_resolved = refl

group_claimed : set_nx_answer (claim_call to_group ∷ []) ≡ some true
unfolding set_nx_answer held is_none idem_key
group_claimed = refl

send_msg_alone_example : send_msg (live (pos 7 ∷ [])) to_group [] ≡ (
  panic,
  set
        (idem_key (pos 7) (codes "m1"))
        (write_idem (record { msg_id = format_int (pos 77); seq = pos 5 }))
      ∷ send msg_store (codes "g:3") (codes "hi") (headers to_group)
      ∷ now_ms
      ∷ next_id
      ∷ alone_history to_group (codes "g:3") (pos 3) [],
)
send_msg_alone_example =
    send_msg_alone (live (pos 7 ∷ [])) to_group (codes "g:3") (pos 3) [] (pos 5) (codes "hi")
      group_resolved group_claimed refl refl refl refl

hello_valid : valid_params hello ≡ true
unfolding valid_params
hello_valid = refl

resolve-IsChat_example : IsChat (pos 7) (codes "c:7:12") (codes "c:7:12") (pos 12)
resolve-IsChat_example = resolve-IsChat hello (codes "c:7:12") (pos 12) hello_resolved
