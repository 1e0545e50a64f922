-- ===== src/Logic/SendMsg/Alone.antt =====
-- A message to a group whose only member is the sender.
use link_im.Prelude.{true, List, [], ◌∷◌, some, ◌≡◌}
use link_im.Prelude.Int.{ℤ, eq_ℤ_refl}
use link_im.Prelude.Bytes.{Bytes}
use link_im.Logic.World.{World, Call, set, members, next_id, now_ms, incr_seq, send, msg_store}
use link_im.Logic.SendMsg.{SendMsgReq, panic, group, idem_key, resolve}
use link_im.Logic.SendMsg.Run.{
  fan_out, publish, produce, number, process, relation, push_all, headers, store_message,
  claim_call, send_msg,
}

fan_out_alone : (sender : ℤ) → fan_out sender (sender ∷ []) ≡ (true, [])
unfolding fan_out
fan_out_alone sender = rw (eq_ℤ_refl sender)

abbrev pub alone_history : SendMsgReq → Bytes → ℤ → List Call → List Call
alone_history req conv_id gid h = incr_seq conv_id ∷ members gid ∷ claim_call req ∷ h

-- If a group request claims its key, the sender is the only member of the group, and the number,
-- the encoding and the write of the stored message succeed, then the call has stored the message
-- and written the replay value, and panics.
pub send_msg_alone :
    (w : World) (req : SendMsgReq) (conv_id : Bytes) (gid : ℤ) (h : List Call) (seq : ℤ)
    (value : Bytes)
    → resolve req ≡ some (group conv_id gid)
    → w.on_set_nx (claim_call req ∷ h) ≡ some true
    → w.on_members (members gid ∷ claim_call req ∷ h) ≡ some (req.sender_id ∷ [])
    → w.on_incr_seq (alone_history req conv_id gid h) ≡ some seq
    → w.marshal_msg (store_message w req conv_id seq (alone_history req conv_id gid h)) ≡ some value
    → w.on_send (
        send msg_store conv_id value (headers req)
        ∷ now_ms
        ∷ next_id
        ∷ alone_history req conv_id gid h)
      ≡ true
    → send_msg w req h ≡ (
      panic,
      set (idem_key req.sender_id req.client_msg_id) (
            w.marshal_idem (record {
              msg_id = (store_message w req conv_id seq (alone_history req conv_id gid h)).msg_id;
              seq = seq;
            }))
          ∷ send msg_store conv_id value (headers req)
          ∷ now_ms
          ∷ next_id
          ∷ alone_history req conv_id gid h,
    )
unfolding send_msg process relation number produce publish push_all
send_msg_alone w req conv_id gid h seq value r e m n v s =
    rw (r, send_msg, e, m, fan_out_alone req.sender_id, n, process, number, v, produce, s)
