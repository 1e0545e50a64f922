-- ===== src/Logic/SendMsg/Replay.antt =====
-- A repeated client_msg_id is answered from the first request's result and writes nothing.
use link_im.Prelude.{true, List, [], ◌∷◌, Option, none, some, ◌≡◌, ◌≢◌}
use link_im.Prelude.Int.{ℤ, IsInt64}
use link_im.Prelude.Bytes.{Bytes}
use link_im.Decimal.{format_int}
use link_im.Logic.World.{World, Call, set_nx, get, set, now_ms, IdemValue}
use link_im.Logic.SendMsg.{
  SendMsgReq, SendMsgAck, accepted, redis_err, Outcome, ack, failed, Target, idem_key,
}
use link_im.Logic.SendMsg.Run.{claim_call}

-- Redis, as far as the replay rests on it: what it holds after some calls, that an acknowledged
-- SET is held, that SETNX answers true only where nothing is held and leaves what is held alone,
-- and that GET answers what is held. The lifetime of the key, ten minutes, has not run out.
pub record IsRedis (w : World) : Type 0 where
  pub held : List Call → Bytes → Option Bytes
  pub set_holds :
      (h : List Call) (k v : Bytes) → w.on_set (set k v ∷ h) ≡ true → held (set k v ∷ h) k ≡ some v
  pub set_nx_free :
      (h : List Call) (k v : Bytes) → w.on_set_nx (set_nx k v ∷ h) ≡ some true → held h k ≡ none
  pub set_nx_leaves :
      (h : List Call) (k v u : Bytes) → held h k ≡ some u → held (set_nx k v ∷ h) k ≡ some u
  pub get_answers :
      (h : List Call) (k u v : Bytes) → held h k ≡ some u → w.on_get (get k ∷ h) ≡ some v → v ≡ u

-- encoding/json reads back an idemValue whose id is a decimal text and whose seq is an int64, and
-- what it writes is never the empty text.
pub record IsJson (w : World) : Type 0 where
  pub reads :
      (id seq : ℤ)
      → IsInt64 seq
      → w.unmarshal_idem (w.marshal_idem (record { msg_id = format_int id; seq = seq }))
        ≡ some (record { msg_id = format_int id; seq = seq })
  pub nonempty : (v : IdemValue) → w.marshal_idem v ≢ []

abbrev idem_of : SendMsgAck → IdemValue
idem_of a = record { msg_id = a.msg_id; seq = a.seq }

-- How a repetition may end: Redis fails on the claim or on the read, or the first result comes
-- back. In each case the calls made are the ones shown, none of which writes.
pub data Repeats (w : World) (req : SendMsgReq) (a : SendMsgAck) (g : List Call)
    : Outcome × List Call → Type 0 where
  claim_failed : Repeats w req a g (failed redis_err, claim_call req ∷ g)
  get_failed :
      Repeats w req a g
        (failed redis_err, get (idem_key req.sender_id req.client_msg_id) ∷ claim_call req ∷ g)
  again :
      (now : ℤ)
      → Repeats w req a g (
        ack (record { code = accepted; msg_id = a.msg_id; seq = a.seq; timestamp = now }),
        now_ms ∷ get (idem_key req.sender_id req.client_msg_id) ∷ claim_call req ∷ g,
      )

module _ (w : World) (r : IsRedis w) (j : IsJson w) (req : SendMsgReq) (t : Target)
    (a : SendMsgAck) where
  abbrev key : Bytes
  key = idem_key req.sender_id req.client_msg_id
