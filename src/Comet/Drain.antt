-- ===== src/Comet/Drain.antt =====
-- OnlineCount and Drain of internal/comet/server.go. `bodies` gives each connection the encoded
-- ReconnectReq, whose jitter is random; the counts that the waiting sees come as a list.
use link_im.Prelude.{ℕ, zero, suc, ◌+◌, List, [], ◌∷◌, ◌==◌, if◌then◌else◌}
use link_im.Prelude.Bytes.{Bytes}
use link_im.Protocol.Cmd.{cmd_reconnect_now}
use link_im.Comet.Bucket
use link_im.Comet.Bucket.{Bucket, bucket_num}
use link_im.Comet.Server.{Server, World, reply}
use link_im.Comet.Auth.Identity.{SameIds, SameIds-refl, SameIds-trans, reply-SameIds}

-- The connections of the first `n` buckets.
unfoldable pub online_in : ℕ → Server → ℕ
online_in zero s = 0
online_in (suc n) s = online_in n s + Bucket.size (s.buckets n)

unfoldable pub online_count : Server → ℕ
online_count s = online_in bucket_num s

module _ (w : World) (bodies : ℕ → Bytes) where
  unfoldable pub broadcast_to : Bucket → Server → Server
  broadcast_to [] s = s
  broadcast_to ((key, i) ∷ b) s = broadcast_to b (reply w i cmd_reconnect_now 0 (bodies i) s)

  unfoldable pub broadcast_in : ℕ → Server → Server
  broadcast_in zero s = s
  broadcast_in (suc n) s = let t = broadcast_in n s in broadcast_to (t.buckets n) t

  -- The first loop of Drain, over all buckets.
  unfoldable pub broadcast : Server → Server
  broadcast s = broadcast_in bucket_num s

  broadcast_to-SameIds : (b : Bucket) (s : Server) → SameIds s (broadcast_to b s)
  unfolding broadcast_to
  broadcast_to-SameIds [] s = SameIds-refl s
  broadcast_to-SameIds ((key, i) ∷ b) s =
      let t = reply w i cmd_reconnect_now 0 (bodies i) s in
      SameIds-trans s t (broadcast_to b t) (reply-SameIds w i cmd_reconnect_now 0 (bodies i) s)
        (broadcast_to-SameIds b t)

  broadcast_in-SameIds : (n : ℕ) (s : Server) → SameIds s (broadcast_in n s)
  unfolding broadcast_in
  broadcast_in-SameIds zero s = SameIds-refl s
  broadcast_in-SameIds (suc n) s =
      let t = broadcast_in n s in
      SameIds-trans s t (broadcast_to (t.buckets n) t) (broadcast_in-SameIds n s)
        (broadcast_to-SameIds (t.buckets n) t)

  -- The broadcast leaves the tables and the identities as they are.
  pub broadcast-SameIds : (s : Server) → SameIds s (broadcast s)
  unfolding broadcast
  broadcast-SameIds s = broadcast_in-SameIds bucket_num s

-- The waiting: `counts` are those seen before the deadline, and `remaining` is the last one.
unfoldable pub drain_wait : List ℕ → ℕ → ℕ
drain_wait [] remaining = remaining
drain_wait (n ∷ counts) remaining =
    let rest = drain_wait counts remaining in if n == 0 then 0 else rest
