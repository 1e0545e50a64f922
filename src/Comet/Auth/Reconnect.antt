-- ===== src/Comet/Auth/Reconnect.antt =====
-- Where a connection stands once it is authenticated.
use link_im.Prelude.{
  ℕ, true, false, ◌∷◌, none, some, ◌≡◌, ◌≢◌, ◌∙◌, refl, ap, subst, ==_refl, ==_false, if◌then◌else◌,
}
use link_im.Prelude.Int.{ℤ}
use link_im.Prelude.Bytes.{Bytes, codes, bytes_eq_refl}
use link_im.Protocol.Frame.{Frame}
use link_im.Comet.Conn.{device_key, set_identity, mark_authed}
use link_im.Comet.Bucket
use link_im.Comet.Bucket.{Bucket, bucket_index, put, route_field}
use link_im.Comet.Bucket.Laws.{get-put}
use link_im.Comet.Server.{
  register, route_key, presence_key, Server, World, AuthReq, VerifyTokenResp, verify_token, update,
  with_conn, with_bucket, record_call, bucket, find, close,
}
use link_im.Comet.Server.Close.{find-close}
use link_im.Comet.Auth.{
  handle_auth, admit, authenticate, judged, reject, take_over, close_replaced, kick_same_platform,
  answer,
}
use link_im.Protocol.Cmd.{cmd_auth_ack}
use link_im.Comet.Auth.Identity.{SameConn, SameIds, reply-SameIds, kick_same_platform-SameIds}

find_by_buckets :
    (uid : ℤ) (d : Bytes) (s t : Server) → t.buckets ≡ s.buckets → find uid d t ≡ find uid d s
find_by_buckets uid d s t e = ap (λ b. Bucket.get (device_key uid d) (b (bucket_index uid))) e

-- After the table lookup and the kicks.
module _ (w : World) (i seq : ℕ) (req : AuthReq) (uid : ℤ) (s : Server) where
  abbrev pub kicked : Server
  kicked =
      (kick_same_platform w uid req.platform req.device_id
        (with_conn i (set_identity uid req.device_id req.platform (s.conns i)) s)).1

  pub kicked-SameIds :
      SameIds (with_conn i (set_identity uid req.device_id req.platform (s.conns i)) s) kicked
  kicked-SameIds = kick_same_platform-SameIds w uid req.device_id req.platform _

  abbrev pub registered : Server
  registered =
      let placed = take_over w i uid req.device_id kicked in
      record_call
        (register (route_key uid) (route_field req.platform req.device_id) placed.advertise_addr
          (presence_key uid))
        placed

  abbrev pub authed : Server
  authed = with_conn i (mark_authed (registered.conns i)) registered

  pub admit-find :
      find uid req.device_id (admit w i seq req uid s)
      ≡ find uid req.device_id (take_over w i uid req.device_id kicked)
  unfolding admit
  admit-find =
      find_by_buckets uid req.device_id authed (answer w i seq 0 (codes "ok") uid authed)
        (reply-SameIds w i cmd_auth_ack seq
          (w.marshal_auth_ack (record { code = 0; msg = codes "ok"; uid = uid; kick_reason = 0 }))
          authed).buckets

  -- Another connection is after the kicks what it was before.
  kicked-SameConn : (old : ℕ) → old ≢ i → SameConn (kicked.conns old) (s.conns old)
  kicked-SameConn old ne =
      subst (SameConn (kicked.conns old))
        (ap
          (λ b. if b then set_identity uid req.device_id req.platform (s.conns i) else s.conns old)
          (==_false ne))
        (kicked-SameIds.conns old)

  pub kicked-find : find uid req.device_id kicked ≡ find uid req.device_id s
  kicked-find = find_by_buckets uid req.device_id s kicked kicked-SameIds.buckets

pub put-old : (key : Bytes) (c : ℕ) (b : Bucket) → (put key c b).0 ≡ Bucket.get key b
unfolding put
put-old key c b = refl

pub update_self : {A : Type 0} (f : ℕ → A) (i : ℕ) (a : A) → update f i a i ≡ a
update_self f i a = rw (==_refl i)

-- The old connection's close finds the new one under the key.
take_over-replaced :
    (w : World) (i old : ℕ) (uid : ℤ) (d : Bytes) (s : Server)
    → old ≢ i
    → find uid d s ≡ some old
    → (s.conns old).authed ≡ true
    → (s.conns old).closed ≡ false
    → (s.conns old).uid ≡ uid
    → (s.conns old).device_id ≡ d
    → find uid d (take_over w i uid d s) ≡ none
unfolding take_over
take_over-replaced w i old uid d s ne f a c u v =
    let s' = with_bucket uid (put (device_key uid d) i (bucket uid s)).1 s in
    ap (λ o. find uid d (close_replaced w i o s')) (put-old (device_key uid d) i (bucket uid s) ∙ f)
    ∙ ap (λ b. find uid d (if b then s' else close w old s')) (==_false ne)
    ∙ subst (λ x. find x d (close w old s') ≡ none) u
        (subst (λ y. find (s.conns old).uid y (close w old s') ≡ none) v (find-close w old s' a c))

-- Without an older connection under the key, the new one stands there.
pub take_over-fresh :
    (w : World) (i : ℕ) (uid : ℤ) (d : Bytes) (s : Server)
    → find uid d s ≡ none
    → find uid d (take_over w i uid d s) ≡ some i
unfolding take_over
take_over-fresh w i uid d s f =
    let key = device_key uid d in
    let s' = with_bucket uid (put key i (bucket uid s)).1 s in
    ap (λ o. find uid d (close_replaced w i o s')) (put-old key i (bucket uid s) ∙ f)
    ∙ ap
        (λ b.
          Bucket.get key (if b then (put key i (bucket uid s)).1 else s.buckets (bucket_index uid)))
        (==_refl (bucket_index uid))
    ∙ get-put key key i (bucket uid s)
    ∙ ap (λ b. if b then some i else Bucket.get key (bucket uid s)) (bytes_eq_refl key)

module _ (w : World) (i : ℕ) (frame : Frame) (s : Server) (req : AuthReq) (resp : VerifyTokenResp)
    (decoded : w.unmarshal_auth_req frame.body ≡ some req)
    (answered : w.on_verify_token (verify_token req.uid req.token ∷ s.calls) ≡ some resp)
    (valid : resp.valid ≡ true) where
  abbrev pub asked : Server
  asked = record_call (verify_token req.uid req.token) s

  pub handle_auth-admit : handle_auth w i frame s ≡ admit w i frame.seq req resp.uid asked
  unfolding handle_auth
  handle_auth-admit =
      ap (λ o. authenticate w i frame.seq o s) decoded
      ∙ ap (λ o. judged w i frame.seq req o asked) answered
      ∙ ap
          (λ b.
            if b
            then admit w i frame.seq req resp.uid asked
            else reject w i frame.seq resp.code (codes "verify failed") asked)
          valid

  -- If the AUTH frame decodes, the logic service finds the token valid, and nothing stands under
  -- (uid, device_id), then the new connection stands there afterwards, whatever the kicks of the
  -- other devices did.
  pub handle_auth-find :
      find resp.uid req.device_id s ≡ none
      → find resp.uid req.device_id (handle_auth w i frame s) ≡ some i
  handle_auth-find f =
      ap (find resp.uid req.device_id) handle_auth-admit
      ∙ admit-find w i frame.seq req resp.uid asked
      ∙ take_over-fresh w i resp.uid req.device_id (kicked w i frame.seq req resp.uid asked)
          (kicked-find w i frame.seq req resp.uid asked ∙ f)

  -- If the AUTH frame decodes, the logic service finds the token valid, and another connection,
  -- authenticated and open, of the same user and device stands under (uid, device_id), then
  -- nothing stands there afterwards.
  pub handle_auth-lost :
      (old : ℕ)
      → old ≢ i
      → find resp.uid req.device_id s ≡ some old
      → (s.conns old).authed ≡ true
      → (s.conns old).closed ≡ false
      → (s.conns old).uid ≡ resp.uid
      → (s.conns old).device_id ≡ req.device_id
      → find resp.uid req.device_id (handle_auth w i frame s) ≡ none
  handle_auth-lost old ne f a c u v =
      let same = kicked-SameConn w i frame.seq req resp.uid asked old ne in
      ap (find resp.uid req.device_id) handle_auth-admit
      ∙ admit-find w i frame.seq req resp.uid asked
      ∙ take_over-replaced w i old resp.uid req.device_id (kicked w i frame.seq req resp.uid asked)
          ne (kicked-find w i frame.seq req resp.uid asked ∙ f) (same.authed ∙ a) (same.closed ∙ c)
          (same.uid ∙ u) (same.device_id ∙ v)
