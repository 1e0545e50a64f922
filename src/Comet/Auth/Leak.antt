-- ===== src/Comet/Auth/Leak.antt =====
-- A connection that is closed while handleAuth of internal/comet/server.go waits for the logic
-- service: the watchdog and the write loop close it from other goroutines, and a connection that is
-- not authenticated yet is not removed from the tables by its close.
use link_im.Prelude.{ℕ, true, none, some, ◌≡◌, ◌∙◌, ap, ◌∷◌}
use link_im.Prelude.Int.{ℤ}
use link_im.Prelude.Bytes.{Bytes, codes}
use link_im.Protocol.Cmd.{cmd_auth_ack}
use link_im.Protocol.Frame.{Frame}
use link_im.Comet.Conn.{Conn, device_key, set_identity, mark_authed}
use link_im.Comet.Bucket.{put}
use link_im.Comet.Server.{
  Server, World, AuthReq, VerifyTokenResp, verify_token, with_bucket, bucket, find, close,
}
use link_im.Comet.Server.Close.{close_closed}
use link_im.Comet.Auth.{handle_auth, admit, take_over, close_replaced}
use link_im.Comet.Auth.Identity.{reply-SameIds}
use link_im.Comet.Auth.Reconnect.{
  kicked, kicked-SameIds, kicked-find, registered, authed, put-old, update_self, asked,
  handle_auth-admit, handle_auth-find,
}

take_over-conns :
    (w : World) (i : ℕ) (uid : ℤ) (d : Bytes) (s : Server)
    → find uid d s ≡ none
    → (take_over w i uid d s).conns ≡ s.conns
unfolding take_over
take_over-conns w i uid d s f =
    let s' = with_bucket uid (put (device_key uid d) i (bucket uid s)).1 s in
    ap (λ o. (close_replaced w i o s').conns) (put-old (device_key uid d) i (bucket uid s) ∙ f)

module _ (w : World) (i seq : ℕ) (req : AuthReq) (uid : ℤ) (s : Server)
    (free : find uid req.device_id s ≡ none) (shut : (s.conns i).closed ≡ true) where
  abbrev identity : Conn
  identity = set_identity uid req.device_id req.platform (s.conns i)

  registered-closed : ((registered w i seq req uid s).conns i).closed ≡ true
  unfolding set_identity
  registered-closed =
      let k = kicked w i seq req uid s in
      ap (λ f. (f i).closed)
        (take_over-conns w i uid req.device_id k (kicked-find w i seq req uid s ∙ free))
      ∙ ((kicked-SameIds w i seq req uid s).conns i).closed
      ∙ ap (λ c. c.closed) (update_self s.conns i identity)
      ∙ shut

  pub admit-closed : ((admit w i seq req uid s).conns i).closed ≡ true
  unfolding admit mark_authed
  admit-closed =
      let r = registered w i seq req uid s in
      let t = authed w i seq req uid s in
      ((reply-SameIds w i cmd_auth_ack seq
          (w.marshal_auth_ack (record { code = 0; msg = codes "ok"; uid = uid; kick_reason = 0 }))
          t).conns
        i).closed
      ∙ ap (λ c. c.closed) (update_self r.conns i (mark_authed (r.conns i)))
      ∙ registered-closed

-- If the connection was closed before its AUTH frame was judged, the frame decodes, the logic
-- service finds the token valid, and nothing stands under (uid, device_id), then the closed
-- connection stands there afterwards, and closing it again changes nothing: the entry stays.
pub handle_auth-leaked :
    (w : World) (i : ℕ) (frame : Frame) (s : Server) (req : AuthReq) (resp : VerifyTokenResp)
    → w.unmarshal_auth_req frame.body ≡ some req
    → w.on_verify_token (verify_token req.uid req.token ∷ s.calls) ≡ some resp
    → resp.valid ≡ true
    → find resp.uid req.device_id s ≡ none
    → (s.conns i).closed ≡ true
    → (find resp.uid req.device_id (handle_auth w i frame s) ≡ some i)
      × (((handle_auth w i frame s).conns i).closed ≡ true)
      × (close w i (handle_auth w i frame s) ≡ handle_auth w i frame s)
handle_auth-leaked w i frame s req resp decoded answered valid free shut =
    let before = asked w i frame s req resp decoded answered valid in
    let shut_after =
      ap (λ t. (t.conns i).closed) (handle_auth-admit w i frame s req resp decoded answered valid)
      ∙ admit-closed w i frame.seq req resp.uid before free shut in
    (
      handle_auth-find w i frame s req resp decoded answered valid free,
      shut_after,
      close_closed w i (handle_auth w i frame s) shut_after,
    )
