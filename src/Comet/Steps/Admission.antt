-- ===== src/Comet/Steps/Admission.antt =====
-- The invariant of the buckets through the stages of handleAuth in internal/comet/server.go, in
-- which the new connection stands in its bucket before it is marked as authenticated.
use link_im.Prelude.{
  ℕ, ◌<◌, Bool, true, false, Option, none, some, ◌≡◌, ◌∙◌, refl, sym, ap, subst, inl, inr, ◌==◌,
  ==_refl, ==_false, ==_iff, Bool-cases, if◌then◌else◌,
}
use link_im.Prelude.Int.{ℤ, pos}
use link_im.Prelude.Bytes.{Bytes, codes, bytes_eq, bytes_eq_iff}
use link_im.Protocol.Cmd.{cmd_auth_ack}
use link_im.Comet.Conn.{Conn, device_key, set_identity, mark_authed}
use link_im.Comet.Bucket
use link_im.Comet.Bucket.{bucket_index, put, route_field}
use link_im.Comet.Bucket.Laws.{get-put}
use link_im.Comet.Server.{
  Server, World, AuthReq, VerifyTokenResp, with_conn, with_bucket, bucket, update, record_call,
  register, route_key, presence_key,
}
use link_im.Comet.Auth.{reject, answer, take_over, close_replaced, kick_same_platform}
use link_im.Comet.Auth.Identity.{SameConn-refl, reply-SameIds, kick_same_platform-SameIds}
use link_im.Comet.Steps.{
  Stage, reading, asking, named, swept, placed, late, is_placed, is_racing, System, refuse, judge,
  sweep, place, finish,
}
use link_im.Comet.Steps.Stages.{Named, SameOwner, SameConn-SameOwner, update-IsStaged, Waits}
use link_im.Comet.Steps.Table.{Entry, IsTable}
use link_im.Comet.Steps.Holds.{Holds, Inv, SameIds-Holds, close-Holds, update-Holds, restage-Holds}

-- The connection `i`, which is about to be marked, is put under its key.
put-IsTable :
    (n : ℕ) (stage : ℕ → Stage) (i : ℕ) (s : Server)
    → i < n
    → is_placed (stage i) ≡ true
    → is_racing (stage i) ≡ true
    → IsTable n stage s
    → IsTable n stage (
        with_bucket
          (s.conns i).uid
          (put (device_key (s.conns i).uid (s.conns i).device_id) i (bucket (s.conns i).uid s)).1
          s)
put-IsTable n stage i s lt at racing h b k j e =
    let ix = bucket_index (s.conns i).uid in
    let key = device_key (s.conns i).uid (s.conns i).device_id in
    elim (Bool-cases (b == ix)) [
      | inr other ↦ h b k j (rw other at e)
      | inl yes_ix ↦
          let b_ix = (==_iff b ix).0 yes_ix in
          let looked = sym (get-put key k i (s.buckets ix)) ∙ (rw yes_ix at e) in
          elim (Bool-cases (bytes_eq key k)) [
            | inl same ↦
                let j_i : i ≡ j = cc (rw same at looked) in
                subst (λ x. Entry n stage s.conns b k x) j_i
                  (record {
                    known = lt;
                    authed = inr at;
                    opened = inr racing;
                    key = sym ((bytes_eq_iff key k).0 same);
                    shard = b_ix;
                  })
            | inr other ↦ h b k j (ap (λ x. Bucket.get k (s.buckets x)) b_ix ∙ (rw other at looked))
          ]
    ]

replaced-Holds :
    (w : World) (n : ℕ) (stage : ℕ → Stage) (i : ℕ) (o : Option ℕ) (s : Server)
    → Holds n stage s
    → Holds n stage (close_replaced w i o s)
replaced-Holds w n stage i none s h = h
replaced-Holds w n stage i (some old) s h = elim (Bool-cases (old == i)) [
  | inl e ↦ rw e h
  | inr e ↦ rw e (close-Holds w n stage old s h)
]

take_over-Holds :
    (w : World) (n : ℕ) (stage : ℕ → Stage) (i : ℕ) (uid : ℤ) (d : Bytes) (s : Server)
    → i < n
    → is_placed (stage i) ≡ true
    → is_racing (stage i) ≡ true
    → (s.conns i).uid ≡ uid
    → (s.conns i).device_id ≡ d
    → Holds n stage s
    → Holds n stage (take_over w i uid d s)
unfolding take_over
take_over-Holds w n stage i uid d s lt at racing u v (h, staged) =
    let in_bucket =
      λ (x : ℤ) (y : Bytes). with_bucket x (put (device_key x y) i (bucket x s)).1 s in
    let start =
      subst (λ x. IsTable n stage (in_bucket x (s.conns i).device_id)) u
        (put-IsTable n stage i s lt at racing h) in
    replaced-Holds w n stage i (put (device_key uid d) i (bucket uid s)).0 (in_bucket uid d)
      (subst (λ y. IsTable n stage (in_bucket uid y)) v start, staged)

-- Once it is marked, its stage is `late` if it was closed before.
mark-IsTable :
    (n : ℕ) (stage : ℕ → Stage) (i : ℕ) (s : Server)
    → IsTable n stage s
    → IsTable n
        (update stage i (if (s.conns i).closed then late else reading))
        (with_conn i (mark_authed (s.conns i)) s)
unfolding mark_authed
mark-IsTable n stage i s h b k j e =
    let entry = h b k j e in
    elim (Bool-cases (j == i)) [
      | inl y ↦
          let p = (==_iff j i).0 y in
          record {
            known = entry.known;
            authed = inl (rw y refl);
            opened = elim (Bool-cases (s.conns i).closed) [
              | inl c ↦ inr (rw (y, c) refl)
              | inr c ↦ inl (rw y c)
            ];
            key = rw y (entry.key ∙ ap (λ x. device_key (s.conns x).uid (s.conns x).device_id) p);
            shard = rw y (entry.shard ∙ ap (λ x. bucket_index (s.conns x).uid) p);
          }
      | inr other ↦ record {
        known = entry.known;
        authed = elim entry.authed [ inl a ↦ inl (rw other a) | inr a ↦ inr (rw other a) ];
        opened = elim entry.opened [ inl a ↦ inl (rw other a) | inr a ↦ inr (rw other a) ];
        key = rw other entry.key;
        shard = rw other entry.shard;
      }
    ]

closed_stage-Waits : (b : Bool) (c : Conn) → Waits (if b then late else reading) c
closed_stage-Waits true c = tt
closed_stage-Waits false c = tt

-- The rejection of a connection.
pub reject-Holds :
    (w : World) (n : ℕ) (stage : ℕ → Stage) (i seq code : ℕ) (msg : Bytes) (s : Server)
    → Holds n stage s
    → Holds n stage (reject w i seq code msg s)
reject-Holds w n stage i seq code msg s h =
    let t = answer w i seq code msg (pos 0) s in
    close-Holds w n stage i t (
      SameIds-Holds n stage s t
        (reply-SameIds w i cmd_auth_ack seq
          (w.marshal_auth_ack (record { code = code; msg = msg; uid = pos 0; kick_reason = 0 })) s)
        h)

module _ (w : World) (i seq : ℕ) (req : AuthReq) (s : System) (h : Inv s) where
  module _ (at : s.stage i ≡ asking seq req) where
    fresh : (s.server.conns i).authed ≡ false
    fresh = subst (λ st. Waits st (s.server.conns i)) at (h.1 i)

    refuse-Inv : (code : ℕ) → Inv (refuse w i seq code s)
    refuse-Inv code =
        reject-Holds w s.accepted (update s.stage i reading) i seq code (codes "verify failed")
          s.server
          (restage-Holds s.accepted s.stage i reading s.server fresh (ap is_placed at) tt h)

    pub judge-Inv : (o : Option VerifyTokenResp) → Inv (judge w i seq req o s)
    unfolding judge set_identity
    judge-Inv none = refuse-Inv 40101
    judge-Inv (some r) = elim (Bool-cases r.valid) [
      | inl v ↦ rw v (
          update-Holds s.accepted s.stage i (named seq req r.uid)
            (set_identity r.uid req.device_id req.platform (s.server.conns i)) s.server fresh
            (ap is_placed at) (fresh, refl, refl) h)
      | inr v ↦ rw v (refuse-Inv r.code)
    ]

  module _ (uid : ℤ) where
    pub sweep-Inv : s.stage i ≡ named seq req uid → Inv (sweep w i seq req uid s)
    unfolding sweep
    sweep-Inv at =
        let t = (kick_same_platform w uid req.platform req.device_id s.server).1 in
        let is_named : Named req uid (s.server.conns i) =
          subst (λ st. Waits st (s.server.conns i)) at (h.1 i) in
        SameIds-Holds s.accepted (update s.stage i (swept seq req uid)) s.server t
          (kick_same_platform-SameIds w uid req.device_id req.platform s.server)
          (restage-Holds s.accepted s.stage i (swept seq req uid) s.server is_named.0
            (ap is_placed at) is_named h)

    pub place-Inv : i < s.accepted → s.stage i ≡ swept seq req uid → Inv (place w i seq req uid s)
    unfolding place
    place-Inv lt at =
        let is_named : Named req uid (s.server.conns i) =
          subst (λ st. Waits st (s.server.conns i)) at (h.1 i) in
        let here : update s.stage i (placed seq req uid) i ≡ placed seq req uid =
          ap (λ b. if b then placed seq req uid else s.stage i) (==_refl i) in
        take_over-Holds w s.accepted (update s.stage i (placed seq req uid)) i uid req.device_id
          s.server lt (ap is_placed here) (ap is_racing here) is_named.1 is_named.2
          (restage-Holds s.accepted s.stage i (placed seq req uid) s.server is_named.0
            (ap is_placed at) tt h)

    pub finish-Inv : Inv (finish w i seq req uid s)
    unfolding finish mark_authed
    finish-Inv =
        let next : Stage = if (s.server.conns i).closed then late else reading in
        let called =
          record_call
            (register (route_key uid) (route_field req.platform req.device_id)
              s.server.advertise_addr (presence_key uid))
            s.server in
        let marked = with_conn i (mark_authed (s.server.conns i)) called in
        SameIds-Holds s.accepted (update s.stage i next) marked
          (answer w i seq 0 (codes "ok") uid marked)
          (reply-SameIds w i cmd_auth_ack seq
            (w.marshal_auth_ack (record { code = 0; msg = codes "ok"; uid = uid; kick_reason = 0 }))
            marked)
          (
            mark-IsTable s.accepted s.stage i called h.0,
            update-IsStaged s.stage i next s.server.conns marked.conns
                (λ j ne.
                  subst (λ x. SameOwner x (s.server.conns j))
                    (sym (
                      ap (λ b. if b then mark_authed (s.server.conns i) else s.server.conns j)
                        (==_false ne)))
                    (SameConn-SameOwner (s.server.conns j) (s.server.conns j)
                      (SameConn-refl (s.server.conns j))))
                (closed_stage-Waits (s.server.conns i).closed (marked.conns i)) h.1,
          )
