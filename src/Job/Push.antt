-- ===== src/Job/Push.antt =====
-- internal/job/push.go: the push consumer, and internal/job/reconcile.go: the cleaning of one
-- user's route. Redis and the comet instances are parameters: every call is recorded, the latest
-- first, and its answer may depend on all calls made before it.
pub mod Delivery
pub mod Stale
use link_im.Prelude.{
  ℕ, zero, suc, Bool, true, false, ◌||◌, not, List, [], ◌∷◌, ◌++◌, Option, none, some, length, ltb,
  ◌==◌, if◌then◌else◌,
}
use link_im.Prelude.Int.{ℤ, pos, leb_ℤ}
use link_im.Prelude.Bytes.{Bytes, codes, bytes_eq}
use link_im.Protocol.Cmd.{cmd_msg_push}
use link_im.Protocol.Frame.{Frame, Result, ok, err, encode, ver}
use link_im.Logic.World.{PbMsg}
use link_im.Comet.Server.{route_key}
use link_im.Job.Receiver.{device_of_field}

-- pb.Envelope; a missing message is `none`.
pub record Envelope : Type 0 where
  pub recv_uid : ℤ
  pub msg : Option PbMsg

pub data PushCall : Type 0 where
  hget_all : Bytes → PushCall
  exists : Bytes → PushCall
  hdel : Bytes → List Bytes → PushCall
  connect : Bytes → PushCall
  push_frames : Bytes → ℤ → Bytes → Bytes → PushCall

-- `on_push_frames` gives `none` for a transport error, and otherwise whether the device is
-- online. A route comes in the order in which the code visits its entries.
pub record PushWorld : Type 0 where
  pub unmarshal_envelope : Bytes → Option Envelope
  pub marshal_msg : PbMsg → Option Bytes
  pub on_hget_all : List PushCall → Option (List (Bytes × Bytes))
  pub on_exists : List PushCall → Option Bool
  pub on_hdel : List PushCall → Bool
  pub on_connect : List PushCall → Bool
  pub on_push_frames : List PushCall → Option Bool

unfoldable pub comet_alive_key : Bytes → Bytes
comet_alive_key addr = codes "comet:alive:" ++ addr

abbrev pub encoded : Option Bytes → Option Bytes
encoded none = none
encoded (some body) =
    elim (encode (record { ver = ver; cmd = cmd_msg_push; seq = 0; body = body })) [
      | ok frame ↦ some frame
      | err e ↦ none
    ]

module _ (w : PushWorld) where
  unfoldable pub build_push_frame : PbMsg → Option Bytes
  build_push_frame msg = encoded (w.marshal_msg msg)

  -- Two attempts at most: the second only after a transport error.
  unfoldable pub attempt : ℕ → PushCall → List PushCall → List PushCall
  attempt zero call h = h
  attempt (suc left) call h =
      let rest = attempt left call (call ∷ h) in
      elim (w.on_push_frames (call ∷ h)) [ none ↦ rest | some online ↦ call ∷ h ]

  unfoldable pub push_to_one : Bytes → ℤ → Bytes → Bytes → List PushCall → List PushCall
  push_to_one addr uid device frame h =
      if w.on_connect (connect addr ∷ h)
      then attempt 2 (push_frames addr uid device frame) (connect addr ∷ h)
      else connect addr ∷ h

  abbrev pub alive : Option Bool → Bool
  alive none = false
  alive (some b) = b

  -- The loop over the route.
  unfoldable pub push_route : ℤ → Bytes → List (Bytes × Bytes) → List PushCall → List PushCall
  push_route recv frame [] h = h
  push_route recv frame ((field, addr) ∷ route) h =
      let asked = exists (comet_alive_key addr) ∷ h in
      let pushed = push_to_one addr recv (device_of_field field) frame asked in
      push_route recv frame route (if alive (w.on_exists asked) then pushed else asked)

  abbrev pub push_framed : ℤ → Option Bytes → List (Bytes × Bytes) → List PushCall → List PushCall
  push_framed recv none route h = h
  push_framed recv (some frame) route h = push_route recv frame route h

  -- An empty route is an offline receiver.
  abbrev pub push_routed : ℤ → PbMsg → Option (List (Bytes × Bytes)) → List PushCall → List PushCall
  push_routed recv msg none h = h
  push_routed recv msg (some []) h = h
  push_routed recv msg (some (e ∷ route)) h = push_framed recv (build_push_frame msg) (e ∷ route) h

  abbrev pub push_message : ℤ → Option PbMsg → List PushCall → List PushCall
  push_message recv none h = h
  push_message recv (some msg) h =
      if leb_ℤ recv (pos 0)
      then h
      else push_routed recv msg (w.on_hget_all (hget_all (route_key recv) ∷ h))
          (hget_all (route_key recv) ∷ h)

  abbrev pub push_envelope : Option Envelope → List PushCall → List PushCall
  push_envelope none h = h
  push_envelope (some env) h = push_message env.recv_uid env.msg h

  -- PushWorker.Handle; it returns nil on every path, so that the offset is committed.
  unfoldable pub handle_push : Bytes → List PushCall → List PushCall
  handle_push value h = push_envelope (w.unmarshal_envelope value) h

  -- The cache `alive` of reconcileHash.
  unfoldable pub cached : Bytes → List (Bytes × Bool) → Option Bool
  cached addr [] = none
  cached addr ((a, b) ∷ cache) = if bytes_eq a addr then some b else cached addr cache

  -- The first loop: one EXISTS for each address; `none` on the first error.
  unfoldable pub check_alive :
      List (Bytes × Bytes)
      → List (Bytes × Bool)
      → List PushCall
      → Option (List (Bytes × Bool)) × List PushCall
  check_alive [] cache h = (some cache, h)
  check_alive ((field, addr) ∷ route) cache h = elim (cached addr cache) [
    | some b ↦ check_alive route cache h
    | none ↦
        let h' = exists (comet_alive_key addr) ∷ h in
        elim (w.on_exists h') [
          | none ↦ (none, h')
          | some b ↦ check_alive route ((addr, b) ∷ cache) h'
        ]
  ]

  -- The second loop: the fields whose address is not alive.
  unfoldable pub stale_fields : List (Bytes × Bool) → List (Bytes × Bytes) → List Bytes
  stale_fields cache [] = []
  stale_fields cache ((field, addr) ∷ route) =
      let rest = stale_fields cache route in
      if alive (cached addr cache) then rest else field ∷ rest

  abbrev pub remove_stale : Bytes → List Bytes → List PushCall → Option ℕ × List PushCall
  remove_stale key [] h = (some 0, h)
  remove_stale key (f ∷ fs) h =
      let h' = hdel key (f ∷ fs) ∷ h in (if w.on_hdel h' then some (length (f ∷ fs)) else none, h')

  abbrev pub reconcile_checked :
      Bytes
      → List (Bytes × Bytes)
      → Option (List (Bytes × Bool)) × List PushCall
      → Option ℕ × List PushCall
  reconcile_checked key route (none, h) = (none, h)
  reconcile_checked key route (some cache, h) = remove_stale key (stale_fields cache route) h

  abbrev pub reconcile_route :
      Bytes → Option (List (Bytes × Bytes)) → List PushCall → Option ℕ × List PushCall
  reconcile_route key none h = (none, h)
  reconcile_route key (some route) h = reconcile_checked key route (check_alive route [] h)

  -- The number of removed entries.
  unfoldable pub reconcile_hash : Bytes → List PushCall → Option ℕ × List PushCall
  reconcile_hash key h = reconcile_route key (w.on_hget_all (hget_all key ∷ h)) (hget_all key ∷ h)
