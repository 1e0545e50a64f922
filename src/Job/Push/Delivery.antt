-- ===== src/Job/Push/Delivery.antt =====
-- To which comet instances the push consumer sends.
use link_im.Prelude.{
  ℕ, zero, suc, Bool, true, List, [], ◌∷◌, Option, none, some, ◌≡◌, inl, inr, ap, Bool-cases,
  Option-cases,
}
use link_im.Prelude.Int.{ℤ, pos, leb_ℤ}
use link_im.Prelude.Bytes.{Bytes}
use link_im.Logic.World.{PbMsg}
use link_im.Comet.Server.{route_key}
use link_im.Job.Receiver.{device_of_field}
use link_im.Job.Push.{
  PushWorld, PushCall, hget_all, exists, hdel, connect, push_frames, Envelope, comet_alive_key,
  attempt, push_to_one, alive, push_route, push_framed, push_routed, push_message, push_envelope,
  handle_push, build_push_frame,
}

module _ (w : PushWorld) where
  -- Redis has answered, somewhere in the history, that the instance is alive.
  pub data Asked (addr : Bytes) : List PushCall → Type 0 where
    here :
        (h : List PushCall)
        → w.on_exists (exists (comet_alive_key addr) ∷ h) ≡ some true
        → Asked addr (exists (comet_alive_key addr) ∷ h)
    before : (c : PushCall) (h : List PushCall) → Asked addr h → Asked addr (c ∷ h)

  -- Every push went to an instance of which Redis had answered before that it is alive.
  abbrev pub OnlyAlive : List PushCall → Type 0
  OnlyAlive [] = Unit
  OnlyAlive (push_frames addr uid device frame ∷ h) = Asked addr h × OnlyAlive h
  OnlyAlive (hget_all key ∷ h) = OnlyAlive h
  OnlyAlive (exists key ∷ h) = OnlyAlive h
  OnlyAlive (hdel key fields ∷ h) = OnlyAlive h
  OnlyAlive (connect addr ∷ h) = OnlyAlive h

  attempt-OnlyAlive :
      (n : ℕ) (addr : Bytes) (uid : ℤ) (device frame : Bytes) (h : List PushCall)
      → Asked addr h
      → OnlyAlive h
      → OnlyAlive (attempt w n (push_frames addr uid device frame) h)
  unfolding attempt
  attempt-OnlyAlive zero addr uid device frame h a o = o
  attempt-OnlyAlive (suc n) addr uid device frame h a o =
      let call = push_frames addr uid device frame in
      elim (Option-cases (w.on_push_frames (call ∷ h))) [
        | inl e ↦
            rw (e, attempt)
              (attempt-OnlyAlive n addr uid device frame (call ∷ h) (before call h a) (a, o))
        | inr (b, e) ↦ rw (e, attempt) (a, o)
      ]

  one-OnlyAlive :
      (addr : Bytes) (uid : ℤ) (device frame : Bytes) (h : List PushCall)
      → Asked addr h
      → OnlyAlive h
      → OnlyAlive (push_to_one w addr uid device frame h)
  unfolding push_to_one
  one-OnlyAlive addr uid device frame h a o = elim (Bool-cases (w.on_connect (connect addr ∷ h))) [
    | inl e ↦
        rw e (
          attempt-OnlyAlive 2 addr uid device frame (connect addr ∷ h) (before (connect addr) h a)
            o)
    | inr e ↦ rw e o
  ]

  alive-some : (o : Option Bool) → alive w o ≡ true → o ≡ some true
  alive-some none e = cc e
  alive-some (some b) e = ap some e

  route-OnlyAlive :
      (recv : ℤ) (frame : Bytes) (route : List (Bytes × Bytes)) (h : List PushCall)
      → OnlyAlive h
      → OnlyAlive (push_route w recv frame route h)
  unfolding push_route
  route-OnlyAlive recv frame [] h o = o
  route-OnlyAlive recv frame ((field, addr) ∷ route) h o =
      let asked = exists (comet_alive_key addr) ∷ h in
      elim (Bool-cases (alive w (w.on_exists asked))) [
        | inl e ↦ rw e (
            route-OnlyAlive recv frame route
              (push_to_one w addr recv (device_of_field field) frame asked)
              (one-OnlyAlive addr recv (device_of_field field) frame asked
                (here h (alive-some (w.on_exists asked) e)) o))
        | inr e ↦ rw e (route-OnlyAlive recv frame route asked o)
      ]

  framed-OnlyAlive :
      (recv : ℤ) (frame : Option Bytes) (route : List (Bytes × Bytes)) (h : List PushCall)
      → OnlyAlive h
      → OnlyAlive (push_framed w recv frame route h)
  framed-OnlyAlive recv none route h o = o
  framed-OnlyAlive recv (some frame) route h o = route-OnlyAlive recv frame route h o

  routed-OnlyAlive :
      (recv : ℤ) (msg : PbMsg) (r : Option (List (Bytes × Bytes))) (h : List PushCall)
      → OnlyAlive h
      → OnlyAlive (push_routed w recv msg r h)
  routed-OnlyAlive recv msg none h o = o
  routed-OnlyAlive recv msg (some []) h o = o
  routed-OnlyAlive recv msg (some (e ∷ route)) h o =
      framed-OnlyAlive recv (build_push_frame w msg) (e ∷ route) h o

  message-OnlyAlive :
      (recv : ℤ) (msg : Option PbMsg) (h : List PushCall)
      → OnlyAlive h
      → OnlyAlive (push_message w recv msg h)
  message-OnlyAlive recv none h o = o
  message-OnlyAlive recv (some msg) h o = elim (Bool-cases (leb_ℤ recv (pos 0))) [
    | inl e ↦ rw e o
    | inr e ↦ rw e (
        routed-OnlyAlive recv msg (w.on_hget_all (hget_all (route_key recv) ∷ h))
          (hget_all (route_key recv) ∷ h) o)
  ]

  envelope-OnlyAlive :
      (e : Option Envelope) (h : List PushCall) → OnlyAlive h → OnlyAlive (push_envelope w e h)
  envelope-OnlyAlive none h o = o
  envelope-OnlyAlive (some env) h o = message-OnlyAlive env.recv_uid env.msg h o

  -- Handling a message of the push topic keeps it true that every frame was pushed only to an
  -- instance of which Redis had answered before that it is alive.
  pub handle_push-OnlyAlive :
      (value : Bytes) (h : List PushCall) → OnlyAlive h → OnlyAlive (handle_push w value h)
  unfolding handle_push
  handle_push-OnlyAlive value h o = envelope-OnlyAlive (w.unmarshal_envelope value) h o
