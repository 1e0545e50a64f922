-- ===== src/Comet/Steps/Invariant.antt =====
-- Every step of an instance keeps its invariant.
use link_im.Prelude.{
  ℕ, true, false, some, ◌≡◌, ◌≢◌, refl, sym, subst, ap, inl, inr, arith, ==_false, Bool-cases,
  if◌then◌else◌,
}
use link_im.Prelude.Bytes.{Bytes}
use link_im.Protocol.Frame.{Frame}
use link_im.Comet.Conn.{Conn, push, new_conn}
use link_im.Comet.Bucket
use link_im.Comet.Server.{
  Server, World, AuthReq, update, with_conn, find, push_to, push_found, push_frames, kick,
  kick_found,
}
use link_im.Comet.Auth.Identity.{SameConn-refl, push-SameConn, with_conn-SameIds}
use link_im.Comet.Drain.{broadcast, broadcast-SameIds}
use link_im.Comet.Steps.{
  System, Stage, reading, asking, named, swept, placed, late, is_placed, is_free, initial, accept,
  written, awaits, ask, Step, Reachable, accepts, frame, asks, answers, sweeps, places, finishes,
  breaks, writes, ticks, watches, scans, queues, fires, pushes, kicks, drains, starts, steps,
}
use link_im.Comet.Steps.Stages.{SameOwner, SameConn-SameOwner, update-IsStaged}
use link_im.Comet.Steps.Table.{update-IsTable}
use link_im.Comet.Steps.Holds.{Inv, SameIds-Holds, close-Holds, restage-Holds}
use link_im.Comet.Steps.Admission.{judge-Inv, sweep-Inv, place-Inv, finish-Inv}
use link_im.Comet.Steps.Handlers.{
  on_frame-Holds, slow_tick-Holds, watchdog-Holds, idle_tick-Holds, fires-Holds, written-SameConn,
  found-SameIds, kicked-SameIds, touched, touched-SameIds,
}

abbrev accepted_one : ℕ → System → Server
accepted_one now s = with_conn s.accepted (new_conn now) s.server

-- The connection that is accepted stood nowhere before.
accept-Inv : (now : ℕ) (s : System) → Inv s → Inv (accept now s)
unfolding accept
accept-Inv now s (h, staged) =
    let n = s.accepted in
    let others : (j : ℕ) → j ≢ n → (accepted_one now s).conns j ≡ s.server.conns j =
      λ j ne. ap (λ x. if x then new_conn now else s.server.conns j) (==_false ne) in
    (
      λ b k j e.
          let entry =
            update-IsTable n s.stage s.server (accepted_one now s) n reading refl others
              (λ c l q. omega (arith, (h c l n q).known)) h b k j e in
          record {
            known = omega (arith, entry.known);
            authed = entry.authed;
            opened = entry.opened;
            key = entry.key;
            shard = entry.shard;
          },
      update-IsStaged s.stage n reading s.server.conns (accepted_one now s).conns
          (λ j ne.
            subst (λ x. SameOwner x (s.server.conns j)) (sym (others j ne))
              (SameConn-SameOwner (s.server.conns j) (s.server.conns j)
                (SameConn-refl (s.server.conns j))))
          tt staged,
    )

is_free-is_placed : (st : Stage) → is_free st ≡ true → is_placed st ≡ false
is_free-is_placed reading e = refl
is_free-is_placed late e = refl
is_free-is_placed (asking seq req) e = refl
is_free-is_placed (named seq req uid) e = refl
is_free-is_placed (swept seq req uid) e = refl
is_free-is_placed (placed seq req uid) e = absurd (cc e)

ask-Inv :
    (w : World) (now i seq : ℕ) (f : Frame) (req : AuthReq) (s : System)
    → is_free (s.stage i) ≡ true
    → awaits w (s.server.conns i) f ≡ some req
    → Inv s
    → Inv (ask w now i seq req s)
unfolding ask
ask-Inv w now i seq f req s at e h =
    let fresh : (s.server.conns i).authed ≡ false = elim (Bool-cases (s.server.conns i).authed) [
      | inl a ↦ absurd (cc (rw a at e))
      | inr a ↦ a
    ] in
    SameIds-Holds s.accepted (update s.stage i (asking seq req)) s.server (touched now i s.server)
      (touched-SameIds now i s.server)
      (restage-Holds s.accepted s.stage i (asking seq req) s.server fresh
        (is_free-is_placed (s.stage i) at) fresh h)

-- Every step keeps the invariant.
pub Step-Inv : (w : World) (s t : System) → Step w s t → Inv s → Inv t
unfolding push_frames kick
Step-Inv w s _ (accepts now) h = accept-Inv now s h
Step-Inv w s _ (frame now i f lt at e) h = on_frame-Holds w s.accepted s.stage now i f s.server e h
Step-Inv w s _ (asks now i f req lt at e) h = ask-Inv w now i f.seq f req s at e h
Step-Inv w s _ (answers i seq req o lt at) h = judge-Inv w i seq req s h at o
Step-Inv w s _ (sweeps i seq req uid lt at) h = sweep-Inv w i seq req s h uid at
Step-Inv w s _ (places i seq req uid lt at) h = place-Inv w i seq req s h uid lt at
Step-Inv w s _ (finishes i seq req uid lt at) h = finish-Inv w i seq req s h uid
Step-Inv w s _ (breaks i lt) h = close-Holds w s.accepted s.stage i s.server h
Step-Inv w s _ (writes i) h =
    let c = s.server.conns i in
    SameIds-Holds s.accepted s.stage s.server (with_conn i (written c) s.server)
      (with_conn-SameIds i (written c) s.server (written-SameConn c)) h
Step-Inv w s _ (ticks now i) h = slow_tick-Holds w s.accepted s.stage s.server h now i
Step-Inv w s _ (watches i) h = watchdog-Holds w s.accepted s.stage s.server h i
Step-Inv w s _ (scans now i) h = idle_tick-Holds w s.accepted s.stage s.server h now i
Step-Inv w s _ (queues i f) h =
    SameIds-Holds s.accepted s.stage s.server (push_to w i f s.server)
      (with_conn-SameIds i (push f (s.server.conns i)).1 s.server
        (push-SameConn f (s.server.conns i)))
      h
Step-Inv w s _ fires h = fires-Holds w s.accepted s.stage s.server h
Step-Inv w s _ (pushes uid d fs) h =
    let o = find uid d s.server in
    SameIds-Holds s.accepted s.stage s.server (push_found fs o s.server).1
      (found-SameIds fs o s.server) h
Step-Inv w s _ (drains bodies) h =
    SameIds-Holds s.accepted s.stage s.server (broadcast w bodies s.server)
      (broadcast-SameIds w bodies s.server) h
Step-Inv w s _ (kicks uid d reason) h =
    let o = find uid d s.server in
    SameIds-Holds s.accepted s.stage s.server (kick_found w reason o s.server)
      (kicked-SameIds w reason o s.server) h

initial-Inv : (addr : Bytes) (conns : ℕ → Conn) → Inv (initial addr conns)
unfolding initial Bucket.get
initial-Inv addr conns = (λ b k j e. absurd (cc e), λ j. tt)

pub Reachable-Inv :
    (w : World) (addr : Bytes) (conns : ℕ → Conn) (s : System)
    → Reachable w (initial addr conns) s
    → Inv s
Reachable-Inv w addr conns _ starts = initial-Inv addr conns
Reachable-Inv w addr conns t (steps s _ r x) = Step-Inv w s t x (Reachable-Inv w addr conns s r)
