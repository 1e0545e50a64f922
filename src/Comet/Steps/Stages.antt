-- ===== src/Comet/Steps/Stages.antt =====
-- The stages of handleAuth in internal/comet/server.go: one after the other they are the handler,
-- and what a connection is known to be at each of them.
use link_im.Prelude.{
  ℕ, true, false, ◌≡◌, ◌≢◌, ◌∙◌, refl, sym, ap, subst, inl, inr, ◌==◌, ==_refl, ==_iff, Bool-cases,
  if◌then◌else◌,
}
use link_im.Prelude.Int.{ℤ}
use link_im.Comet.Conn.{Conn}
use link_im.Comet.Server.{Server, World, AuthReq, update, close, remove_conn}
use link_im.Comet.Server.Close.{close_closed, close_open, close-conns}
use link_im.Comet.Auth.{admit, take_over, kick_same_platform}
use link_im.Comet.Auth.Identity.{SameConn, SameIds}
use link_im.Comet.Steps.{Stage, reading, asking, named, swept, placed, late, identify, enroll}

-- Without a step in between, the stages after a valid answer are the handler's.
pub admit-stages :
    (w : World) (i seq : ℕ) (req : AuthReq) (uid : ℤ) (s : Server)
    → admit w i seq req uid s
      ≡ enroll w i seq req uid (
          take_over w i uid req.device_id
            (kick_same_platform w uid req.platform req.device_id (identify w i req uid s)).1)
unfolding admit
admit-stages w i seq req uid s = refl

abbrev pub Named : AuthReq → ℤ → Conn → Type 0
Named req uid c = (c.authed ≡ false) × (c.uid ≡ uid) × (c.device_id ≡ req.device_id)

abbrev pub Waits : Stage → Conn → Type 0
Waits reading c = Unit
Waits (asking seq req) c = c.authed ≡ false
Waits (named seq req uid) c = Named req uid c
Waits (swept seq req uid) c = Named req uid c
Waits (placed seq req uid) c = Unit
Waits late c = Unit

abbrev pub IsStaged : (ℕ → Stage) → (ℕ → Conn) → Type 0
IsStaged stage conns = (j : ℕ) → Waits (stage j) (conns j)

pub record SameOwner (c d : Conn) : Type 0 where
  pub authed : c.authed ≡ d.authed
  pub uid : c.uid ≡ d.uid
  pub device_id : c.device_id ≡ d.device_id

pub SameOwner-Waits : (st : Stage) (c d : Conn) → SameOwner c d → Waits st d → Waits st c
SameOwner-Waits reading c d p h = tt
SameOwner-Waits (asking seq req) c d p h = p.authed ∙ h
SameOwner-Waits (named seq req uid) c d p (a, u, v) = (p.authed ∙ a, p.uid ∙ u, p.device_id ∙ v)
SameOwner-Waits (swept seq req uid) c d p (a, u, v) = (p.authed ∙ a, p.uid ∙ u, p.device_id ∙ v)
SameOwner-Waits (placed seq req uid) c d p h = tt
SameOwner-Waits late c d p h = tt

pub SameConn-SameOwner : (c d : Conn) → SameConn c d → SameOwner c d
SameConn-SameOwner c d p = record { authed = p.authed; uid = p.uid; device_id = p.device_id }

pub SameIds-IsStaged :
    (stage : ℕ → Stage) (s t : Server)
    → SameIds s t
    → IsStaged stage s.conns
    → IsStaged stage t.conns
SameIds-IsStaged stage s t p h j =
    SameOwner-Waits (stage j) (t.conns j) (s.conns j)
      (SameConn-SameOwner (t.conns j) (s.conns j) (p.conns j)) (h j)

-- A close changes nothing of a connection but that it is closed.
pub close-SameOwner :
    (w : World) (i j : ℕ) (s : Server) → SameOwner ((close w i s).conns j) (s.conns j)
close-SameOwner w i j s = elim (Bool-cases (j == i)) [
  | inr e ↦
      let q = close-conns w i j s (λ p. cc (e, p, ==_refl i)) in
      record {
        authed = ap (λ c. c.authed) q;
        uid = ap (λ c. c.uid) q;
        device_id = ap (λ c. c.device_id) q;
      }
  | inl e ↦ subst (λ k. SameOwner ((close w i s).conns k) (s.conns k)) (sym ((==_iff j i).0 e)) self
]
  where
    closing_self :
        (s.conns i).closed ≡ false → (close w i s).conns i ≡ record (s.conns i) { closed = true }
    closing_self c =
        ap (λ t. t.conns i) (close_open w i s c)
        ∙ ap
            (λ b.
              if b
              then record (s.conns i) { closed = true }
              else (if (s.conns i).authed then remove_conn w (s.conns i) s else s).conns i)
            (==_refl i)

    self : SameOwner ((close w i s).conns i) (s.conns i)
    self = elim (Bool-cases (s.conns i).closed) [
      | inl c ↦
          let q = ap (λ t. t.conns i) (close_closed w i s c) in
          record {
            authed = ap (λ c. c.authed) q;
            uid = ap (λ c. c.uid) q;
            device_id = ap (λ c. c.device_id) q;
          }
      | inr c ↦
          let q = closing_self c in
          record {
            authed = ap (λ c. c.authed) q;
            uid = ap (λ c. c.uid) q;
            device_id = ap (λ c. c.device_id) q;
          }
    ]

pub close-IsStaged :
    (w : World) (stage : ℕ → Stage) (i : ℕ) (s : Server)
    → IsStaged stage s.conns
    → IsStaged stage (close w i s).conns
close-IsStaged w stage i s h j =
    SameOwner-Waits (stage j) ((close w i s).conns j) (s.conns j) (close-SameOwner w i j s) (h j)

-- One connection goes on to another stage.
pub update-IsStaged :
    (stage : ℕ → Stage) (i : ℕ) (st : Stage) (old new : ℕ → Conn)
    → ((j : ℕ) → j ≢ i → SameOwner (new j) (old j))
    → Waits st (new i)
    → IsStaged stage old
    → IsStaged (update stage i st) new
update-IsStaged stage i st old new others v h j = elim (Bool-cases (j == i)) [
  | inl e ↦ rw e (subst (λ k. Waits st (new k)) (sym ((==_iff j i).0 e)) v)
  | inr e ↦
      let ne : j ≢ i = λ p. cc (e, p, ==_refl i) in
      rw e (SameOwner-Waits (stage j) (new j) (old j) (others j ne) (h j))
]
