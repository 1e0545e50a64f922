-- ===== src/Comet/Steps/Holds.antt =====
-- What holds of an instance between two steps, and the changes that keep it.
use link_im.Prelude.{
  ℕ, false, some, ◌≡◌, ◌≢◌, refl, sym, ap, subst, inl, inr, ==_refl, ==_false, if◌then◌else◌,
}
use link_im.Prelude.Bytes.{Bytes}
use link_im.Comet.Conn.{Conn}
use link_im.Comet.Bucket
use link_im.Comet.Bucket.{bucket_index, put, route_field}
use link_im.Comet.Server.{Server, World, with_conn, update, close}
use link_im.Comet.Auth.Identity.{SameConn-refl, SameIds}
use link_im.Comet.Steps.{Stage, is_placed, System}
use link_im.Comet.Steps.Stages.{
  IsStaged, SameOwner, SameConn-SameOwner, SameIds-IsStaged, close-IsStaged, update-IsStaged, Waits,
}
use link_im.Comet.Steps.Table.{IsTable, SameIds-IsTable, update-IsTable, close-IsTable}

-- What holds between two steps.
abbrev pub Holds : ℕ → (ℕ → Stage) → Server → Type 0
Holds n stage s = IsTable n stage s × IsStaged stage s.conns

abbrev pub Inv : System → Type 0
Inv s = Holds s.accepted s.stage s.server

pub SameIds-Holds :
    (n : ℕ) (stage : ℕ → Stage) (s t : Server) → SameIds s t → Holds n stage s → Holds n stage t
SameIds-Holds n stage s t p (h, staged) =
    (SameIds-IsTable n stage s t p h, SameIds-IsStaged stage s t p staged)

pub close-Holds :
    (w : World) (n : ℕ) (stage : ℕ → Stage) (i : ℕ) (s : Server)
    → Holds n stage s
    → Holds n stage (close w i s)
close-Holds w n stage i s (h, staged) =
    (close-IsTable w n stage i s h, close-IsStaged w stage i s staged)

-- A connection that is not authenticated and not just placed stands nowhere.
pub nowhere :
    (n : ℕ) (stage : ℕ → Stage) (i : ℕ) (s : Server)
    → IsTable n stage s
    → (s.conns i).authed ≡ false
    → is_placed (stage i) ≡ false
    → (b : ℕ) (k : Bytes) → Bucket.get k (s.buckets b) ≢ some i
nowhere n stage i s h a f b k e = elim (h b k i e).authed [ inl y ↦ cc (a, y) | inr p ↦ cc (f, p) ]

-- Such a connection may go on to another stage and get another identity.
pub update-Holds :
    (n : ℕ) (stage : ℕ → Stage) (i : ℕ) (st : Stage) (c : Conn) (s : Server)
    → (s.conns i).authed ≡ false
    → is_placed (stage i) ≡ false
    → Waits st c
    → Holds n stage s
    → Holds n (update stage i st) (with_conn i c s)
update-Holds n stage i st c s a f v (h, staged) =
    let others : (j : ℕ) → j ≢ i → (with_conn i c s).conns j ≡ s.conns j =
      λ j ne. ap (λ b. if b then c else s.conns j) (==_false ne) in
    (
      update-IsTable n stage s (with_conn i c s) i st refl others (nowhere n stage i s h a f) h,
      update-IsStaged stage i st s.conns (with_conn i c s).conns
          (λ j ne.
            subst (λ x. SameOwner x (s.conns j)) (sym (others j ne))
              (SameConn-SameOwner (s.conns j) (s.conns j) (SameConn-refl (s.conns j))))
          (subst (Waits st) (sym (ap (λ b. if b then c else s.conns i) (==_refl i))) v) staged,
    )

-- The same without another identity.
pub restage-Holds :
    (n : ℕ) (stage : ℕ → Stage) (i : ℕ) (st : Stage) (s : Server)
    → (s.conns i).authed ≡ false
    → is_placed (stage i) ≡ false
    → Waits st (s.conns i)
    → Holds n stage s
    → Holds n (update stage i st) s
restage-Holds n stage i st s a f v (h, staged) = (
  update-IsTable n stage s s i st refl (λ j ne. refl) (nowhere n stage i s h a f) h,
  update-IsStaged stage i st s.conns s.conns
      (λ j ne. SameConn-SameOwner (s.conns j) (s.conns j) (SameConn-refl (s.conns j))) v staged,
)
