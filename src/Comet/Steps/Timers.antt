-- ===== src/Comet/Steps/Timers.antt =====
-- The delayed closes of KickConn in internal/comet/server.go: what has become of a kicked
-- connection when the timers have run.
use link_im.Prelude.{
  ℕ, zero, suc, ◌+◌, true, List, [], ◌∷◌, ◌++◌, Option, none, some, ◌≡◌, ◌∙◌, refl, sym, ap, inl,
  inr, ◌==◌, ==_refl, ==_iff, Bool-cases, if◌then◌else◌, length, length-append, All,
}
use link_im.Prelude.Int.{ℤ}
use link_im.Prelude.Bytes.{Bytes}
use link_im.Protocol.Frame.{Result, ok, err}
use link_im.Comet.Conn.{Conn}
use link_im.Comet.Server.{
  Server, World, drop_presence, remove_conn, close, reply, run_pending, find, kick_conn, kick_found,
  kick, push_encoded,
}
use link_im.Comet.Server.Close.{removed, close_closed, close_open, close-conns}

drop_presence-pending :
    (uid : ℤ) (o : Option ℕ) (s : Server) → (drop_presence uid o s).pending ≡ s.pending
drop_presence-pending uid none s = refl
drop_presence-pending uid (some m) s = elim (Bool-cases (m == 0)) [ inl e ↦ rw e | inr e ↦ rw e ]

remove_conn-pending : (w : World) (c : Conn) (s : Server) → (remove_conn w c s).pending ≡ s.pending
unfolding remove_conn
remove_conn-pending w c s =
    drop_presence-pending c.uid (w.on_hlen (removed c s).calls) (removed c s)

close-pending : (w : World) (i : ℕ) (s : Server) → (close w i s).pending ≡ s.pending
close-pending w i s = elim (Bool-cases (s.conns i).closed) [
  | inl c ↦ ap (λ t. t.pending) (close_closed w i s c)
  | inr c ↦ ap (λ t. t.pending) (close_open w i s c) ∙ elim (Bool-cases (s.conns i).authed) [
    | inl a ↦
        ap (λ b. (if b then remove_conn w (s.conns i) s else s).pending) a
        ∙ remove_conn-pending w (s.conns i) s
    | inr a ↦ ap (λ b. (if b then remove_conn w (s.conns i) s else s).pending) a
  ]
]

close-closed : (w : World) (i : ℕ) (s : Server) → ((close w i s).conns i).closed ≡ true
close-closed w i s = elim (Bool-cases (s.conns i).closed) [
  | inl c ↦ ap (λ t. (t.conns i).closed) (close_closed w i s c) ∙ c
  | inr c ↦
      ap (λ t. (t.conns i).closed) (close_open w i s c)
      ∙ ap
          (λ b.
            (if b
              then record (s.conns i) { closed = true }
              else (if (s.conns i).authed then remove_conn w (s.conns i) s else s).conns i).closed)
          (==_refl i)
]

close_keeps_closed :
    (w : World) (i j : ℕ) (s : Server)
    → (s.conns j).closed ≡ true
    → ((close w i s).conns j).closed ≡ true
close_keeps_closed w i j s c = elim (Bool-cases (j == i)) [
  | inl e ↦
      let p = (==_iff j i).0 e in ap (λ x. ((close w i s).conns x).closed) p ∙ close-closed w i s
  | inr e ↦ ap (λ x. x.closed) (close-conns w i j s (λ p. cc (e, p, ==_refl i))) ∙ c
]

-- The timers run one after the other.
abbrev pub run_timers : World → ℕ → Server → Server
run_timers w zero s = s
run_timers w (suc n) s = run_timers w n (run_pending w s)

run_pending-next :
    (w : World) (i : ℕ) (rest : List ℕ) (s : Server)
    → s.pending ≡ i ∷ rest
    → run_pending w s ≡ close w i (record s { pending = rest })
unfolding run_pending
run_pending-next w i rest s e =
    ap (λ p. elim p as (λ x. Server) [ [] ↦ s | j ∷ js ↦ close w j (record s { pending = js }) ]) e

run_pending-closed :
    (w : World) (j : ℕ) (s : Server)
    → (s.conns j).closed ≡ true
    → ((run_pending w s).conns j).closed ≡ true
unfolding run_pending
run_pending-closed w j s c = popped-closed s.pending
  where
    popped-closed :
        (p : List ℕ)
        → ((elim p as (λ x. Server) [
          | [] ↦ s
          | i ∷ is ↦ close w i (record s { pending = is })
        ]).conns
            j).closed
          ≡ true
    popped-closed [] = c
    popped-closed (i ∷ is) = close_keeps_closed w i j (record s { pending = is }) c

run_timers-closed :
    (w : World) (n j : ℕ) (s : Server)
    → (s.conns j).closed ≡ true
    → ((run_timers w n s).conns j).closed ≡ true
run_timers-closed w zero j s c = c
run_timers-closed w (suc n) j s c =
    run_timers-closed w n j (run_pending w s) (run_pending-closed w j s c)

run_timers-All :
    (w : World) (p : List ℕ) (s : Server)
    → s.pending ≡ p
    → ((run_timers w (length p) s).pending ≡ [])
      × All (λ j. ((run_timers w (length p) s).conns j).closed ≡ true) p
run_timers-All w [] s e = (e, tt)
run_timers-All w (i ∷ rest) s e =
    let t = record s { pending = rest } in
    let next = run_pending-next w i rest s e in
    let (done, all) =
      run_timers-All w rest (run_pending w s) (ap (λ x. x.pending) next ∙ close-pending w i t) in
    (
      done,
      (
        run_timers-closed w (length rest) i (run_pending w s)
            (ap (λ x. (x.conns i).closed) next ∙ close-closed w i t),
        all,
      ),
    )

-- When as many timers have run as are pending, none is pending, and every connection whose timer was
-- pending is closed.
pub run_timers_lem :
    (w : World) (s : Server)
    → ((run_timers w (length s.pending) s).pending ≡ [])
      × All (λ j. ((run_timers w (length s.pending) s).conns j).closed ≡ true) s.pending
run_timers_lem w s = run_timers-All w s.pending s refl

encoded-pending :
    (w : World) (i : ℕ) (r : Result Bytes) (s : Server) → (push_encoded w i r s).pending ≡ s.pending
encoded-pending w i (err e) s = refl
encoded-pending w i (ok f) s = refl

kick_conn-pending :
    (w : World) (i : ℕ) (reason : Bytes) (s : Server)
    → (kick_conn w i reason s).pending ≡ s.pending ++ i ∷ []
unfolding kick_conn reply
kick_conn-pending w i reason s = ap (λ p. p ++ i ∷ []) (encoded-pending w i _ s)

All-last : {A : Type 0} (P : A → Type 0) (xs : List A) (x : A) → All P (xs ++ x ∷ []) → P x
All-last P [] x (p, q) = p
All-last P (y ∷ xs) x (p, q) = All-last P xs x q

kick_conn-run_timers :
    (w : World) (i : ℕ) (reason : Bytes) (s : Server)
    → ((run_timers w (length s.pending + 1) (kick_conn w i reason s)).conns i).closed ≡ true
kick_conn-run_timers w i reason s =
    let t = kick_conn w i reason s in
    let n : length (s.pending ++ i ∷ []) ≡ length s.pending + 1 =
      length-append s.pending (i ∷ []) in
    let all = (run_timers-All w (s.pending ++ i ∷ []) t (kick_conn-pending w i reason s)).1 in
    ap (λ m. ((run_timers w m t).conns i).closed) (sym n)
    ∙ All-last (λ j. ((run_timers w (length (s.pending ++ i ∷ [])) t).conns j).closed ≡ true)
        s.pending i all

-- A connection that a Kick finds is closed once the timers that were pending and its own have
-- run, whatever the queue of the connection held and whether the frame of the kick got into it.
pub kick-run_timers :
    (w : World) (uid : ℤ) (d reason : Bytes) (i : ℕ) (s : Server)
    → find uid d s ≡ some i
    → ((run_timers w (length s.pending + 1) (kick w uid d reason s)).conns i).closed ≡ true
unfolding kick
kick-run_timers w uid d reason i s e =
    ap (λ o. ((run_timers w (length s.pending + 1) (kick_found w reason o s)).conns i).closed) e
    ∙ kick_conn-run_timers w i reason s
