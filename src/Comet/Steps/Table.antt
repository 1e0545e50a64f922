-- ===== src/Comet/Steps/Table.antt =====
-- The invariant of the buckets, and that closing a connection keeps it.
use link_im.Prelude.{
  ℕ, ◌<◌, true, false, some, ◌≡◌, ◌≢◌, ◌⊎◌, ◌∙◌, refl, sym, ap, subst, inl, inr, ◌==◌, ==_refl,
  ==_iff, ==_false, Bool-cases, if◌then◌else◌,
}
use link_im.Prelude.Bytes.{Bytes, bytes_eq, bytes_eq_refl}
use link_im.Comet.Conn.{Conn, device_key}
use link_im.Comet.Bucket
use link_im.Comet.Bucket.{Bucket, bucket_index}
use link_im.Comet.Bucket.Laws.{get-del}
use link_im.Comet.Server.{Server, World, update, close}
use link_im.Comet.Server.Close.{close-buckets, close-conns, close_closed, close_fresh-buckets}
use link_im.Comet.Auth.Identity.{SameConn, SameConn-refl, SameIds}
use link_im.Comet.Steps.{Stage, reading, asking, named, swept, placed, late, is_placed, is_racing}
use link_im.Comet.Steps.Stages.{close-SameOwner}

-- What is known of a connection `j` that stands under the key `k` in the bucket `b`, where `n`
-- connections were accepted: it stands under its own key in its own bucket; it is authenticated,
-- unless its handleAuth is about to mark it; and it is open, unless its handleAuth is about to mark
-- it or came too late.
pub record Entry (n : ℕ) (stage : ℕ → Stage) (conns : ℕ → Conn) (b : ℕ) (k : Bytes) (j : ℕ)
    : Type 0 where
  pub known : j < n
  pub authed : ((conns j).authed ≡ true) ⊎ (is_placed (stage j) ≡ true)
  pub opened : ((conns j).closed ≡ false) ⊎ (is_racing (stage j) ≡ true)
  pub key : k ≡ device_key (conns j).uid (conns j).device_id
  pub shard : b ≡ bucket_index (conns j).uid

abbrev pub IsTable : ℕ → (ℕ → Stage) → Server → Type 0
IsTable n stage s =
    (b : ℕ) (k : Bytes) (j : ℕ) → Bucket.get k (s.buckets b) ≡ some j → Entry n stage s.conns b k j

pub SameConn-Entry :
    (n : ℕ) (stage : ℕ → Stage) (old new : ℕ → Conn) (b : ℕ) (k : Bytes) (j : ℕ)
    → SameConn (new j) (old j)
    → Entry n stage old b k j
    → Entry n stage new b k j
SameConn-Entry n stage old new b k j c e = record {
  known = e.known;
  authed = elim e.authed [ inl a ↦ inl (c.authed ∙ a) | inr a ↦ inr a ];
  opened = elim e.opened [ inl a ↦ inl (c.closed ∙ a) | inr a ↦ inr a ];
  key = e.key ∙ sym (λ i. device_key (c.uid i) (c.device_id i));
  shard = e.shard ∙ sym (ap bucket_index c.uid);
}

pub SameIds-IsTable :
    (n : ℕ) (stage : ℕ → Stage) (s t : Server) → SameIds s t → IsTable n stage s → IsTable n stage t
SameIds-IsTable n stage s t p h b k j e =
    SameConn-Entry n stage s.conns t.conns b k j (p.conns j)
      (h b k j (ap (λ x. Bucket.get k (x b)) (sym p.buckets) ∙ e))

-- A change of a connection that stands in no bucket, and of its stage.
pub update-IsTable :
    (n : ℕ) (stage : ℕ → Stage) (s t : Server) (i : ℕ) (st : Stage)
    → t.buckets ≡ s.buckets
    → ((j : ℕ) → j ≢ i → t.conns j ≡ s.conns j)
    → ((b : ℕ) (k : Bytes) → Bucket.get k (s.buckets b) ≢ some i)
    → IsTable n stage s
    → IsTable n (update stage i st) t
update-IsTable n stage s t i st same others none_of h b k j e =
    let old = ap (λ x. Bucket.get k (x b)) (sym same) ∙ e in
    let ne : j ≢ i = λ q. none_of b k (old ∙ ap some q) in
    let at_j : update stage i st j ≡ stage j = ap (λ c. if c then st else stage j) (==_false ne) in
    let entry =
      SameConn-Entry n stage s.conns t.conns b k j
        (subst (λ c. SameConn c (s.conns j)) (sym (others j ne)) (SameConn-refl (s.conns j)))
        (h b k j old) in
    record {
      known = entry.known;
      authed = elim entry.authed [ inl a ↦ inl a | inr p ↦ inr (ap is_placed at_j ∙ p) ];
      opened = elim entry.opened [ inl a ↦ inl a | inr p ↦ inr (ap is_racing at_j ∙ p) ];
      key = entry.key;
      shard = entry.shard;
    }

-- The entry of the table after the removal of a key was there before, and has another key or
-- stands in another bucket.
removed_entry :
    (key k : Bytes) (ix b : ℕ) (buckets : ℕ → Bucket) (q : ℕ)
    → Bucket.get k (update buckets ix (Bucket.del key (buckets ix)).1 b) ≡ some q
    → (Bucket.get k (buckets b) ≡ some q) × ((b ≢ ix) ⊎ (k ≢ key))
removed_entry key k ix b buckets q e = elim (Bool-cases (b == ix)) [
  | inr n ↦ (rw n at e, inl (λ p. cc (n, p, ==_refl ix)))
  | inl y ↦
      let at_ix : Bucket.get k (Bucket.del key (buckets ix)).1 ≡ some q = rw y at e in
      let looked = sym (get-del key k (buckets ix)) ∙ at_ix in
      elim (Bool-cases (bytes_eq key k)) [
        | inl same ↦ absurd (cc (rw same at looked))
        | inr other ↦ (
          ap (λ x. Bucket.get k (buckets x)) ((==_iff b ix).0 y) ∙ (rw other at looked),
          inr (λ p. cc (other, p, bytes_eq_refl key)),
        )
      ]
]

-- A close of an authenticated open connection.
close_authed-IsTable :
    (w : World) (n : ℕ) (stage : ℕ → Stage) (i : ℕ) (s : Server)
    → (s.conns i).authed ≡ true
    → (s.conns i).closed ≡ false
    → IsTable n stage s
    → IsTable n stage (close w i s)
close_authed-IsTable w n stage i s a c h b k q e =
    let uid = (s.conns i).uid in
    let key = device_key uid (s.conns i).device_id in
    let (old, apart) =
      removed_entry key k (bucket_index uid) b s.buckets q
        (ap (λ x. Bucket.get k (x b)) (sym (close-buckets w i s a c)) ∙ e) in
    let entry = h b k q old in
    let ne : q ≢ i = λ p. elim apart [
      | inl o ↦ o (entry.shard ∙ ap (λ x. bucket_index (s.conns x).uid) p)
      | inr o ↦ o (entry.key ∙ ap (λ x. device_key (s.conns x).uid (s.conns x).device_id) p)
    ] in
    SameConn-Entry n stage s.conns (close w i s).conns b k q
      (subst (λ x. SameConn x (s.conns q)) (sym (close-conns w i q s ne))
        (SameConn-refl (s.conns q)))
      entry

-- A connection in a bucket that is not authenticated is about to be marked.
placed_racing : (st : Stage) → is_placed st ≡ true → is_racing st ≡ true
placed_racing (placed seq req uid) e = refl
placed_racing reading e = absurd (cc e)
placed_racing (asking seq req) e = absurd (cc e)
placed_racing (named seq req uid) e = absurd (cc e)
placed_racing (swept seq req uid) e = absurd (cc e)
placed_racing late e = absurd (cc e)

-- A close of a connection that is not authenticated: what stands in a bucket stays there.
close_fresh-IsTable :
    (w : World) (n : ℕ) (stage : ℕ → Stage) (i : ℕ) (s : Server)
    → (s.conns i).authed ≡ false
    → (s.conns i).closed ≡ false
    → IsTable n stage s
    → IsTable n stage (close w i s)
close_fresh-IsTable w n stage i s a c h b k j e =
    let old = ap (λ x. Bucket.get k (x b)) (sym (close_fresh-buckets w i s a c)) ∙ e in
    let entry = h b k j old in
    let same = close-SameOwner w i j s in
    elim (Bool-cases (j == i)) [
      | inr x ↦
          SameConn-Entry n stage s.conns (close w i s).conns b k j
            (subst (λ y. SameConn y (s.conns j))
              (sym (close-conns w i j s (λ p. cc (x, p, ==_refl i)))) (SameConn-refl (s.conns j)))
            entry
      | inl x ↦
          let about : is_placed (stage j) ≡ true = elim entry.authed [
            | inl y ↦ absurd (cc (a, y, ap (λ q. (s.conns q).authed) ((==_iff j i).0 x)))
            | inr p ↦ p
          ] in
          record {
            known = entry.known;
            authed = inr about;
            opened = inr (placed_racing (stage j) about);
            key = entry.key ∙ sym (λ r. device_key (same.uid r) (same.device_id r));
            shard = entry.shard ∙ sym (ap bucket_index same.uid);
          }
    ]

-- Closing any connection keeps the table.
pub close-IsTable :
    (w : World) (n : ℕ) (stage : ℕ → Stage) (i : ℕ) (s : Server)
    → IsTable n stage s
    → IsTable n stage (close w i s)
close-IsTable w n stage i s h = elim (Bool-cases (s.conns i).closed) [
  | inl c ↦ subst (IsTable n stage) (sym (close_closed w i s c)) h
  | inr c ↦ elim (Bool-cases (s.conns i).authed) [
    | inl a ↦ close_authed-IsTable w n stage i s a c h
    | inr a ↦ close_fresh-IsTable w n stage i s a c h
  ]
]
