-- ===== src/Service/Members/Coherence.antt =====
-- The cached members of a group are those of the table: internal/service/members.go as an
-- implementation of the query on group_member.
use link_im.Prelude.{
  Bool, true, false, List, [], ◌∷◌, ◌++◌, Option, none, some, map, ◌≡◌, ◌⊎◌, ◌↔◌, ◌∙◌, refl, sym,
  subst, inl, inr, All,
}
use link_im.Prelude.Int.{ℤ, IsInt64}
use link_im.Prelude.Bytes.{Bytes}
use link_im.Decimal.{format_int}
use link_im.Service.Members.Elements.{
  Mem, SameElements, append-nil-SameElements, texts-SameElements, has_uid_iff,
  parse_uids-SameElements,
}
use link_im.Service.Members.{
  MemberDeps, conv_members_key, has_uid, checked, backfilled, loaded, load_and_backfill, from_cache,
  members, is_member,
}

-- What the set of a key holds, and which rows a group has, in a state.
pub record View (S : Type 0) : Type 0 where
  pub cached : Bytes → S → List Bytes
  pub rows : ℤ → S → List ℤ

-- Reads find what the state holds and change nothing of it. SADD adds its members; where it
-- reports an error it has added them or not.
pub record MemberLaws {S : Type 0} (d : MemberDeps S) (v : View S) : Type 0 where
  pub smembers_found :
      (k : Bytes) (s : S) (xs : List Bytes)
      → (d.smembers k s).0 ≡ some xs
      → SameElements xs (v.cached k s)
  pub smembers_cached : (k l : Bytes) (s : S) → v.cached l (d.smembers k s).1 ≡ v.cached l s
  pub smembers_rows : (k : Bytes) (gid : ℤ) (s : S) → v.rows gid (d.smembers k s).1 ≡ v.rows gid s
  pub select_found :
      (gid : ℤ) (s : S) (us : List ℤ)
      → (d.select_uids gid s).0 ≡ some us
      → SameElements us (v.rows gid s)
  pub select_cached :
      (gid : ℤ) (k : Bytes) (s : S) → v.cached k (d.select_uids gid s).1 ≡ v.cached k s
  pub select_rows : (gid h : ℤ) (s : S) → v.rows h (d.select_uids gid s).1 ≡ v.rows h s
  pub sadd_cached :
      (k : Bytes) (xs : List Bytes) (s : S)
      → SameElements (v.cached k (d.sadd k xs s).1) (xs ++ v.cached k s)
        ⊎ (v.cached k (d.sadd k xs s).1 ≡ v.cached k s)
  pub sadd_rows :
      (k : Bytes) (xs : List Bytes) (gid : ℤ) (s : S) → v.rows gid (d.sadd k xs s).1 ≡ v.rows gid s
  pub expire_cached : (k l : Bytes) (s : S) → v.cached l (d.expire k s) ≡ v.cached l s
  pub expire_rows : (k : Bytes) (gid : ℤ) (s : S) → v.rows gid (d.expire k s) ≡ v.rows gid s

-- The set is empty, or it holds the texts of the uids of the rows.
abbrev pub IsCoherent : {S : Type 0} → View S → ℤ → S → Type 0
IsCoherent v gid s =
    (v.cached (conv_members_key gid) s ≡ [])
    ⊎ SameElements (v.cached (conv_members_key gid) s) (map format_int (v.rows gid s))

module _ {S : Type 0} (d : MemberDeps S) (v : View S) (laws : MemberLaws d v) (gid : ℤ) where
  abbrev key : Bytes
  key = conv_members_key gid

  -- What a call of Members gives: the members of the table, if it succeeds, and a state with the
  -- same rows, in which the cache is still coherent.
  pub record Answers (s : S) (r : Option (List ℤ) × S) : Type 0 where
    pub uids : (us : List ℤ) → r.0 ≡ some us → SameElements us (v.rows gid s)
    pub rows : v.rows gid r.1 ≡ v.rows gid s
    pub coherent : IsCoherent v gid r.1

  transfer :
      (s t : S)
      → v.cached key t ≡ v.cached key s
      → v.rows gid t ≡ v.rows gid s
      → IsCoherent v gid s
      → IsCoherent v gid t
  transfer s t c r (inl e) = inl (c ∙ e)
  transfer s t c r (inr h) = inr (
      subst (λ x. SameElements (v.cached key t) (map format_int x)) (sym r)
        (subst (λ x. SameElements x (map format_int (v.rows gid s))) (sym c) h))

  -- The set was empty, and the members that were selected are written to it.
  backfilled-Answers :
      (s : S) (us : List ℤ)
      → v.cached key s ≡ []
      → SameElements us (v.rows gid s)
      → Answers s (backfilled d gid us (d.sadd key (map format_int us) s))
  backfilled-Answers s us e h =
      let t = d.sadd key (map format_int us) s in
      let rows = laws.sadd_rows key (map format_int us) gid s in
      let filled : IsCoherent v gid t.1 = elim (laws.sadd_cached key (map format_int us) s) [
        | inr same ↦ inl (same ∙ e)
        | inl added ↦ inr (λ x.
            let texts =
              append-nil-SameElements (map format_int us) (v.cached key s) (v.cached key t.1) e
                added x in
            let back = texts-SameElements us (v.rows gid s) h x in
            let here = λ (m : Mem x (map format_int (v.rows gid s))).
              subst (λ y. Mem x (map format_int y)) (sym rows) m in
            let there = λ (m : Mem x (map format_int (v.rows gid t.1))).
              subst (λ y. Mem x (map format_int y)) rows m in
            (λ m. here (back.0 (texts.0 m)), λ m. texts.1 (back.1 (there m))))
      ] in
      ended t.0 t.1 rows filled
    where
      ended :
          (b : Bool) (t : S)
          → v.rows gid t ≡ v.rows gid s
          → IsCoherent v gid t
          → Answers s (backfilled d gid us (b, t))
      ended false t rows filled = record {
        uids = λ ws q. subst (λ x. SameElements x (v.rows gid s)) (cc q) h;
        rows = rows;
        coherent = filled;
      }
      ended true t rows filled = record {
        uids = λ ws q. subst (λ x. SameElements x (v.rows gid s)) (cc q) h;
        rows = laws.expire_rows key gid t ∙ rows;
        coherent =
            transfer t (d.expire key t) (laws.expire_cached key key t) (laws.expire_rows key gid t)
              filled;
      }

  -- The query of the table, where the set was empty if it is to be written.
  loaded-Answers :
      (s : S) (backfill : Bool) (o : Option (List ℤ))
      → (backfill ≡ false) ⊎ (v.cached key s ≡ [])
      → IsCoherent v gid s
      → ((us : List ℤ) → o ≡ some us → SameElements us (v.rows gid s))
      → Answers s (loaded d gid backfill (o, s))
  loaded-Answers s backfill none e c h = record {
    uids = λ us q. absurd (cc q);
    rows = refl;
    coherent = c;
  }
  loaded-Answers s backfill (some []) e c h = record { uids = h; rows = refl; coherent = c }
  loaded-Answers s false (some (u ∷ us)) e c h = record { uids = h; rows = refl; coherent = c }
  loaded-Answers s true (some (u ∷ us)) e c h =
      let empty : v.cached key s ≡ [] = elim e [ inl f ↦ absurd (cc f) | inr f ↦ f ] in
      backfilled-Answers s (u ∷ us) empty (h (u ∷ us) refl)

  rebase :
      (s t : S) (r : Option (List ℤ) × S) → v.rows gid t ≡ v.rows gid s → Answers t r → Answers s r
  rebase s t r q a = record {
    uids = λ us e. subst (SameElements us) q (a.uids us e);
    rows = a.rows ∙ q;
    coherent = a.coherent;
  }

  load-Answers :
      (s : S) (backfill : Bool)
      → (backfill ≡ false) ⊎ (v.cached key s ≡ [])
      → IsCoherent v gid s
      → Answers s (load_and_backfill d gid backfill s)
  unfolding load_and_backfill
  load-Answers s backfill e c =
      let o = d.select_uids gid s in
      let rows = laws.select_rows gid gid s in
      let cached = laws.select_cached gid key s in
      rebase s o.1 _ rows (
        loaded-Answers o.1 backfill o.0 (elim e [ inl f ↦ inl f | inr f ↦ inr (cached ∙ f) ])
          (transfer s o.1 cached rows c)
          (λ us q. subst (SameElements us) (sym rows) (laws.select_found gid s us q)))

  cache-Answers :
      (s : S) (o : Option (List Bytes))
      → All IsInt64 (v.rows gid s)
      → ((xs : List Bytes) → o ≡ some xs → SameElements xs (v.cached key s))
      → IsCoherent v gid s
      → Answers s (from_cache d gid (o, s))
  cache-Answers s none i f c = load-Answers s false (inl refl) c
  cache-Answers s (some []) i f c =
      load-Answers s true (inr (nothing (v.cached key s) (f [] refl))) c
    where
      nothing : (xs : List Bytes) → SameElements [] xs → xs ≡ []
      nothing [] h = refl
      nothing (x ∷ xs) h = absurd ((h x).1 (inl refl))
  cache-Answers s (some (x ∷ xs)) i f c = record {
    uids = λ us q.
        let h = f (x ∷ xs) refl in
        elim c [
          | inl e ↦ absurd (subst (Mem x) e ((h x).0 (inl refl)))
          | inr same ↦
              subst (λ y. SameElements y (v.rows gid s)) (cc q)
                (parse_uids-SameElements (x ∷ xs) (v.rows gid s) i
                  (λ y. (λ m. (same y).0 ((h y).0 m), λ m. (h y).1 ((same y).1 m))))
        ];
    rows = refl;
    coherent = c;
  }

  -- Members is a cache in front of the query of the table, as long as the cache is coherent and
  -- the uids of the rows are int64: what it returns are the uids of the rows, and it leaves the
  -- rows as they are and the cache coherent, whether the set was read, was written, or failed.
  pub members-Answers :
      (s : S) → All IsInt64 (v.rows gid s) → IsCoherent v gid s → Answers s (members d gid s)
  unfolding members
  members-Answers s i c =
      let o = d.smembers key s in
      let rows = laws.smembers_rows key gid s in
      let cached = laws.smembers_cached key key s in
      rebase s o.1 _ rows (
        cache-Answers o.1 o.0 (subst (All IsInt64) (sym rows) i)
          (λ xs q. subst (SameElements xs) (sym cached) (laws.smembers_found key s xs q))
          (transfer s o.1 cached rows c))

  checked_iff :
      (uid : ℤ) (o : Option (List ℤ)) (rows : List ℤ) (b : Bool)
      → ((us : List ℤ) → o ≡ some us → SameElements us rows)
      → checked uid o ≡ some b
      → (b ≡ true) ↔ Mem uid rows
  checked_iff uid none rows b h e = absurd (cc e)
  checked_iff uid (some us) rows b h e =
      let found : has_uid uid us ≡ b = cc e in
      let iff = has_uid_iff uid us in
      (λ y. (h us refl uid).0 (iff.0 (found ∙ y)), λ m. sym found ∙ iff.1 ((h us refl uid).1 m))

  -- IsMember answers whether the table has the row, if it answers.
  pub is_member-Mem :
      (uid : ℤ) (s : S) (b : Bool)
      → All IsInt64 (v.rows gid s)
      → IsCoherent v gid s
      → (is_member d gid uid s).0 ≡ some b
      → (b ≡ true) ↔ Mem uid (v.rows gid s)
  unfolding is_member
  is_member-Mem uid s b i c e =
      checked_iff uid (members d gid s).0 (v.rows gid s) b (members-Answers s i c).uids e
