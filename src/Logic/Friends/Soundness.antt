-- ===== src/Logic/Friends/Soundness.antt =====
-- The friend cache of internal/logic/redisdep.go in front of the friend table.
use link_im.Prelude.{
  Bool, true, false, List, [], ◌∷◌, ◌++◌, Option, none, some, map, ◌≡◌, ◌↔◌, ◌∙◌, refl, sym, ap,
  subst, inl, inr, All,
}
use link_im.Prelude.Int.{ℤ, IsInt64}
use link_im.Prelude.Bytes.{Bytes}
use link_im.Decimal.{format_int, parse_int}
use link_im.Decimal.RoundTrip.{parse_int-format_int}
use link_im.Service.Members.{has_uid}
use link_im.Service.Members.Elements.{
  Mem, SameElements, Mem-append, Mem-format_int, Mem-All, has_uid_iff, texts-SameElements,
}
use link_im.Service.Members.Coherence.{View}
use link_im.Logic.Friends.{FriendDeps, friend_key, written_back, friends_loaded, ranked, is_friend}

-- Reads find what the state holds and change nothing of it; ZADD adds its members, or does not
-- where it fails.
pub record FriendLaws {S : Type 0} (d : FriendDeps S) (v : View S) : Type 0 where
  pub zrank_found :
      (k m : Bytes) (s : S) (b : Bool)
      → (d.zrank k m s).0 ≡ some b
      → (b ≡ true) ↔ Mem m (v.cached k s)
  pub zrank_cached : (k m l : Bytes) (s : S) → v.cached l (d.zrank k m s).1 ≡ v.cached l s
  pub zrank_rows : (k m : Bytes) (uid : ℤ) (s : S) → v.rows uid (d.zrank k m s).1 ≡ v.rows uid s
  pub select_found :
      (uid : ℤ) (s : S) (fs : List ℤ)
      → (d.select_friends uid s).0 ≡ some fs
      → SameElements fs (v.rows uid s)
  pub select_cached :
      (uid : ℤ) (k : Bytes) (s : S) → v.cached k (d.select_friends uid s).1 ≡ v.cached k s
  pub select_rows : (uid u : ℤ) (s : S) → v.rows u (d.select_friends uid s).1 ≡ v.rows u s
  pub zadd_cached :
      (k : Bytes) (xs : List Bytes) (s : S) (x : Bytes)
      → Mem x (v.cached k (d.zadd k xs s).1)
      → Mem x (xs ++ v.cached k s)
  pub zadd_rows :
      (k : Bytes) (xs : List Bytes) (uid : ℤ) (s : S) → v.rows uid (d.zadd k xs s).1 ≡ v.rows uid s

-- Whoever is cached as a friend is one in the table.
abbrev pub IsSound : {S : Type 0} → View S → ℤ → S → Type 0
IsSound v uid s =
    (x : Bytes) → Mem x (v.cached (friend_key uid) s) → Mem x (map format_int (v.rows uid s))

module _ {S : Type 0} (d : FriendDeps S) (v : View S) (laws : FriendLaws d v) (uid friend : ℤ) where
  abbrev key : Bytes
  key = friend_key uid

  -- An answer that is given is that of the table, and the cache stays sound.
  pub record Tells (s : S) (r : Option Bool × S) : Type 0 where
    pub answer : (b : Bool) → r.0 ≡ some b → (b ≡ true) ↔ Mem friend (v.rows uid s)
    pub sound : IsSound v uid r.1

  Sound-transfer :
      (s t : S)
      → v.cached key t ≡ v.cached key s
      → v.rows uid t ≡ v.rows uid s
      → IsSound v uid s
      → IsSound v uid t
  Sound-transfer s t c r h x m =
      subst (λ ys. Mem x (map format_int ys)) (sym r) (h x (subst (Mem x) c m))

  written-Sound :
      (fs : List ℤ) (s : S)
      → SameElements fs (v.rows uid s)
      → IsSound v uid s
      → IsSound v uid (written_back d uid fs s)
  written-Sound [] s same h = h
  written-Sound (f ∷ fs) s same h = λ x m.
      let texts = map format_int (f ∷ fs) in
      subst (λ ys. Mem x (map format_int ys)) (sym (laws.zadd_rows key texts uid s))
        (elim (Mem-append x texts (v.cached key s) (laws.zadd_cached key texts s x m)) [
          | inl n ↦ (texts-SameElements (f ∷ fs) (v.rows uid s) same x).0 n
          | inr n ↦ h x n
        ])

  loaded-Tells :
      (o : Option (List ℤ)) (s : S)
      → ((fs : List ℤ) → o ≡ some fs → SameElements fs (v.rows uid s))
      → IsSound v uid s
      → Tells s (friends_loaded d uid friend (o, s))
  loaded-Tells none s found h = record { answer = λ b e. absurd (cc e); sound = h }
  loaded-Tells (some fs) s found h =
      let same = found fs refl in
      let iff = has_uid_iff friend fs in
      record {
        answer = λ b e.
            let known : has_uid friend fs ≡ b = cc e in
            (λ y. (same friend).0 (iff.0 (known ∙ y)), λ m. sym known ∙ iff.1 ((same friend).1 m));
        sound = written-Sound fs s same h;
      }

  rebase : (s t : S) (r : Option Bool × S) → v.rows uid t ≡ v.rows uid s → Tells t r → Tells s r
  rebase s t r q a = record {
    answer = λ b e. subst (λ ys. (b ≡ true) ↔ Mem friend ys) q (a.answer b e);
    sound = a.sound;
  }

  -- The text of a friend among the texts of the rows is that friend.
  text_found :
      (us : List ℤ)
      → IsInt64 friend
      → All IsInt64 us
      → Mem (format_int friend) (map format_int us)
      → Mem friend us
  text_found us hf hs m =
      let (u, n, e) = Mem-format_int (format_int friend) us m in
      let read : some friend ≡ some u =
        sym (parse_int-format_int friend hf)
        ∙ ap parse_int e
        ∙ parse_int-format_int u (Mem-All IsInt64 u us hs n) in
      subst (λ y. Mem y us) (sym (cc read)) n

  ranked-Tells :
      (o : Option Bool) (s : S)
      → IsInt64 friend
      → All IsInt64 (v.rows uid s)
      → ((b : Bool) → o ≡ some b → (b ≡ true) ↔ Mem (format_int friend) (v.cached key s))
      → IsSound v uid s
      → Tells s (ranked d uid friend (o, s))
  ranked-Tells none s hf hs found h = record { answer = λ b e. absurd (cc e); sound = h }
  ranked-Tells (some true) s hf hs found h =
      let m = text_found (v.rows uid s) hf hs (h (format_int friend) ((found true refl).0 refl)) in
      record { answer = λ b e. let known : true ≡ b = cc e in (λ y. m, λ n. sym known); sound = h }
  ranked-Tells (some false) s hf hs found h =
      let o = d.select_friends uid s in
      let rows = laws.select_rows uid uid s in
      rebase s o.1 _ rows (
        loaded-Tells o.0 o.1
          (λ fs q. subst (SameElements fs) (sym rows) (laws.select_found uid s fs q))
          (Sound-transfer s o.1 (laws.select_cached uid key s) rows h))

  -- IsFriend is the query of the friend table with a cache in front, as long as whoever is cached
  -- is in the table: an answer that it gives is that of the table, and the cache stays sound. The
  -- uids are int64.
  pub is_friend-Tells :
      (s : S)
      → IsInt64 friend
      → All IsInt64 (v.rows uid s)
      → IsSound v uid s
      → Tells s (is_friend d uid friend s)
  unfolding is_friend
  is_friend-Tells s hf hs h =
      let o = d.zrank key (format_int friend) s in
      let rows = laws.zrank_rows key (format_int friend) uid s in
      let cached = laws.zrank_cached key (format_int friend) key s in
      rebase s o.1 _ rows (
        ranked-Tells o.0 o.1 hf (subst (All IsInt64) (sym rows) hs)
          (λ b q.
            subst (λ ys. (b ≡ true) ↔ Mem (format_int friend) ys) (sym cached)
              (laws.zrank_found key (format_int friend) s b q))
          (Sound-transfer s o.1 cached rows h))
