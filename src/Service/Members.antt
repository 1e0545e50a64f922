-- ===== src/Service/Members.antt =====
-- internal/service/members.go: the members of a group, cached in a Redis set. Redis and MySQL are
-- parameters over a state `S`; `none`, and false, are errors.
pub mod Elements
pub mod Coherence
use link_im.Prelude.{Bool, true, false, List, [], ◌∷◌, ◌++◌, Option, none, some, map, if◌then◌else◌}
use link_im.Prelude.Int.{ℤ, eq_ℤ}
use link_im.Prelude.Bytes.{Bytes, codes}
use link_im.Decimal.{format_int, parse_int}

pub record MemberDeps (S : Type 0) : Type 0 where
  pub smembers : Bytes → S → Option (List Bytes) × S
  pub sadd : Bytes → List Bytes → S → Bool × S
  pub expire : Bytes → S → S
  pub del : Bytes → S → Bool × S
  pub select_uids : ℤ → S → Option (List ℤ) × S

-- redisx.ConvMembersKey
unfoldable pub conv_members_key : ℤ → Bytes
conv_members_key gid = codes "conv:members:" ++ format_int gid

-- A text that is no number is passed over.
abbrev pub add_parsed : Option ℤ → List ℤ → List ℤ
add_parsed none ns = ns
add_parsed (some n) ns = n ∷ ns

unfoldable pub parse_uids : List Bytes → List ℤ
parse_uids [] = []
parse_uids (v ∷ vs) = add_parsed (parse_int v) (parse_uids vs)

-- The loop of IsMember.
unfoldable pub has_uid : ℤ → List ℤ → Bool
has_uid uid [] = false
has_uid uid (m ∷ ms) = let rest = has_uid uid ms in if eq_ℤ m uid then true else rest

abbrev pub checked : ℤ → Option (List ℤ) → Option Bool
checked uid none = none
checked uid (some ms) = some (has_uid uid ms)

module _ {S : Type 0} (d : MemberDeps S) where
  -- The set gets a lifetime only if the members were added to it.
  abbrev pub backfilled : ℤ → List ℤ → Bool × S → Option (List ℤ) × S
  backfilled gid uids (false, s) = (some uids, s)
  backfilled gid uids (true, s) = (some uids, d.expire (conv_members_key gid) s)

  abbrev pub loaded : ℤ → Bool → Option (List ℤ) × S → Option (List ℤ) × S
  loaded gid backfill (none, s) = (none, s)
  loaded gid backfill (some [], s) = (some [], s)
  loaded gid backfill (some (u ∷ us), s) =
      if backfill
      then backfilled gid (u ∷ us) (d.sadd (conv_members_key gid) (map format_int (u ∷ us)) s)
      else (some (u ∷ us), s)

  unfoldable pub load_and_backfill : ℤ → Bool → S → Option (List ℤ) × S
  load_and_backfill gid backfill s = loaded gid backfill (d.select_uids gid s)

  -- An empty set is a miss; where Redis fails, nothing is written back.
  abbrev pub from_cache : ℤ → Option (List Bytes) × S → Option (List ℤ) × S
  from_cache gid (some (v ∷ vs), s) = (some (parse_uids (v ∷ vs)), s)
  from_cache gid (some [], s) = load_and_backfill gid true s
  from_cache gid (none, s) = load_and_backfill gid false s

  unfoldable pub members : ℤ → S → Option (List ℤ) × S
  members gid s = from_cache gid (d.smembers (conv_members_key gid) s)

  unfoldable pub is_member : ℤ → ℤ → S → Option Bool × S
  is_member gid uid s = let (ms, s') = members gid s in (checked uid ms, s')

  unfoldable pub invalidate : ℤ → S → Bool × S
  invalidate gid s = d.del (conv_members_key gid) s
