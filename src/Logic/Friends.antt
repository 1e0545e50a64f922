-- ===== src/Logic/Friends.antt =====
-- FriendCache.IsFriend of internal/logic/redisdep.go: the friends of a user, cached in a Redis
-- sorted set. Redis and MySQL are parameters over a state `S`; `none`, and false, are errors.
pub mod Soundness
use link_im.Prelude.{Bool, true, false, List, [], ◌∷◌, ◌++◌, Option, none, some, map, if◌then◌else◌}
use link_im.Prelude.Int.{ℤ}
use link_im.Prelude.Bytes.{Bytes, codes}
use link_im.Decimal.{format_int}
use link_im.Service.Members.{has_uid}

-- `zrank` tells whether the member is there; redis.Nil is an answer.
pub record FriendDeps (S : Type 0) : Type 0 where
  pub zrank : Bytes → Bytes → S → Option Bool × S
  pub zadd : Bytes → List Bytes → S → Bool × S
  pub select_friends : ℤ → S → Option (List ℤ) × S

-- redisx.FriendKey
unfoldable pub friend_key : ℤ → Bytes
friend_key uid = codes "friend:" ++ format_int uid

module _ {S : Type 0} (d : FriendDeps S) where
  -- Where nothing was selected, nothing is written; an error of the write is passed over.
  abbrev pub written_back : ℤ → List ℤ → S → S
  written_back uid [] s = s
  written_back uid (f ∷ fs) s = (d.zadd (friend_key uid) (map format_int (f ∷ fs)) s).1

  abbrev pub friends_loaded : ℤ → ℤ → Option (List ℤ) × S → Option Bool × S
  friends_loaded uid friend (none, s) = (none, s)
  friends_loaded uid friend (some fs, s) = (some (has_uid friend fs), written_back uid fs s)

  abbrev pub ranked : ℤ → ℤ → Option Bool × S → Option Bool × S
  ranked uid friend (none, s) = (none, s)
  ranked uid friend (some true, s) = (some true, s)
  ranked uid friend (some false, s) = friends_loaded uid friend (d.select_friends uid s)

  unfoldable pub is_friend : ℤ → ℤ → S → Option Bool × S
  is_friend uid friend s = ranked uid friend (d.zrank (friend_key uid) (format_int friend) s)
