-- ===== src/Comet/Bucket.antt =====
-- internal/comet/bucket.go: the connections of one shard by their key, and the choice of the
-- shard. A connection is known by its number. Each method runs under the shard's lock, so it is
-- one step.
pub mod Laws
use link_im.Prelude.{
  ℕ, suc, ◌+◌, ◌-◌, ◌%◌, ◌^◌, Bool, true, false, List, [], ◌∷◌, ◌++◌, Option, none, some, ◌≡◌, refl,
  ltb, if◌then◌else◌, length,
}
use link_im.Prelude.Int.{ℤ, pos, negsuc}
use link_im.Prelude.Bytes.{Bytes, codes, bytes_eq}
use link_im.Decimal.{format_int}

abbrev pub bucket_num : ℕ
bucket_num = 256

abbrev pub Bucket : Type 0
Bucket = List (Bytes × ℕ)

unfoldable pub get : Bytes → Bucket → Option ℕ
get key [] = none
get key ((k, c) ∷ b) = if bytes_eq k key then some c else get key b

pub without : Bytes → Bucket → Bucket
without key [] = []
without key ((k, c) ∷ b) =
    let rest = without key b in if bytes_eq k key then rest else (k, c) ∷ rest

-- The connection that stood under the key, and the new table.
unfoldable pub put : Bytes → ℕ → Bucket → Option ℕ × Bucket
unfolding get without
put key c b = (get key b, (key, c) ∷ without key b)

abbrev is_some : Option ℕ → Bool
is_some none = false
is_some (some c) = true

unfoldable pub del : Bytes → Bucket → Bool × Bucket
unfolding get without
del key b = if is_some (get key b) then (true, without key b) else (false, b)

unfoldable pub size : Bucket → ℕ
size b = length b

-- uint64(uid) % bucketNum
unfoldable pub bucket_index : ℤ → ℕ
bucket_index (pos n) = n % 2 ^ 64 % bucket_num
bucket_index (negsuc n) = (2 ^ 64 - (n + 1)) % 2 ^ 64 % bucket_num

-- platform:device_id
unfoldable pub route_field : ℤ → Bytes → Bytes
route_field platform device_id = format_int platform ++ (codes ":" ++ device_id)

replaced : put (codes "7:a") 2 ((codes "7:a", 1) ∷ []) ≡ (some 1, (codes "7:a", 2) ∷ [])
unfolding put
replaced = refl
