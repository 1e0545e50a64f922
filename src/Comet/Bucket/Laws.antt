-- ===== src/Comet/Bucket/Laws.antt =====
-- The table is a map from keys to connections, with each key once.
use link_im.Prelude.{ℕ, [], ◌∷◌, none, some, ◌≡◌, arith, if◌then◌else◌}
use link_im.Prelude.Bytes.{Bytes, bytes_eq, bytes_eq_iff}
use link_im.Comet.Bucket.{Bucket, get, without, put, del}

pub get-without :
    (key j : Bytes) (b : Bucket)
    → get j (without key b) ≡ (if bytes_eq key j then none else get j b)
unfolding get without
get-without key j [] = ground arith
get-without key j ((k, c) ∷ b) =
    ground (arith, get-without key j b, bytes_eq_iff k key, bytes_eq_iff k j, bytes_eq_iff key j)

-- After a put, the bucket holds the connection under its key, and under every other key what it
-- held before.
pub get-put :
    (key j : Bytes) (c : ℕ) (b : Bucket)
    → get j (put key c b).1 ≡ (if bytes_eq key j then some c else get j b)
get-put key j c b = unfold put get in ground (arith, get-without key j b, bytes_eq_iff key j)

-- After a del, the bucket holds nothing under the key, and under every other key what it held
-- before.
pub get-del :
    (key j : Bytes) (b : Bucket) → get j (del key b).1 ≡ (if bytes_eq key j then none else get j b)
get-del key j b = unfold del in ground (arith, get-without key j b, bytes_eq_iff key j)
