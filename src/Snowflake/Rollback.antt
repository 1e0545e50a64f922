-- ===== src/Snowflake/Rollback.antt =====
-- When the clock goes back, Next hands out its last id again.
use link_im.Prelude.{ℕ, ◌<◌, List, ◌∷◌, some, ◌≡◌, subst, arith, lt→ltb, Option, none, []}
use link_im.Snowflake.{Node, spin, next, last_id}

abbrev IssuesLast : Option (ℕ × Node × List ℕ) → Type 0
IssuesLast none = Unit
IssuesLast (some (id, n', ts')) = id ≡ last_id n'

spin-IssuesLast : (n : Node) (ts : List ℕ) → IssuesLast (spin n ts)
unfolding spin
spin-IssuesLast n [] = tt
spin-IssuesLast n (t ∷ ts) = ground (arith, spin-IssuesLast n ts)

next-IssuesLast : (n : Node) (ts : List ℕ) → IssuesLast (next n ts)
unfolding next
next-IssuesLast n [] = tt
next-IssuesLast n (t ∷ ts) = ground (arith, spin-IssuesLast n ts)

next_behind :
    (n : Node) (t : ℕ) (ts : List ℕ) → t < n.last_ms → next n (t ∷ ts) ≡ some (last_id n, n, ts)
unfolding next
next_behind n t ts h = rw (lt→ltb t n.last_ms h)

-- A call whose reading of the clock is before the last issued time leaves the node as it was and
-- returns the id that the call before it returned.
pub next_after_rollback :
    (n : Node) (ts : List ℕ) (id : ℕ) (n' : Node) (t : ℕ) (ts' : List ℕ)
    → next n ts ≡ some (id, n', t ∷ ts')
    → t < n'.last_ms
    → next n' (t ∷ ts') ≡ some (id, n', ts')
next_after_rollback n ts id n' t ts' h back =
    let issued : id ≡ last_id n' = subst IssuesLast h (next-IssuesLast n ts) in
    rw issued (next_behind n' t ts' back)
