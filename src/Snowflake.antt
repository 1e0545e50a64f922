-- ===== src/Snowflake.antt =====
-- pkg/snowflake/snowflake.go. A reading of the clock (time.Now().UnixMilli()) is a number of
-- milliseconds; the readings that a call makes come from a list, in order. An id is the bit
-- pattern of the source's int64.
pub mod Fields
pub mod Order
pub mod Rollback
use Prim.Native.Nat.{bit_and, bit_or}
use link_im.Prelude.{
  ℕ, ◌+◌, ◌-◌, ◌*◌, ◌%◌, ◌^◌, ◌≤◌, ◌<◌, Bool, ◌||◌, List, [], ◌∷◌, Option, none, some, ◌≡◌, refl,
  ltb, leb, ◌==◌, if◌then◌else◌,
}
use link_im.Prelude.Int.{ℤ, pos, negsuc}

abbrev pub node_bits : ℕ
node_bits = 10

abbrev pub sequence_bits : ℕ
sequence_bits = 12

abbrev pub max_node : ℕ
max_node = 1023

abbrev pub max_sequence : ℕ
max_sequence = 4095

abbrev pub timestamp_shift : ℕ
timestamp_shift = node_bits + sequence_bits

abbrev pub epoch_ms : ℕ
epoch_ms = 1704067200000

pub record Node : Type 0 where
  pub node : ℕ
  pub last_ms : ℕ
  pub sequence : ℕ

-- `none` is ErrInvalidNode.
unfoldable pub new_node : ℤ → Option Node
new_node (negsuc n) = none
new_node (pos n) =
    if ltb max_node n then none else some (record { node = n; last_ms = 0; sequence = 0 })

-- int64 subtraction and left shift, on bit patterns.
abbrev sub64 : ℕ → ℕ → ℕ
sub64 a b = (a + 2 ^ 64 - b) % 2 ^ 64

abbrev shl64 : ℕ → ℕ → ℕ
shl64 a k = a * 2 ^ k % 2 ^ 64

unfoldable pub compose : ℕ → ℕ → ℕ → ℕ
compose node ms sequence =
    bit_or (bit_or (shl64 (sub64 ms epoch_ms) timestamp_shift) (shl64 node sequence_bits)) sequence

-- The last two statements of Next: the state is stored, and the id is made of it.
abbrev pub issue : Node → ℕ → ℕ → List ℕ → ℕ × Node × List ℕ
issue n now sequence ts =
    (compose n.node now sequence, record n { last_ms = now; sequence = sequence }, ts)

-- `for now <= n.lastMs`: `none` while no later reading has come.
unfoldable pub spin : Node → List ℕ → Option (ℕ × Node × List ℕ)
spin n [] = none
spin n (now ∷ ts) =
    let rest = spin n ts in if leb now n.last_ms then rest else some (issue n now 0 ts)

unfoldable pub next : Node → List ℕ → Option (ℕ × Node × List ℕ)
next n [] = none
next n (now ∷ ts) =
    let sequence = bit_and (n.sequence + 1) max_sequence in
    if ltb now n.last_ms
    then some (issue n n.last_ms n.sequence ts)
    else if now == n.last_ms
    then if sequence == 0 then spin n ts else some (issue n now sequence ts)
    else some (issue n now 0 ts)

-- The ids of `k` calls, one after the other.
unfoldable pub next_ids : ℕ → Node → List ℕ → Option (List ℕ)
next_ids ℕ.zero n ts = some []
next_ids (ℕ.suc k) n ts = elim (next n ts) [
  | none ↦ none
  | some (id, n', ts') ↦ elim (next_ids k n' ts') [ none ↦ none | some ids ↦ some (id ∷ ids) ]
]

-- The id that the state describes: the one that was issued last.
abbrev pub last_id : Node → ℕ
last_id n = compose n.node n.last_ms n.sequence

-- The fields fit their bits.
pub record IsNode (n : Node) : Type 0 where
  pub node : n.node < 1024
  pub sequence : n.sequence < 4096

abbrev seven : Node
seven = record { node = 7; last_ms = epoch_ms + 5; sequence = 4095 }

same_ms :
    next (record seven { sequence = 1 }) ((epoch_ms + 5) ∷ [])
    ≡ some (5 * 2 ^ 22 + 7 * 2 ^ 12 + 2, record seven { sequence = 2 }, [])
unfolding next compose
same_ms = refl

exhausted :
    next seven ((epoch_ms + 5) ∷ (epoch_ms + 5) ∷ (epoch_ms + 6) ∷ [])
    ≡ some (6 * 2 ^ 22 + 7 * 2 ^ 12, record seven { last_ms = epoch_ms + 6; sequence = 0 }, [])
unfolding next spin compose
exhausted = refl
