-- ===== src/Snowflake/Order.antt =====
-- Ids ascend strictly as long as the clock does not go back.
use Prim.Native.Nat.{bit_and}
use link_im.Prelude.{
  ℕ, zero, suc, ◌+◌, ◌≤◌, ◌<◌, List, [], ◌∷◌, Option, none, some, ◌≡◌, ◌⊎◌, inl, inr, arith, refl,
  sym, subst, leb, ltb, ◌==◌, if◌then◌else◌, Bool-cases, Option-cases, le→ltb, leb→le,
}
use link_im.Prelude.Bits.{bit_and_4095}
use link_im.Snowflake.{Node, issue, max_sequence, compose, spin, next, next_ids, last_id, IsNode}
use link_im.Snowflake.Fields.{InEpoch, compose-eq-sum}

-- Readings that never fall, from `low` on, all within the years of the layout.
abbrev pub Ascending : ℕ → List ℕ → Type 0
Ascending low [] = Unit
Ascending low (t ∷ ts) = (low ≤ t) × InEpoch t × Ascending t ts

-- What a call does to the state: later time, or the same time and a later sequence number.
record Advances (n : Node) (id : ℕ) (n' : Node) (ts' : List ℕ) : Type 0 where
  issued : id ≡ last_id n'
  same_node : n'.node ≡ n.node
  valid : IsNode n'
  in_epoch : InEpoch n'.last_ms
  later : (n.last_ms < n'.last_ms) ⊎ ((n.last_ms ≡ n'.last_ms) × (n.sequence < n'.sequence))
  ahead : Ascending n'.last_ms ts'

issue-Advances :
    (n : Node) (now sequence : ℕ) (ts : List ℕ)
    → IsNode n
    → sequence < 4096
    → InEpoch now
    → Ascending now ts
    → (n.last_ms < now) ⊎ ((n.last_ms ≡ now) × (n.sequence < sequence))
    → Advances n (compose n.node now sequence) (record n { last_ms = now; sequence = sequence }) ts
issue-Advances n now sequence ts v s e a l = record {
  issued = refl;
  same_node = refl;
  valid = record { node = v.node; sequence = s };
  in_epoch = e;
  later = l;
  ahead = a;
}

-- A call that is still waiting says nothing.
abbrev AdvancesIf : Node → Option (ℕ × Node × List ℕ) → Type 0
AdvancesIf n none = Unit
AdvancesIf n (some (id, n', ts')) = Advances n id n' ts'

spin-AdvancesIf :
    (n : Node) (low : ℕ) (ts : List ℕ) → IsNode n → Ascending low ts → AdvancesIf n (spin n ts)
unfolding spin
spin-AdvancesIf n low [] v a = tt
spin-AdvancesIf n low (t ∷ ts) v (l, e, a) = elim (Bool-cases (leb t n.last_ms)) [
  | inl h ↦ rw h (spin-AdvancesIf n t ts v a)
  | inr h ↦ rw h (issue-Advances n t 0 ts v (omega arith) e a (inl (ground arith)))
]

-- The case of a further call in the same millisecond.
count-AdvancesIf :
    (n : Node) (t : ℕ) (ts : List ℕ)
    → IsNode n
    → InEpoch t
    → Ascending t ts
    → n.last_ms ≡ t
    → AdvancesIf n (
        if bit_and (n.sequence + 1) max_sequence == 0
        then spin n ts
        else some (issue n t (bit_and (n.sequence + 1) max_sequence) ts))
count-AdvancesIf n t ts v e a same =
    elim (Bool-cases (bit_and (n.sequence + 1) max_sequence == 0)) [
      | inl h ↦ rw h (spin-AdvancesIf n t ts v a)
      | inr h ↦ rw h (
          issue-Advances n t (bit_and (n.sequence + 1) max_sequence) ts v
            (omega (arith, bit_and_4095 (n.sequence + 1))) e a
            (inr (same, ground (arith, bit_and_4095 (n.sequence + 1), v.sequence))))
    ]

next-AdvancesIf :
    (n : Node) (ts : List ℕ) → IsNode n → Ascending n.last_ms ts → AdvancesIf n (next n ts)
unfolding next
next-AdvancesIf n [] v a = tt
next-AdvancesIf n (t ∷ ts) v (l, e, a) =
    rw (le→ltb t n.last_ms l) (elim (Bool-cases (t == n.last_ms)) [
      | inl h ↦ rw h (count-AdvancesIf n t ts v e a (ground arith))
      | inr h ↦ rw h (issue-Advances n t 0 ts v (omega arith) e a (inl (ground arith)))
    ])

next-Advances :
    (n : Node) (ts : List ℕ) {id : ℕ} {n' : Node} {ts' : List ℕ}
    → IsNode n
    → Ascending n.last_ms ts
    → next n ts ≡ some (id, n', ts')
    → Advances n id n' ts'
next-Advances n ts v a h = subst (AdvancesIf n) h (next-AdvancesIf n ts v a)

last_id-lt :
    (n n' : Node)
    → IsNode n
    → IsNode n'
    → InEpoch n.last_ms
    → InEpoch n'.last_ms
    → n'.node ≡ n.node
    → (n.last_ms < n'.last_ms) ⊎ ((n.last_ms ≡ n'.last_ms) × (n.sequence < n'.sequence))
    → last_id n < last_id n'
last_id-lt n n' v v' e e' same l = omega (
  arith,
  compose-eq-sum n.node n.last_ms n.sequence v.node v.sequence e,
  compose-eq-sum n'.node n'.last_ms n'.sequence v'.node v'.sequence e',
)

-- Each id is above the one before, the first above `low`.
abbrev pub Increasing : ℕ → List ℕ → Type 0
Increasing low [] = Unit
Increasing low (id ∷ ids) = (low < id) × Increasing id ids

abbrev IncreasingIf : ℕ → Option (List ℕ) → Type 0
IncreasingIf low none = Unit
IncreasingIf low (some ids) = Increasing low ids

IncreasingIf-cons :
    (low id : ℕ) (rest : Option (List ℕ))
    → low < id
    → IncreasingIf id rest
    → IncreasingIf low (elim rest [ none ↦ none | some ids ↦ some (id ∷ ids) ])
IncreasingIf-cons low id none h r = tt
IncreasingIf-cons low id (some ids) h r = (h, r)

next_ids-IncreasingIf :
    (k : ℕ) (n : Node) (ts : List ℕ)
    → IsNode n
    → InEpoch n.last_ms
    → Ascending n.last_ms ts
    → IncreasingIf (last_id n) (next_ids k n ts)
unfolding next_ids
next_ids-IncreasingIf zero n ts v e a = tt
next_ids-IncreasingIf (suc k) n ts v e a = elim (Option-cases (next n ts)) [
  | inl h ↦ rw (h, next_ids) tt
  | inr ((id, n', ts'), h) ↦
      let s = next-Advances n ts v a h in
      let more = next_ids-IncreasingIf k n' ts' s.valid s.in_epoch s.ahead in
      let step = last_id-lt n n' v s.valid e s.in_epoch s.same_node s.later in
      rw (h, next_ids)
        (IncreasingIf-cons (last_id n) id (next_ids k n' ts')
          (subst (λ x. last_id n < x) (sym s.issued) step)
          (subst (λ x. IncreasingIf x (next_ids k n' ts')) (sym s.issued) more))
]

-- If the fields of a node fit their bits, and the clock does not go back and stays within 2^41 ms
-- of the epoch, then the ids that the node issues after its last one ascend strictly from that
-- one.
pub next_ids-Increasing :
    (k : ℕ) (n : Node) (ts ids : List ℕ)
    → IsNode n
    → InEpoch n.last_ms
    → Ascending n.last_ms ts
    → next_ids k n ts ≡ some ids
    → Increasing (last_id n) ids
next_ids-Increasing k n ts ids v e a h =
    subst (IncreasingIf (last_id n)) h (next_ids-IncreasingIf k n ts v e a)

-- A reading above `low` is to come.
abbrev pub HasLater : ℕ → List ℕ → Type 0
HasLater low [] = ⊥
HasLater low (t ∷ ts) = (low < t) ⊎ HasLater low ts

waits : (low t : ℕ) (ts : List ℕ) → (low < t) ⊎ HasLater low ts → t ≤ low → HasLater low ts
waits low t ts (inl k) w = absurd (omega arith)
waits low t ts (inr k) w = k

spin-returns :
    (n : Node) (ts : List ℕ)
    → HasLater n.last_ms ts
    → (r : ℕ × Node × List ℕ) × (spin n ts ≡ some r)
unfolding spin
spin-returns n [] h = absurd h
spin-returns n (t ∷ ts) h = elim (Bool-cases (leb t n.last_ms)) [
  | inl w ↦ rw w (spin-returns n ts (waits n.last_ms t ts h (leb→le t n.last_ms w)))
  | inr w ↦ (issue n t 0 ts, rw w)
]

-- A call ends as soon as a reading of the clock lies beyond the last issued time.
pub next-returns :
    (n : Node) (ts : List ℕ)
    → HasLater n.last_ms ts
    → (r : ℕ × Node × List ℕ) × (next n ts ≡ some r)
unfolding next
next-returns n [] h = absurd h
next-returns n (t ∷ ts) h = elim (Bool-cases (ltb t n.last_ms)) [
  | inl w ↦ (issue n n.last_ms n.sequence ts, rw w)
  | inr w ↦ elim (Bool-cases (t == n.last_ms)) [
    | inr q ↦ (issue n t 0 ts, rw (w, q))
    | inl q ↦ elim (Bool-cases (bit_and (n.sequence + 1) max_sequence == 0)) [
      | inl z ↦ rw (w, q, z) (spin-returns n ts (waits n.last_ms t ts h (ground arith)))
      | inr z ↦ (issue n t (bit_and (n.sequence + 1) max_sequence) ts, rw (w, q, z))
    ]
  ]
]
