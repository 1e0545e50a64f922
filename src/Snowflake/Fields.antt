-- ===== src/Snowflake/Fields.antt =====
-- The layout of an id: 41 bits of time, 10 of node, 12 of sequence, without overlap or wrap.
use Prim.Native.Nat.{bit_or}
use link_im.Prelude.{ℕ, ◌+◌, ◌-◌, ◌*◌, ◌/◌, ◌%◌, ◌^◌, ◌≤◌, ◌<◌, ◌≡◌, ◌∙◌, ap, ap₂, arith}
use link_im.Prelude.Bits.{bit_or-add}
use link_im.Snowflake.{epoch_ms, compose}

-- The years that 41 bits of milliseconds reach from the epoch.
abbrev pub InEpoch : ℕ → Type 0
InEpoch ms = (epoch_ms ≤ ms) × (ms < epoch_ms + 2 ^ 41)

pub compose-eq-sum :
    (node ms sequence : ℕ)
    → node < 1024
    → sequence < 4096
    → InEpoch ms
    → compose node ms sequence ≡ (ms - epoch_ms) * 2 ^ 22 + node * 2 ^ 12 + sequence
unfolding compose
compose-eq-sum node ms sequence hn hs hm =
    ap₂ (λ high low. bit_or (bit_or high low) sequence) time_part node_part
    ∙ ap (λ high. bit_or high sequence) (bit_or-add 22 t (node * 2 ^ 12) (omega arith) ∙ regroup)
    ∙ bit_or-add 12 (t * 2 ^ 10 + node) sequence hs
    ∙ omega arith
  where
    t : ℕ
    t = ms - epoch_ms

    time_part : (ms + 2 ^ 64 - epoch_ms) % 2 ^ 64 * 2 ^ 22 % 2 ^ 64 ≡ t * 2 ^ 22
    time_part = omega arith

    node_part : node * 2 ^ 12 % 2 ^ 64 ≡ node * 2 ^ 12
    node_part = omega arith

    regroup : t * 2 ^ 22 + node * 2 ^ 12 ≡ (t * 2 ^ 10 + node) * 2 ^ 12
    regroup = omega arith

-- For a node below 1024, a sequence number below 4096 and a time within 2^41 ms of the epoch, the
-- three can be read back from the id, which is less than 2^63.
pub compose_fields :
    (node ms sequence : ℕ)
    → node < 1024
    → sequence < 4096
    → InEpoch ms
    → (compose node ms sequence / 2 ^ 22 + epoch_ms ≡ ms)
      × (compose node ms sequence / 2 ^ 12 % 2 ^ 10 ≡ node)
      × (compose node ms sequence % 2 ^ 12 ≡ sequence)
      × (compose node ms sequence < 2 ^ 63)
compose_fields node ms sequence hn hs hm = omega (arith, compose-eq-sum node ms sequence hn hs hm)
