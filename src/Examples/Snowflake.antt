-- ===== src/Examples/Snowflake.antt =====
-- A node that has issued an id five milliseconds after the epoch.
use link_im.Prelude.{
  ℕ, ◌+◌, ◌*◌, ◌/◌, ◌%◌, ◌^◌, ◌<◌, List, [], ◌∷◌, some, ◌≡◌, refl, arith, inl, inr,
}
use link_im.Snowflake.{Node, epoch_ms, compose, next, next_ids, spin, last_id, IsNode}
use link_im.Snowflake.Fields.{compose_fields}
use link_im.Snowflake.Order.{Ascending, Increasing, next_ids-Increasing, next-returns}
use link_im.Snowflake.Rollback.{next_after_rollback}

abbrev five : Node
five = record { node = 7; last_ms = epoch_ms + 5; sequence = 4095 }

five-IsNode : IsNode five
five-IsNode = record { node = omega arith; sequence = omega arith }

abbrev readings : List ℕ
readings = (epoch_ms + 5) ∷ (epoch_ms + 6) ∷ (epoch_ms + 6) ∷ []

abbrev sixth : ℕ
sixth = 6 * 2 ^ 22 + 7 * 2 ^ 12

two_issued : next_ids 2 five readings ≡ some (sixth ∷ (sixth + 1) ∷ [])
unfolding next_ids next spin compose
two_issued = refl

readings-Ascending : Ascending (epoch_ms + 5) readings
readings-Ascending = (
  omega arith,
  (omega arith, omega arith),
  (omega arith, (omega arith, omega arith), (omega arith, (omega arith, omega arith), tt)),
)

next_ids-Increasing_example : Increasing (last_id five) (sixth ∷ (sixth + 1) ∷ [])
next_ids-Increasing_example =
    next_ids-Increasing 2 five readings (sixth ∷ (sixth + 1) ∷ []) five-IsNode
      (omega arith, omega arith) readings-Ascending two_issued

next-returns_example : (r : ℕ × Node × List ℕ) × (next five readings ≡ some r)
next-returns_example = next-returns five readings (inr (inl (omega arith)))

compose_fields_example :
    (compose 7 (epoch_ms + 6) 1 / 2 ^ 22 + epoch_ms ≡ epoch_ms + 6)
    × (compose 7 (epoch_ms + 6) 1 / 2 ^ 12 % 2 ^ 10 ≡ 7)
    × (compose 7 (epoch_ms + 6) 1 % 2 ^ 12 ≡ 1)
    × (compose 7 (epoch_ms + 6) 1 < 2 ^ 63)
compose_fields_example =
    compose_fields 7 (epoch_ms + 6) 1 (omega arith) (omega arith) (omega arith, omega arith)

abbrev six : Node
six = record { node = 7; last_ms = epoch_ms + 6; sequence = 0 }

one_issued :
    next five ((epoch_ms + 6) ∷ (epoch_ms + 4) ∷ []) ≡ some (sixth, six, (epoch_ms + 4) ∷ [])
unfolding next spin compose
one_issued = refl

next_after_rollback_example : next six ((epoch_ms + 4) ∷ []) ≡ some (sixth, six, [])
next_after_rollback_example =
    next_after_rollback five ((epoch_ms + 6) ∷ (epoch_ms + 4) ∷ []) sixth six (epoch_ms + 4) []
      one_issued (omega arith)
