-- ===== src/Job/Store/Pending.antt =====
-- How much the batch loop keeps back.
use link_im.Prelude.{
  ℕ, ◌<◌, false, List, [], ◌∷◌, ◌++◌, ◌≡◌, arith, inl, inr, Bool-cases, length, leb,
}
use link_im.Job.World.{World, Call}
use link_im.Job.Rows.{StoreItem, parse_store_item}
use link_im.Job.Store.{
  flush, Event, received, tick, closed, cancelled, batch_loop, store_batch_size,
}

not_full : (n : ℕ) → leb store_batch_size n ≡ false → n < store_batch_size
not_full n h = ground arith

-- If fewer than a hundred messages are pending, fewer than a hundred are pending after any
-- events: a full batch is always flushed at once.
pub batch_loop_bound :
    (w : World) (events : List (Event w)) (pending : List StoreItem) (h : List Call)
    → length pending < store_batch_size
    → length (batch_loop w events pending h).0 < store_batch_size
unfolding batch_loop
batch_loop_bound w [] pending h b = b
batch_loop_bound w (received km ∷ events) pending h b =
    let pending' = pending ++ parse_store_item w.unmarshal_msg km ∷ [] in
    elim (Bool-cases (leb store_batch_size (length pending'))) [
      | inl e ↦ rw e (batch_loop_bound w events [] (flush w pending' h) (omega arith))
      | inr e ↦ rw e (batch_loop_bound w events pending' h (not_full (length pending') e))
    ]
batch_loop_bound w (tick ∷ events) pending h b =
    batch_loop_bound w events [] (flush w pending h) (omega arith)
batch_loop_bound w (closed ∷ events) pending h b = omega arith
batch_loop_bound w (cancelled kms ∷ events) pending h b = omega arith
