-- ===== src/Job/Rows/Batches.antt =====
-- The batches of a group's conversation rows.
use link_im.Prelude.{
  ℕ, zero, suc, ◌≤◌, ◌<◌, List, [], ◌∷◌, ◌++◌, ◌≡◌, ◌∙◌, refl, sym, ap, arith, map, length, take,
  drop, All, take-append-drop, length-drop,
}
use link_im.Prelude.Int.{ℤ}
use link_im.Logic.World.{PbMsg}
use link_im.Job.World.{ConvRow, Statement, insert_ignore, upsert}
use link_im.Job.Rows.{group_row, batches_from, build_group_conversation_upserts}

abbrev pub conv_rows : Statement → List ConvRow
conv_rows (insert_ignore table rows) = []
conv_rows (upsert rows) = rows

-- The rows of several statements, one after the other.
abbrev pub all_rows : List Statement → List ConvRow
all_rows [] = []
all_rows (s ∷ ss) = conv_rows s ++ all_rows ss

abbrev pub IsBatch : ℕ → Statement → Type 0
IsBatch batch s = (0 < length (conv_rows s)) × (length (conv_rows s) ≤ batch)

map-append :
    (m : PbMsg) (us vs : List ℤ)
    → map (group_row m) (us ++ vs) ≡ map (group_row m) us ++ map (group_row m) vs
map-append m [] vs = refl
map-append m (u ∷ us) vs = ap (λ l. group_row m u ∷ l) (map-append m us vs)

length-map : (m : PbMsg) (us : List ℤ) → length (map (group_row m) us) ≡ length us
length-map m [] = refl
length-map m (u ∷ us) = ap suc (length-map m us)

length-take_bound : (n : ℕ) (u : ℤ) (us : List ℤ) → length (take n us) ≤ n
length-take_bound zero u us = omega arith
length-take_bound (suc n) u [] = omega arith
length-take_bound (suc n) u (v ∷ us) = omega (arith, length-take_bound n u us)

batches_from-rows :
    (fuel : ℕ) (m : PbMsg) (us : List ℤ) (batch : ℕ)
    → length us ≤ fuel
    → 0 < batch
    → (all_rows (batches_from fuel m us batch) ≡ map (group_row m) us)
      × All (IsBatch batch) (batches_from fuel m us batch)
unfolding batches_from
batches_from-rows zero m [] batch h b = (refl, tt)
batches_from-rows zero m (u ∷ us) batch h b = absurd (omega arith)
batches_from-rows (suc fuel) m [] batch h b = (refl, tt)
batches_from-rows (suc fuel) m (u ∷ us) zero h b = absurd (omega arith)
batches_from-rows (suc fuel) m (u ∷ us) (suc n) h b =
    let rest = drop n us in
    let (rows, sizes) = batches_from-rows fuel m rest (suc n) (omega (arith, length-drop n us)) b in
    (
      ap (λ l. map (group_row m) (u ∷ take n us) ++ l) rows
          ∙ sym (map-append m (u ∷ take n us) rest)
          ∙ ap (λ l. map (group_row m) (u ∷ l)) (take-append-drop n us),
      ((omega arith, omega (arith, length-map m (take n us), length-take_bound n u us)), sizes),
    )

-- With a positive batch size, the statements for a group message have together exactly one row
-- for each member, in the order of the members, and each statement has at least one row and at
-- most the batch size.
pub build_group_conversation_upserts_rows :
    (m : PbMsg) (members : List ℤ) (batch : ℕ)
    → 0 < batch
    → (all_rows (build_group_conversation_upserts m members batch) ≡ map (group_row m) members)
      × All (IsBatch batch) (build_group_conversation_upserts m members batch)
build_group_conversation_upserts_rows m members batch b =
    batches_from-rows (length members) m members batch (omega arith) b
