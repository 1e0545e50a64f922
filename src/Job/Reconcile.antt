-- ===== src/Job/Reconcile.antt =====
-- ReconcileOnce of internal/job/reconcile.go: the loop over the cursor of SCAN. The answers of SCAN
-- come as a list, `none` for an error, with the next cursor; `running` is the loop after the last
-- of them.
use link_im.Prelude.{ℕ, ◌+◌, List, [], ◌∷◌, Option, none, some, ◌==◌, if◌then◌else◌}
use link_im.Prelude.Bytes.{Bytes}
use link_im.Job.Push.{PushWorld, PushCall, reconcile_hash}

pub data Pass : Type 0 where
  finished : ℕ → Pass
  scan_failed : ℕ → Pass
  running : Pass

abbrev or_none : Option ℕ → ℕ
or_none none = 0
or_none (some n) = n

module _ (w : PushWorld) where
  -- The keys of one answer; a hash that fails is passed over.
  unfoldable pub reconcile_keys : List Bytes → ℕ × List PushCall → ℕ × List PushCall
  reconcile_keys [] (removed, h) = (removed, h)
  reconcile_keys (key ∷ keys) (removed, h) =
      let (n, h') = reconcile_hash w key h in reconcile_keys keys (removed + or_none n, h')

  unfoldable pub reconcile_once :
      List (Option (List Bytes × ℕ)) → ℕ × List PushCall → Pass × List PushCall
  reconcile_once [] (removed, h) = (running, h)
  reconcile_once (none ∷ answers) (removed, h) = (scan_failed removed, h)
  reconcile_once (some (keys, next) ∷ answers) (removed, h) =
      let (n, h') = reconcile_keys keys (removed, h) in
      let rest = reconcile_once answers (n, h') in if next == 0 then (finished n, h') else rest
