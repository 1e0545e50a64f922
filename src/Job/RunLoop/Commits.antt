-- ===== src/Job/RunLoop/Commits.antt =====
-- What RunLoop of internal/job/runloop.go commits.
use link_im.Prelude.{true, List, [], ◌∷◌, ◌≡◌}
use link_im.Job.World.{KafkaMessage}
use link_im.Job.RunLoop.{Fetch, fetched, fetch_failed, Consumer}

-- The messages of a list of events, and the first list as a part of the second, in its order.
abbrev pub messages_of : List Fetch → List KafkaMessage
messages_of [] = []
messages_of (fetch_failed ∷ es) = []
messages_of (fetched km ∷ es) = km ∷ messages_of es

pub data Sublist : List KafkaMessage → List KafkaMessage → Type 0 where
  none_left : (ys : List KafkaMessage) → Sublist [] ys
  taken : (x : KafkaMessage) (xs ys : List KafkaMessage) → Sublist xs ys → Sublist (x ∷ xs) (x ∷ ys)
  passed : (y : KafkaMessage) (xs ys : List KafkaMessage) → Sublist xs ys → Sublist xs (y ∷ ys)

-- A message that the handler took, in some state of the loop.
abbrev pub Handled : {S : Type 0} → Consumer S → KafkaMessage → Type 0
Handled {S} c km = (s : S) × ((c.handle km s).0 ≡ true)
