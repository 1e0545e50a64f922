-- ===== src/Job/RunLoop.antt =====
-- internal/job/runloop.go: the loop that fetches, handles and commits, and the one that passes
-- messages to the store. What FetchMessage returns is a list of events; the handler and the
-- commit act on a state, and answer true for nil. `cancelled` is whether the context has ended.
pub mod Commits
use link_im.Prelude.{Bool, true, false, List, [], ◌∷◌, ◌++◌, Option, none, some, if◌then◌else◌}
use link_im.Job.World.{KafkaMessage}

pub data Fetch : Type 0 where
  fetched : KafkaMessage → Fetch
  fetch_failed : Fetch

-- How a loop ends; `running` is the loop after the last event of the list.
pub data Exit : Type 0 where
  returned_nil returned_err running : Exit

pub record Consumer (S : Type 0) : Type 0 where
  pub handle : KafkaMessage → S → Bool × S
  pub commit : KafkaMessage → S → Bool × S
  pub cancelled : S → Bool

-- What a loop leaves: how it ended, the messages whose commits were called, in order, and the state.
pub record Run (S : Type 0) : Type 0 where
  pub exit : Exit
  pub committed : List KafkaMessage
  pub state : S

module _ {S : Type 0} (c : Consumer S) where
  abbrev pub stopped : S → Run S
  stopped s = record {
    exit = if c.cancelled s then returned_nil else returned_err;
    committed = [];
    state = s;
  }

  abbrev pub after_commit : KafkaMessage → Run S → Run S
  after_commit km r = record r { committed = km ∷ r.committed }

  unfoldable pub run_loop : List Fetch → S → Run S
  run_loop [] s = record { exit = running; committed = []; state = s }
  run_loop (fetch_failed ∷ es) s = stopped s
  run_loop (fetched km ∷ es) s =
      let handled = c.handle km s in
      let done = c.commit km handled.1 in
      let skipped = run_loop es handled.1 in
      let rest = run_loop es done.1 in
      if handled.0 then after_commit km (if done.0 then rest else stopped done.1) else skipped

-- StoreRunLoop: the messages that reach the channel; false is the end of the context in the select.
unfoldable pub store_run_loop : List (Fetch × Bool) → List KafkaMessage
store_run_loop [] = []
store_run_loop ((fetch_failed, sent) ∷ es) = []
store_run_loop ((fetched km, false) ∷ es) = []
store_run_loop ((fetched km, true) ∷ es) = km ∷ store_run_loop es
