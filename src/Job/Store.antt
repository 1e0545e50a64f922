-- ===== src/Job/Store.antt =====
-- internal/job/store.go: the batch loop of the store consumer, its retries and its dead letters.
pub mod Commits
pub mod Pending
pub mod Settled
use link_im.Prelude.{
  ℕ, zero, suc, ◌+◌, ◌*◌, ◌-◌, ◌^◌, Bool, true, false, List, [], ◌∷◌, ◌++◌, Option, none, some, map,
  length, if◌then◌else◌, ltb, leb, ◌==◌,
}
use link_im.Prelude.Int.{ℤ, pos, eq_ℤ}
use link_im.Prelude.Bytes.{Bytes, codes}
use link_im.Service.Conv.{parse_group_conv, conv_type_group}
use link_im.Logic.World.{PbMsg}
use link_im.Job.World.{
  World, KafkaMessage, Statement, Call, exec, members, send, wait, commit, Groups,
}
use link_im.Job.Rows.{
  StoreItem, parse_store_item, group_by_shard, build_message_insert, build_conversation_upsert,
  build_group_conversation_upserts,
}

abbrev pub store_batch_size : ℕ
store_batch_size = 100

abbrev pub store_max_retry : ℕ
store_max_retry = 3

-- milliseconds
abbrev pub store_retry_base : ℕ
store_retry_base = 50

abbrev pub group_conv_batch : ℕ
group_conv_batch = 100

abbrev pub topic_dlq_store : Bytes
topic_dlq_store = codes "dlq.msg.store"

abbrev pub messages_of : List StoreItem → List KafkaMessage
messages_of items = map (λ it. it.km) items

module _ (w : World) where
  -- The loop over the tables; a group with a bad id is skipped.
  unfoldable pub insert_groups : Groups → List Call → Bool × List Call
  insert_groups [] h = (true, h)
  insert_groups ((table, ms) ∷ groups) h = elim (build_message_insert table ms) [
    | none ↦ insert_groups groups h
    | some stmt ↦
        let h' = exec stmt ∷ h in
        let rest = insert_groups groups h' in if w.on_exec h' then rest else (false, h')
  ]

  unfoldable pub insert_messages : List StoreItem → List Call → Bool × List Call
  insert_messages items h = insert_groups (w.order h (group_by_shard w.checksum items)) h

  unfoldable pub exec_all : List Statement → List Call → List Call
  exec_all [] h = h
  exec_all (stmt ∷ stmts) h =
      let h' = exec stmt ∷ h in let rest = exec_all stmts h' in if w.on_exec h' then rest else h'

  abbrev pub upsert_members : PbMsg → Option (List ℤ) → List Call → List Call
  upsert_members msg none h = h
  upsert_members msg (some ms) h =
      exec_all (build_group_conversation_upserts msg ms group_conv_batch) h

  -- Its error is only logged by the caller.
  unfoldable pub upsert_group_conversations : PbMsg → List Call → List Call
  upsert_group_conversations msg h = elim (parse_group_conv msg.conv_id) [
    | none ↦ h
    | some gid ↦ upsert_members msg (w.on_members (members gid ∷ h)) (members gid ∷ h)
  ]

  abbrev pub upsert_item : Option PbMsg → List PbMsg → List Call → List PbMsg × List Call
  upsert_item none p2p h = (p2p, h)
  upsert_item (some msg) p2p h =
      if eq_ℤ msg.conv_type conv_type_group
      then (p2p, upsert_group_conversations msg h)
      else (p2p ++ msg ∷ [], h)

  -- The loop: groups at once, single chats gathered.
  unfoldable pub upsert_items : List StoreItem → List PbMsg → List Call → List PbMsg × List Call
  upsert_items [] p2p h = (p2p, h)
  upsert_items (it ∷ items) p2p h =
      let (p2p', h') = upsert_item it.msg p2p h in upsert_items items p2p' h'

  abbrev pub upsert_chats : List PbMsg → List Call → Bool × List Call
  upsert_chats [] h = (true, h)
  upsert_chats (m ∷ ms) h = elim (build_conversation_upsert (m ∷ ms)) [
    | none ↦ (true, h)
    | some stmt ↦ (w.on_exec (exec stmt ∷ h), exec stmt ∷ h)
  ]

  unfoldable pub upsert_conversations : List StoreItem → List Call → Bool × List Call
  upsert_conversations items h = let (p2p, h') = upsert_items items [] h in upsert_chats p2p h'

  unfoldable pub write_batch : List StoreItem → List Call → Bool × List Call
  write_batch items h =
      let (inserted, h') = insert_messages items h in
      let upserted = upsert_conversations items h' in if inserted then upserted else (false, h')

  -- `left` of the `max` attempts remain; the wait before the next one doubles each time.
  unfoldable pub retry_exec :
      (List Call → Bool × List Call) → ℕ → ℕ → ℕ → List Call → Bool × List Call
  retry_exec fn max base zero h = (true, h)
  retry_exec fn max base (suc left) h =
      let (done, h1) = fn h in
      let h2 = wait (base * 2 ^ (max - suc left)) ∷ h1 in
      let rest = retry_exec fn max base left h2 in
      if done
      then (true, h1)
      else if left == 0
      then (false, h1)
      else if w.on_wait h2
      then rest
      else (false, h2)

  -- An error of Send is only logged.
  unfoldable pub dlq : List StoreItem → List Call → List Call
  dlq [] h = h
  dlq (it ∷ items) h = dlq items (send topic_dlq_store it.km ∷ h)

  abbrev pub settle : List StoreItem → Bool × List Call → List Call
  settle items (true, h) = commit (messages_of items) ∷ h
  settle items (false, h) = commit (messages_of items) ∷ dlq items h

  abbrev pub attempts : List StoreItem → List Call → Bool × List Call
  attempts items h =
      retry_exec (write_batch items) store_max_retry store_retry_base store_max_retry h

  unfoldable pub flush : List StoreItem → List Call → List Call
  flush [] h = h
  flush (it ∷ items) h = settle (it ∷ items) (attempts (it ∷ items) h)

  -- What the select of the loop finds: a message, the ticker, the closed channel, or the
  -- cancelled context with the messages that are still in the channel.
  pub data Event : Type 0 where
    received : KafkaMessage → Event
    tick : Event
    closed : Event
    cancelled : List KafkaMessage → Event

  abbrev pub parsed : List KafkaMessage → List StoreItem
  parsed kms = map (parse_store_item w.unmarshal_msg) kms

  -- The pending items and the calls after the events; the loop has returned at `closed` or
  -- `cancelled`.
  unfoldable pub batch_loop : List Event → List StoreItem → List Call → List StoreItem × List Call
  batch_loop [] pending h = (pending, h)
  batch_loop (received km ∷ events) pending h =
      let pending' = pending ++ parse_store_item w.unmarshal_msg km ∷ [] in
      let full = batch_loop events [] (flush pending' h) in
      let rest = batch_loop events pending' h in
      if leb store_batch_size (length pending') then full else rest
  batch_loop (tick ∷ events) pending h = batch_loop events [] (flush pending h)
  batch_loop (closed ∷ events) pending h = ([], flush pending h)
  batch_loop (cancelled kms ∷ events) pending h = ([], flush (pending ++ parsed kms) h)
