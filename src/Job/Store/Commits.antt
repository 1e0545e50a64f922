-- ===== src/Job/Store/Commits.antt =====
-- Which Kafka messages the store consumer commits.
use link_im.Prelude.{
  ℕ, zero, suc, Bool, true, false, List, [], ◌∷◌, ◌++◌, Option, none, some, ◌≡◌, ◌∙◌, refl, sym, ap,
  inl, inr, Bool-cases, Option-cases, append_assoc, append-nil, length, leb, ◌==◌, ◌-◌, ◌*◌, ◌^◌,
}
use link_im.Prelude.Int.{ℤ, eq_ℤ}
use link_im.Service.Conv.{parse_group_conv, conv_type_group}
use link_im.Logic.World.{PbMsg}
use link_im.Job.World.{
  World, KafkaMessage, Statement, Call, exec, members, send, wait, commit, Groups,
}
use link_im.Job.Rows.{
  StoreItem, parse_store_item, group_by_shard, build_message_insert, build_conversation_upsert,
  build_group_conversation_upserts,
}
use link_im.Job.Store.{
  insert_groups, insert_messages, exec_all, upsert_members, upsert_group_conversations, upsert_item,
  upsert_items, upsert_chats, upsert_conversations, write_batch, retry_exec, dlq, settle, attempts,
  flush, Event, received, tick, closed, cancelled, parsed, batch_loop, messages_of, topic_dlq_store,
  group_conv_batch, store_max_retry, store_retry_base, store_batch_size,
}

-- The messages of all commits, the earliest first.
unfoldable pub committed : List Call → List KafkaMessage
committed [] = []
committed (commit kms ∷ h) = committed h ++ kms
committed (exec s ∷ h) = committed h
committed (members g ∷ h) = committed h
committed (send t km ∷ h) = committed h
committed (wait n ∷ h) = committed h

abbrev Silent : List Call → List Call → Type 0
Silent h h' = committed h' ≡ committed h

module _ (w : World) where
  insert_groups-Silent : (groups : Groups) (h : List Call) → Silent h (insert_groups w groups h).1
  unfolding insert_groups committed
  insert_groups-Silent [] h = refl
  insert_groups-Silent ((table, ms) ∷ groups) h =
      elim (Option-cases (build_message_insert table ms)) [
        | inl e ↦ rw (e, insert_groups) (insert_groups-Silent groups h)
        | inr (stmt, e) ↦ elim (Bool-cases (w.on_exec (exec stmt ∷ h))) [
          | inl d ↦ rw (e, insert_groups, d) (insert_groups-Silent groups (exec stmt ∷ h))
          | inr d ↦ rw (e, insert_groups, d) refl
        ]
      ]

  exec_all-Silent : (stmts : List Statement) (h : List Call) → Silent h (exec_all w stmts h)
  unfolding exec_all committed
  exec_all-Silent [] h = refl
  exec_all-Silent (stmt ∷ stmts) h = elim (Bool-cases (w.on_exec (exec stmt ∷ h))) [
    | inl d ↦ rw d (exec_all-Silent stmts (exec stmt ∷ h))
    | inr d ↦ rw d refl
  ]

  members-Silent :
      (msg : PbMsg) (o : Option (List ℤ)) (h : List Call) → Silent h (upsert_members w msg o h)
  members-Silent msg none h = refl
  members-Silent msg (some ms) h =
      exec_all-Silent (build_group_conversation_upserts msg ms group_conv_batch) h

  group-Silent : (msg : PbMsg) (h : List Call) → Silent h (upsert_group_conversations w msg h)
  unfolding upsert_group_conversations committed
  group-Silent msg h = elim (Option-cases (parse_group_conv msg.conv_id)) [
    | inl e ↦ rw (e, upsert_group_conversations) refl
    | inr (gid, e) ↦
        rw (e, upsert_group_conversations)
          (members-Silent msg (w.on_members (members gid ∷ h)) (members gid ∷ h))
  ]

  item-Silent :
      (o : Option PbMsg) (p2p : List PbMsg) (h : List Call) → Silent h (upsert_item w o p2p h).1
  item-Silent none p2p h = refl
  item-Silent (some msg) p2p h = elim (Bool-cases (eq_ℤ msg.conv_type conv_type_group)) [
    | inl e ↦ rw e (group-Silent msg h)
    | inr e ↦ rw e refl
  ]

  items-Silent :
      (items : List StoreItem) (p2p : List PbMsg) (h : List Call)
      → Silent h (upsert_items w items p2p h).1
  unfolding upsert_items
  items-Silent [] p2p h = refl
  items-Silent (it ∷ items) p2p h =
      let (p2p', h') = upsert_item w it.msg p2p h in
      items-Silent items p2p' h' ∙ item-Silent it.msg p2p h

  chats-Silent : (ms : List PbMsg) (h : List Call) → Silent h (upsert_chats w ms h).1
  unfolding committed
  chats-Silent [] h = refl
  chats-Silent (m ∷ ms) h = elim (Option-cases (build_conversation_upsert (m ∷ ms))) [
    | inl e ↦ rw (e, upsert_chats) refl
    | inr (stmt, e) ↦ rw (e, upsert_chats) refl
  ]

  write_batch-Silent : (items : List StoreItem) (h : List Call) → Silent h (write_batch w items h).1
  unfolding write_batch insert_messages upsert_conversations
  write_batch-Silent items h =
      let groups = w.order h (group_by_shard w.checksum items) in
      let h' = (insert_groups w groups h).1 in
      let inserted = insert_groups-Silent groups h in
      let gathered = upsert_items w items [] h' in
      elim (Bool-cases (insert_groups w groups h).0) [
        | inl e ↦ rw e (chats-Silent gathered.0 gathered.1 ∙ items-Silent items [] h' ∙ inserted)
        | inr e ↦ rw e inserted
      ]

  retry-Silent :
      (fn : List Call → Bool × List Call) (max base left : ℕ) (h : List Call)
      → ((g : List Call) → Silent g (fn g).1)
      → Silent h (retry_exec w fn max base left h).1
  unfolding retry_exec committed
  retry-Silent fn max base zero h s = refl
  retry-Silent fn max base (suc left) h s =
      let h1 = (fn h).1 in
      let h2 = wait (base * 2 ^ (max - suc left)) ∷ h1 in
      elim (Bool-cases (fn h).0) [
        | inl e ↦ rw e (s h)
        | inr e ↦ elim (Bool-cases (left == 0)) [
          | inl z ↦ rw (e, z) (s h)
          | inr z ↦ elim (Bool-cases (w.on_wait h2)) [
            | inl t ↦ rw (e, z, t) (retry-Silent fn max base left h2 s ∙ s h)
            | inr t ↦ rw (e, z, t) (s h)
          ]
        ]
      ]

  dlq-Silent : (items : List StoreItem) (h : List Call) → Silent h (dlq w items h)
  unfolding dlq committed
  dlq-Silent [] h = refl
  dlq-Silent (it ∷ items) h = dlq-Silent items (send topic_dlq_store it.km ∷ h)

  settle-committed :
      (items : List StoreItem) (r : Bool × List Call) (h : List Call)
      → Silent h r.1
      → committed (settle w items r) ≡ committed h ++ messages_of items
  unfolding committed
  settle-committed items (true, g) h s = ap (λ c. c ++ messages_of items) s
  settle-committed items (false, g) h s = ap (λ c. c ++ messages_of items) (dlq-Silent items g ∙ s)

  -- A flush commits its batch once, and nothing else, whatever the database and Kafka answer.
  pub flush-committed :
      (items : List StoreItem) (h : List Call)
      → committed (flush w items h) ≡ committed h ++ messages_of items
  unfolding flush
  flush-committed [] h = sym (append-nil (committed h))
  flush-committed (it ∷ items) h = settle-committed (it ∷ items) (attempts w (it ∷ items) h) h (
      retry-Silent (write_batch w (it ∷ items)) store_max_retry store_retry_base store_max_retry h
        (write_batch-Silent (it ∷ items)))

  -- The messages that the loop takes before it returns.
  unfoldable pub consumed : List (Event w) → List KafkaMessage
  consumed [] = []
  consumed (received km ∷ events) = km ∷ consumed events
  consumed (tick ∷ events) = consumed events
  consumed (closed ∷ events) = []
  consumed (cancelled kms ∷ events) = kms

  messages_of-append :
      (items rest : List StoreItem)
      → messages_of (items ++ rest) ≡ messages_of items ++ messages_of rest
  messages_of-append [] rest = refl
  messages_of-append (it ∷ items) rest = ap (λ l. it.km ∷ l) (messages_of-append items rest)

  messages_of-parsed : (kms : List KafkaMessage) → messages_of (parsed w kms) ≡ kms
  unfolding parse_store_item
  messages_of-parsed [] = refl
  messages_of-parsed (km ∷ kms) = ap (λ l. km ∷ l) (messages_of-parsed kms)

  messages_of-pending :
      (pending : List StoreItem) (km : KafkaMessage) (rest : List KafkaMessage)
      → messages_of (pending ++ parse_store_item w.unmarshal_msg km ∷ []) ++ rest
        ≡ messages_of pending ++ km ∷ rest
  unfolding parse_store_item
  messages_of-pending pending km rest =
      ap (λ l. l ++ rest) (messages_of-append pending (parse_store_item w.unmarshal_msg km ∷ []))
      ∙ append_assoc (messages_of pending) (km ∷ []) rest

  -- What is committed before and after some events, with what is still pending.
  abbrev Accounted : List Call → List KafkaMessage → List StoreItem × List Call → Type 0
  Accounted h kms (pending, h') = committed h' ++ messages_of pending ≡ committed h ++ kms

  flushed :
      (pending : List StoreItem) (h : List Call) (kms : List KafkaMessage)
      (r : List StoreItem × List Call)
      → Accounted (flush w pending h) kms r
      → Accounted h (messages_of pending ++ kms) r
  flushed pending h kms (p, h') a =
      a
      ∙ ap (λ c. c ++ kms) (flush-committed pending h)
      ∙ append_assoc (committed h) (messages_of pending) kms

  -- Every message that the loop takes is committed exactly once, in the order in which the
  -- messages came, except those that are still pending; so all of them once the loop has
  -- returned. This holds whatever the database, Kafka and the context answer.
  pub batch_loop-committed :
      (events : List (Event w)) (pending : List StoreItem) (h : List Call)
      → committed (batch_loop w events pending h).1 ++ messages_of (batch_loop w events pending h).0
        ≡ committed h ++ (messages_of pending ++ consumed events)
  unfolding batch_loop consumed
  batch_loop-committed [] pending h =
      ap (λ l. committed h ++ l) (sym (append-nil (messages_of pending)))
  batch_loop-committed (received km ∷ events) pending h =
      let pending' = pending ++ parse_store_item w.unmarshal_msg km ∷ [] in
      let grown = ap (λ l. committed h ++ l) (messages_of-pending pending km (consumed events)) in
      elim (Bool-cases (leb store_batch_size (length pending'))) [
        | inl e ↦ rw e (
            flushed pending' h (consumed events) (batch_loop w events [] (flush w pending' h))
              (batch_loop-committed events [] (flush w pending' h))
            ∙ grown)
        | inr e ↦ rw e (batch_loop-committed events pending' h ∙ grown)
      ]
  batch_loop-committed (tick ∷ events) pending h =
      flushed pending h (consumed events) (batch_loop w events [] (flush w pending h))
        (batch_loop-committed events [] (flush w pending h))
  batch_loop-committed (closed ∷ events) pending h =
      ap (λ l. l ++ []) (flush-committed pending h)
      ∙ append_assoc (committed h) (messages_of pending) []
  batch_loop-committed (cancelled kms ∷ events) pending h =
      append-nil (committed (flush w (pending ++ parsed w kms) h))
      ∙ flush-committed (pending ++ parsed w kms) h
      ∙ ap (λ l. committed h ++ l)
          (messages_of-append pending (parsed w kms)
            ∙ ap (λ l. messages_of pending ++ l) (messages_of-parsed kms))
