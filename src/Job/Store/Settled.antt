-- ===== src/Job/Store/Settled.antt =====
-- What a flush has done with its batch when it commits it.
use link_im.Prelude.{
  ℕ, zero, suc, ◌-◌, ◌*◌, ◌^◌, ◌<◌, Bool, true, false, List, [], ◌∷◌, none, some, ◌≡◌, ◌⊎◌, ◌∙◌,
  refl, sym, ap, subst, arith, inl, inr, Bool-cases, Option-cases, map, All, ◌==◌, ◌&&◌,
  if◌then◌else◌,
}
use link_im.Prelude.Bytes.{Bytes}
use link_im.Logic.World.{PbMsg}
use link_im.Job.World.{World, Statement, Call, exec, send, wait, commit, Groups}
use link_im.Job.Rows.{StoreItem, group_by_shard, build_message_insert}
use link_im.Job.Store.{
  insert_groups, insert_messages, write_batch, retry_exec, dlq, settle, attempts, flush,
  messages_of, topic_dlq_store, store_max_retry, store_retry_base,
}

-- The calls of the dead letters, the latest first.
abbrev pub onto : List Call → List Call → List Call
onto [] h = h
onto (c ∷ cs) h = onto cs (c ∷ h)

abbrev pub letters : List StoreItem → List Call
letters items = map (λ it. send topic_dlq_store it.km) items

module _ (w : World) where
  -- The statement was executed with success, somewhere in the history.
  pub data Executed (s : Statement) : List Call → Type 0 where
    here : (h : List Call) → w.on_exec (exec s ∷ h) ≡ true → Executed s (exec s ∷ h)
    before : (c : Call) (h : List Call) → Executed s h → Executed s (c ∷ h)

  -- The messages of a table are in it, unless their ids make no statement.
  abbrev pub IsStored : List Call → Bytes × List PbMsg → Type 0
  IsStored h (table, ms) =
      (build_message_insert table ms ≡ none)
      ⊎ ((s : Statement) × (build_message_insert table ms ≡ some s) × Executed s h)

  insert_groups-Executed :
      (s : Statement) (groups : Groups) (h : List Call)
      → Executed s h
      → Executed s (insert_groups w groups h).1
  unfolding insert_groups
  insert_groups-Executed s [] h x = x
  insert_groups-Executed s ((table, ms) ∷ groups) h x =
      elim (Option-cases (build_message_insert table ms)) [
        | inl e ↦ rw (e, insert_groups) (insert_groups-Executed s groups h x)
        | inr (stmt, e) ↦ elim (Bool-cases (w.on_exec (exec stmt ∷ h))) [
          | inl d ↦
              rw (e, insert_groups, d)
                (insert_groups-Executed s groups (exec stmt ∷ h) (before (exec stmt) h x))
          | inr d ↦ rw (e, insert_groups, d) (before (exec stmt) h x)
        ]
      ]

  module _ (table : Bytes) (ms : List PbMsg) (groups : Groups) (h : List Call) where
    skipped :
        build_message_insert table ms ≡ none
        → insert_groups w ((table, ms) ∷ groups) h ≡ insert_groups w groups h
    unfolding insert_groups
    skipped e = rw (e, insert_groups) refl

    inserted :
        (stmt : Statement)
        → build_message_insert table ms ≡ some stmt
        → insert_groups w ((table, ms) ∷ groups) h ≡ (
            if w.on_exec (exec stmt ∷ h)
            then insert_groups w groups (exec stmt ∷ h)
            else (false, exec stmt ∷ h))
    unfolding insert_groups
    inserted stmt e = rw (e, insert_groups) refl

  insert_groups-IsStored :
      (groups : Groups) (h : List Call)
      → (insert_groups w groups h).0 ≡ true
      → All (IsStored (insert_groups w groups h).1) groups
  insert_groups-IsStored [] h e = tt
  insert_groups-IsStored ((table, ms) ∷ groups) h t =
      elim (Option-cases (build_message_insert table ms)) [
        | inl e ↦
            let same = skipped table ms groups h e in
            subst (λ r. All (IsStored r.1) ((table, ms) ∷ groups)) (sym same)
              (inl e, insert_groups-IsStored groups h (ap (λ r. r.0) (sym same) ∙ t))
        | inr (stmt, e) ↦
            let h' = exec stmt ∷ h in
            let same = inserted table ms groups h stmt e in
            elim (Bool-cases (w.on_exec h')) [
              | inl d ↦
                  let run =
                    same ∙ ap (λ b. if b then insert_groups w groups h' else (false, h')) d in
                  subst (λ r. All (IsStored r.1) ((table, ms) ∷ groups)) (sym run)
                    (
                      inr (stmt, e, insert_groups-Executed stmt groups h' (here h d)),
                      insert_groups-IsStored groups h' (ap (λ r. r.0) (sym run) ∙ t),
                    )
              | inr d ↦ absurd (cc (rw (same, d) at t))
            ]
      ]

  -- A success of the retries is that of one attempt.
  retry_success :
      (fn : List Call → Bool × List Call) (max base left : ℕ) (h : List Call)
      → 0 < left
      → (retry_exec w fn max base left h).0 ≡ true
      → (g : List Call) × ((fn g).0 ≡ true) × ((retry_exec w fn max base left h).1 ≡ (fn g).1)
  unfolding retry_exec
  retry_success fn max base zero h n t = absurd (omega arith)
  retry_success fn max base (suc left) h n t =
      let h2 = wait (base * 2 ^ (max - suc left)) ∷ (fn h).1 in
      elim (Bool-cases (fn h).0) [
        | inl e ↦ (h, e, rw e refl)
        | inr e ↦ elim (Bool-cases (left == 0)) [
          | inl z ↦ absurd (cc (rw (e, z) at t))
          | inr z ↦ elim (Bool-cases (w.on_wait h2)) [
            | inl o ↦
                rw (e, z, o) (retry_success fn max base left h2 (ground arith) (rw (e, z, o) at t))
            | inr o ↦ absurd (cc (rw (e, z, o) at t))
          ]
        ]
      ]

  dlq-onto : (items : List StoreItem) (h : List Call) → dlq w items h ≡ onto (letters items) h
  unfolding dlq
  dlq-onto [] h = refl
  dlq-onto (it ∷ items) h = dlq-onto items (send topic_dlq_store it.km ∷ h)

  -- Kafka accepts every dead letter of a batch, when they are sent one after the other.
  abbrev pub arrived : List StoreItem → List Call → Bool
  arrived [] h = true
  arrived (it ∷ items) h =
      let h' = send topic_dlq_store it.km ∷ h in w.on_send h' && arrived items h'

  -- What a batch has come to before its commit; `lost` is a batch of which some message is neither
  -- known to be in the database nor accepted as a dead letter.
  pub data Settles (items : List StoreItem) : List Call → Type 0 where
    stored :
        (g : List Call)
        → (write_batch w items g).0 ≡ true
        → All (IsStored (insert_messages w items g).1) (w.order g (group_by_shard w.checksum items))
        → Settles items (write_batch w items g).1
    dead : (g : List Call) → arrived items g ≡ true → Settles items (onto (letters items) g)
    lost : (g : List Call) → arrived items g ≡ false → Settles items (onto (letters items) g)

  inserted_first :
      (items : List StoreItem) (g : List Call)
      → (write_batch w items g).0 ≡ true
      → (insert_messages w items g).0 ≡ true
  unfolding write_batch
  inserted_first items g e = elim (Bool-cases (insert_messages w items g).0) [
    | inl i ↦ i
    | inr i ↦ absurd (cc (rw i at e))
  ]

  written-Settles :
      (items : List StoreItem) (g : List Call)
      → (write_batch w items g).0 ≡ true
      → Settles items (write_batch w items g).1
  unfolding insert_messages
  written-Settles items g e = stored g e (
      insert_groups-IsStored (w.order g (group_by_shard w.checksum items)) g
        (inserted_first items g e))

  -- A flush of a batch that is not empty commits it last. By then some attempt of the writes has
  -- succeeded, with a successful insertion for every group of messages that it visited, except
  -- those whose ids make no statement; or each message of the batch was sent once to the dead
  -- letter topic, in order, and Kafka accepted them all; or they were so sent and Kafka refused
  -- some, which does not hold back the commit.
  pub flush-Settles :
      (it : StoreItem) (items : List StoreItem) (h : List Call)
      → (before : List Call) × (flush w (it ∷ items) h ≡ commit (messages_of (it ∷ items)) ∷ before)
        × Settles (it ∷ items) before
  unfolding flush
  flush-Settles it items h =
      let batch = it ∷ items in
      let r = attempts w batch h in
      elim (Bool-cases r.0) [
        | inl e ↦
            let (g, ok, last) =
              retry_success (write_batch w batch) store_max_retry store_retry_base store_max_retry h
                (omega arith) e in
            (
              r.1,
              ap (λ b. settle w batch (b, r.1)) e,
              subst (Settles batch) (sym last) (written-Settles batch g ok),
            )
        | inr e ↦ (
          dlq w batch r.1,
          ap (λ b. settle w batch (b, r.1)) e,
          subst (Settles batch) (sym (dlq-onto batch r.1))
              (elim (Bool-cases (arrived batch r.1)) [ inl a ↦ dead r.1 a | inr a ↦ lost r.1 a ]),
        )
      ]
