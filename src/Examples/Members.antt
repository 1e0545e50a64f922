-- ===== src/Examples/Members.antt =====
-- The members 3 and 8 of group 9, of which the cache holds only the first until an event comes.
use link_im.Prelude.{
  Bool, false, Bool-cases, inr, true, List, [], ◌∷◌, ◌++◌, some, ◌≡◌, ◌↔◌, refl, sym, ap, subst,
  inl, arith, if◌then◌else◌,
}
use link_im.Prelude.Int.{ℤ, pos}
use link_im.Prelude.Bytes.{Bytes, codes, bytes_eq, bytes_eq_iff, bytes_eq_refl}
use link_im.Decimal.{format_int}
use link_im.Service.Members.{
  MemberDeps, conv_members_key, members, is_member, load_and_backfill, has_uid,
}
use link_im.Service.Members.Elements.{Mem, SameElements}
use link_im.Service.Members.Coherence.{View, MemberLaws, Answers, members-Answers}
use link_im.Job.GroupEvents.{
  EventDeps, EventLaws, GroupEvent, handle_group_event, handle_group_event-is_member,
}
use link_im.Logic.Friends.{FriendDeps, is_friend}
use link_im.Logic.Friends.Soundness.{FriendLaws, Tells, is_friend-Tells}

pub record Store : Type 0 where
  pub sets : Bytes → List Bytes
  pub rows : ℤ → List ℤ

abbrev with_set : Bytes → List Bytes → Store → Store
with_set k xs s = record s { sets = λ l. if bytes_eq k l then xs else s.sets l }

abbrev deps : MemberDeps Store
deps = record {
  smembers = λ k s. (some (s.sets k), s);
  sadd = λ k xs s. (true, with_set k (xs ++ s.sets k) s);
  expire = λ k s. s;
  del = λ k s. (true, with_set k [] s);
  select_uids = λ gid s. (some (s.rows gid), s);
}

abbrev view : View Store
view = record { cached = λ k s. s.sets k; rows = λ gid s. s.rows gid }

same : {A : Type 0} (xs ys : List A) → xs ≡ ys → SameElements xs ys
same xs ys e x = (λ m. subst (Mem x) e m, λ m. subst (Mem x) (sym e) m)

with_set_self : (k : Bytes) (xs : List Bytes) (s : Store) → (with_set k xs s).sets k ≡ xs
with_set_self k xs s = ap (λ b. if b then xs else s.sets k) (bytes_eq_refl k)

deps-MemberLaws : MemberLaws deps view
deps-MemberLaws = record {
  smembers_found = λ k s xs e. same xs (s.sets k) (sym (cc e));
  smembers_cached = λ k l s. refl;
  smembers_rows = λ k gid s. refl;
  select_found = λ gid s us e. same us (s.rows gid) (sym (cc e));
  select_cached = λ gid k s. refl;
  select_rows = λ gid h s. refl;
  sadd_cached = λ k xs s. inl (
      same ((with_set k (xs ++ s.sets k) s).sets k) (xs ++ s.sets k)
        (with_set_self k (xs ++ s.sets k) s));
  sadd_rows = λ k xs gid s. refl;
  expire_cached = λ k l s. refl;
  expire_rows = λ k gid s. refl;
}

abbrev cold : Store
cold = record { sets = λ k. []; rows = λ gid. pos 3 ∷ pos 8 ∷ [] }

members-Answers_example : Answers deps view deps-MemberLaws (pos 9) cold (members deps (pos 9) cold)
members-Answers_example =
    members-Answers deps view deps-MemberLaws (pos 9) cold (omega arith, (omega arith, tt))
      (inl refl)

abbrev event_deps : EventDeps Store
event_deps = record {
  members = deps;
  insert_conversation = λ uid conv gid s. (true, s);
  unmarshal_event = λ b. some (record { event = codes "join"; gid = pos 9; uid = pos 8 });
}

event_deps-EventLaws : EventLaws event_deps view
event_deps-EventLaws = record {
  del_cached = λ k s e. with_set_self k [] s;
  del_rows = λ k gid s. refl;
  insert_cached = λ uid gid conv k s. refl;
  insert_rows = λ uid gid conv g s. refl;
}

-- The set lacks user 8.
abbrev stale : Store
stale = record { sets = λ k. codes "3" ∷ []; rows = λ gid. pos 3 ∷ pos 8 ∷ [] }

abbrev joined : GroupEvent
joined = record { event = codes "join"; gid = pos 9; uid = pos 8 }

answered : (is_member deps (pos 9) (pos 8) (handle_group_event event_deps [] stale)).0 ≡ some true
unfolding is_member members handle_group_event load_and_backfill has_uid conv_members_key format_int
answered = refl

handle_group_event-is_member_example : (true ≡ true) ↔ Mem (pos 8) (pos 3 ∷ pos 8 ∷ [])
handle_group_event-is_member_example =
    handle_group_event-is_member event_deps view event_deps-EventLaws joined [] (pos 8) stale true
      deps-MemberLaws refl refl refl (omega arith, (omega arith, tt)) answered

abbrev has_text : Bytes → List Bytes → Bool
has_text m [] = false
has_text m (x ∷ xs) = if bytes_eq m x then true else has_text m xs

abbrev friend_deps : FriendDeps Store
friend_deps = record {
  zrank = λ k m s. (some (has_text m (s.sets k)), s);
  zadd = λ k xs s. (true, with_set k (xs ++ s.sets k) s);
  select_friends = λ uid s. (some (s.rows uid), s);
}

has_text_iff : (m : Bytes) (xs : List Bytes) → (has_text m xs ≡ true) ↔ Mem m xs
has_text_iff m [] = (λ e. absurd (cc e), λ n. elim n [ ])
has_text_iff m (x ∷ xs) = elim (Bool-cases (bytes_eq m x)) [
  | inl e ↦ (λ h. inl ((bytes_eq_iff m x).0 e), λ h. rw e refl)
  | inr e ↦ (
    λ h. inr ((has_text_iff m xs).0 (rw e at h)),
    λ h.
        rw e (elim h [
          | inl q ↦ absurd (cc (e, q, bytes_eq_refl m))
          | inr n ↦ (has_text_iff m xs).1 n
        ]),
  )
]

friend_deps-FriendLaws : FriendLaws friend_deps view
friend_deps-FriendLaws = record {
  zrank_found =
      λ k m s b e. subst (λ x. (x ≡ true) ↔ Mem m (s.sets k)) (cc e) (has_text_iff m (s.sets k));
  zrank_cached = λ k m l s. refl;
  zrank_rows = λ k m uid s. refl;
  select_found = λ uid s fs e. same fs (s.rows uid) (sym (cc e));
  select_cached = λ uid k s. refl;
  select_rows = λ uid u s. refl;
  zadd_cached = λ k xs s x m. subst (Mem x) (with_set_self k (xs ++ s.sets k) s) m;
  zadd_rows = λ k xs uid s. refl;
}

is_friend-Tells_example :
    Tells friend_deps view friend_deps-FriendLaws
      (pos 7)
      (pos 8)
      cold
      (is_friend friend_deps (pos 7) (pos 8) cold)
is_friend-Tells_example =
    is_friend-Tells friend_deps view friend_deps-FriendLaws (pos 7) (pos 8) cold (omega arith)
      (omega arith, (omega arith, tt)) (λ x m. elim m [ ])
