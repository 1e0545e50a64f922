-- ===== src/Job/GroupEvents.antt =====
-- internal/job/group.go: the consumer of the changes of membership. Redis and MySQL are parameters
-- over a state, as for the member source; logs are left out, and Handle always returns nil.
use link_im.Prelude.{
  Bool, true, false, ◌||◌, [], Option, none, some, ◌≡◌, ◌↔◌, ◌∙◌, refl, sym, ap, subst, inl, inr,
  All, Bool-cases, if◌then◌else◌,
}
use link_im.Prelude.Int.{ℤ, pos, leb_ℤ, IsInt64}
use link_im.Prelude.Bytes.{Bytes, codes, bytes_eq}
use link_im.Service.Conv.{conv_id_for_group}
use link_im.Service.Members.{MemberDeps, conv_members_key, is_member}
use link_im.Service.Members.Elements.{Mem}
use link_im.Service.Members.Coherence.{View, MemberLaws, is_member-Mem}

pub record GroupEvent : Type 0 where
  pub event : Bytes
  pub gid : ℤ
  pub uid : ℤ

-- `insert_conversation` is the INSERT IGNORE of a row with the uid, the conversation and the group.
pub record EventDeps (S : Type 0) : Type 0 where
  pub members : MemberDeps S
  pub insert_conversation : ℤ → Bytes → ℤ → S → Bool × S
  pub unmarshal_event : Bytes → Option GroupEvent

module _ {S : Type 0} (d : EventDeps S) where
  -- The switch on the event; an error of the insert is only logged.
  abbrev pub apply_event : GroupEvent → S → S
  apply_event ev s =
      if bytes_eq ev.event (codes "join")
      then (d.insert_conversation ev.uid (conv_id_for_group ev.gid) ev.gid s).1
      else s

  abbrev pub handle_decoded : Option GroupEvent → S → S
  handle_decoded none s = s
  handle_decoded (some ev) s =
      if leb_ℤ ev.gid (pos 0) || leb_ℤ ev.uid (pos 0)
      then s
      else apply_event ev (d.members.del (conv_members_key ev.gid) s).1

  unfoldable pub handle_group_event : Bytes → S → S
  handle_group_event value s = handle_decoded (d.unmarshal_event value) s

-- DEL empties the set and leaves the table, and so does the insert of a conversation row.
pub record EventLaws {S : Type 0} (d : EventDeps S) (v : View S) : Type 0 where
  pub del_cached :
      (k : Bytes) (s : S) → (d.members.del k s).0 ≡ true → v.cached k (d.members.del k s).1 ≡ []
  pub del_rows : (k : Bytes) (gid : ℤ) (s : S) → v.rows gid (d.members.del k s).1 ≡ v.rows gid s
  pub insert_cached :
      (uid gid : ℤ) (conv k : Bytes) (s : S)
      → v.cached k (d.insert_conversation uid conv gid s).1 ≡ v.cached k s
  pub insert_rows :
      (uid gid : ℤ) (conv : Bytes) (g : ℤ) (s : S)
      → v.rows g (d.insert_conversation uid conv gid s).1 ≡ v.rows g s

module _ {S : Type 0} (d : EventDeps S) (v : View S) (laws : EventLaws d v) (ev : GroupEvent) where
  applied_cached : (k : Bytes) (s : S) → v.cached k (apply_event d ev s) ≡ v.cached k s
  applied_cached k s = elim (Bool-cases (bytes_eq ev.event (codes "join"))) [
    | inl e ↦ rw e (laws.insert_cached ev.uid ev.gid (conv_id_for_group ev.gid) k s)
    | inr e ↦ rw e refl
  ]

  applied_rows : (g : ℤ) (s : S) → v.rows g (apply_event d ev s) ≡ v.rows g s
  applied_rows g s = elim (Bool-cases (bytes_eq ev.event (codes "join"))) [
    | inl e ↦ rw e (laws.insert_rows ev.uid ev.gid (conv_id_for_group ev.gid) g s)
    | inr e ↦ rw e refl
  ]

  -- When the event of a change of membership has been handled, and its DEL did not fail, IsMember
  -- answers what the table says, if it answers, however stale the cache was before.
  pub handle_group_event-is_member :
      (value : Bytes) (uid : ℤ) (s : S) (b : Bool)
      → MemberLaws d.members v
      → d.unmarshal_event value ≡ some ev
      → leb_ℤ ev.gid (pos 0) || leb_ℤ ev.uid (pos 0) ≡ false
      → (d.members.del (conv_members_key ev.gid) s).0 ≡ true
      → All IsInt64 (v.rows ev.gid s)
      → (is_member d.members ev.gid uid (handle_group_event d value s)).0 ≡ some b
      → (b ≡ true) ↔ Mem uid (v.rows ev.gid s)
  unfolding handle_group_event
  handle_group_event-is_member value uid s b member_laws e positive ok_del int64 answer =
      let key = conv_members_key ev.gid in
      let deleted = (d.members.del key s).1 in
      let t = apply_event d ev deleted in
      let handled : handle_group_event d value s ≡ t =
        ap (λ o. handle_decoded d o s) e ∙ ap (λ x. if x then s else t) positive in
      let rows = applied_rows ev.gid deleted ∙ laws.del_rows key ev.gid s in
      subst (λ rs. (b ≡ true) ↔ Mem uid rs) rows
        (is_member-Mem d.members v member_laws ev.gid uid t b (subst (All IsInt64) (sym rows) int64)
          (inl (applied_cached key deleted ∙ laws.del_cached key s ok_del))
          (ap (λ x. (is_member d.members ev.gid uid x).0) (sym handled) ∙ answer))
