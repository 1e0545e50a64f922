-- ===== src/Account/Session.antt =====
-- jwtAuth and pathID of internal/account/group.go. The token library, the cache of digests and the
-- JSON decoder are parameters; every call of the database, the cache, the clock and the id
-- generator is recorded, the latest first, and its answer may depend on all calls made before.
use link_im.Prelude.{
  ℕ, ◌+◌, Bool, true, false, ◌&&◌, not, List, [], ◌∷◌, ◌++◌, Option, none, some, ltb, leb, length,
  take, drop, if◌then◌else◌, ◌>>=◌,
}
use link_im.Prelude.Int.{ℤ, pos, leb_ℤ}
use link_im.Prelude.Bytes.{Bytes, codes, bytes_eq}
use link_im.Decimal.{parse_int}
use link_im.Account.{Claims, code_unauthorized, code_bad_param, status_of}
use link_im.Account.Tables.{GroupRow, MemberRow}

pub data Data : Type 0 where
  no_data : Data
  created : ℤ → Data
  listed : List MemberRow → Data

-- writeJSON: the status and the envelope.
pub record Response : Type 0 where
  pub status : ℕ
  pub code : ℕ
  pub body : Data

-- The event of TopicGroupEvent.
pub record GroupEvent : Type 0 where
  pub event : Bytes
  pub gid : ℤ
  pub uid : ℤ

pub data Call : Type 0 where
  parse_token : Bytes → Call
  get_digest : ℤ → Call
  next_id : Call
  now : Call
  begin commit : Call
  insert_group : ℤ → Call
  insert_group_member : ℤ → ℤ → Call
  select_group : ℤ → Call
  select_members : ℤ → Call
  select_role : ℤ → ℤ → Call
  ignore_group_member : ℤ → ℤ → Call
  delete_group_member : ℤ → ℤ → Call

-- `on_sql` is false where the database returns an error; `digest` is Digest of token.go.
pub record World : Type 0 where
  pub on_parse : List Call → Option Claims
  pub on_get_digest : List Call → Option Bytes
  pub on_next_id : List Call → ℤ
  pub on_now : List Call → ℕ
  pub on_sql : List Call → Bool
  pub digest : Bytes → Bytes
  pub trim_space : Bytes → Bytes
  pub decode_create : Bytes → Option (Bytes × List ℤ)
  pub decode_uid : Bytes → Option ℤ

-- `responses` are those of one request, in the order in which they were written. `sending` are the
-- group events for which a goroutine was started, in the order of the starts: each goroutine sends
-- its own event, so that the topic gets them in any order, and does not get one whose Send fails.
pub record State : Type 0 where
  pub groups : List GroupRow
  pub members : List MemberRow
  pub sending : List GroupEvent
  pub responses : List Response
  pub calls : List Call

abbrev pub record_call : Call → State → State
record_call c s = record s { calls = c ∷ s.calls }

abbrev pub write_json : ℕ → ℕ → Data → State → State
write_json status code body s = record s {
  responses = s.responses ++ record { status = status; code = code; body = body } ∷ [];
}

abbrev pub write_biz_error : ℕ → State → State
write_biz_error code s = write_json (status_of code) code no_data s

abbrev pub token_type_access : Bytes
token_type_access = codes "access"

abbrev pub lower : ℕ → ℕ
lower c = if leb 65 c && leb c 90 then c + 32 else c

-- strings.EqualFold with a text of ASCII letters that no other letter folds to.
abbrev pub equal_fold : Bytes → Bytes → Bool
equal_fold [] [] = true
equal_fold [] (y ∷ ys) = false
equal_fold (x ∷ xs) [] = false
equal_fold (x ∷ xs) (y ∷ ys) = bytes_eq (lower x ∷ []) (lower y ∷ []) && equal_fold xs ys

unfoldable pub bearer_token : Bytes → Bytes
bearer_token h =
    if ltb 7 (length h) && equal_fold (take 7 h) (codes "Bearer ") then drop 7 h else []

-- A cached digest revokes every other token; an error of the cache, and an empty digest, do not.
abbrev pub revoked : Bytes → Option Bytes → Bool
revoked mine none = false
revoked mine (some cached) = not (bytes_eq cached []) && not (bytes_eq cached mine)

module _ (w : World) where
  abbrev pub refuse_token : State → State
  refuse_token s = write_json 401 code_unauthorized no_data s

  abbrev pub enter : Bytes → (ℤ → State → State) → Option Claims → State → State
  enter token next none s = refuse_token s
  enter token next (some c) s =
      let s' = record_call (get_digest c.uid) s in
      if bytes_eq c.token_type token_type_access
      then if revoked (w.digest token) (w.on_get_digest s'.calls)
        then refuse_token s'
        else next c.uid s'
      else refuse_token s

  unfoldable pub jwt_auth : Bytes → (ℤ → State → State) → State → State
  jwt_auth header next s =
      let token = bearer_token header in
      let s' = record_call (parse_token token) s in
      if bytes_eq token [] then refuse_token s else enter token next (w.on_parse s'.calls) s'

abbrev positive_id : ℤ → Option ℤ
positive_id id = if leb_ℤ id (pos 0) then none else some id

-- pathID: after `none` the response has been written.
unfoldable pub path_id : Bytes → Option ℤ
path_id val = parse_int val >>= positive_id

abbrev pub bad_path : State → State
bad_path s = write_json 400 code_bad_param no_data s
