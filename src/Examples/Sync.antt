-- ===== src/Examples/Sync.antt =====
-- A pull of the chat between users 7 and 12, a read cursor, and the check of a token.
use link_im.Prelude.{◌+◌, ◌≤◌, true, false, List, [], ◌∷◌, Option, some, ◌≡◌, refl, arith}
use link_im.Prelude.Int.{pos, leb_ℤ}
use link_im.Prelude.Bytes.{Bytes, codes, split}
use link_im.Decimal.{parse_int}
use link_im.Service.Conv.{parse_p2p_conv, parse_group_conv}
use link_im.Logic.SendMsg.{accepted}
use link_im.Logic.Sync.{
  SyncWorld, SyncPullReq, Cursor, sync_pull, mark_read, pull_messages, check_sync_member,
}
use link_im.Logic.Sync.Pull.{Belongs, sync_pull-Belongs, mark_read_lem}
use link_im.Logic.Token.{
  TokenWorld, TokenCall, get, set, verify, verdict, cache_val, token_cache_key, verify_token_flow,
  ask_account,
}
use link_im.Logic.Token.Cached.{verify_token_flow_again}

abbrev empty : SyncWorld
empty = record {
  is_member = λ gid uid. some true;
  select_messages = λ conv_id after limit. some [];
  select_last_seq = λ uid conv_id. some (pos 9);
}

abbrev request : SyncPullReq
request = record { uid = pos 12; conv_id = codes "c:7:12"; local_max_seq = pos 3; limit = pos 500 }

request_accepted : (sync_pull empty request).code ≡ accepted
unfolding sync_pull check_sync_member pull_messages parse_p2p_conv parse_group_conv split parse_int
request_accepted = refl

sync_pull-Belongs_example :
    (leb_ℤ (pos 12) (pos 0) ≡ false) × Belongs empty (pos 12) (codes "c:7:12")
sync_pull-Belongs_example = sync_pull-Belongs empty request request_accepted

abbrev behind : Cursor
behind = record { read_seq = 3; unread = 6 }

mark_read_lem_example :
    ((mark_read 7 behind).unread + (mark_read 7 behind).read_seq ≡ 9)
    × (3 ≤ (mark_read 7 behind).read_seq)
    × (7 ≤ (mark_read 7 behind).read_seq)
    × (mark_read 7 (mark_read 7 behind) ≡ mark_read 7 behind)
mark_read_lem_example = mark_read_lem 7 9 behind refl (omega arith)

-- A cache that holds one valid verdict once the account service was asked.
seen : List TokenCall → Option Bytes
seen (get k ∷ []) = some []
seen h = some (codes "1")

abbrev account : TokenWorld
account = record { hex_sum = λ token. token; on_get = seen; on_verify = λ h. some (pos 7, true) }

fresh_valid : (verify_token_flow account (pos 7) (codes "t") []).0.valid ≡ true
unfolding verify_token_flow ask_account token_cache_key seen
fresh_valid = refl

miss : seen (get (token_cache_key account (pos 0) (codes "t")) ∷ []) ≡ some []
unfolding seen
miss = refl

abbrev later : List TokenCall
later = verify (pos 0) (codes "t") ∷ []

undeclared_valid : (verify_token_flow account (pos 0) (codes "t") []).0.valid ≡ true
unfolding verify_token_flow ask_account token_cache_key seen
undeclared_valid = refl

hit :
    seen (get (token_cache_key account (pos 0) (codes "t")) ∷ later)
    ≡ some (cache_val (verify_token_flow account (pos 0) (codes "t") []).0.valid)
unfolding seen
hit = rw undeclared_valid refl

-- Without a declared uid: first the owner 7, then 0.
verify_token_flow_again_example :
    (verify_token_flow account (pos 0) (codes "t") [] ≡ (
      verdict (pos 7) true,
      set (token_cache_key account (pos 0) (codes "t")) (codes "1")
          ∷ verify (pos 0) (codes "t")
          ∷ get (token_cache_key account (pos 0) (codes "t"))
          ∷ [],
    ))
    × (verify_token_flow account (pos 0) (codes "t") later ≡ (
      verdict (pos 0) (verify_token_flow account (pos 0) (codes "t") []).0.valid,
      get (token_cache_key account (pos 0) (codes "t")) ∷ later,
    ))
verify_token_flow_again_example =
    verify_token_flow_again account (pos 0) (pos 7) (codes "t") true [] later miss refl hit
