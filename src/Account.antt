-- ===== src/Account.antt =====
-- internal/account: what the parts of the account service share. The data of a response is kept by
-- its kind, and the texts of messages and logs are left out.
pub mod Tables
pub mod Session
pub mod Groups
pub mod Service
pub mod Handlers
use link_im.Prelude.{ℕ, Bool, true, ◌&&◌, List, [], ◌∷◌, ◌++◌, Option, ltb, leb, if◌then◌else◌}
use link_im.Prelude.Int.{ℤ}
use link_im.Prelude.Bytes.{Bytes}

-- errcode.go and group.go
abbrev pub code_ok : ℕ
code_ok = 0

abbrev pub code_unauthorized : ℕ
code_unauthorized = 40101

abbrev pub code_bad_param : ℕ
code_bad_param = 40201

abbrev pub code_username_exists : ℕ
code_username_exists = 40202

abbrev pub code_group_name_bad : ℕ
code_group_name_bad = 40203

abbrev pub code_group_not_found : ℕ
code_group_not_found = 40204

abbrev pub code_group_forbidden : ℕ
code_group_forbidden = 40302

abbrev pub code_group_full : ℕ
code_group_full = 40303

abbrev pub code_storage_error : ℕ
code_storage_error = 50101

abbrev pub code_redis_error : ℕ
code_redis_error = 50201

-- Claims of token.go, as far as they are read.
pub record Claims : Type 0 where
  pub uid : ℤ
  pub token_type : Bytes

-- The switch of writeBizError.
unfoldable pub status_of : ℕ → ℕ
status_of code =
    if leb 40100 code && ltb code 40200
    then 401
    else if leb 40200 code && ltb code 40300
    then 400
    else if leb 50200 code && ltb code 50300
    then 503
    else 500
