-- ===== src/Account/Service.antt =====
-- internal/account/service.go and token.go. The user table and the cache of digests are the two
-- interfaces of store.go and cache.go: their operations, over a state that they share with the
-- clock and the sources of randomness. The password hash and the signing of tokens are parameters.
pub mod Issued
pub mod Sessions
pub mod Registration
use link_im.Prelude.{
  ℕ, ◌+◌, Bool, true, false, ◌&&◌, ◌||◌, not, List, [], ◌∷◌, Option, none, some, ltb, leb, ◌==◌,
  length, if◌then◌else◌,
}
use link_im.Prelude.Int.{ℤ}
use link_im.Prelude.Bytes.{Bytes, codes, bytes_eq}
use link_im.Account.{
  Claims, code_unauthorized, code_bad_param, code_username_exists, code_storage_error,
  code_redis_error,
}
use link_im.Account.Session.{token_type_access}

pub record User : Type 0 where
  pub id : ℤ
  pub username : Bytes
  pub password_hash : Bytes
  pub nickname : Bytes
  pub created_at : ℕ

pub record RegisterRequest : Type 0 where
  pub username : Bytes
  pub password : Bytes
  pub nickname : Bytes

pub record LoginRequest : Type 0 where
  pub username : Bytes
  pub password : Bytes

pub record LoginResult : Type 0 where
  pub uid : ℤ
  pub access_token : Bytes
  pub refresh_token : Bytes
  pub expire_at : ℕ

pub record VerifyResult : Type 0 where
  pub uid : ℤ
  pub valid : Bool

-- A Go pair `(v, err)`, of whose error the code is read.
pub data Result (A : Type 0) : Type 0 where
  ok : A → Result A
  err : ℕ → Result A

-- GetUserByUsername: the user, ErrUserNotFound, or another error.
pub data Lookup : Type 0 where
  found : User → Lookup
  not_found : Lookup
  failed : Lookup

-- CreateUser: nil, ErrUsernameExists, or another error.
pub data Insert : Type 0 where
  inserted : Insert
  username_exists : Insert
  insert_failed : Insert

-- A token of Issue: who it is for, whether it is an access token, and the seconds of its issue and
-- its end.
pub record TokenBody : Type 0 where
  pub uid : ℤ
  pub token_type : Bytes
  pub issued_at : ℕ
  pub expires_at : ℕ

-- What the service calls, over a state `S`. `none` is an error; get_digest answers with the empty
-- text where there is no digest, and parse fails for a token that is not signed or has expired.
pub record Deps (S : Type 0) : Type 0 where
  pub create_user : User → S → Insert × S
  pub get_user_by_username : Bytes → S → Lookup × S
  pub set_digest : ℤ → Bytes → S → Bool × S
  pub get_digest : ℤ → S → Option Bytes × S
  pub next_id : S → ℤ × S
  pub now : S → ℕ × S
  pub generate_hash : Bytes → S → Option Bytes × S
  pub compare_hash : Bytes → Bytes → Bool
  pub sign : TokenBody → Option Bytes
  pub parse : Bytes → S → Option Claims × S
  pub digest : Bytes → Bytes
  pub access_ttl : ℕ
  pub refresh_ttl : ℕ

abbrev pub token_type_refresh : Bytes
token_type_refresh = codes "refresh"

abbrev is_name_char : ℕ → Bool
is_name_char c =
    (leb 97 c && leb c 122) || ((leb 65 c && leb c 90) || ((leb 48 c && leb c 57) || c == 95))

-- usernamePattern, `^[a-zA-Z0-9_]+$`
abbrev all_name_chars : Bytes → Bool
all_name_chars [] = true
all_name_chars (c ∷ cs) = is_name_char c && all_name_chars cs

abbrev pub matches_username : Bytes → Bool
matches_username s = ltb 0 (length s) && all_name_chars s

abbrev pub outside : ℕ → ℕ → Bytes → Bool
outside low high s = ltb (length s) low || ltb high (length s)

-- Whether validateRegister returns nil; every error of it has the code of a bad parameter.
unfoldable pub validate_register : RegisterRequest → Bool
validate_register req =
    if outside 4 32 req.username
    then false
    else if not (matches_username req.username)
    then false
    else if outside 8 64 req.password
    then false
    else not (ltb 64 (length req.nickname))

abbrev pub insert_result : ℤ → Insert → Result ℤ
insert_result uid inserted = ok uid
insert_result uid username_exists = err code_username_exists
insert_result uid insert_failed = err code_storage_error

module _ {S : Type 0} (d : Deps S) where
  abbrev pub register_hashed : RegisterRequest → Option Bytes × S → Result ℤ × S
  register_hashed req (none, s) = (err code_storage_error, s)
  register_hashed req (some hash, s) =
      let (uid, s1) = d.next_id s in
      let (at, s2) = d.now s1 in
      let (outcome, s3) =
        d.create_user
          (record {
            id = uid;
            username = req.username;
            password_hash = hash;
            nickname = req.nickname;
            created_at = at;
          })
          s2 in
      (insert_result uid outcome, s3)

  abbrev pub register_checked : RegisterRequest → Lookup × S → Result ℤ × S
  register_checked req (found u, s) = (err code_username_exists, s)
  register_checked req (failed, s) = (err code_storage_error, s)
  register_checked req (not_found, s) = register_hashed req (d.generate_hash req.password s)

  unfoldable pub register : RegisterRequest → S → Result ℤ × S
  register req s =
      if validate_register req
      then register_checked req (d.get_user_by_username req.username s)
      else (err code_bad_param, s)

  -- Issue: the token, and the second at which it expires.
  abbrev pub token_body : ℤ → Bool → ℕ → TokenBody
  token_body uid access now = record {
    uid = uid;
    token_type = if access then token_type_access else token_type_refresh;
    issued_at = now;
    expires_at = now + (if access then d.access_ttl else d.refresh_ttl);
  }

  abbrev pub issued : TokenBody → Option Bytes → Option (Bytes × ℕ)
  issued body none = none
  issued body (some token) = some (token, body.expires_at)

  unfoldable pub issue : ℤ → Bool → S → Option (Bytes × ℕ) × S
  issue uid access s =
      let (now, s') = d.now s in
      let body = token_body uid access now in (issued body (d.sign body), s')

  abbrev pub remembered : LoginResult → Bool × S → Result LoginResult × S
  remembered res (true, s) = (ok res, s)
  remembered res (false, s) = (err code_redis_error, s)

  abbrev pub login_refresh : User → Bytes × ℕ → Option (Bytes × ℕ) × S → Result LoginResult × S
  login_refresh u access (none, s) = (err code_storage_error, s)
  login_refresh u (access, exp) (some (refresh, e), s) =
      remembered
        (record { uid = u.id; access_token = access; refresh_token = refresh; expire_at = exp })
        (d.set_digest u.id (d.digest access) s)

  abbrev pub login_access : User → Option (Bytes × ℕ) × S → Result LoginResult × S
  login_access u (none, s) = (err code_storage_error, s)
  login_access u (some access, s) = login_refresh u access (issue u.id false s)

  abbrev pub login_found : LoginRequest → Lookup × S → Result LoginResult × S
  login_found req (not_found, s) = (err code_unauthorized, s)
  login_found req (failed, s) = (err code_storage_error, s)
  login_found req (found u, s) =
      if d.compare_hash u.password_hash req.password
      then login_access u (issue u.id true s)
      else (err code_unauthorized, s)

  unfoldable pub login : LoginRequest → S → Result LoginResult × S
  login req s =
      if bytes_eq req.username [] || bytes_eq req.password []
      then (err code_bad_param, s)
      else login_found req (d.get_user_by_username req.username s)

  -- Verify; an error comes with a result that is not valid.
  abbrev pub judged : Bytes → Claims → Option Bytes → Result VerifyResult
  judged token c none = err code_redis_error
  judged token c (some cached) =
      if not (bytes_eq cached []) && not (bytes_eq cached (d.digest token))
      then err code_unauthorized
      else ok (record { uid = c.uid; valid = true })

  abbrev pub verify_parsed : Bytes → Option Claims × S → Result VerifyResult × S
  verify_parsed token (none, s) = (err code_unauthorized, s)
  verify_parsed token (some c, s) =
      let (cached, s') = d.get_digest c.uid s in
      if bytes_eq c.token_type token_type_access
      then (judged token c cached, s')
      else (err code_unauthorized, s)

  unfoldable pub verify : Bytes → S → Result VerifyResult × S
  verify token s = verify_parsed token (d.parse token s)
