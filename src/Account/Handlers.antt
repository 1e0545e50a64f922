-- ===== src/Account/Handlers.antt =====
-- The endpoints of internal/account/handler.go that need no token, and its middleware. A request is
-- answered once; the decoder of JSON is a parameter, and `none` where it fails.
use link_im.Prelude.{ℕ, false, Option, none, some, ◌==◌, if◌then◌else◌}
use link_im.Prelude.Int.{ℤ, pos}
use link_im.Prelude.Bytes.{Bytes}
use link_im.Account.{code_ok, code_unauthorized, code_bad_param, status_of}
use link_im.Account.Service.{
  Deps, RegisterRequest, LoginRequest, LoginResult, VerifyResult, Result, ok, err, register, login,
  verify,
}

pub data Answer : Type 0 where
  no_answer : Answer
  registered : ℤ → Answer
  logged_in : LoginResult → Answer
  verified : VerifyResult → Answer

pub record Reply : Type 0 where
  pub status : ℕ
  pub code : ℕ
  pub body : Answer

abbrev pub reply : ℕ → ℕ → Answer → Reply
reply status code body = record { status = status; code = code; body = body }

-- writeBizError
abbrev pub refused : ℕ → Reply
refused code = reply (status_of code) code no_answer

-- decodeBody, where it fails.
abbrev pub bad_body : Reply
bad_body = reply 400 code_bad_param no_answer

abbrev pub register_reply : Result ℤ → Reply
register_reply (ok uid) = reply 200 code_ok (registered uid)
register_reply (err code) = refused code

abbrev pub login_reply : Result LoginResult → Reply
login_reply (ok res) = reply 200 code_ok (logged_in res)
login_reply (err code) = refused code

-- A token that is not accepted is answered with 200, and the result is not valid.
abbrev pub verify_reply : Result VerifyResult → Reply
verify_reply (ok res) = reply 200 code_ok (verified res)
verify_reply (err code) =
    if code == code_unauthorized
    then reply 200 code (verified (record { uid = pos 0; valid = false }))
    else refused code

module _ {S : Type 0} (d : Deps S) where
  unfoldable pub handle_register : Option RegisterRequest → S → Reply × S
  handle_register none s = (bad_body, s)
  handle_register (some req) s = let (r, s') = register d req s in (register_reply r, s')

  unfoldable pub handle_login : Option LoginRequest → S → Reply × S
  handle_login none s = (bad_body, s)
  handle_login (some req) s = let (r, s') = login d req s in (login_reply r, s')

  unfoldable pub handle_verify : Option Bytes → S → Reply × S
  handle_verify none s = (bad_body, s)
  handle_verify (some token) s = let (r, s') = verify d token s in (verify_reply r, s')
