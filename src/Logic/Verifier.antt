-- ===== src/Logic/Verifier.antt =====
-- HTTPVerifier.Verify of internal/logic/httpverifier.go, against the endpoint of the account
-- service that it posts to. `none` is a request that got no response; the reader of JSON is taken
-- at its word for the fields `uid` and `valid`, which are 0 and false where the data have none.
use link_im.Prelude.{
  Bool, true, false, ◌||◌, Option, none, some, ltb, leb, ◌≡◌, ◌≢◌, ◌∙◌, refl, ap, if◌then◌else◌,
}
use link_im.Prelude.Int.{ℤ, pos}
use link_im.Prelude.Bytes.{Bytes}
use link_im.Account.{Claims, code_unauthorized}
use link_im.Account.Service.{
  Deps, LoginRequest, LoginResult, VerifyResult, Result, ok, err, login, verify,
}
use link_im.Account.Service.Sessions.{TokenLaws, login-verify}
use link_im.Account.Handlers.{
  Answer, no_answer, registered, logged_in, verified, Reply, verify_reply, handle_verify,
}

abbrev pub data_of : Answer → ℤ × Bool
data_of no_answer = (pos 0, false)
data_of (registered uid) = (uid, false)
data_of (logged_in res) = (res.uid, false)
data_of (verified res) = (res.uid, res.valid)

-- The uid and whether the token is valid; `none` is an error.
unfoldable pub verdict_of : Option Reply → Option (ℤ × Bool)
verdict_of none = none
verdict_of (some r) = if ltb r.status 200 || leb 300 r.status then none else some (data_of r.body)

module _ {S : Type 0} (d : Deps S) where
  -- The call of Verify on an account service that is reached.
  unfoldable pub http_verify : Bytes → S → Option (ℤ × Bool)
  http_verify token s = verdict_of (some (handle_verify d (some token) s).0)

  http_verify_of :
      (token : Bytes) (s : S) (r : Result VerifyResult)
      → (verify d token s).0 ≡ r
      → http_verify token s ≡ verdict_of (some (verify_reply r))
  unfolding http_verify handle_verify
  http_verify_of token s r e = ap (λ x. verdict_of (some (verify_reply x))) e

  valid_verdict :
      (uid : ℤ)
      → verdict_of (some (verify_reply (ok (record { uid = uid; valid = true }))))
        ≡ some (uid, true)
  unfolding verdict_of
  valid_verdict uid = refl

  refused_verdict : verdict_of (some (verify_reply (err code_unauthorized))) ≡ some (pos 0, false)
  unfolding verdict_of
  refused_verdict = refl

  -- After a login that succeeds, and before the access token has expired, the token check of the
  -- logic service gets from the account service that the access token is valid and whose it is,
  -- and that the refresh token and the tokens of earlier logins are not valid.
  pub login-http_verify :
      (req : LoginRequest) (s t : S) (res : LoginResult) (token : Bytes) (c : Claims)
      → TokenLaws d
      → login d req s ≡ (ok res, t)
      → ltb (d.now t).0 res.expire_at ≡ true
      → (d.parse token t).0 ≡ some c
      → c.uid ≡ res.uid
      → d.digest token ≢ d.digest res.access_token
      → (http_verify res.access_token t ≡ some (res.uid, true))
        × (http_verify res.refresh_token t ≡ some (pos 0, false))
        × (http_verify token t ≡ some (pos 0, false))
  login-http_verify req s t res token c laws e live p u n =
      let (access, refresh, other) = login-verify d req s t res token c laws e live p u n in
      (
        http_verify_of res.access_token t (ok (record { uid = res.uid; valid = true })) access
            ∙ valid_verdict res.uid,
        http_verify_of res.refresh_token t (err code_unauthorized) refresh ∙ refused_verdict,
        http_verify_of token t (err code_unauthorized) other ∙ refused_verdict,
      )
