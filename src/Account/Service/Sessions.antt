-- ===== src/Account/Service/Sessions.antt =====
-- What a login promises of the tokens: Login and Verify of internal/account/service.go together.
use link_im.Prelude.{
  true, [], Option, none, some, ◌≡◌, ◌≢◌, ◌∙◌, refl, sym, ap, inl, inr, ltb, Bool-cases,
  if◌then◌else◌,
}
use link_im.Prelude.Int.{ℤ}
use link_im.Prelude.Bytes.{Bytes, bytes_eq, bytes_eq_iff, bytes_eq_refl}
use link_im.Account.{Claims, code_unauthorized}
use link_im.Account.Session.{token_type_access}
use link_im.Account.Service.Issued.{Issued, login-Issued}
use link_im.Account.Service.{
  Deps, LoginRequest, LoginResult, VerifyResult, Result, ok, err, TokenBody, login, judged,
  verify_parsed, verify,
}

-- A token that was signed reads as its claims until it expires, and reading it leaves the digests
-- alone; a digest that was stored is found; the text of a digest is not empty.
pub record TokenLaws {S : Type 0} (d : Deps S) : Type 0 where
  pub parse-sign :
      (b : TokenBody) (token : Bytes) (s : S)
      → d.sign b ≡ some token
      → (d.parse token s).0 ≡ (
          if ltb (d.now s).0 b.expires_at
          then some (record { uid = b.uid; token_type = b.token_type })
          else none)
  pub get_digest-parse :
      (token : Bytes) (uid : ℤ) (s : S)
      → (d.get_digest uid (d.parse token s).1).0 ≡ (d.get_digest uid s).0
  pub get_digest-set_digest :
      (uid : ℤ) (x : Bytes) (s : S)
      → (d.set_digest uid x s).0 ≡ true
      → (d.get_digest uid (d.set_digest uid x s).1).0 ≡ some x
  pub digest_nonempty : (token : Bytes) → d.digest token ≢ []

module _ {S : Type 0} (d : Deps S) where
  parsed_verdict :
      (token : Bytes) (o : Option Claims) (s : S)
      → (verify_parsed d token (o, s)).0 ≡ elim o as (λ x. Result VerifyResult) [
        | none ↦ err code_unauthorized
        | some c ↦
            if bytes_eq c.token_type token_type_access
            then judged d token c (d.get_digest c.uid s).0
            else err code_unauthorized
      ]
  parsed_verdict token none s = refl
  parsed_verdict token (some c) s = elim (Bool-cases (bytes_eq c.token_type token_type_access)) [
    | inl e ↦ rw e refl
    | inr e ↦ rw e refl
  ]

  judged_own :
      (token : Bytes) (c : Claims)
      → judged d token c (some (d.digest token)) ≡ ok (record { uid = c.uid; valid = true })
  judged_own token c = elim (Bool-cases (bytes_eq (d.digest token) [])) [
    | inl e ↦ rw e refl
    | inr e ↦ rw (e, bytes_eq_refl (d.digest token)) refl
  ]

  judged_other :
      (token cached : Bytes) (c : Claims)
      → cached ≢ []
      → cached ≢ d.digest token
      → judged d token c (some cached) ≡ err code_unauthorized
  judged_other token cached c n m = elim (Bool-cases (bytes_eq cached [])) [
    | inl e ↦ absurd (n ((bytes_eq_iff cached []).0 e))
    | inr e ↦ elim (Bool-cases (bytes_eq cached (d.digest token))) [
      | inl f ↦ absurd (m ((bytes_eq_iff cached (d.digest token)).0 f))
      | inr f ↦ rw (e, f) refl
    ]
  ]

  module _ (laws : TokenLaws d) where
    -- The digest that is found after a login is that of its access token.
    stored_digest :
        (token : Bytes) (res : LoginResult) (t : S)
        → Issued d res t
        → (d.get_digest res.uid (d.parse token t).1).0 ≡ some (d.digest res.access_token)
    stored_digest token res t i =
        laws.get_digest-parse token res.uid t
        ∙ ap (λ x. (d.get_digest res.uid x).0) (sym i.after)
        ∙ laws.get_digest-set_digest res.uid (d.digest res.access_token) i.before i.stored

    access_verdict :
        (res : LoginResult) (t : S)
        → Issued d res t
        → ltb (d.now t).0 res.expire_at ≡ true
        → (verify d res.access_token t).0 ≡ ok (record { uid = res.uid; valid = true })
    unfolding verify
    access_verdict res t i live =
        let token = res.access_token in
        let c : Claims = record { uid = res.uid; token_type = token_type_access } in
        let parsed : (d.parse token t).0 ≡ some c =
          laws.parse-sign i.access_body token t i.access
          ∙ ap
              (λ e.
                if ltb (d.now t).0 e
                then some
                    (record { uid = i.access_body.uid; token_type = i.access_body.token_type })
                else none)
              i.access_end
          ∙ ap
              (λ b.
                if b
                then some
                    (record { uid = i.access_body.uid; token_type = i.access_body.token_type })
                else none)
              live
          ∙ (λ k. some (record { uid = i.access_uid k; token_type = i.access_type k })) in
        let s' = (d.parse token t).1 in
        ap (λ o. (verify_parsed d token (o, s')).0) parsed
        ∙ parsed_verdict token (some c) s'
        ∙ ap (judged d token c) (stored_digest token res t i)
        ∙ judged_own token c

    refresh_verdict :
        (res : LoginResult) (t : S)
        → Issued d res t
        → (verify d res.refresh_token t).0 ≡ err code_unauthorized
    unfolding verify
    refresh_verdict res t i =
        let token = res.refresh_token in
        let s' = (d.parse token t).1 in
        let law = laws.parse-sign i.refresh_body token t i.refresh in
        elim (Bool-cases (ltb (d.now t).0 i.refresh_body.expires_at)) [
          | inr e ↦ ap (λ o. (verify_parsed d token (o, s')).0) (rw e at law)
          | inl e ↦
              let c : Claims = record {
                uid = i.refresh_body.uid;
                token_type = i.refresh_body.token_type;
              } in
              let parsed : (d.parse token t).0 ≡ some c = rw e at law in
              ap (λ o. (verify_parsed d token (o, s')).0) parsed
              ∙ parsed_verdict token (some c) s'
              ∙ ap
                  (λ x.
                    if bytes_eq x token_type_access
                    then judged d token c (d.get_digest c.uid s').0
                    else err code_unauthorized)
                  i.refresh_type
        ]

    other_verdict :
        (res : LoginResult) (t : S) (token : Bytes) (c : Claims)
        → Issued d res t
        → (d.parse token t).0 ≡ some c
        → c.uid ≡ res.uid
        → d.digest token ≢ d.digest res.access_token
        → (verify d token t).0 ≡ err code_unauthorized
    unfolding verify
    other_verdict res t token c i p u n =
        let s' = (d.parse token t).1 in
        ap (λ o. (verify_parsed d token (o, s')).0) p
        ∙ parsed_verdict token (some c) s'
        ∙ elim (Bool-cases (bytes_eq c.token_type token_type_access)) [
          | inr e ↦ rw e refl
          | inl e ↦ rw e (
              ap (judged d token c)
                (ap (λ x. (d.get_digest x s').0) u ∙ stored_digest token res t i)
              ∙ judged_other token (d.digest res.access_token) c
                  (laws.digest_nonempty res.access_token) (λ q. n (sym q)))
        ]

  -- After a login that succeeds, and before the access token has expired, Verify accepts the
  -- access token for the user who logged in, refuses the refresh token, and refuses every other
  -- token that reads as this user's and has another digest: those of the earlier logins.
  pub login-verify :
      (req : LoginRequest) (s t : S) (res : LoginResult) (token : Bytes) (c : Claims)
      → TokenLaws d
      → login d req s ≡ (ok res, t)
      → ltb (d.now t).0 res.expire_at ≡ true
      → (d.parse token t).0 ≡ some c
      → c.uid ≡ res.uid
      → d.digest token ≢ d.digest res.access_token
      → ((verify d res.access_token t).0 ≡ ok (record { uid = res.uid; valid = true }))
        × ((verify d res.refresh_token t).0 ≡ err code_unauthorized)
        × ((verify d token t).0 ≡ err code_unauthorized)
  login-verify req s t res token c laws e live p u n =
      let i = login-Issued d req s t res e in
      (
        access_verdict laws res t i live,
        refresh_verdict laws res t i,
        other_verdict laws res t token c i p u n,
      )
