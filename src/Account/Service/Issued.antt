-- ===== src/Account/Service/Issued.antt =====
-- Where the tokens of a successful Login of internal/account/service.go come from.
use link_im.Prelude.{
  Bool, true, false, ◌||◌, [], some, ◌≡◌, refl, ap, subst, inl, inr, Bool-cases, Option-cases,
}
use link_im.Prelude.Bytes.{Bytes, bytes_eq}
use link_im.Account.{code_unauthorized, code_bad_param, code_storage_error, code_redis_error}
use link_im.Account.Session.{token_type_access}
use link_im.Account.Service.{
  Deps, User, LoginRequest, LoginResult, ok, err, Lookup, found, not_found, failed, TokenBody,
  token_type_refresh, token_body, issue, remembered, login_refresh, login_access, login_found,
  login,
}

-- Where the result of a login comes from: two signed tokens, and the digest of the first stored.
pub record Issued {S : Type 0} (d : Deps S) (res : LoginResult) (t : S) : Type 0 where
  pub access_body : TokenBody
  pub access : d.sign access_body ≡ some res.access_token
  pub access_uid : access_body.uid ≡ res.uid
  pub access_type : access_body.token_type ≡ token_type_access
  pub access_end : access_body.expires_at ≡ res.expire_at
  pub refresh_body : TokenBody
  pub refresh : d.sign refresh_body ≡ some res.refresh_token
  pub refresh_type : refresh_body.token_type ≡ token_type_refresh
  pub before : S
  pub stored : (d.set_digest res.uid (d.digest res.access_token) before).0 ≡ true
  pub after : (d.set_digest res.uid (d.digest res.access_token) before).1 ≡ t

module _ {S : Type 0} (d : Deps S) where
  remembered_ok :
      (r res : LoginResult) (b : Bool) (s t : S)
      → remembered d r (b, s) ≡ (ok res, t)
      → (b ≡ true) × (r ≡ res) × (s ≡ t)
  remembered_ok r res true s t e =
      let same : ok r ≡ ok res = ap (λ x. x.0) e in (refl, cc same, ap (λ x. x.1) e)
  remembered_ok r res false s t e =
      let apart : err code_redis_error ≡ ok res = ap (λ x. x.0) e in absurd (cc apart)

  refresh-Issued :
      (u : User) (access : Bytes) (body : TokenBody) (s t : S) (res : LoginResult)
      → d.sign body ≡ some access
      → body.uid ≡ u.id
      → body.token_type ≡ token_type_access
      → login_refresh d u (access, body.expires_at) (issue d u.id false s) ≡ (ok res, t)
      → Issued d res t
  unfolding issue
  refresh-Issued u access body s t res sa p q e =
      let refresh_body = token_body d u.id false (d.now s).0 in
      elim (Option-cases (d.sign refresh_body)) [
        | inl n ↦ absurd (cc (ap (λ x. x.0) (rw n at e)))
        | inr (refresh, sr) ↦
            let s' = (d.now s).1 in
            let r : LoginResult = record {
              uid = u.id;
              access_token = access;
              refresh_token = refresh;
              expire_at = body.expires_at;
            } in
            let set = d.set_digest u.id (d.digest access) s' in
            let (stored, same, after) = remembered_ok r res set.0 set.1 t (rw sr at e) in
            subst (λ x. Issued d x t) same
              (record {
                access_body = body;
                access = sa;
                access_uid = p;
                access_type = q;
                access_end = refl;
                refresh_body = refresh_body;
                refresh = sr;
                refresh_type = refl;
                before = s';
                stored = stored;
                after = after;
              })
      ]

  access-Issued :
      (u : User) (s t : S) (res : LoginResult)
      → login_access d u (issue d u.id true s) ≡ (ok res, t)
      → Issued d res t
  unfolding issue
  access-Issued u s t res e =
      let body = token_body d u.id true (d.now s).0 in
      elim (Option-cases (d.sign body)) [
        | inl n ↦ absurd (cc (ap (λ x. x.0) (rw n at e)))
        | inr (access, sa) ↦
            refresh-Issued u access body (d.now s).1 t res sa refl refl (rw sa at e)
      ]

  found-Issued :
      (req : LoginRequest) (l : Lookup) (s t : S) (res : LoginResult)
      → login_found d req (l, s) ≡ (ok res, t)
      → Issued d res t
  found-Issued req not_found s t res e =
      let apart : err code_unauthorized ≡ ok res = ap (λ x. x.0) e in absurd (cc apart)
  found-Issued req failed s t res e =
      let apart : err code_storage_error ≡ ok res = ap (λ x. x.0) e in absurd (cc apart)
  found-Issued req (found u) s t res e =
      elim (Bool-cases (d.compare_hash u.password_hash req.password)) [
        | inr n ↦
            let apart : err code_unauthorized ≡ ok res = ap (λ x. x.0) (rw n at e) in
            absurd (cc apart)
        | inl y ↦ access-Issued u s t res (rw y at e)
      ]

  pub login-Issued :
      (req : LoginRequest) (s t : S) (res : LoginResult)
      → login d req s ≡ (ok res, t)
      → Issued d res t
  unfolding login
  login-Issued req s t res e =
      let l = d.get_user_by_username req.username s in
      elim (Bool-cases (bytes_eq req.username [] || bytes_eq req.password [])) [
        | inl y ↦
            let apart : err code_bad_param ≡ ok res = ap (λ x. x.0) (rw y at e) in absurd (cc apart)
        | inr n ↦ found-Issued req l.0 l.1 t res (rw n at e)
      ]
