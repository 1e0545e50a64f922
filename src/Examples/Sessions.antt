-- ===== src/Examples/Sessions.antt =====
-- A user who registers and logs in twice. A token is the text of its body, a digest is the token
-- with a first byte, and a password is its own hash.
use link_im.Prelude.{
  false, ℕ, zero, suc, true, List, [], ◌∷◌, Option, none, some, ◌≡◌, refl, ap, subst, ltb,
  if◌then◌else◌,
}
use link_im.Prelude.Int.{ℤ, pos, negsuc, eq_ℤ, eq_ℤ_refl}
use link_im.Prelude.Bytes.{Bytes, codes, bytes_eq, bytes_eq_refl}
use link_im.Account.{Claims, code_unauthorized}
use link_im.Account.Service.{
  Deps, User, RegisterRequest, LoginRequest, LoginResult, ok, err, Lookup, found, not_found,
  inserted, register, issue, login, verify, validate_register,
}
use link_im.Account.Service.Sessions.{TokenLaws, login-verify}
use link_im.Account.Service.Registration.{StoreLaws, Admitted, register-login}
use link_im.Logic.Verifier.{http_verify, login-http_verify}

pub record Store : Type 0 where
  pub clock : ℕ
  pub users : List User
  pub digests : ℤ → Bytes

-- The sign, the number, the second of the end, and the type.
abbrev sign_text : ℤ → ℕ → Bytes → Bytes
sign_text (pos n) end t = 0 ∷ n ∷ end ∷ t
sign_text (negsuc n) end t = 1 ∷ n ∷ end ∷ t

abbrev claims : ℤ → Bytes → Claims
claims u t = record { uid = u; token_type = t }

abbrev read_text : ℕ → Bytes → Option Claims
read_text now (zero ∷ n ∷ e ∷ t) = if ltb now e then some (claims (pos n) t) else none
read_text now (suc zero ∷ n ∷ e ∷ t) = if ltb now e then some (claims (negsuc n) t) else none
read_text now _ = none

abbrev user_of : Bytes → List User → Lookup
user_of name [] = not_found
user_of name (u ∷ us) = if bytes_eq u.username name then found u else user_of name us

abbrev deps : Deps Store
deps = record {
  create_user = λ u s. (inserted, record s { users = u ∷ s.users });
  get_user_by_username = λ n s. (user_of n s.users, s);
  set_digest = λ u x s. (true, record s { digests = λ v. if eq_ℤ v u then x else s.digests v });
  get_digest = λ u s. (some (s.digests u), s);
  next_id = λ s. (pos 7, s);
  now = λ s. (s.clock, s);
  generate_hash = λ p s. (some p, s);
  compare_hash = λ h p. bytes_eq h p;
  sign = λ b. some (sign_text b.uid b.expires_at b.token_type);
  parse = λ t s. (read_text s.clock t, s);
  digest = λ t. 1 ∷ t;
  access_ttl = 20;
  refresh_ttl = 60;
}

read-sign :
    (u : ℤ) (end : ℕ) (t : Bytes) (now : ℕ)
    → read_text now (sign_text u end t) ≡ (if ltb now end then some (claims u t) else none)
read-sign (pos n) end t now = refl
read-sign (negsuc n) end t now = refl

deps-TokenLaws : TokenLaws deps
deps-TokenLaws = record {
  parse-sign = λ b token s e.
      subst
        (λ t.
          read_text s.clock t
          ≡ (if ltb s.clock b.expires_at then some (claims b.uid b.token_type) else none))
        (cc e) (read-sign b.uid b.expires_at b.token_type s.clock);
  get_digest-parse = λ token uid s. refl;
  get_digest-set_digest =
      λ uid x s e. ap (λ b. some (if b then x else s.digests uid)) (eq_ℤ_refl uid);
  digest_nonempty = λ token e. cc e;
}

deps-StoreLaws : StoreLaws deps
deps-StoreLaws = record {
  get_user-create_user = λ u s e.
      ap (λ b. if b then found u else user_of u.username s.users) (bytes_eq_refl u.username);
  compare-generate = λ p h s e. subst (λ x. bytes_eq x p ≡ true) (cc e) (bytes_eq_refl p);
}

abbrev ann : User
ann = record {
  id = pos 7;
  username = codes "anna";
  password_hash = codes "password";
  nickname = [];
  created_at = 0;
}

abbrev before : Store
before = record { clock = 10; users = ann ∷ []; digests = λ u. [] }

abbrev login_req : LoginRequest
login_req = record { username = codes "anna"; password = codes "password" }

abbrev result : LoginResult
result = record {
  uid = pos 7;
  access_token = sign_text (pos 7) 30 (codes "access");
  refresh_token = sign_text (pos 7) 70 (codes "refresh");
  expire_at = 30;
}

abbrev after : Store
after = record before {
  digests = λ v. if eq_ℤ v (pos 7) then 1 ∷ sign_text (pos 7) 30 (codes "access") else [];
}

-- The access token of an earlier login.
abbrev old : Bytes
old = sign_text (pos 7) 20 (codes "access")

logged_in : login deps login_req before ≡ (ok result, after)
unfolding login issue
logged_in = refl

login-verify_example :
    ((verify deps result.access_token after).0 ≡ ok (record { uid = pos 7; valid = true }))
    × ((verify deps result.refresh_token after).0 ≡ err code_unauthorized)
    × ((verify deps old after).0 ≡ err code_unauthorized)
login-verify_example =
    login-verify deps login_req before after result old (claims (pos 7) (codes "access"))
      deps-TokenLaws logged_in refl refl refl (λ e. cc e)

abbrev register_req : RegisterRequest
register_req = record { username = codes "anna"; password = codes "password"; nickname = [] }

abbrev empty : Store
empty = record { clock = 0; users = []; digests = λ u. [] }

abbrev one : Store
one = record { clock = 0; users = ann ∷ []; digests = λ u. [] }

registered : register deps register_req empty ≡ (ok (pos 7), one)
unfolding register validate_register
registered = refl

register-login_example : Admitted deps (pos 7) (login deps login_req one).0
register-login_example =
    register-login deps register_req empty one (pos 7) deps-StoreLaws registered

login-http_verify_example :
    (http_verify deps result.access_token after ≡ some (pos 7, true))
    × (http_verify deps result.refresh_token after ≡ some (pos 0, false))
    × (http_verify deps old after ≡ some (pos 0, false))
login-http_verify_example =
    login-http_verify deps login_req before after result old (claims (pos 7) (codes "access"))
      deps-TokenLaws logged_in refl refl refl (λ e. cc e)
