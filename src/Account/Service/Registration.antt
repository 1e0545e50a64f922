-- ===== src/Account/Service/Registration.antt =====
-- A user who has registered can log in: Register and Login of internal/account/service.go together.
use link_im.Prelude.{
  ℕ, suc, Bool, true, false, ◌||◌, [], ◌∷◌, Option, none, some, ◌≡◌, ◌⊎◌, ◌∙◌, refl, sym, ap, subst,
  inl, inr, arith, lt→ltb, Bool-cases,
}
use link_im.Prelude.Int.{ℤ}
use link_im.Prelude.Bytes.{Bytes, bytes_eq}
use link_im.Account.{code_bad_param, code_username_exists, code_storage_error, code_redis_error}
use link_im.Account.Service.{
  Deps, User, RegisterRequest, LoginRequest, LoginResult, Result, ok, err, Lookup, found, not_found,
  failed, Insert, inserted, username_exists, insert_failed, outside, matches_username,
  validate_register, insert_result, register_hashed, register_checked, register, issue, remembered,
  login_refresh, login_access, login_found, login,
}

-- A user that was inserted is found under the username, and a password fits its own hash.
pub record StoreLaws {S : Type 0} (d : Deps S) : Type 0 where
  pub get_user-create_user :
      (u : User) (s : S)
      → (d.create_user u s).0 ≡ inserted
      → (d.get_user_by_username u.username (d.create_user u s).1).0 ≡ found u
  pub compare-generate :
      (password hash : Bytes) (s : S)
      → (d.generate_hash password s).0 ≡ some hash
      → d.compare_hash hash password ≡ true

-- The row of a registration that succeeded.
pub record Registered {S : Type 0} (d : Deps S) (req : RegisterRequest) (uid : ℤ) (t : S)
    : Type 0 where
  pub user : User
  pub id : user.id ≡ uid
  pub username : user.username ≡ req.username
  pub before : S
  pub hashed : S
  pub hash : (d.generate_hash req.password hashed).0 ≡ some user.password_hash
  pub stored : (d.create_user user before).0 ≡ inserted
  pub after : (d.create_user user before).1 ≡ t

outside_nonempty :
    (low high : ℕ) (x : Bytes) → outside (suc low) high x ≡ false → bytes_eq x [] ≡ false
outside_nonempty low high [] h = absurd (cc (rw (lt→ltb 0 (suc low) (omega arith)) at h))
outside_nonempty low high (c ∷ x) h = refl

module _ {S : Type 0} (d : Deps S) where
  insert_ok : (uid v : ℤ) (o : Insert) → insert_result uid o ≡ ok v → (o ≡ inserted) × (uid ≡ v)
  insert_ok uid v inserted e = (refl, cc e)
  insert_ok uid v username_exists e = absurd (cc e)
  insert_ok uid v insert_failed e = absurd (cc e)

  hashed-Registered :
      (req : RegisterRequest) (hashed s t : S) (o : Option Bytes) (uid : ℤ)
      → (d.generate_hash req.password hashed).0 ≡ o
      → register_hashed d req (o, s) ≡ (ok uid, t)
      → Registered d req uid t
  hashed-Registered req hashed s t none uid h e =
      let apart : err code_storage_error ≡ ok uid = ap (λ x. x.0) e in absurd (cc apart)
  hashed-Registered req hashed s t (some hash) uid h e =
      let (v, s1) = d.next_id s in
      let (at, s2) = d.now s1 in
      let user : User = record {
        id = v;
        username = req.username;
        password_hash = hash;
        nickname = req.nickname;
        created_at = at;
      } in
      let (stored, same) = insert_ok v uid (d.create_user user s2).0 (ap (λ x. x.0) e) in
      record {
        user = user;
        id = same;
        username = refl;
        before = s2;
        hashed = hashed;
        hash = h;
        stored = stored;
        after = ap (λ x. x.1) e;
      }

  checked-Registered :
      (req : RegisterRequest) (l : Lookup) (s t : S) (uid : ℤ)
      → register_checked d req (l, s) ≡ (ok uid, t)
      → Registered d req uid t
  checked-Registered req (found u) s t uid e =
      let apart : err code_username_exists ≡ ok uid = ap (λ x. x.0) e in absurd (cc apart)
  checked-Registered req failed s t uid e =
      let apart : err code_storage_error ≡ ok uid = ap (λ x. x.0) e in absurd (cc apart)
  checked-Registered req not_found s t uid e =
      hashed-Registered req s (d.generate_hash req.password s).1 t
        (d.generate_hash req.password s).0 uid refl e

  register-Registered :
      (req : RegisterRequest) (s t : S) (uid : ℤ)
      → register d req s ≡ (ok uid, t)
      → (validate_register req ≡ true) × Registered d req uid t
  unfolding register
  register-Registered req s t uid e =
      let l = d.get_user_by_username req.username s in
      elim (Bool-cases (validate_register req)) [
        | inl y ↦ (y, checked-Registered req l.0 l.1 t uid (rw y at e))
        | inr n ↦
            let apart : err code_bad_param ≡ ok uid = ap (λ x. x.0) (rw n at e) in absurd (cc apart)
      ]

  -- A login that has come past the password: a result for the user, or an error of the store or of
  -- Redis.
  abbrev pub Admitted : ℤ → Result LoginResult → Type 0
  Admitted uid r =
      ((res : LoginResult) × (r ≡ ok res) × (res.uid ≡ uid))
      ⊎ ((r ≡ err code_storage_error) ⊎ (r ≡ err code_redis_error))

  remembered-Admitted :
      (res : LoginResult) (b : Bool) (s : S) → Admitted res.uid (remembered d res (b, s)).0
  remembered-Admitted res true s = inl (res, refl, refl)
  remembered-Admitted res false s = inr (inr refl)

  refresh-Admitted :
      (u : User) (a : Bytes × ℕ) (o : Option (Bytes × ℕ)) (s : S)
      → Admitted u.id (login_refresh d u a (o, s)).0
  refresh-Admitted u a none s = inr (inl refl)
  refresh-Admitted u (access, exp) (some (refresh, end)) s =
      remembered-Admitted
        (record { uid = u.id; access_token = access; refresh_token = refresh; expire_at = exp })
        (d.set_digest u.id (d.digest access) s).0 (d.set_digest u.id (d.digest access) s).1

  access-Admitted :
      (u : User) (o : Option (Bytes × ℕ)) (s : S) → Admitted u.id (login_access d u (o, s)).0
  access-Admitted u none s = inr (inl refl)
  access-Admitted u (some a) s =
      refresh-Admitted u a (issue d u.id false s).0 (issue d u.id false s).1

  found-Admitted :
      (req : LoginRequest) (u : User) (l : Lookup) (s : S)
      → l ≡ found u
      → d.compare_hash u.password_hash req.password ≡ true
      → Admitted u.id (login_found d req (l, s)).0
  found-Admitted req u l s e h =
      subst (λ x. Admitted u.id (login_found d req (x, s)).0) (sym e)
        (rw h (access-Admitted u (issue d u.id true s).0 (issue d u.id true s).1))

  -- A valid username and password are not empty.
  valid_nonempty :
      (req : RegisterRequest)
      → validate_register req ≡ true
      → bytes_eq req.username [] || bytes_eq req.password [] ≡ false
  unfolding validate_register
  valid_nonempty req h = elim (Bool-cases (outside 4 32 req.username)) [
    | inl a ↦ absurd (cc (rw a at h))
    | inr a ↦ elim (Bool-cases (matches_username req.username)) [
      | inr b ↦ absurd (cc (rw (a, b) at h))
      | inl b ↦ elim (Bool-cases (outside 8 64 req.password)) [
        | inl c ↦ absurd (cc (rw (a, b, c) at h))
        | inr c ↦
            rw (outside_nonempty 3 32 req.username a, outside_nonempty 7 64 req.password c) refl
      ]
    ]
  ]

  -- After a registration that succeeds, a login with the same username and password is never
  -- refused for its name, its password or its form: it succeeds for the uid that the registration
  -- returned, or the store or Redis fails.
  pub register-login :
      (req : RegisterRequest) (s t : S) (uid : ℤ)
      → StoreLaws d
      → register d req s ≡ (ok uid, t)
      → Admitted uid (login d (record { username = req.username; password = req.password }) t).0
  unfolding login
  register-login req s t uid laws e =
      let (valid, r) = register-Registered req s t uid e in
      let login_req : LoginRequest = record { username = req.username; password = req.password } in
      let l = d.get_user_by_username req.username t in
      let looked : l.0 ≡ found r.user =
        sym (λ k. (d.get_user_by_username (r.username k) (r.after k)).0)
        ∙ laws.get_user-create_user r.user r.before r.stored in
      rw (valid_nonempty req valid) (
        subst (λ x. Admitted x (login_found d login_req l).0) r.id
          (found-Admitted login_req r.user l.0 l.1 looked
            (laws.compare-generate req.password r.user.password_hash r.hashed r.hash)))
