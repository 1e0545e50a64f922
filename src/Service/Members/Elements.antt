-- ===== src/Service/Members/Elements.antt =====
-- Membership in a list, through the texts that internal/service/members.go keeps in Redis.
use link_im.Prelude.{
  true, List, [], ◌∷◌, ◌++◌, Option, none, some, map, ◌≡◌, ◌⊎◌, ◌↔◌, ◌∙◌, refl, sym, ap, subst, inl,
  inr, All, Bool-cases, Option-cases,
}
use link_im.Prelude.Int.{ℤ, IsInt64, eq_ℤ, eq_ℤ_iff, eq_ℤ_refl}
use link_im.Prelude.Bytes.{Bytes}
use link_im.Decimal.{format_int, parse_int}
use link_im.Decimal.RoundTrip.{parse_int-format_int}
use link_im.Service.Members.{add_parsed, parse_uids, has_uid}

abbrev pub Mem : {A : Type 0} → A → List A → Type 0
Mem x [] = ⊥
Mem x (y ∷ ys) = (x ≡ y) ⊎ Mem x ys

abbrev pub SameElements : {A : Type 0} → List A → List A → Type 0
SameElements {A} xs ys = (x : A) → Mem x xs ↔ Mem x ys

pub Mem-format_int :
    (v : Bytes) (us : List ℤ) → Mem v (map format_int us) → (u : ℤ) × Mem u us × (v ≡ format_int u)
Mem-format_int v [] m = elim m [ ]
Mem-format_int v (u ∷ us) (inl e) = (u, inl refl, e)
Mem-format_int v (u ∷ us) (inr m) = let (w, n, e) = Mem-format_int v us m in (w, inr n, e)

pub format_int-Mem : (u : ℤ) (us : List ℤ) → Mem u us → Mem (format_int u) (map format_int us)
format_int-Mem u [] m = elim m [ ]
format_int-Mem u (x ∷ us) (inl e) = inl (ap format_int e)
format_int-Mem u (x ∷ us) (inr m) = inr (format_int-Mem u us m)

pub Mem-All : {A : Type 0} (P : A → Type 0) (x : A) (xs : List A) → All P xs → Mem x xs → P x
Mem-All P x [] h m = elim m [ ]
Mem-All P x (y ∷ ys) (p, h) (inl e) = subst P (sym e) p
Mem-All P x (y ∷ ys) (p, h) (inr m) = Mem-All P x ys h m

pub Mem-append : {A : Type 0} (x : A) (xs ys : List A) → Mem x (xs ++ ys) → Mem x xs ⊎ Mem x ys
Mem-append x [] ys m = inr m
Mem-append x (y ∷ xs) ys (inl e) = inl (inl e)
Mem-append x (y ∷ xs) ys (inr m) = elim (Mem-append x xs ys m) [
  | inl n ↦ inl (inr n)
  | inr n ↦ inr n
]

pub append-nil-SameElements :
    {A : Type 0} (xs ys zs : List A) → ys ≡ [] → SameElements zs (xs ++ ys) → SameElements zs xs
append-nil-SameElements xs ys zs e h x = (
  λ m. elim (Mem-append x xs ys ((h x).0 m)) [ inl n ↦ n | inr n ↦ absurd (subst (Mem x) e n) ],
  λ m. (h x).1 (Mem-left x xs ys m),
)
  where
    Mem-left : {A : Type 0} (x : A) (xs ys : List A) → Mem x xs → Mem x (xs ++ ys)
    Mem-left x [] ys m = elim m [ ]
    Mem-left x (y ∷ xs) ys (inl q) = inl q
    Mem-left x (y ∷ xs) ys (inr m) = inr (Mem-left x xs ys m)

pub Mem-parse_uids :
    (n : ℤ) (vs : List Bytes)
    → Mem n (parse_uids vs)
    → (v : Bytes) × Mem v vs × (parse_int v ≡ some n)
unfolding parse_uids
Mem-parse_uids n [] m = elim m [ ]
Mem-parse_uids n (v ∷ vs) m = elim (Option-cases (parse_int v)) [
  | inl e ↦ let (x, p, q) = Mem-parse_uids n vs (rw e at m) in (x, inr p, q)
  | inr (u, e) ↦
      let cases : (n ≡ u) ⊎ Mem n (parse_uids vs) = rw e at m in
      elim cases [
        | inl q ↦ (v, inl refl, e ∙ ap some (sym q))
        | inr r ↦ let (x, p, q) = Mem-parse_uids n vs r in (x, inr p, q)
      ]
]

pub parse_uids-Mem :
    (n : ℤ) (v : Bytes) (vs : List Bytes) → Mem v vs → parse_int v ≡ some n → Mem n (parse_uids vs)
unfolding parse_uids
parse_uids-Mem n v [] m e = elim m [ ]
parse_uids-Mem n v (x ∷ vs) (inl q) e =
    subst (λ o. Mem n (add_parsed o (parse_uids vs))) (sym (ap parse_int (sym q) ∙ e)) (inl refl)
parse_uids-Mem n v (x ∷ vs) (inr m) e =
    added_Mem n (parse_int x) (parse_uids vs) (parse_uids-Mem n v vs m e)
  where
    added_Mem : (n : ℤ) (o : Option ℤ) (ns : List ℤ) → Mem n ns → Mem n (add_parsed o ns)
    added_Mem n none ns m = m
    added_Mem n (some u) ns m = inr m

pub has_uid_iff : (uid : ℤ) (ms : List ℤ) → (has_uid uid ms ≡ true) ↔ Mem uid ms
unfolding has_uid
has_uid_iff uid [] = (λ e. absurd (cc e), λ m. elim m [ ])
has_uid_iff uid (m ∷ ms) = elim (Bool-cases (eq_ℤ m uid)) [
  | inl e ↦ (λ h. inl (sym ((eq_ℤ_iff m uid).0 e)), λ h. rw e refl)
  | inr e ↦ (
    λ h. inr ((has_uid_iff uid ms).0 (rw e at h)),
    λ h.
        rw e
          (elim h [ inl q ↦ absurd (cc (e, q, eq_ℤ_refl m)) | inr n ↦ (has_uid_iff uid ms).1 n ]),
  )
]

-- The texts of int64 uids, read back, are the uids.
pub parse_uids-SameElements :
    (vs : List Bytes) (us : List ℤ)
    → All IsInt64 us
    → SameElements vs (map format_int us)
    → SameElements (parse_uids vs) us
parse_uids-SameElements vs us h same n = (
  λ m.
      let (v, p, q) = Mem-parse_uids n vs m in
      let (u, r, t) = Mem-format_int v us ((same v).0 p) in
      let read : some u ≡ some n =
        sym (parse_int-format_int u (Mem-All IsInt64 u us h r)) ∙ ap parse_int (sym t) ∙ q in
      subst (λ x. Mem x us) (cc read) r,
  λ m.
      parse_uids-Mem n (format_int n) vs ((same (format_int n)).1 (format_int-Mem n us m))
        (parse_int-format_int n (Mem-All IsInt64 n us h m)),
)

texts_within :
    (us ws : List ℤ)
    → ((u : ℤ) → Mem u us → Mem u ws)
    → (x : Bytes) → Mem x (map format_int us)
    → Mem x (map format_int ws)
texts_within us ws h x m =
    let (u, n, e) = Mem-format_int x us m in
    subst (λ y. Mem y (map format_int ws)) (sym e) (format_int-Mem u ws (h u n))

pub texts-SameElements :
    (us ws : List ℤ) → SameElements us ws → SameElements (map format_int us) (map format_int ws)
texts-SameElements us ws h x =
    (texts_within us ws (λ u. (h u).0) x, texts_within ws us (λ u. (h u).1) x)
