-- ===== src/Account/Groups/Distinct.antt =====
-- The loop of handleCreateGroup in internal/account/group.go that takes each uid once.
use link_im.Prelude.{
  ◌||◌, ◌&&◌, not, ◌⊎◌, arith, ◌∙◌, ap, subst, Bool, true, false, List, [], ◌∷◌, ◌≡◌, refl, inl,
  inr, All, Bool-cases,
}
use link_im.Prelude.Int.{ℤ, pos, leb_ℤ, eq_ℤ, eq_ℤ_iff, eq_ℤ_refl}
use link_im.Account.Groups.{is_in, distinct}

-- A uid that is positive and was not seen.
abbrev pub Fresh : List ℤ → ℤ → Type 0
Fresh seen m = (leb_ℤ m (pos 0) ≡ false) × (is_in m seen ≡ false)

abbrev pub IsDistinct : List ℤ → Type 0
IsDistinct [] = Unit
IsDistinct (m ∷ ms) = (is_in m ms ≡ false) × IsDistinct ms

or_false : (a b : Bool) → a || b ≡ false → (a ≡ false) × (b ≡ false)
or_false true b h = absurd (cc h)
or_false false b h = (refl, h)

eq_ℤ-false_sym : (a b : ℤ) → eq_ℤ a b ≡ false → eq_ℤ b a ≡ false
eq_ℤ-false_sym a b h = elim (Bool-cases (eq_ℤ b a)) [
  | inl e ↦ absurd (cc (h, (eq_ℤ_iff b a).0 e, eq_ℤ_refl a))
  | inr e ↦ e
]

Fresh-tail : (m : ℤ) (seen ms : List ℤ) → All (Fresh (m ∷ seen)) ms → All (Fresh seen) ms
Fresh-tail m seen [] h = h
Fresh-tail m seen (x ∷ xs) ((p, q), h) =
    ((p, (or_false (eq_ℤ m x) (is_in x seen) q).1), Fresh-tail m seen xs h)

Fresh-apart : (m : ℤ) (seen ms : List ℤ) → All (Fresh (m ∷ seen)) ms → is_in m ms ≡ false
Fresh-apart m seen [] h = refl
Fresh-apart m seen (x ∷ xs) ((p, q), h) =
    rw (eq_ℤ-false_sym m x (or_false (eq_ℤ m x) (is_in x seen) q).0) (Fresh-apart m seen xs h)

-- The uids that are kept are positive, and not among those seen before.
pub distinct-Fresh : (seen uids : List ℤ) → All (Fresh seen) (distinct seen uids)
unfolding distinct
distinct-Fresh seen [] = tt
distinct-Fresh seen (m ∷ ms) = elim (Bool-cases (leb_ℤ m (pos 0) || is_in m seen)) [
  | inl e ↦ rw e (distinct-Fresh seen ms)
  | inr e ↦ rw e (
    or_false (leb_ℤ m (pos 0)) (is_in m seen) e,
    Fresh-tail m seen (distinct (m ∷ seen) ms) (distinct-Fresh (m ∷ seen) ms),
  )
]

pub distinct-IsDistinct : (seen uids : List ℤ) → IsDistinct (distinct seen uids)
unfolding distinct
distinct-IsDistinct seen [] = tt
distinct-IsDistinct seen (m ∷ ms) = elim (Bool-cases (leb_ℤ m (pos 0) || is_in m seen)) [
  | inl e ↦ rw e (distinct-IsDistinct seen ms)
  | inr e ↦ rw e (
    Fresh-apart m seen (distinct (m ∷ seen) ms) (distinct-Fresh (m ∷ seen) ms),
    distinct-IsDistinct (m ∷ seen) ms,
  )
]

-- The Boolean part of the two cases, in which `l` is that x is not positive.
skip_table :
    (l i k : Bool) → l || i ≡ true → k && (not l && not i) ≡ (true || k) && (not l && not i)
skip_table true i k e = ground arith
skip_table false true k e = ground arith
skip_table false false k e = absurd (cc e)

keep_table : (l i k : Bool) → l || i ≡ false → true ≡ (true || k) && (not l && not i)
keep_table true i k e = absurd (cc e)
keep_table false true k e = absurd (cc e)
keep_table false false k e = refl

-- A uid is kept exactly if it was requested, is positive and was not seen before.
pub distinct-is_in :
    (seen : List ℤ) (m : ℤ) (uids : List ℤ)
    → is_in m (distinct seen uids) ≡ (is_in m uids && (not (leb_ℤ m (pos 0)) && not (is_in m seen)))
unfolding distinct
distinct-is_in seen m [] = refl
distinct-is_in seen m (x ∷ xs) = elim (Bool-cases (leb_ℤ x (pos 0) || is_in x seen)) [
  | inl e ↦ rw e (distinct-is_in seen m xs ∙ dropped (Bool-cases (eq_ℤ x m)) e)
  | inr e ↦
      rw e
        (ap (λ b. eq_ℤ x m || b) (distinct-is_in (x ∷ seen) m xs) ∙ kept (Bool-cases (eq_ℤ x m)) e)
]
  where
    dropped :
        ((eq_ℤ x m ≡ true) ⊎ (eq_ℤ x m ≡ false))
        → leb_ℤ x (pos 0) || is_in x seen ≡ true
        → (is_in m xs && (not (leb_ℤ m (pos 0)) && not (is_in m seen)))
          ≡ ((eq_ℤ x m || is_in m xs) && (not (leb_ℤ m (pos 0)) && not (is_in m seen)))
    dropped (inr c) e = rw c refl
    dropped (inl c) e =
        let p = (eq_ℤ_iff x m).0 c in
        rw c (
          skip_table (leb_ℤ m (pos 0)) (is_in m seen) (is_in m xs)
            (subst (λ y. leb_ℤ y (pos 0) || is_in y seen ≡ true) p e))

    kept :
        ((eq_ℤ x m ≡ true) ⊎ (eq_ℤ x m ≡ false))
        → leb_ℤ x (pos 0) || is_in x seen ≡ false
        → (eq_ℤ x m || (is_in m xs && (not (leb_ℤ m (pos 0)) && not (eq_ℤ x m || is_in m seen))))
          ≡ ((eq_ℤ x m || is_in m xs) && (not (leb_ℤ m (pos 0)) && not (is_in m seen)))
    kept (inr c) e = rw c refl
    kept (inl c) e =
        let p = (eq_ℤ_iff x m).0 c in
        rw c (
          keep_table (leb_ℤ m (pos 0)) (is_in m seen) (is_in m xs)
            (subst (λ y. leb_ℤ y (pos 0) || is_in y seen ≡ false) p e))
