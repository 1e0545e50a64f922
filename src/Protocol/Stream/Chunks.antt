-- ===== src/Protocol/Stream/Chunks.antt =====
-- What `read_full` reads depends on the bytes alone, not on how they were cut into chunks.
use mathlib.Core.List.{flatten}
use link_im.Prelude.{
  ℕ, zero, suc, ◌-◌, ◌≤◌, List, [], ◌∷◌, ◌++◌, ◌≡◌, ◌∙◌, refl, ap, inl, inr, arith, length, take,
  drop, ◌⊎◌,
}
use link_im.Prelude.Bytes.{Bytes}
use link_im.Protocol.Stream.{read_full}

module _ {ℓ} {A : Type ℓ} where
  pub take-append_le : (n : ℕ) (xs ys : List A) → n ≤ length xs → take n (xs ++ ys) ≡ take n xs
  take-append_le zero xs ys h = refl
  take-append_le (suc n) [] ys h = elim h [ ]
  take-append_le (suc n) (x ∷ xs) ys h = ap (λ l. x ∷ l) (take-append_le n xs ys (omega arith))

  pub drop-append_le :
      (n : ℕ) (xs ys : List A) → n ≤ length xs → drop n (xs ++ ys) ≡ drop n xs ++ ys
  drop-append_le zero xs ys h = refl
  drop-append_le (suc n) [] ys h = elim h [ ]
  drop-append_le (suc n) (x ∷ xs) ys h = drop-append_le n xs ys (omega arith)

  pub take-append_ge :
      (n : ℕ) (xs ys : List A) → length xs ≤ n → take n (xs ++ ys) ≡ xs ++ take (n - length xs) ys
  take-append_ge n [] ys h = ap (λ k. take k ys) (omega arith)
  take-append_ge zero (x ∷ xs) ys h = absurd (omega arith)
  take-append_ge (suc n) (x ∷ xs) ys h =
      ap (λ l. x ∷ l)
        (take-append_ge n xs ys (omega arith) ∙ ap (λ k. xs ++ take k ys) (omega arith))

  pub drop-append_ge :
      (n : ℕ) (xs ys : List A) → length xs ≤ n → drop n (xs ++ ys) ≡ drop (n - length xs) ys
  drop-append_ge n [] ys h = ap (λ k. drop k ys) (omega arith)
  drop-append_ge zero (x ∷ xs) ys h = absurd (omega arith)
  drop-append_ge (suc n) (x ∷ xs) ys h =
      drop-append_ge n xs ys (omega arith) ∙ ap (λ k. drop k ys) (omega arith)

read_full_le :
    (n : ℕ) (c : Bytes) (cs : List Bytes)
    → n ≤ length c
    → read_full n (c ∷ cs) ≡ (take n c, drop n c ∷ cs)
unfolding read_full
read_full_le n c cs h = ground arith

read_full_gt :
    (n : ℕ) (c : Bytes) (cs : List Bytes)
    → suc (length c) ≤ n
    → read_full n (c ∷ cs) ≡ (c ++ (read_full (n - length c) cs).0, (read_full (n - length c) cs).1)
unfolding read_full
read_full_gt n c cs h = ground arith

le_or_gt : (n m : ℕ) → (n ≤ m) ⊎ (suc m ≤ n)
le_or_gt n m = grind arith

take-nil : (n : ℕ) → [] ≡ take {A = ℕ} n []
take-nil zero = refl
take-nil (suc n) = refl

drop-nil : (n : ℕ) → [] ≡ drop {A = ℕ} n []
drop-nil zero = refl
drop-nil (suc n) = refl

pub read_full-take : (n : ℕ) (cs : List Bytes) → (read_full n cs).0 ≡ take n (flatten cs)
unfolding flatten
read_full-take n [] = unfold read_full flatten in take-nil n
read_full-take n (c ∷ cs) = elim (le_or_gt n (length c)) [
  | inl h ↦ rw (read_full_le n c cs h, take-append_le n c (flatten cs) h)
  | inr h ↦ rw (
    read_full_gt n c cs h,
    take-append_ge n c (flatten cs) (omega arith),
    read_full-take (n - length c) cs,
  )
]

pub read_full-drop : (n : ℕ) (cs : List Bytes) → flatten (read_full n cs).1 ≡ drop n (flatten cs)
unfolding flatten
read_full-drop n [] = unfold read_full flatten in drop-nil n
read_full-drop n (c ∷ cs) = elim (le_or_gt n (length c)) [
  | inl h ↦ rw (read_full_le n c cs h, drop-append_le n c (flatten cs) h)
  | inr h ↦ rw (
    read_full_gt n c cs h,
    drop-append_ge n c (flatten cs) (omega arith),
    read_full-drop (n - length c) cs,
  )
]
