-- ===== src/Prelude/Int.antt =====
-- Go's int64 as an integer, with its comparisons. A value of the source lies between -2^63 and
-- 2^63 - 1: `IsInt64`.
use Prim.Native.Nat.{ℕ, ◌^◌, ◌<◌}
use mathlib.Core.Path.{◌≡◌, refl, ap}
use mathlib.Core.Logic.{◌≢◌, ◌↔◌, ◌⊎◌, inl, inr}
use mathlib.Core.Bool.{Bool, true, false}
use native.Mathlib.Omega.{arith}
use link_im.Prelude.Tests.{ltb, leb, ◌==◌}

-- `negsuc n` is -(n + 1).
pub data ℤ : Type 0 where
  pos : ℕ → ℤ
  negsuc : ℕ → ℤ

abbrev pub ltb_ℤ : ℤ → ℤ → Bool
ltb_ℤ (pos a) (pos b) = ltb a b
ltb_ℤ (pos a) (negsuc b) = false
ltb_ℤ (negsuc a) (pos b) = true
ltb_ℤ (negsuc a) (negsuc b) = ltb b a

abbrev pub leb_ℤ : ℤ → ℤ → Bool
leb_ℤ (pos a) (pos b) = leb a b
leb_ℤ (pos a) (negsuc b) = false
leb_ℤ (negsuc a) (pos b) = true
leb_ℤ (negsuc a) (negsuc b) = leb b a

abbrev pub eq_ℤ : ℤ → ℤ → Bool
eq_ℤ (pos a) (pos b) = a == b
eq_ℤ (pos a) (negsuc b) = false
eq_ℤ (negsuc a) (pos b) = false
eq_ℤ (negsuc a) (negsuc b) = a == b

abbrev pub IsInt64 : ℤ → Type 0
IsInt64 (pos n) = n < 2 ^ 63
IsInt64 (negsuc n) = n < 2 ^ 63

pub eq_ℤ_iff : (a b : ℤ) → (eq_ℤ a b ≡ true) ↔ (a ≡ b)
eq_ℤ_iff (pos a) (pos b) = ground arith
eq_ℤ_iff (pos a) (negsuc b) = ground arith
eq_ℤ_iff (negsuc a) (pos b) = ground arith
eq_ℤ_iff (negsuc a) (negsuc b) = ground arith

pub eq_ℤ_refl : (a : ℤ) → eq_ℤ a a ≡ true
eq_ℤ_refl (pos a) = ground arith
eq_ℤ_refl (negsuc a) = ground arith

-- Not `a ≤ b` is `b < a`.
pub leb_ℤ-false_iff : (a b : ℤ) → (leb_ℤ a b ≡ false) ↔ (ltb_ℤ b a ≡ true)
leb_ℤ-false_iff (pos a) (pos b) = ground arith
leb_ℤ-false_iff (pos a) (negsuc b) = ground arith
leb_ℤ-false_iff (negsuc a) (pos b) = ground arith
leb_ℤ-false_iff (negsuc a) (negsuc b) = ground arith

pub ltb_ℤ-false-ne : (a b : ℤ) → ltb_ℤ b a ≡ false → a ≢ b → leb_ℤ b a ≡ false
ltb_ℤ-false-ne (pos a) (pos b) h k = ground (arith, λ (e : a ≡ b). k (ap pos e))
ltb_ℤ-false-ne (pos a) (negsuc b) h k = ground arith
ltb_ℤ-false-ne (negsuc a) (pos b) h k = ground arith
ltb_ℤ-false-ne (negsuc a) (negsuc b) h k = ground (arith, λ (e : a ≡ b). k (ap negsuc e))

-- Exactly one of less, greater and equal.
pub data Trichotomy (a b : ℤ) : Type 0 where
  less : ltb_ℤ a b ≡ true → ltb_ℤ b a ≡ false → Trichotomy a b
  greater : ltb_ℤ a b ≡ false → ltb_ℤ b a ≡ true → Trichotomy a b
  equal : a ≡ b → Trichotomy a b

trichotomy_ℕ : (a b : ℕ) → (a < b) ⊎ ((b < a) ⊎ (a ≡ b))
trichotomy_ℕ a b = grind arith

pub trichotomy : (a b : ℤ) → Trichotomy a b
trichotomy (pos a) (pos b) = elim (trichotomy_ℕ a b) [
  | inl h ↦ less (ground arith) (ground arith)
  | inr (inl h) ↦ greater (ground arith) (ground arith)
  | inr (inr h) ↦ equal (ap pos h)
]
trichotomy (pos a) (negsuc b) = greater refl refl
trichotomy (negsuc a) (pos b) = less refl refl
trichotomy (negsuc a) (negsuc b) = elim (trichotomy_ℕ a b) [
  | inl h ↦ greater (ground arith) (ground arith)
  | inr (inl h) ↦ less (ground arith) (ground arith)
  | inr (inr h) ↦ equal (ap negsuc h)
]
