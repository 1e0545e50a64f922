-- ===== src/Decimal/Range.antt =====
-- What ParseInt accepts is in the range of int64.
use link_im.Prelude.{ℕ, zero, suc, Option, some, [], ◌∷◌, ◌≡◌, inl, inr, arith, ◌>>=◌, Option-cases}
use link_im.Prelude.Int.{ℤ, pos, negsuc, IsInt64}
use link_im.Prelude.Bytes.{Bytes}
use link_im.Decimal.{scan_nonempty, in_range_pos, in_range_neg, parse_int}

in_range_pos-IsInt64 : (n : ℕ) (a : ℤ) → in_range_pos n ≡ some a → IsInt64 a
unfolding in_range_pos
in_range_pos-IsInt64 n (pos m) h = ground arith
in_range_pos-IsInt64 n (negsuc m) h = ground arith

in_range_neg-IsInt64 : (n : ℕ) (a : ℤ) → in_range_neg n ≡ some a → IsInt64 a
unfolding in_range_neg
in_range_neg-IsInt64 zero (pos m) h = ground arith
in_range_neg-IsInt64 zero (negsuc m) h = ground arith
in_range_neg-IsInt64 (suc n) (pos m) h = ground arith
in_range_neg-IsInt64 (suc n) (negsuc m) h = ground arith

module _ (o : Option ℕ) (a : ℤ) where
  bind_pos : (o >>= in_range_pos) ≡ some a → IsInt64 a
  bind_pos h = elim (Option-cases o) [
    | inl e ↦ ground arith
    | inr (n, e) ↦ in_range_pos-IsInt64 n a (ground arith)
  ]

  bind_neg : (o >>= in_range_neg) ≡ some a → IsInt64 a
  bind_neg h = elim (Option-cases o) [
    | inl e ↦ ground arith
    | inr (n, e) ↦ in_range_neg-IsInt64 n a (ground arith)
  ]

pub parse_int-IsInt64 : (s : Bytes) (a : ℤ) → parse_int s ≡ some a → IsInt64 a
unfolding parse_int
parse_int-IsInt64 [] a h = ground arith
parse_int-IsInt64 (c ∷ s) a h = ground (
  arith,
  bind_neg (scan_nonempty s) a,
  bind_pos (scan_nonempty s) a,
  bind_pos (scan_nonempty (c ∷ s)) a,
)
