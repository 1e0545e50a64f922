-- ===== src/Decimal.antt =====
-- Decimal text of int64 values, as the code prints it (strconv.FormatInt, the %d of fmt.Sprintf)
-- and reads it (strconv.ParseInt(s, 10, 64)). The proofs are in the modules below.
pub mod RoundTrip
pub mod Range
use link_im.Prelude.{
  ℕ, zero, suc, ◌+◌, ◌-◌, ◌*◌, ◌/◌, ◌%◌, ◌^◌, Bool, true, false, ◌&&◌, Option, none, some, [], ◌∷◌,
  ◌++◌, ◌≡◌, refl, ltb, leb, ◌==◌, if◌then◌else◌, ◌>>=◌,
}
use link_im.Prelude.Int.{ℤ, pos, negsuc}
use link_im.Prelude.Bytes.{Bytes, codes}

-- The digits of `n`, the last one by `n % 10`; the fuel bounds their number.
digits : ℕ → ℕ → Bytes
digits zero n = []
digits (suc fuel) n = elim (ltb n 10) [
  | true ↦ (48 + n) ∷ []
  | false ↦ digits fuel (n / 10) ++ (48 + n % 10) ∷ []
]

-- `n + 1` is enough fuel: each round divides by ten.
unfoldable pub format_nat : ℕ → Bytes
unfolding digits
format_nat n = digits (suc n) n

unfoldable pub format_int : ℤ → Bytes
unfolding format_nat
format_int (pos n) = format_nat n
format_int (negsuc n) = b'-' ∷ format_nat (suc n)

abbrev is_digit : ℕ → Bool
is_digit c = leb 48 c && leb c 57

-- ParseUint's loop. It goes on past 2^64, where the source stops; both are out of int64's range.
scan : ℕ → Bytes → Option ℕ
scan acc [] = some acc
scan acc (c ∷ s) = if is_digit c then scan (acc * 10 + (c - 48)) s else none

scan_nonempty : Bytes → Option ℕ
unfolding scan
scan_nonempty [] = none
scan_nonempty (c ∷ s) = scan 0 (c ∷ s)

abbrev negate : ℕ → ℤ
negate zero = pos 0
negate (suc n) = negsuc n

in_range_pos : ℕ → Option ℤ
in_range_pos n = if ltb n (2 ^ 63) then some (pos n) else none

in_range_neg : ℕ → Option ℤ
in_range_neg n = if leb n (2 ^ 63) then some (negate n) else none

in_range_uint : ℕ → Option ℕ
in_range_uint n = if ltb n (2 ^ 64) then some n else none

-- strconv.ParseUint(s, 10, 64): digits without a sign, and the range of uint64.
unfoldable pub parse_uint : Bytes → Option ℕ
unfolding scan_nonempty in_range_uint
parse_uint s = scan_nonempty s >>= in_range_uint

-- strconv.ParseInt(s, 10, 64): one sign at most, digits, and the range of int64.
unfoldable pub parse_int : Bytes → Option ℤ
unfolding scan_nonempty in_range_pos in_range_neg
parse_int [] = none
parse_int (c ∷ s) =
    if c == b'-'
    then (scan_nonempty s >>= in_range_neg)
    else if c == b'+'
    then (scan_nonempty s >>= in_range_pos)
    else (scan_nonempty (c ∷ s) >>= in_range_pos)

min_int64 : parse_int (codes "-9223372036854775808") ≡ some (negsuc (2 ^ 63 - 1))
unfolding parse_int
min_int64 = refl

out_of_range : parse_int (codes "9223372036854775808") ≡ none
unfolding parse_int
out_of_range = refl

signs : parse_int (codes "+007") ≡ some (pos 7)
unfolding parse_int
signs = refl

printed : format_int (negsuc 1203) ≡ codes "-1204"
unfolding format_int
printed = refl
