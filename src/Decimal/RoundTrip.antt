-- ===== src/Decimal/RoundTrip.antt =====
-- Every int64 is read back from its decimal text, and that text holds no colon.
use link_im.Prelude.{
  ℕ, zero, suc, ◌+◌, ◌-◌, ◌*◌, ◌/◌, ◌%◌, ◌<◌, ◌≤◌, some, [], ◌∷◌, ◌++◌, ◌≡◌, ◌⊎◌, ◌∙◌, refl, ap,
  inl, inr, arith, ◌>>=◌, All, All-append,
}
use link_im.Prelude.Int.{ℤ, pos, negsuc, IsInt64}
use link_im.Prelude.Bytes.{Bytes, Lacks}
use link_im.Decimal.{
  digits, format_nat, format_int, scan, scan_nonempty, in_range_pos, in_range_neg, parse_int,
}

abbrev IsDigit : ℕ → Type 0
IsDigit c = (48 ≤ c) × (c ≤ 57)

digits_small : (fuel n : ℕ) → n < 10 → digits (suc fuel) n ≡ (48 + n) ∷ []
unfolding digits
digits_small fuel n h = ground arith

digits_large :
    (fuel n : ℕ) → 10 ≤ n → digits (suc fuel) n ≡ digits fuel (n / 10) ++ (48 + n % 10) ∷ []
unfolding digits
digits_large fuel n h = ground arith

lt_or_ge : (n m : ℕ) → (n < m) ⊎ (m ≤ n)
lt_or_ge n m = grind arith

digits-IsDigit : (fuel n : ℕ) → All IsDigit (digits fuel n)
digits-IsDigit zero n = unfold digits in tt
digits-IsDigit (suc fuel) n = elim (lt_or_ge n 10) [
  | inl h ↦ rw (digits_small fuel n h) ((omega arith, omega arith), tt)
  | inr h ↦ rw (digits_large fuel n h) (
      All-append IsDigit (digits fuel (n / 10)) ((48 + n % 10) ∷ []) (digits-IsDigit fuel (n / 10))
        ((omega arith, omega arith), tt))
]

scan-append : (acc : ℕ) (s t : Bytes) → scan acc (s ++ t) ≡ (scan acc s >>= λ v. scan v t)
unfolding scan
scan-append acc [] t = refl
scan-append acc (c ∷ s) t = ground (arith, scan-append (acc * 10 + (c - 48)) s t)

scan_digit : (acc d : ℕ) → d < 10 → scan acc ((48 + d) ∷ []) ≡ some (acc * 10 + d)
unfolding scan
scan_digit acc d h = ground arith

scan-digits : (fuel n : ℕ) → n < fuel → scan 0 (digits fuel n) ≡ some n
scan-digits zero n h = elim h [ ]
scan-digits (suc fuel) n h = elim (lt_or_ge n 10) [
  | inl k ↦ rw (digits_small fuel n k) (scan_digit 0 n k ∙ ap some (omega arith))
  | inr k ↦
      rw
        (
          digits_large fuel n k,
          scan-append 0 (digits fuel (n / 10)) ((48 + n % 10) ∷ []),
          scan-digits fuel (n / 10) (omega arith),
        )
        (scan_digit (n / 10) (n % 10) (omega arith) ∙ ap some (omega arith))
]

-- The text starts with a digit.
digits-cons : (fuel n : ℕ) → n < fuel → (c : ℕ) × (s : Bytes) × (digits fuel n ≡ c ∷ s)
digits-cons zero n h = elim h [ ]
digits-cons (suc fuel) n h = elim (lt_or_ge n 10) [
  | inl k ↦ (48 + n, [], digits_small fuel n k)
  | inr k ↦
      let (c, s, e) = digits-cons fuel (n / 10) (omega arith) in
      (c, s ++ (48 + n % 10) ∷ [], rw (digits_large fuel n k, e))
]

All-IsDigit-Lacks : (b : ℕ) (s : Bytes) → 57 < b → All IsDigit s → Lacks b s
All-IsDigit-Lacks b [] h _ = tt
All-IsDigit-Lacks b (c ∷ s) h (hc, hs) = (λ e. omega (arith, e), All-IsDigit-Lacks b s h hs)

scan_nonempty-format : (n : ℕ) → scan_nonempty (format_nat n) ≡ some n
unfolding format_nat scan_nonempty
scan_nonempty-format n =
    let (c, s, e) = digits-cons (suc n) n (omega arith) in
    rw e (rw e at (scan-digits (suc n) n (omega arith)))

parse_digit :
    (c : ℕ) (s : Bytes) → IsDigit c → parse_int (c ∷ s) ≡ (scan_nonempty (c ∷ s) >>= in_range_pos)
unfolding parse_int
parse_digit c s h = ground arith

format_nat-cons : (n : ℕ) → (c : ℕ) × (s : Bytes) × (IsDigit c × (format_nat n ≡ c ∷ s))
unfolding format_nat
format_nat-cons n =
    let (c, s, e) = digits-cons (suc n) n (omega arith) in
    (c, s, ((rw e at (digits-IsDigit (suc n) n)).0, e))

parse_format_nat : (n : ℕ) → parse_int (format_nat n) ≡ in_range_pos n
parse_format_nat n =
    let (c, s, e) = format_nat-cons n in
    let value : scan_nonempty (c ∷ s) ≡ some n = rw e.1 at (scan_nonempty-format n) in
    rw e.1 (parse_digit c s e.0 ∙ rw value)

-- Reading the decimal text of an int64 gives the int64 back.
pub parse_int-format_int : (a : ℤ) → IsInt64 a → parse_int (format_int a) ≡ some a
unfolding format_int
parse_int-format_int (pos n) h = parse_format_nat n ∙ (unfold in_range_pos in ground arith)
parse_int-format_int (negsuc n) h =
    unfold parse_int in rw (scan_nonempty-format (suc n)) (unfold in_range_neg in ground arith)

pub format_int-Lacks_colon : (a : ℤ) → Lacks b':' (format_int a)
unfolding format_int format_nat
format_int-Lacks_colon (pos n) =
    All-IsDigit-Lacks b':' (digits (suc n) n) (omega arith) (digits-IsDigit (suc n) n)
format_int-Lacks_colon (negsuc n) = (
  omega arith,
  All-IsDigit-Lacks b':' (digits (suc (suc n)) (suc n)) (omega arith)
      (digits-IsDigit (suc (suc n)) (suc n)),
)
