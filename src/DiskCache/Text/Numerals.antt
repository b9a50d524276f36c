-- ===== src/DiskCache/Text/Numerals.antt =====
-- What is printed is a numeral, and the parsers read a numeral as its value.
use native.Mathlib.Nat.{pow-suc}
use jellyfin_recents.Prelude.{
  ℕ, zero, suc, ◌+◌, ◌-◌, ◌/◌, ◌%◌, ◌^◌, ◌≤◌, ◌<◌, ◌≡◌, ◌≢◌, refl, ap, ◌∙◌, true, false, some, [],
  ◌∷◌, ◌++◌, arith, ◌==◌, nat_eq, All, length, replicate, Bool-cases, inl, inr,
}
use jellyfin_recents.Prelude.Int.{ℤ, pos, negsuc, IsI64}
use jellyfin_recents.DiskCache.Text.Strings.{Chars, Avoids}
use jellyfin_recents.DiskCache.Text.Decimal.{
  digits_of, max_digits, print_nat, pad, print_padded, print_int, is_digit, digits_value,
  parse_digits, parse_unsigned, parse_i64,
}

-- Decimal digits, at least one, with the value `v`.
pub record IsNumeral (s : Chars) (v : ℕ) : Type 0 where
  pub nonempty : s ≢ []
  pub digits : All (λ c. is_digit c ≡ true) s
  pub value : digits_value 0 s ≡ some v

digit_lem : (n : ℕ) → is_digit (n % 10 + 48) ≡ true
unfolding is_digit
digit_lem n = ground arith

digits_of-value :
    (f n : ℕ) (acc : Chars) → n < 10 ^ f → digits_value 0 (digits_of f n acc) ≡ digits_value n acc
unfolding digits_of
digits_of-value zero n acc h = let e : n ≡ 0 = omega arith in rw e
digits_of-value (suc f) n acc h = elim (Bool-cases (n / 10 == 0)) [
  | inl last ↦
      rw last
        (unfold digits_value in rw (digit_lem n) (ap (λ v. digits_value v acc) (ground arith)))
  | inr more ↦
      rw (more, digits_of-value f (n / 10) ((n % 10 + 48) ∷ acc) (omega (arith, pow-suc 10 f)))
        (unfold digits_value in rw (digit_lem n) (ap (λ v. digits_value v acc) (omega arith)))
]

digits_of-digits :
    (f n : ℕ) (acc : Chars)
    → All (λ c. is_digit c ≡ true) acc
    → All (λ c. is_digit c ≡ true) (digits_of f n acc)
unfolding digits_of
digits_of-digits zero n acc h = h
digits_of-digits (suc f) n acc h = elim (Bool-cases (n / 10 == 0)) [
  | inl last ↦ rw last (digit_lem n, h)
  | inr more ↦ rw more (digits_of-digits f (n / 10) _ (digit_lem n, h))
]

digits_of-nonempty : (f n : ℕ) (c : ℕ) (acc : Chars) → digits_of f n (c ∷ acc) ≢ []
unfolding digits_of
digits_of-nonempty zero n c acc = λ e. cc
digits_of-nonempty (suc f) n c acc = elim (Bool-cases (n / 10 == 0)) [
  | inl last ↦ rw last (λ e. cc)
  | inr more ↦ rw more (digits_of-nonempty f (n / 10) _ (c ∷ acc))
]

digits_of-suc-nonempty : (f n : ℕ) → digits_of (suc f) n [] ≢ []
unfolding digits_of
digits_of-suc-nonempty f n = elim (Bool-cases (n / 10 == 0)) [
  | inl last ↦ rw last (λ e. cc)
  | inr more ↦ rw more (digits_of-nonempty f (n / 10) _ [])
]

-- A u64 is printed as a numeral with its value.
pub print_nat-IsNumeral : (n : ℕ) → n < 10 ^ max_digits → IsNumeral (print_nat n) n
unfolding print_nat
print_nat-IsNumeral n h = record {
  nonempty = digits_of-suc-nonempty 19 n;
  digits = digits_of-digits max_digits n [] tt;
  value = digits_of-value max_digits n [] h ∙ unfold digits_value in refl;
}

zero-IsNumeral : (v : ℕ) (s : Chars) → IsNumeral s v → IsNumeral (b'0' ∷ s) v
unfolding digits_value is_digit
zero-IsNumeral v s h = record { nonempty = λ e. cc; digits = (refl, h.digits); value = h.value }

zeros-IsNumeral : (k v : ℕ) (s : Chars) → IsNumeral s v → IsNumeral (replicate k b'0' ++ s) v
zeros-IsNumeral zero v s h = h
zeros-IsNumeral (suc k) v s h = zero-IsNumeral v _ (zeros-IsNumeral k v s h)

-- Zeros in front change nothing.
pub pad-IsNumeral : (w v : ℕ) (s : Chars) → IsNumeral s v → IsNumeral (pad w s) v
unfolding pad
pad-IsNumeral w v s h = zeros-IsNumeral (w - length s) v s h

pub parse_digits-IsNumeral :
    (cap v : ℕ) (s : Chars) → IsNumeral s v → v ≤ cap → parse_digits cap s ≡ some v
unfolding parse_digits
parse_digits-IsNumeral cap v [] h le = absurd (h.nonempty refl)
parse_digits-IsNumeral cap v (c ∷ s) h le = rw h.value (ground arith)

digit_ne : (c : ℕ) → is_digit c ≡ true → ((c == b'+') ≡ false) × ((c == b'-') ≡ false)
unfolding is_digit
digit_ne c h = (ground arith, ground arith)

pub parse_unsigned-IsNumeral :
    (cap v : ℕ) (s : Chars) → IsNumeral s v → v ≤ cap → parse_unsigned cap s ≡ some v
unfolding parse_unsigned
parse_unsigned-IsNumeral cap v [] h le = absurd (h.nonempty refl)
parse_unsigned-IsNumeral cap v (c ∷ s) h le =
    rw (digit_ne c h.digits.0).0 (parse_digits-IsNumeral cap v (c ∷ s) h le)

pub parse_i64-IsNumeral :
    (v : ℕ) (s : Chars) → IsNumeral s v → v < 2 ^ 63 → parse_i64 s ≡ some (pos v)
unfolding parse_i64
parse_i64-IsNumeral v [] h lt = absurd (h.nonempty refl)
parse_i64-IsNumeral v (c ∷ s) h lt =
    let (plus, minus) = digit_ne c h.digits.0 in
    rw (minus, plus, parse_digits-IsNumeral (2 ^ 63 - 1) v (c ∷ s) h (omega arith))

pub parse_i64-negative :
    (v : ℕ) (s : Chars) → IsNumeral s (suc v) → v < 2 ^ 63 → parse_i64 (b'-' ∷ s) ≡ some (negsuc v)
unfolding parse_i64
parse_i64-negative v s h lt = rw (parse_digits-IsNumeral (2 ^ 63) (suc v) s h (omega arith))

i64_fits : (n : ℕ) → n < 2 ^ 63 → (n < 10 ^ max_digits) × (suc n < 10 ^ max_digits)
i64_fits n h = omega arith

-- `from_str` reads back what `{:0w}` prints of an i64, whatever the width.
pub parse-print_padded : (w : ℕ) (z : ℤ) → IsI64 z → parse_i64 (print_padded w z) ≡ some z
unfolding print_padded
parse-print_padded w (pos n) h =
    parse_i64-IsNumeral n _ (pad-IsNumeral w n _ (print_nat-IsNumeral n (i64_fits n h).0)) h
parse-print_padded w (negsuc n) h =
    parse_i64-negative n _
      (pad-IsNumeral (w - 1) (suc n) _ (print_nat-IsNumeral (suc n) (i64_fits n h).1)) h

-- `from_str` reads back what `{}` prints of an i64.
pub parse-print_int : (z : ℤ) → IsI64 z → parse_i64 (print_int z) ≡ some z
unfolding print_int
parse-print_int (pos n) h = parse_i64-IsNumeral n _ (print_nat-IsNumeral n (i64_fits n h).0) h
parse-print_int (negsuc n) h =
    parse_i64-negative n _ (print_nat-IsNumeral (suc n) (i64_fits n h).1) h

-- A character that is no digit and no sign stands in no printed number.
Avoids-digits :
    (c : ℕ) (s : Chars) → is_digit c ≡ false → All (λ d. is_digit d ≡ true) s → Avoids c s
Avoids-digits c [] hc h = tt
Avoids-digits c (d ∷ s) hc h = (unfold is_digit in ground arith, Avoids-digits c s hc h.1)

pub print_padded-Avoids :
    (c w : ℕ) (z : ℤ)
    → is_digit c ≡ false
    → (b'-' == c) ≡ false
    → IsI64 z
    → Avoids c (print_padded w z)
unfolding print_padded
print_padded-Avoids c w (pos n) hc hm h =
    Avoids-digits c _ hc (pad-IsNumeral w n _ (print_nat-IsNumeral n (i64_fits n h).0)).digits
print_padded-Avoids c w (negsuc n) hc hm h = (
  hm,
  Avoids-digits c _ hc
      (pad-IsNumeral (w - 1) (suc n) _ (print_nat-IsNumeral (suc n) (i64_fits n h).1)).digits,
)

pub print_int-Avoids :
    (c : ℕ) (z : ℤ) → is_digit c ≡ false → (b'-' == c) ≡ false → IsI64 z → Avoids c (print_int z)
unfolding print_int
print_int-Avoids c (pos n) hc hm h =
    Avoids-digits c _ hc (print_nat-IsNumeral n (i64_fits n h).0).digits
print_int-Avoids c (negsuc n) hc hm h =
    (hm, Avoids-digits c _ hc (print_nat-IsNumeral (suc n) (i64_fits n h).1).digits)

pub print_nat-Avoids : (c n : ℕ) → is_digit c ≡ false → n < 10 ^ max_digits → Avoids c (print_nat n)
print_nat-Avoids c n hc h = Avoids-digits c _ hc (print_nat-IsNumeral n h).digits
