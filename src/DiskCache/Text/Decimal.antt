-- ===== src/DiskCache/Text/Decimal.antt =====
-- Printing and parsing numbers: `Display` with `{:0w}`, and `from_str` for u64, u32 and i64.
use jellyfin_recents.Prelude.{
  ℕ, zero, suc, ◌+◌, ◌-◌, ◌*◌, ◌/◌, ◌%◌, ◌^◌, ◌≡◌, refl, Bool, ◌&&◌, Option, none, some, [], ◌∷◌,
  ◌++◌, leb, ◌==◌, nat_eq, if◌then◌else◌, length, replicate,
}
use jellyfin_recents.Prelude.Int.{ℤ, pos, negsuc}
use jellyfin_recents.DiskCache.Text.Strings.{Chars}

-- The decimal digits of `n` in front of `acc`. Twenty rounds are enough for a u64.
unfoldable pub digits_of : ℕ → ℕ → Chars → Chars
digits_of zero n acc = acc
digits_of (suc f) n acc =
    let rest = digits_of f (n / 10) ((n % 10 + 48) ∷ acc) in
    if n / 10 == 0 then (n % 10 + 48) ∷ acc else rest

abbrev pub max_digits : ℕ
max_digits = 20

unfoldable pub print_nat : ℕ → Chars
print_nat n = digits_of max_digits n []

-- Zeros up to the width `w`.
unfoldable pub pad : ℕ → Chars → Chars
pad w s = replicate (w - length s) b'0' ++ s

-- `{:0w}` counts the sign in the width, and puts it in front of the zeros.
unfoldable pub print_padded : ℕ → ℤ → Chars
print_padded w (pos n) = pad w (print_nat n)
print_padded w (negsuc n) = b'-' ∷ pad (w - 1) (print_nat (suc n))

unfoldable pub print_int : ℤ → Chars
print_int (pos n) = print_nat n
print_int (negsuc n) = b'-' ∷ print_nat (suc n)

unfoldable pub is_digit : ℕ → Bool
is_digit c = leb b'0' c && leb c b'9'

unfoldable pub digits_value : ℕ → Chars → Option ℕ
digits_value n [] = some n
digits_value n (c ∷ s) = if is_digit c then digits_value (n * 10 + (c - 48)) s else none

abbrev pub at_most : ℕ → Option ℕ → Option ℕ
at_most cap none = none
at_most cap (some n) = if leb n cap then some n else none

-- At least one digit.
unfoldable pub parse_digits : ℕ → Chars → Option ℕ
parse_digits cap [] = none
parse_digits cap (c ∷ s) = at_most cap (digits_value 0 (c ∷ s))

-- `u64::from_str` and `u32::from_str`: one leading `+` is taken, and an overflow is an error.
unfoldable pub parse_unsigned : ℕ → Chars → Option ℕ
parse_unsigned cap [] = none
parse_unsigned cap (c ∷ s) = if c == b'+' then parse_digits cap s else parse_digits cap (c ∷ s)

abbrev pub u32_max : ℕ
u32_max = 2 ^ 32 - 1

abbrev pub u64_max : ℕ
u64_max = 2 ^ 64 - 1

abbrev pub negated : Option ℕ → Option ℤ
negated none = none
negated (some zero) = some (pos 0)
negated (some (suc n)) = some (negsuc n)

abbrev pub positive : Option ℕ → Option ℤ
positive none = none
positive (some n) = some (pos n)

-- `i64::from_str`: a leading `+` or `-`.
unfoldable pub parse_i64 : Chars → Option ℤ
parse_i64 [] = none
parse_i64 (c ∷ s) =
    if c == b'-'
    then negated (parse_digits (2 ^ 63) s)
    else if c == b'+'
    then positive (parse_digits (2 ^ 63 - 1) s)
    else positive (parse_digits (2 ^ 63 - 1) (c ∷ s))

runs :
    (parse_i64 (print_padded 3 (negsuc 4)) ≡ some (negsuc 4))
    × (print_padded 2 (pos 7) ≡ b'0' ∷ b'7' ∷ [])
    × (parse_unsigned u32_max (print_nat 4294967296) ≡ none)
    × (parse_unsigned u32_max (print_nat 4294967295) ≡ some 4294967295)
unfolding parse_i64 print_padded parse_unsigned print_nat digits_of pad is_digit digits_value
    parse_digits
runs = (refl, refl, refl, refl)
