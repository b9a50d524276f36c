-- ===== src/DiskCache/Text/Position.antt =====
-- A position in milliseconds as `HHhMMmSSsNNNms`: format_pos_ms and parse_pos_ms.
use native.Mathlib.Nat.{zero-div}
use jellyfin_recents.Prelude.{
  ℕ, zero, suc, ◌+◌, ◌*◌, ◌/◌, ◌%◌, ◌≡◌, refl, Option, some, ◌∷◌, ◌++◌, arith, nat_eq,
}
use jellyfin_recents.Prelude.Options.{◌>>=◌, unwrap_or}
use jellyfin_recents.Prelude.Int.{
  sub_ℕ, ℤ, pos, negsuc, ◌+ℤ◌, ◌*ℤ◌, div_trunc, rem_trunc, IsI64, wrap_i64, wrap_i64_of_IsI64,
}
use jellyfin_recents.DiskCache.Text.Strings.{
  Avoids, Chars, codes, strip_suffix, split_once, strip_suffix-append, split_once-append,
}
use jellyfin_recents.DiskCache.Text.Decimal.{
  is_digit, parse_digits, digits_value, print_padded, parse_i64,
}
use jellyfin_recents.DiskCache.Text.Numerals.{parse-print_padded, print_padded-Avoids}

-- 41708 is 00h00m41s708ms. A negative position has a sign in every part that is not zero.
unfoldable pub format_pos_ms : ℤ → Chars
format_pos_ms ms =
    let h = div_trunc ms 3600000 in
    let m = div_trunc (rem_trunc ms 3600000) 60000 in
    let s = div_trunc (rem_trunc ms 60000) 1000 in
    let milli = rem_trunc ms 1000 in
    (print_padded 2 h
      ++ (b'h'
          ∷ (print_padded 2 m ++ (b'm' ∷ (print_padded 2 s ++ (b's' ∷ print_padded 3 milli))))))
    ++ codes "ms"

-- h * 3_600_000 + m * 60_000 + sec * 1_000 + ms in wrapping i64 arithmetic.
abbrev pub pos_of_parts : ℤ → ℤ → ℤ → ℤ → ℤ
pos_of_parts h m s milli = wrap_i64 (h *ℤ pos 3600000 +ℤ m *ℤ pos 60000 +ℤ s *ℤ pos 1000 +ℤ milli)

unfoldable pub parse_pos_ms : Chars → Option ℤ
parse_pos_ms text = do
  (h_str, rest) ← split_once b'h' (unwrap_or text (strip_suffix (codes "ms") text))
  (m_str, rest) ← split_once b'm' rest
  (s_str, ms_str) ← split_once b's' rest
  h ← parse_i64 h_str
  m ← parse_i64 m_str
  s ← parse_i64 s_str
  milli ← parse_i64 ms_str
  some (pos_of_parts h m s milli)

parses : parse_pos_ms (codes "00h00m41s708ms") ≡ some (pos 41708)
unfolding parse_pos_ms strip_suffix split_once parse_i64 parse_digits digits_value is_digit ◌+ℤ◌
    ◌*ℤ◌
parses = refl

range_lem :
    (z : ℤ)
    → IsI64 z
    → IsI64 (div_trunc z 3600000)
      × IsI64 (div_trunc (rem_trunc z 3600000) 60000)
      × IsI64 (div_trunc (rem_trunc z 60000) 1000)
      × IsI64 (rem_trunc z 1000)
range_lem (pos n) h = (ground arith, ground arith, ground arith, ground arith)
range_lem (negsuc n) h = (ground arith, ground arith, ground arith, ground arith)

sum_nat :
    (n : ℕ)
    → n / 3600000 * 3600000 + n % 3600000 / 60000 * 60000 + n % 60000 / 1000 * 1000 + n % 1000 ≡ n
sum_nat n = omega arith

negated_suc : (n : ℕ) → sub_ℕ 0 (suc n) ≡ negsuc n
negated_suc n = ground arith

div_trunc_negated : (n d : ℕ) → div_trunc (sub_ℕ 0 n) d ≡ sub_ℕ 0 (n / d)
div_trunc_negated zero d = ground (arith, zero-div d)
div_trunc_negated (suc n) d = rw (negated_suc n)

*ℤ_negated : (n k : ℕ) → sub_ℕ 0 n *ℤ pos k ≡ sub_ℕ 0 (n * k)
unfolding ◌*ℤ◌
*ℤ_negated zero k = ground arith
*ℤ_negated (suc n) k = ground arith

+ℤ_negated : (m n : ℕ) → sub_ℕ 0 m +ℤ sub_ℕ 0 n ≡ sub_ℕ 0 (m + n)
unfolding ◌+ℤ◌
+ℤ_negated m n = ground arith

*ℤ_pos : (n k : ℕ) → pos n *ℤ pos k ≡ pos (n * k)
unfolding ◌*ℤ◌
*ℤ_pos n k = ground arith

+ℤ_pos : (m n : ℕ) → pos m +ℤ pos n ≡ pos (m + n)
unfolding ◌+ℤ◌
+ℤ_pos m n = ground arith

exact_sum :
    (z : ℤ)
    → div_trunc z 3600000 *ℤ pos 3600000
        +ℤ div_trunc (rem_trunc z 3600000) 60000 *ℤ pos 60000
        +ℤ div_trunc (rem_trunc z 60000) 1000 *ℤ pos 1000
        +ℤ rem_trunc z 1000
      ≡ z
exact_sum (pos n) = rw (
  *ℤ_pos (n / 3600000) 3600000,
  *ℤ_pos (n % 3600000 / 60000) 60000,
  *ℤ_pos (n % 60000 / 1000) 1000,
  +ℤ_pos,
  +ℤ_pos,
  +ℤ_pos,
  sum_nat n,
)
exact_sum (negsuc n) = rw (
  div_trunc_negated (suc n % 3600000) 60000,
  div_trunc_negated (suc n % 60000) 1000,
  *ℤ_negated (suc n / 3600000) 3600000,
  *ℤ_negated (suc n % 3600000 / 60000) 60000,
  *ℤ_negated (suc n % 60000 / 1000) 1000,
  +ℤ_negated,
  +ℤ_negated,
  +ℤ_negated,
  sum_nat (suc n),
  negated_suc n,
)

sum_lem :
    (z : ℤ)
    → IsI64 z
    → pos_of_parts
        (div_trunc z 3600000)
        (div_trunc (rem_trunc z 3600000) 60000)
        (div_trunc (rem_trunc z 60000) 1000)
        (rem_trunc z 1000)
      ≡ z
sum_lem z h = rw (exact_sum z) (wrap_i64_of_IsI64 z h)

hour_Avoids : (w : ℕ) (z : ℤ) → IsI64 z → Avoids b'h' (print_padded w z)
unfolding is_digit
hour_Avoids w z h = print_padded-Avoids b'h' w z refl refl h

minute_Avoids : (w : ℕ) (z : ℤ) → IsI64 z → Avoids b'm' (print_padded w z)
unfolding is_digit
minute_Avoids w z h = print_padded-Avoids b'm' w z refl refl h

second_Avoids : (w : ℕ) (z : ℤ) → IsI64 z → Avoids b's' (print_padded w z)
unfolding is_digit
second_Avoids w z h = print_padded-Avoids b's' w z refl refl h

without_unit : (p s : Chars) → unwrap_or (s ++ p) (strip_suffix p (s ++ p)) ≡ s
without_unit p s = rw (strip_suffix-append s p)

-- Every i64 position is read back from its text, the negative ones too.
pub parse-format_pos_ms : (z : ℤ) → IsI64 z → parse_pos_ms (format_pos_ms z) ≡ some z
unfolding parse_pos_ms format_pos_ms
parse-format_pos_ms z h =
    let (ih, im, is, imilli) = range_lem z h in
    rw (
      without_unit (codes "ms") _,
      split_once-append b'h' _ _ (hour_Avoids 2 _ ih),
      split_once-append b'm' _ _ (minute_Avoids 2 _ im),
      split_once-append b's' _ _ (second_Avoids 2 _ is),
      parse-print_padded 2 _ ih,
      parse-print_padded 2 _ im,
      parse-print_padded 2 _ is,
      parse-print_padded 3 _ imilli,
      sum_lem z h,
    )
