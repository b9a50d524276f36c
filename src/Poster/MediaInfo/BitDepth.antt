-- ===== src/Poster/MediaInfo/BitDepth.antt =====
-- The bit depth in the name of a pixel format.
use jellyfin_recents.Prelude.{
  ℕ, ◌-◌, ◌^◌, ◌<◌, ◌≡◌, refl, ap, ◌∙◌, true, false, some, [], ◌∷◌, ◌++◌, arith, nat_eq, All,
}
use jellyfin_recents.Wire.Bytes.{Text}
use jellyfin_recents.DiskCache.Text.Decimal.{print_nat, is_digit}
use jellyfin_recents.DiskCache.Text.Numerals.{
  IsNumeral, print_nat-IsNumeral, print_nat-Avoids, parse_unsigned-IsNumeral,
}
use jellyfin_recents.DiskCache.Text.Strings.{Avoids, rsplit_once-append}
use jellyfin_recents.Poster.MediaInfo.{
  take_digits, depth_of, depth_behind, parse_bit_depth_from_pix_fmt,
}

-- A text that does not go on with a digit.
abbrev pub HasNoDigit : Text → Type 0
HasNoDigit [] = Unit
HasNoDigit (c ∷ s) = is_digit c ≡ false

take_digits-append :
    (ds b : Text) → All (λ d. is_digit d ≡ true) ds → HasNoDigit b → take_digits (ds ++ b) ≡ ds
take_digits-append [] [] h n = refl
take_digits-append [] (c ∷ b) h n = rw n
take_digits-append (d ∷ ds) b h n = rw h.0 (ap (◌∷◌ d) (take_digits-append ds b h.1 n))

Avoids-append : (c : ℕ) (a b : Text) → Avoids c a → Avoids c b → Avoids c (a ++ b)
Avoids-append c [] b h k = k
Avoids-append c (d ∷ a) b h k = (h.0, Avoids-append c a b h.1 k)

depth_of_numeral :
    (pix_fmt ds : Text) (n : ℕ) → IsNumeral ds n → n < 2 ^ 31 → depth_of pix_fmt ds ≡ some n
depth_of_numeral pix_fmt [] n h l = absurd (h.nonempty refl)
depth_of_numeral pix_fmt (d ∷ ds) n h l =
    parse_unsigned-IsNumeral (2 ^ 31 - 1) n (d ∷ ds) h (omega (arith, l))

-- Whatever stands before it: a "p", the depth as a number that fits i32, and a rest without a "p"
-- that does not begin with a digit, are read back to the depth.
pub parse_bit_depth_lem :
    (a b : Text) (n : ℕ)
    → n < 2 ^ 31
    → Avoids 112 b
    → HasNoDigit b
    → parse_bit_depth_from_pix_fmt (a ++ (112 ∷ (print_nat n ++ b))) ≡ some n
unfolding parse_bit_depth_from_pix_fmt is_digit
parse_bit_depth_lem a b n l avoids stops =
    let numeral = print_nat-IsNumeral n (omega (arith, l)) in
    let digits = print_nat-Avoids 112 n refl (omega (arith, l)) in
    let whole = a ++ (112 ∷ (print_nat n ++ b)) in
    ap (depth_behind whole) (
      rsplit_once-append 112 a (print_nat n ++ b) (Avoids-append 112 (print_nat n) b digits avoids))
    ∙ ap (depth_of whole) (take_digits-append (print_nat n) b numeral.digits stops)
    ∙ depth_of_numeral whole (print_nat n) n numeral l
