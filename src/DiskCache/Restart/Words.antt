-- ===== src/DiskCache/Restart/Words.antt =====
-- Lines and words of the saved index.
use jellyfin_recents.Prelude.{
  ℕ, suc, ◌^◌, ◌<◌, ◌≡◌, ◌≢◌, refl, true, false, List, [], ◌∷◌, ◌++◌, arith, ◌==◌, nat_eq, All,
}
use jellyfin_recents.Prelude.Int.{ℤ, pos, negsuc, IsI64}
use jellyfin_recents.DiskCache.Text.Strings.{Chars}
use jellyfin_recents.DiskCache.Text.Decimal.{is_digit, print_nat, print_int}
use jellyfin_recents.DiskCache.Text.Numerals.{print_nat-IsNumeral}
use jellyfin_recents.DiskCache.Save.{newline, lines, is_whitespace, split_whitespace, push_word}

-- No white space.
abbrev pub IsSolid : Chars → Type 0
IsSolid s = All (λ c. is_whitespace c ≡ false) s

pub record IsWord (s : Chars) : Type 0 where
  pub nonempty : s ≢ []
  pub solid : IsSolid s

-- No line break.
abbrev pub IsLine : Chars → Type 0
IsLine s = All (λ c. ((c == newline) ≡ false) × ((c == 13) ≡ false)) s

pub lines-append : (l s : Chars) → IsLine l → lines (l ++ (newline ∷ s)) ≡ l ∷ lines s
unfolding lines
lines-append [] s h = refl
lines-append (c ∷ l) s h = rw (h.0.0, h.0.1, lines-append l s h.1)

space_lem : is_whitespace b' ' ≡ true
unfolding is_whitespace
space_lem = refl

push_word_space : (c : ℕ) (s : Chars) (ws : List Chars) → push_word c (b' ' ∷ s) ws ≡ (c ∷ []) ∷ ws
push_word_space c s [] = refl
push_word_space c s (w ∷ ws) = rw space_lem

split-word_space :
    (c : ℕ) (w s : Chars)
    → IsSolid (c ∷ w)
    → split_whitespace ((c ∷ w) ++ (b' ' ∷ s)) ≡ (c ∷ w) ∷ split_whitespace s
unfolding split_whitespace
split-word_space c [] s h = rw (h.0, space_lem) (push_word_space c s (split_whitespace s))
split-word_space c (d ∷ w) s h = rw (split-word_space d w s h.1) (rw (h.0, h.1.0))

-- The last word.
split-word : (c : ℕ) (w : Chars) → IsSolid (c ∷ w) → split_whitespace (c ∷ w) ≡ (c ∷ w) ∷ []
unfolding split_whitespace
split-word c [] h = rw h.0
split-word c (d ∷ w) h = rw (split-word d w h.1) (rw (h.0, h.1.0))

pub split_whitespace-append :
    (w s : Chars) → IsWord w → split_whitespace (w ++ (b' ' ∷ s)) ≡ w ∷ split_whitespace s
split_whitespace-append [] s h = absurd (h.nonempty refl)
split_whitespace-append (c ∷ w) s h = split-word_space c w s h.solid

pub split_whitespace_word : (w : Chars) → IsWord w → split_whitespace w ≡ w ∷ []
split_whitespace_word [] h = absurd (h.nonempty refl)
split_whitespace_word (c ∷ w) h = split-word c w h.solid

digits-IsSolid : (s : Chars) → All (λ c. is_digit c ≡ true) s → IsSolid s
digits-IsSolid [] h = tt
digits-IsSolid (c ∷ s) h = (unfold is_digit is_whitespace in ground arith, digits-IsSolid s h.1)

pub print_nat-IsWord : (n : ℕ) → n < 2 ^ 64 → IsWord (print_nat n)
print_nat-IsWord n h =
    let numeral = print_nat-IsNumeral n (omega arith) in
    record { nonempty = numeral.nonempty; solid = digits-IsSolid (print_nat n) numeral.digits }

minus_lem : is_whitespace b'-' ≡ false
unfolding is_whitespace
minus_lem = refl

pub print_int-IsWord : (z : ℤ) → IsI64 z → IsWord (print_int z)
unfolding print_int
print_int-IsWord (pos n) h = print_nat-IsWord n (omega arith)
print_int-IsWord (negsuc n) h = record {
  nonempty = λ e. cc;
  solid = (minus_lem, (print_nat-IsWord (suc n) (omega arith)).solid);
}

solid_ne : (c : ℕ) → is_whitespace c ≡ false → ((c == newline) ≡ false) × ((c == 13) ≡ false)
unfolding is_whitespace
solid_ne c h = (ground arith, ground arith)

pub solid-IsLine : (s : Chars) → IsSolid s → IsLine s
solid-IsLine [] h = tt
solid-IsLine (c ∷ s) h = (solid_ne c h.0, solid-IsLine s h.1)

-- Two pieces of a line with a blank between them.
pub IsLine-append : (l s : Chars) → IsLine l → IsLine s → IsLine (l ++ (b' ' ∷ s))
IsLine-append [] s h hs = ((refl, refl), hs)
IsLine-append (c ∷ l) s h hs = (h.0, IsLine-append l s h.1 hs)
