-- ===== src/Wire/Utf8.antt =====
-- `String::from_utf8` of the standard library: the table of well-formed UTF-8 byte sequences, read
-- one byte at a time.
use jellyfin_recents.Prelude.{
  ℕ, zero, suc, Bool, true, false, ◌&&◌, Option, none, some, List, [], ◌∷◌, ltb, leb, ◌==◌, nat_eq,
  if◌then◌else◌, ◌≡◌, refl,
}

-- The continuation bytes still due, and the range of the next one.
pub record Expect : Type 0 where
  pub due : ℕ
  pub lo : ℕ
  pub hi : ℕ

abbrev pub at_start : Expect
at_start = record { due = 0; lo = 0x80; hi = 0xbf }

abbrev expecting : ℕ → ℕ → ℕ → Option Expect
expecting n a b = some (record { due = n; lo = a; hi = b })

lead_byte : ℕ → Option Expect
lead_byte b =
    if ltb b 0x80
    then some at_start
    else if leb 0xc2 b && leb b 0xdf
    then expecting 1 0x80 0xbf
    else if b == 0xe0
    then expecting 2 0xa0 0xbf
    else if b == 0xed
    then expecting 2 0x80 0x9f
    else if leb 0xe1 b && leb b 0xef
    then expecting 2 0x80 0xbf
    else if b == 0xf0
    then expecting 3 0x90 0xbf
    else if leb 0xf1 b && leb b 0xf3
    then expecting 3 0x80 0xbf
    else if b == 0xf4
    then expecting 3 0x80 0x8f
    else none

next_byte : ℕ → ℕ → ℕ → ℕ → Option Expect
next_byte zero lo hi b = lead_byte b
next_byte (suc n) lo hi b = if leb lo b && leb b hi then expecting n 0x80 0xbf else none

scan : Option Expect → List ℕ → Bool
scan none bs = false
scan (some e) [] = e.due == 0
scan (some e) (b ∷ bs) = scan (next_byte e.due e.lo e.hi b) bs

unfoldable pub is_utf8 : List ℕ → Bool
unfolding scan next_byte lead_byte
is_utf8 bs = scan (some at_start) bs

is_utf8_runs :
    (is_utf8 (0x41 ∷ 0xc3 ∷ 0x97 ∷ 0xe2 ∷ 0x82 ∷ 0xac ∷ []) ≡ true)
    × (is_utf8 (0xf0 ∷ 0x9f ∷ 0x98 ∷ 0x80 ∷ []) ≡ true)
    × (is_utf8 (0xc0 ∷ 0x80 ∷ []) ≡ false)
    × (is_utf8 (0xed ∷ 0xa0 ∷ 0x80 ∷ []) ≡ false)
    × (is_utf8 (0xe2 ∷ 0x82 ∷ []) ≡ false)
unfolding is_utf8
is_utf8_runs = (refl, refl, refl, refl, refl)
