-- ===== src/DiskCache/Text/Strings.antt =====
-- The methods of `str` that the cache uses: `strip_prefix`, `strip_suffix`, `split_once`,
-- `rsplit_once`.
use Prim.Native.Char.{code}
use Prim.Native.String.{String}
use mathlib.Core.Option
use jellyfin_recents.Prelude.{
  ℕ, ◌≡◌, refl, ap, false, Option, none, some, List, [], ◌∷◌, ◌++◌, arith, ◌==◌, nat_eq, list_eq,
  list_beq, if◌then◌else◌, All, length, length-append, beq-eq-false, beq_refl,
}

abbrev pub Chars : Type 0
Chars = List ℕ

abbrev pub codes : String → Chars
codes String.[] = []
codes (String.◌∷◌ c s) = code c ∷ codes s

unfoldable pub strip_prefix : Chars → Chars → Option Chars
strip_prefix [] s = some s
strip_prefix (c ∷ p) [] = none
strip_prefix (c ∷ p) (d ∷ s) = if c == d then strip_prefix p s else none

unfoldable pub strip_suffix : Chars → Chars → Option Chars
strip_suffix p [] = if list_beq [] p then some [] else none
strip_suffix p (c ∷ s) =
    let rest = Option.map (λ r. c ∷ r) (strip_suffix p s) in
    if list_beq (c ∷ s) p then some [] else rest

-- At the first `c`.
unfoldable pub split_once : ℕ → Chars → Option (Chars × Chars)
split_once c [] = none
split_once c (d ∷ s) =
    let rest = Option.map (λ (p : Chars × Chars). (d ∷ p.0, p.1)) (split_once c s) in
    if d == c then some ([], s) else rest

-- At the last `c`.
unfoldable pub rsplit_once : ℕ → Chars → Option (Chars × Chars)
rsplit_once c [] = none
rsplit_once c (d ∷ s) = elim (rsplit_once c s) [
  | some (a, b) ↦ some (d ∷ a, b)
  | none ↦ if d == c then some ([], s) else none
]

abbrev pub Avoids : ℕ → Chars → Type 0
Avoids c s = All (λ d. (d == c) ≡ false) s

pub strip_prefix-append : (p s : Chars) → strip_prefix p (p ++ s) ≡ some s
unfolding strip_prefix
strip_prefix-append [] s = refl
strip_prefix-append (c ∷ p) s = rw (beq_refl c) (strip_prefix-append p s)

longer_ne : (c : ℕ) (a p : Chars) → list_beq (c ∷ a ++ p) p ≡ false
longer_ne c a p =
    beq-eq-false (c ∷ a ++ p) p (λ h. absurd (omega (arith, ap length h, length-append a p)))

pub strip_suffix-append : (s p : Chars) → strip_suffix p (s ++ p) ≡ some s
unfolding strip_suffix
strip_suffix-append [] [] = refl
strip_suffix-append [] (c ∷ p) = rw (beq_refl (c ∷ p))
strip_suffix-append (c ∷ s) p = rw (longer_ne c s p, strip_suffix-append s p)

pub split_once-append :
    (c : ℕ) (a b : Chars) → Avoids c a → split_once c (a ++ (c ∷ b)) ≡ some (a, b)
unfolding split_once
split_once-append c [] b h = rw (beq_refl c)
split_once-append c (d ∷ a) b h = rw (h.0, split_once-append c a b h.1)

rsplit_once-none : (c : ℕ) (b : Chars) → Avoids c b → rsplit_once c b ≡ none
unfolding rsplit_once
rsplit_once-none c [] h = refl
rsplit_once-none c (d ∷ b) h = rw (rsplit_once-none c b h.1, rsplit_once) (rw h.0)

pub rsplit_once-append :
    (c : ℕ) (a b : Chars) → Avoids c b → rsplit_once c (a ++ (c ∷ b)) ≡ some (a, b)
unfolding rsplit_once
rsplit_once-append c [] b h = rw (rsplit_once-none c b h, rsplit_once) (rw (beq_refl c))
rsplit_once-append c (d ∷ a) b h = rw (rsplit_once-append c a b h, rsplit_once)
