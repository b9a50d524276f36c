-- ===== src/Wire/Bytes.antt =====
-- Little-endian numbers as byte lists: `from_le_bytes` and `to_le_bytes` of Rust's integers.
-- A `String` or a `PathBuf` is the list of its bytes.
use native.Mathlib.Nat.{pow-suc}
use jellyfin_recents.Prelude.{
  ℕ, zero, suc, ◌+◌, ◌*◌, ◌/◌, ◌%◌, ◌^◌, ◌<◌, ◌≡◌, refl, List, [], ◌∷◌, arith, All, length, ap,
}
use jellyfin_recents.Prelude.Int.{ℤ, pos, negsuc, IsI64, signed, wrap_u64, wrap_i64_of_IsI64}

abbrev pub Text : Type 0
Text = List ℕ

abbrev pub IsByte : ℕ → Type 0
IsByte b = b < 256

unfoldable pub from_le : List ℕ → ℕ
from_le [] = 0
from_le (b ∷ bs) = b + 256 * from_le bs

-- The lowest `n` bytes of `v`.
unfoldable pub to_le : ℕ → ℕ → List ℕ
to_le zero v = []
to_le (suc n) v = (v % 256) ∷ to_le n (v / 256)

pub length-to_le : (n v : ℕ) → length (to_le n v) ≡ n
unfolding to_le
length-to_le zero v = refl
length-to_le (suc n) v = ap suc (length-to_le n (v / 256))

pub to_le-IsByte : (n v : ℕ) → All IsByte (to_le n v)
unfolding to_le
to_le-IsByte zero v = tt
to_le-IsByte (suc n) v = (omega arith, to_le-IsByte n (v / 256))

pub from_le-to_le_2 : (v : ℕ) → v < 2 ^ 16 → from_le (to_le 2 v) ≡ v
unfolding from_le to_le
from_le-to_le_2 v h = omega arith

pub from_le-to_le_4 : (v : ℕ) → v < 2 ^ 32 → from_le (to_le 4 v) ≡ v
unfolding from_le to_le
from_le-to_le_4 v h = omega arith

pub from_le-to_le_8 : (v : ℕ) → v < 2 ^ 64 → from_le (to_le 8 v) ≡ v
unfolding from_le to_le
from_le-to_le_8 v h = omega arith

-- The eight bytes of an `i64` are those of its two's complement.
abbrev pub i64_to_le : ℤ → List ℕ
i64_to_le z = to_le 8 (wrap_u64 z)

pub wrap_u64-lt : (z : ℤ) → wrap_u64 z < 2 ^ 64
wrap_u64-lt (pos n) = omega arith
wrap_u64-lt (negsuc n) = omega arith

pub i64-round_trip : (z : ℤ) → IsI64 z → signed (from_le (i64_to_le z)) ≡ z
i64-round_trip z h = rw (from_le-to_le_8 (wrap_u64 z) (wrap_u64-lt z)) (wrap_i64_of_IsI64 z h)

from_le_bound : (n : ℕ) (bs : List ℕ) → All IsByte bs → length bs ≡ n → from_le bs < 256 ^ n
unfolding from_le
from_le_bound zero [] h e = omega arith
from_le_bound zero (b ∷ bs) h e = absurd (omega arith)
from_le_bound (suc n) [] h e = absurd (omega arith)
from_le_bound (suc n) (b ∷ bs) h e =
    omega (arith, from_le_bound n bs h.1 (omega arith), pow-suc 256 n)
