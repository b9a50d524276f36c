-- ===== src/DiskCache/Text/Names.antt =====
-- The file name of a cached frame, `{frame_idx}_{HHhMMmSSsNNNms}_{width}.webp`: frame_path and the
-- parsing of names in rebuild_index.
use jellyfin_recents.Prelude.{ℕ, ◌^◌, ◌<◌, ◌≡◌, refl, Option, some, ◌∷◌, ◌++◌, arith, nat_eq}
use jellyfin_recents.Prelude.Options.{◌>>=◌}
use jellyfin_recents.Prelude.Int.{ℤ, IsI64}
use jellyfin_recents.DiskCache.Text.Strings.{
  Chars, Avoids, codes, strip_suffix, split_once, rsplit_once, strip_suffix-append,
  split_once-append, rsplit_once-append,
}
use jellyfin_recents.DiskCache.Text.Decimal.{
  is_digit, max_digits, print_int, print_nat, parse_i64, parse_unsigned, u32_max,
}
use jellyfin_recents.DiskCache.Text.Numerals.{
  parse-print_int, print_int-Avoids, print_nat-IsNumeral, parse_unsigned-IsNumeral,
  print_nat-Avoids,
}
use jellyfin_recents.DiskCache.Text.Position.{format_pos_ms, parse_pos_ms, parse-format_pos_ms}

unfoldable pub file_name : ℤ → ℤ → ℕ → Chars
file_name frame_idx pos_ms width =
    ((print_int frame_idx ++ (b'_' ∷ format_pos_ms pos_ms)) ++ (b'_' ∷ print_nat width))
    ++ codes ".webp"

-- The frame index, the position and the width in a file's name.
unfoldable pub parse_file_name : Chars → Option (ℤ × ℤ × ℕ)
parse_file_name name = do
  stem ← strip_suffix (codes ".webp") name
  (rest, width_str) ← rsplit_once b'_' stem
  (frame_idx_str, pos_ms_str) ← split_once b'_' rest
  frame_idx ← parse_i64 frame_idx_str
  pos_ms ← parse_pos_ms pos_ms_str
  width ← parse_unsigned u32_max width_str
  some (frame_idx, pos_ms, width)

underscore_int : (z : ℤ) → IsI64 z → Avoids b'_' (print_int z)
unfolding is_digit
underscore_int z h = print_int-Avoids b'_' z refl refl h

u32_fits : (w : ℕ) → w < 2 ^ 32 → w < 10 ^ max_digits
u32_fits w h = omega arith

underscore_width : (w : ℕ) → w < 2 ^ 32 → Avoids b'_' (print_nat w)
unfolding is_digit
underscore_width w h = print_nat-Avoids b'_' w refl (u32_fits w h)

parse_width : (w : ℕ) → w < 2 ^ 32 → parse_unsigned u32_max (print_nat w) ≡ some w
parse_width w h =
    parse_unsigned-IsNumeral u32_max w _ (print_nat-IsNumeral w (u32_fits w h)) (omega arith)

-- The name of a frame's file gives back the frame's index, its position and its width, whatever
-- the signs: the index and the position are values of i64, the width is one of u32.
pub parse-file_name :
    (frame_idx pos_ms : ℤ) (width : ℕ)
    → IsI64 frame_idx
    → IsI64 pos_ms
    → width < 2 ^ 32
    → parse_file_name (file_name frame_idx pos_ms width) ≡ some (frame_idx, pos_ms, width)
unfolding parse_file_name file_name
parse-file_name frame_idx pos_ms width hf hp hw = rw (
  strip_suffix-append _ (codes ".webp"),
  rsplit_once-append b'_' _ _ (underscore_width width hw),
  split_once-append b'_' _ _ (underscore_int frame_idx hf),
  parse-print_int frame_idx hf,
  parse-format_pos_ms pos_ms hp,
  parse_width width hw,
)
