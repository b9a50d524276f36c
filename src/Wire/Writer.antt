-- ===== src/Wire/Writer.antt =====
-- Writing to the socket: each function writes its bytes in front of `rest`, what comes next.
use jellyfin_recents.Prelude.{ℕ, Bool, ◌++◌, length, if◌then◌else◌, ◌%◌, ◌^◌}
use jellyfin_recents.Prelude.Int.{ℤ}
use jellyfin_recents.Wire.Bytes.{Text, to_le, i64_to_le}

unfoldable pub write_u8 : ℕ → Text → Text
write_u8 v rest = to_le 1 v ++ rest

unfoldable pub write_u16 : ℕ → Text → Text
write_u16 v rest = to_le 2 v ++ rest

unfoldable pub write_u32 : ℕ → Text → Text
write_u32 v rest = to_le 4 v ++ rest

unfoldable pub write_u64 : ℕ → Text → Text
write_u64 v rest = to_le 8 v ++ rest

unfoldable pub write_i64 : ℤ → Text → Text
write_i64 z rest = i64_to_le z ++ rest

unfoldable pub write_flag : Bool → Text → Text
unfolding write_u8
write_flag b rest = write_u8 (if b then 1 else 0) rest

unfoldable pub write_bytes : Text → Text → Text
write_bytes bs rest = bs ++ rest

-- `(uint)bytes.Length`, then the bytes.
unfoldable pub write_string : Text → Text → Text
unfolding write_u32 write_bytes
write_string bs rest = write_u32 (length bs % 2 ^ 32) (write_bytes bs rest)
