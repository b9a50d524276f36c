-- ===== src/Wire/Requests/Fields.antt =====
-- Each primitive reader takes back what its writer wrote, and leaves the rest.
use jellyfin_recents.Prelude.{
  ℕ, ◌≤◌, ◌<◌, ◌^◌, ◌%◌, ◌≡◌, refl, Bool, true, false, [], ◌∷◌, ◌++◌, arith, length,
  take_append_self, drop_append_self, length-append, nat_beq-suc_zero, ltb-zero_suc,
}
use jellyfin_recents.Prelude.Int.{ℤ, IsI64, wrap_u64}
use jellyfin_recents.Wire.Bytes.{
  Text, from_le, to_le, i64_to_le, length-to_le, from_le-to_le_2, from_le-to_le_4, from_le-to_le_8,
  i64-round_trip,
}
use jellyfin_recents.Wire.Utf8.{is_utf8}
use jellyfin_recents.Wire.Reader.{
  ok, pure, ◌>>=◌, ◌>>◌, read_exact, read_u8, read_u16, read_u32, read_u64, read_i64, read_flag,
  utf8, utf8_or_default, guard_len,
}
use jellyfin_recents.Wire.Requests.Types.{
  max_str_field_len, HwDecodeFlags, device_strategy_from_u8, resolution_preset_from_str,
}
use jellyfin_recents.Wire.Requests.Read.{
  read_hw_decode_flags, read_capped_string, read_item_id, read_len_prefixed_string, read_session_id,
  read_preset,
}
use jellyfin_recents.Wire.Writer.{
  write_u8, write_u16, write_u32, write_u64, write_i64, write_flag, write_bytes, write_string,
}
use jellyfin_recents.Wire.Requests.Write.{strategy_byte, write_hw}

-- A string that the caps let through.
pub record IsString (bs : Text) : Type 0 where
  pub valid : is_utf8 bs ≡ true
  pub short : length bs ≤ max_str_field_len

-- The 32 bytes that `Guid.ToString("N")` gives.
pub record IsItemId (bs : Text) : Type 0 where
  pub valid : is_utf8 bs ≡ true
  pub size : length bs ≡ 32

pub read_exact-append :
    (n : ℕ) (bs rest : Text) → length bs ≡ n → read_exact n (bs ++ rest) ≡ (ok bs, rest)
unfolding read_exact
read_exact-append n bs rest e =
    rw (← e, take_append_self bs rest, drop_append_self bs rest)
      (ground (arith, length-append bs rest))

pub from_le-to_le_1 : (v : ℕ) → v < 256 → from_le (to_le 1 v) ≡ v
unfolding from_le to_le
from_le-to_le_1 v h = omega arith

pub read_u8-write_u8 : (v : ℕ) (rest : Text) → v < 256 → read_u8 (write_u8 v rest) ≡ (ok v, rest)
unfolding write_u8 read_u8
read_u8-write_u8 v rest h =
    rw (read_exact-append 1 (to_le 1 v) rest (length-to_le 1 v)) (rw (from_le-to_le_1 v h))

pub read_u16-write_u16 :
    (v : ℕ) (rest : Text) → v < 2 ^ 16 → read_u16 (write_u16 v rest) ≡ (ok v, rest)
unfolding write_u16 read_u16
read_u16-write_u16 v rest h =
    rw (read_exact-append 2 (to_le 2 v) rest (length-to_le 2 v)) (rw (from_le-to_le_2 v h))

pub read_u32-write_u32 :
    (v : ℕ) (rest : Text) → v < 2 ^ 32 → read_u32 (write_u32 v rest) ≡ (ok v, rest)
unfolding write_u32 read_u32
read_u32-write_u32 v rest h =
    rw (read_exact-append 4 (to_le 4 v) rest (length-to_le 4 v)) (rw (from_le-to_le_4 v h))

pub read_u64-write_u64 :
    (v : ℕ) (rest : Text) → v < 2 ^ 64 → read_u64 (write_u64 v rest) ≡ (ok v, rest)
unfolding write_u64 read_u64
read_u64-write_u64 v rest h =
    rw (read_exact-append 8 (to_le 8 v) rest (length-to_le 8 v)) (rw (from_le-to_le_8 v h))

pub read_i64-write_i64 :
    (z : ℤ) (rest : Text) → IsI64 z → read_i64 (write_i64 z rest) ≡ (ok z, rest)
unfolding write_i64 write_u64 ◌>>=◌ pure
read_i64-write_i64 z rest h =
    unfold read_i64 in
    rw (read_exact-append 8 (i64_to_le z) rest (length-to_le 8 (wrap_u64 z)))
      (rw (i64-round_trip z h))

pub read_flag-write_flag : (b : Bool) (rest : Text) → read_flag (write_flag b rest) ≡ (ok b, rest)
unfolding write_flag read_flag write_u8 to_le
read_flag-write_flag true rest = ground arith
read_flag-write_flag false rest = ground arith

pub utf8-valid : (bs rest : Text) → is_utf8 bs ≡ true → utf8 bs rest ≡ (ok bs, rest)
unfolding utf8
utf8-valid bs rest h = rw h

pub guard_len-ok : (cap n : ℕ) (rest : Text) → n ≤ cap → guard_len cap n rest ≡ (ok tt, rest)
unfolding guard_len
guard_len-ok cap n rest h = ground arith

-- A length below the cap survives `as u32`.
length_as_u32 : (bs : Text) → IsString bs → length bs % 2 ^ 32 ≡ length bs
length_as_u32 bs h = omega arith

pub read_len-write_string :
    (bs rest : Text) → IsString bs → read_u32 (write_string bs rest) ≡ (ok (length bs), bs ++ rest)
unfolding write_string
read_len-write_string bs rest h =
    rw (length_as_u32 bs h) (read_u32-write_u32 (length bs) (bs ++ rest) (omega arith))

pub read_capped_string-write_string :
    (bs rest : Text) → IsString bs → read_capped_string (write_string bs rest) ≡ (ok bs, rest)
unfolding read_capped_string ◌>>=◌ ◌>>◌
read_capped_string-write_string bs rest h = rw (
  read_len-write_string bs rest h,
  guard_len-ok max_str_field_len (length bs) (bs ++ rest) h.short,
  read_exact-append (length bs) bs rest refl,
  utf8-valid bs rest h.valid,
)

pub read_len_prefixed_string-write_string :
    (bs rest : Text) → IsString bs → read_len_prefixed_string (write_string bs rest) ≡ (ok bs, rest)
unfolding read_len_prefixed_string ◌>>=◌ ◌>>◌ pure
read_len_prefixed_string-write_string [] rest h = rw (read_len-write_string [] rest h)
read_len_prefixed_string-write_string (b ∷ bs) rest h = rw (
  read_len-write_string (b ∷ bs) rest h,
  nat_beq-suc_zero (length bs),
  guard_len-ok max_str_field_len (length (b ∷ bs)) (b ∷ bs ++ rest) h.short,
  read_exact-append (length (b ∷ bs)) (b ∷ bs) rest refl,
  utf8-valid (b ∷ bs) rest h.valid,
)

pub read_session_id-write_string :
    (bs rest : Text) → IsString bs → read_session_id (write_string bs rest) ≡ (ok bs, rest)
unfolding read_session_id ◌>>=◌ ◌>>◌ pure utf8_or_default
read_session_id-write_string [] rest h =
    rw (read_len-write_string [] rest h, guard_len-ok max_str_field_len 0 rest h.short)
read_session_id-write_string (b ∷ bs) rest h =
    rw
      (
        read_len-write_string (b ∷ bs) rest h,
        guard_len-ok max_str_field_len (length (b ∷ bs)) (b ∷ bs ++ rest) h.short,
        ltb-zero_suc (length bs),
        read_exact-append (length (b ∷ bs)) (b ∷ bs) rest refl,
      )
      (rw h.valid)

-- The preset string is read under the cap and then looked up by name.
pub read_preset-write_string :
    (bs rest : Text)
    → IsString bs
    → read_preset (write_string bs rest) ≡ (ok (resolution_preset_from_str bs), rest)
unfolding read_preset ◌>>=◌ ◌>>◌ pure utf8_or_default
read_preset-write_string bs rest h =
    rw
      (
        read_len-write_string bs rest h,
        guard_len-ok max_str_field_len (length bs) (bs ++ rest) h.short,
        read_exact-append (length bs) bs rest refl,
      )
      (rw h.valid)

pub read_item_id-write_bytes :
    (bs rest : Text) → IsItemId bs → read_item_id (write_bytes bs rest) ≡ (ok bs, rest)
unfolding read_item_id write_bytes ◌>>=◌ pure utf8_or_default
read_item_id-write_bytes bs rest h = rw (read_exact-append 32 bs rest h.size) (rw h.valid)

pub read_hw-write_hw :
    (hw : HwDecodeFlags) (rest : Text) → read_hw_decode_flags (write_hw hw rest) ≡ (ok hw, rest)
unfolding read_hw_decode_flags write_hw ◌>>=◌ pure device_strategy_from_u8 strategy_byte
read_hw-write_hw hw rest =
    rw
      (
        read_flag-write_flag hw.hw_decode_enabled _,
        read_u8-write_u8 (strategy_byte hw.device_strategy) rest (ground arith),
      )
      (ground arith)
