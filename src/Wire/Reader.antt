-- ===== src/Wire/Reader.antt =====
-- Reading from the socket: what is left of the stream, and the errors of `read_exact`, of a length
-- that passes its cap (`anyhow::bail!`) and of `String::from_utf8`.
use jellyfin_recents.Prelude.{
  ℕ, Bool, List, [], ltb, leb, ◌==◌, nat_eq, not, if◌then◌else◌, length, take, drop,
}
use jellyfin_recents.Prelude.Int.{ℤ, signed}
use jellyfin_recents.Wire.Bytes.{Text, from_le}
use jellyfin_recents.Wire.Utf8.{is_utf8}

pub data WireError : Type 0 where
  unexpected_eof too_long invalid_utf8 : WireError

pub data Result (A : Type 0) : Type 0 where
  ok : A → Result A
  err : WireError → Result A

-- What a read leaves of the stream comes back beside an error too.
abbrev pub Reader : Type 0 → Type 0
Reader A = List ℕ → Result A × List ℕ

module _ {A B : Type 0} where
  abbrev pub continue : Result A → (A → Reader B) → Reader B
  continue (ok a) f s = f a s
  continue (err e) f s = (err e, s)

  infixl 10 ◌>>=◌ ◌>>◌
  unfoldable pub ◌>>=◌ : Reader A → (A → Reader B) → Reader B
  ◌>>=◌ m f s = let (r, s') = m s in continue r f s'

  unfoldable pub ◌>>◌ : Reader A → Reader B → Reader B
  unfolding ◌>>=◌
  ◌>>◌ m n = m >>= λ _. n

module _ {A : Type 0} where
  unfoldable pub pure : A → Reader A
  pure a s = (ok a, s)

  unfoldable pub raise : WireError → Reader A
  raise e s = (err e, s)

-- At the end of the stream the bytes that are left are lost.
unfoldable pub read_exact : ℕ → Reader (List ℕ)
read_exact n s = if leb n (length s) then (ok (take n s), drop n s) else (err unexpected_eof, [])

unfoldable pub read_u8 : Reader ℕ
unfolding ◌>>=◌ pure read_exact from_le
read_u8 = do bs ← read_exact 1; pure (from_le bs)

unfoldable pub read_u16 : Reader ℕ
unfolding ◌>>=◌ pure read_exact from_le
read_u16 = do bs ← read_exact 2; pure (from_le bs)

unfoldable pub read_u32 : Reader ℕ
unfolding ◌>>=◌ pure read_exact from_le
read_u32 = do bs ← read_exact 4; pure (from_le bs)

-- An `f64` is kept as its bit pattern, as an `f32` is.
unfoldable pub read_u64 : Reader ℕ
unfolding ◌>>=◌ pure read_exact from_le
read_u64 = do bs ← read_exact 8; pure (from_le bs)

unfoldable pub read_i64 : Reader ℤ
unfolding ◌>>=◌ pure read_u64
read_i64 = do u ← read_u64; pure (signed u)

-- A flag byte: `buf[0] != 0`.
unfoldable pub read_flag : Reader Bool
unfolding ◌>>=◌ pure read_u8
read_flag = do b ← read_u8; pure (not (b == 0))

-- `String::from_utf8(bytes)?`
unfoldable pub utf8 : List ℕ → Reader Text
unfolding pure raise
utf8 bs = if is_utf8 bs then pure bs else raise invalid_utf8

-- `String::from_utf8(bytes).unwrap_or_default()`
unfoldable pub utf8_or_default : List ℕ → Text
utf8_or_default bs = if is_utf8 bs then bs else []

unfoldable pub guard_len : ℕ → ℕ → Reader (Unit {0})
unfolding pure raise
guard_len cap n = if ltb cap n then raise too_long else pure tt
