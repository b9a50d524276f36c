-- ===== src/Server/Frames.antt =====
-- A frame's index from its time: crates/jfs-common/src/fps_utils.rs, and the copy in server.rs.
use native.Mathlib.Nat.{div-eq_of_lt-le}
use jellyfin_recents.Prelude.{
  ℕ, suc, ◌+◌, ◌*◌, ◌^◌, ◌≤◌, ◌<◌, ◌≡◌, ap, true, not, ◌||◌, arith, if◌then◌else◌,
}
use jellyfin_recents.Prelude.Int.{
  ℤ, pos, negsuc, ltb_ℤ, ◌+ℤ◌, ◌-ℤ◌, ◌*ℤ◌, div_trunc, wrap_i64, wrap_i64_of_IsI64,
}

-- `/` of i64. A divisor of 0 panics in the code, and none of the callers' frame rates makes one.
unfoldable pub div_i64 : ℤ → ℤ → ℤ
div_i64 a (pos d) = div_trunc a d
div_i64 a (negsuc d) = pos 0 -ℤ div_trunc a (suc d)

-- -1 where the frame rate is not positive; otherwise the index rounded to the nearest, in wrapping
-- i64 arithmetic.
unfoldable pub compute_frame_idx : ℤ → ℤ → ℤ → ℤ
compute_frame_idx actual_pts_ms fps_num fps_den =
    if not (ltb_ℤ (pos 0) fps_num) || not (ltb_ℤ (pos 0) fps_den)
    then negsuc 0
    else div_i64 (wrap_i64 (actual_pts_ms *ℤ fps_num +ℤ fps_den *ℤ pos 500))
        (wrap_i64 (fps_den *ℤ pos 1000))

mul_pos : (m n : ℕ) → pos m *ℤ pos n ≡ pos (m * n)
unfolding ◌*ℤ◌
mul_pos m n = ground arith

add_pos : (m n : ℕ) → pos m +ℤ pos n ≡ pos (m + n)
unfolding ◌+ℤ◌
add_pos m n = ground arith

-- A time within half a frame of frame `n` gives the index `n`: with the rate num / den, frame `n`
-- is at n * den * 1000 / num ms. The time is not negative, the rate is positive, and the products
-- fit in an i64.
pub compute_frame_idx_nearest :
    (n pts num den : ℕ)
    → 0 < num
    → 0 < den
    → n * (den * 1000) ≤ pts * num + den * 500
    → pts * num + den * 500 < (n + 1) * (den * 1000)
    → pts * num + den * 500 < 2 ^ 63
    → den * 1000 < 2 ^ 63
    → compute_frame_idx (pos pts) (pos num) (pos den) ≡ pos n
unfolding compute_frame_idx div_i64
compute_frame_idx_nearest n pts num den hn hd low high fits fits_den =
    let num_test : ltb_ℤ (pos 0) (pos num) ≡ true = ground arith in
    let den_test : ltb_ℤ (pos 0) (pos den) ≡ true = ground arith in
    rw
      (
        num_test,
        den_test,
        mul_pos pts num,
        mul_pos den 500,
        mul_pos den 1000,
        add_pos (pts * num) (den * 500),
        wrap_i64_of_IsI64 (pos (pts * num + den * 500)) fits,
        wrap_i64_of_IsI64 (pos (den * 1000)) fits_den,
      )
      (ap (λ (m : ℕ). pos m) (div-eq_of_lt-le (den * 1000) low high))
