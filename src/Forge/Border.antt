-- ===== src/Forge/Border.antt =====
-- `detect_border_crop` and `crop_image` of crates/frame-forge/src/quality.rs. Whether a column's or
-- a row's variance exceeds the threshold is a parameter; the image is not empty.
use jellyfin_recents.Prelude.{
  ℕ, zero, suc, ◌+◌, ◌-◌, ◌*◌, ◌/◌, ◌≤◌, ◌<◌, ◌≡◌, refl, Bool, true, arith, min, max, if◌then◌else◌,
  Bool-cases, inl, inr,
}

-- `for x in 0..n`: the first place from `x` on that has content.
unfoldable pub first_up : (ℕ → Bool) → ℕ → ℕ → ℕ → ℕ
first_up has_content otherwise x zero = otherwise
first_up has_content otherwise x (suc n) =
    let rest = first_up has_content otherwise (suc x) n in if has_content x then x else rest

-- `for x in (0..n).rev()`: the place `last - x` for the greatest `x` that has content.
unfoldable pub first_down : (ℕ → Bool) → ℕ → ℕ → ℕ → ℕ
first_down has_content otherwise last zero = otherwise
first_down has_content otherwise last (suc n) =
    let rest = first_down has_content otherwise last n in
    if has_content (last - n) then last - n else rest

-- The two ends along one axis of length `w`: one before the crop is widened to eight tenths.
unfoldable pub low_end : (ℕ → Bool) → ℕ → ℕ
low_end has_content w = first_up has_content 0 0 (w / 4)

unfoldable pub high_end : (ℕ → Bool) → ℕ → ℕ
high_end has_content w = first_down has_content (w - 1) (w - 1) (w / 4)

unfoldable pub widened_end : ℕ → ℕ → ℕ → ℕ
widened_end low high w = min (low + max (high - low) (w * 8 / 10)) (w - 1)

-- left, top, right, bottom.
unfoldable pub detect_border_crop : (ℕ → Bool) → (ℕ → Bool) → ℕ → ℕ → ℕ × ℕ × ℕ × ℕ
detect_border_crop column_over row_over w h = (
  low_end column_over w,
  low_end row_over h,
  widened_end (low_end column_over w) (high_end column_over w) w,
  widened_end (low_end row_over h) (high_end row_over h) h,
)

-- The width and height of the cropped image.
unfoldable pub crop_size : ℕ × ℕ × ℕ × ℕ → ℕ × ℕ
crop_size (left, top, right, bottom) = (max (right - left) 1, max (bottom - top) 1)

first_up_lt : (has_content : ℕ → Bool) (x n : ℕ) → first_up has_content 0 x n ≤ x + n
unfolding first_up
first_up_lt c x zero = omega arith
first_up_lt c x (suc n) = elim (Bool-cases (c x)) [
  | inl here ↦ rw here (omega arith)
  | inr not_here ↦ rw not_here (omega (arith, first_up_lt c (suc x) n))
]

low_end_le : (has_content : ℕ → Bool) (w : ℕ) → low_end has_content w ≤ w / 4
unfolding low_end
low_end_le c w = omega (arith, first_up_lt c 0 (w / 4))

-- For an image that is not empty: the crop lies inside of the image, and along each axis it is at
-- least seven tenths of it long, up to rounding.
pub detect_border_crop_lem :
    (column_over row_over : ℕ → Bool) (w h : ℕ)
    → 0 < w
    → 0 < h
    → let (left, top, right, bottom) = detect_border_crop column_over row_over w h in
      (left ≤ right)
      × (right < w)
      × (w * 7 ≤ (right - left) * 10 + 20)
      × (top ≤ bottom)
      × (bottom < h)
      × (h * 7 ≤ (bottom - top) * 10 + 20)
unfolding detect_border_crop widened_end
detect_border_crop_lem c r w h hw hh =
    let low_w = low_end_le c w in
    let low_h = low_end_le r h in
    (
      omega (arith, low_w, hw),
      omega (arith, hw),
      omega (arith, low_w, hw),
      omega (arith, low_h, hh),
      omega (arith, hh),
      omega (arith, low_h, hh),
    )

all_up :
    (has_content : ℕ → Bool) (n : ℕ)
    → ((x : ℕ) → has_content x ≡ true)
    → first_up has_content 0 0 n ≡ 0
unfolding first_up
all_up c zero h = refl
all_up c (suc n) h = rw (h 0)

all_down :
    (has_content : ℕ → Bool) (last n : ℕ)
    → ((x : ℕ) → has_content x ≡ true)
    → 0 < n
    → first_down has_content last last n ≡ last - (n - 1)
unfolding first_down
all_down c last zero h p = absurd (omega arith)
all_down c last (suc n) h p = rw (h (last - n)) (omega arith)

whole_axis :
    (has_content : ℕ → Bool) (w : ℕ)
    → ((x : ℕ) → has_content x ≡ true)
    → 20 ≤ w
    → (low_end has_content w ≡ 0)
      × (widened_end (low_end has_content w) (high_end has_content w) w ≡ w * 8 / 10)
unfolding low_end high_end widened_end
whole_axis c w h l =
    let low = all_up c (w / 4) h in
    let high = all_down c (w - 1) (w / 4) h (omega (arith, l)) in
    (low, rw (low, high) (omega (arith, l)))

-- The scans from the right and from below go outwards: in an image with content in every column
-- and every row, which has no border, a fifth of the width and of the height is cut off.
pub no_border_crop :
    (column_over row_over : ℕ → Bool) (w h : ℕ)
    → ((x : ℕ) → column_over x ≡ true)
    → ((y : ℕ) → row_over y ≡ true)
    → 20 ≤ w
    → 20 ≤ h
    → detect_border_crop column_over row_over w h ≡ (0, 0, w * 8 / 10, h * 8 / 10)
unfolding detect_border_crop
no_border_crop c r w h hc hr lw lh =
    let across = whole_axis c w hc lw in let down = whole_axis r h hr lh in cc
