-- ===== src/Poster/Layout/Stitch.antt =====
-- The frames of a whole poster.
use native.Mathlib.Nat.{div-lt_iff_lt-mul, mul-div-le, mod-lt}
use jellyfin_recents.Prelude.{
  ℕ, ◌+◌, ◌-◌, ◌*◌, ◌/◌, ◌%◌, ◌^◌, ◌≤◌, ◌<◌, ◌≡◌, Bool, some, arith, if◌then◌else◌, inl, inr, ◌⊎◌,
  lt→ltb,
}
use jellyfin_recents.Poster.Layout.{
  TimestampPosition, GridLayout, compute, u32, sub_u32, cell_gap, grid_padding, header_height,
  cell_origin, canvas_w, canvas_h, is_outside, Header, has_header, strip_of, icon_area_of,
  qr_strip_width, effective_cell_w, effective_cell_h, stitch_layout, place_frame,
}
use jellyfin_recents.Poster.Layout.Cells.{IsFitting, cell_inside, pred_lem, u32_lem}

-- The measures of a poster fit u32.
pub record IsSmall (o : Header) (cell_width rows cols cell_h row_gap : ℕ) : Type 0 where
  pub rows_pos : 0 < rows
  pub rows_fit : rows < 2 ^ 32
  pub cols_pos : 0 < cols
  pub cols_fit : cols < 2 ^ 32
  pub width_fits : 16 + cols * cell_width + (cols - 1) * 4 + qr_strip_width < 2 ^ 32
  pub height_fits :
      (if has_header o then header_height else 0)
        + 16
        + rows * cell_h
        + (rows - 1) * row_gap
        + row_gap
      < 2 ^ 32

strip_cases : (o : Header) → (strip_of o ≡ 0) ⊎ (strip_of o ≡ 143)
unfolding qr_strip_width
strip_cases o = ground arith

icon_area_lem :
    (cell_width cols : ℕ)
    → 0 < cols
    → cols < 2 ^ 32
    → 16 + cols * cell_width + (cols - 1) * 4 < 2 ^ 32
    → icon_area_of cell_width cols ≡ 16 + cols * cell_width + (cols - 1) * 4
icon_area_lem cell_width cols p f h = rw (pred_lem cols p f) (u32_lem _ (omega (arith, h)))

-- The width of the cells' part, once the padding and the gaps are taken off.
cells_width :
    (a g : ℕ)
    → 16 + a + g * 4 + 143 < 2 ^ 32
    → sub_u32 (sub_u32 (u32 (16 + a + g * 4 + 143)) (grid_padding * 2)) (u32 (g * cell_gap))
      ≡ a + 143
cells_width a g h = omega (arith, h)

-- The widened cells still fit.
widened :
    (o : Header) (cell_width cols : ℕ)
    → 0 < cols
    → cols < 2 ^ 32
    → 16 + cols * cell_width + (cols - 1) * 4 + 143 < 2 ^ 32
    → 16 + cols * effective_cell_w o cell_width cols + (cols - 1) * 4
      ≤ icon_area_of cell_width cols + strip_of o
unfolding effective_cell_w
widened o cell_width cols p f h =
    let area = icon_area_lem cell_width cols p f (omega (arith, h)) in
    elim (strip_cases o) [
      | inl no_strip ↦ rw (no_strip, area) (omega arith)
      | inr strip ↦
          rw
            (
              strip,
              area,
              lt→ltb 0 cols p,
              pred_lem cols p f,
              cells_width (cols * cell_width) (cols - 1) h,
            )
            (omega (arith, mul-div-le (cols * cell_width + 143) cols))
    ]

abbrev pub gap_of : TimestampPosition → ℕ
gap_of timestamp_pos = if is_outside timestamp_pos then 36 else cell_gap

stitch-IsFitting :
    (scale : ℕ → ℕ → ℕ → ℕ) (o : Header) (t : TimestampPosition)
    (cell_width rows cols actual_w actual_h : ℕ)
    → IsSmall o cell_width rows cols
        (effective_cell_h scale (effective_cell_w o cell_width cols) actual_w actual_h)
        (gap_of t)
    → IsFitting (stitch_layout scale o t cell_width rows cols actual_w actual_h)
unfolding stitch_layout compute qr_strip_width
stitch-IsFitting scale o t cell_width rows cols actual_w actual_h h =
    let area = icon_area_lem cell_width cols h.cols_pos h.cols_fit (omega (arith, h.width_fits)) in
    record {
      rows_pos = h.rows_pos;
      rows_fit = h.rows_fit;
      cols_pos = h.cols_pos;
      width = widened o cell_width cols h.cols_pos h.cols_fit h.width_fits;
      width_fits = elim (strip_cases o) [
        | inl no_strip ↦ omega (arith, no_strip, area, h.width_fits)
        | inr strip ↦ omega (arith, strip, area, h.width_fits)
      ];
      height_fits = h.height_fits;
    }

place_frame_lem :
    (l : GridLayout) (idx : ℕ)
    → 0 < l.cols
    → idx < l.rows * l.cols
    → (idx % l.cols < l.cols)
      × (idx / l.cols < l.rows)
      × (place_frame l idx ≡ some (cell_origin l (idx % l.cols) (idx / l.cols)))
unfolding place_frame
place_frame_lem l idx p h =
    let row : idx / l.cols < l.rows = (div-lt_iff_lt-mul p).1 h in
    (mod-lt idx p, row, rw (lt→ltb _ _ row))

-- For positive numbers of rows and columns and measures that fit u32: each of the rows * cols
-- frames gets a place, and its cell, which may have been widened for the strip of the QR code,
-- lies on the canvas with 8 pixels free to the right and below.
pub stitched_inside :
    (scale : ℕ → ℕ → ℕ → ℕ) (o : Header) (t : TimestampPosition) (show : Bool)
    (cell_width rows cols actual_w actual_h idx : ℕ)
    → IsSmall o cell_width rows cols
        (effective_cell_h scale (effective_cell_w o cell_width cols) actual_w actual_h)
        (gap_of t)
    → idx < rows * cols
    → let l = stitch_layout scale o t cell_width rows cols actual_w actual_h in
      (x : ℕ) × (y : ℕ) × (place_frame l idx ≡ some (x, y))
      × (x + l.cell_w + 8 ≤ canvas_w l)
      × (y + l.cell_h + 8 ≤ canvas_h l show)
unfolding stitch_layout compute
stitched_inside scale o t show cell_width rows cols actual_w actual_h idx h i =
    let l = stitch_layout scale o t cell_width rows cols actual_w actual_h in
    let f = stitch-IsFitting scale o t cell_width rows cols actual_w actual_h h in
    let (col, row, placed) = place_frame_lem l idx h.cols_pos i in
    let (left, right, top, bottom) = cell_inside l show (idx % l.cols) (idx / l.cols) f col row in
    (_, _, placed, right, bottom)
