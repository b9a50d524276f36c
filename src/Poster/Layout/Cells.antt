-- ===== src/Poster/Layout/Cells.antt =====
-- The cells of a poster lie on the canvas, and apart.
use native.Mathlib.Nat.{mul-le-mul_right, mul-add}
use jellyfin_recents.Prelude.{
  ℕ, suc, ◌+◌, ◌-◌, ◌*◌, ◌^◌, ◌≤◌, ◌<◌, ◌≡◌, Bool, ◌&&◌, ltb, arith, Bool-cases, inl, inr, ◌⊎◌,
  ltb→lt,
}
use jellyfin_recents.Poster.Layout.{GridLayout, u32, sub_u32, cell_origin, canvas_w, canvas_h}

-- A grid whose measures fit u32.
pub record IsFitting (l : GridLayout) : Type 0 where
  pub rows_pos : 0 < l.rows
  pub rows_fit : l.rows < 2 ^ 32
  pub cols_pos : 0 < l.cols
  pub width :
      l.pad * 2 + l.cols * l.cell_w + (l.cols - 1) * l.col_gap ≤ l.icon_area_w + l.qr_strip_w
  pub width_fits : l.icon_area_w + l.qr_strip_w < 2 ^ 32
  pub height_fits :
      l.header_h + l.pad * 2 + l.rows * l.cell_h + (l.rows - 1) * l.row_gap + l.row_gap < 2 ^ 32

-- `n` cells and the gaps between them, and the place of one.
line_lem : (i n cell gap : ℕ) → i < n → i * (cell + gap) + cell ≤ n * cell + (n - 1) * gap
line_lem i n cell gap h =
    let k : suc i * cell ≤ n * cell = mul-le-mul_right cell (omega arith) in
    let g : i * gap ≤ (n - 1) * gap = mul-le-mul_right gap (omega arith) in
    omega (arith, k, g, mul-add i cell gap)

pub u32_lem : (n : ℕ) → n < 2 ^ 32 → u32 n ≡ n
u32_lem n h = omega (arith, h)

pub pred_lem : (n : ℕ) → 0 < n → n < 2 ^ 32 → sub_u32 n 1 ≡ n - 1
pred_lem n h k = omega (arith, h, k)

cell_origin_lem :
    (l : GridLayout) (col row : ℕ)
    → IsFitting l
    → col < l.cols
    → row < l.rows
    → cell_origin l col row
      ≡ (l.pad + col * (l.cell_w + l.col_gap), l.header_h + l.pad + row * (l.cell_h + l.row_gap))
unfolding cell_origin
cell_origin_lem l col row h c r =
    let across = line_lem col l.cols l.cell_w l.col_gap c in
    let down = line_lem row l.rows l.cell_h l.row_gap r in
    rw (
      u32_lem (l.pad + col * (l.cell_w + l.col_gap)) (omega (arith, across, h.width, h.width_fits)),
      u32_lem (l.header_h + l.pad + row * (l.cell_h + l.row_gap))
          (omega (arith, down, h.height_fits)),
    )

canvas_h_lem :
    (l : GridLayout) (show : Bool)
    → IsFitting l
    → l.header_h + l.pad * 2 + l.rows * l.cell_h + (l.rows - 1) * l.row_gap ≤ canvas_h l show
unfolding canvas_h
canvas_h_lem l show h = elim (Bool-cases (l.is_outside_ts && show)) [
  | inl extra ↦ rw (extra, pred_lem l.rows h.rows_pos h.rows_fit) (omega (arith, h.height_fits))
  | inr plain ↦ rw (plain, pred_lem l.rows h.rows_pos h.rows_fit) (omega (arith, h.height_fits))
]

-- Every cell of a grid that fits lies on the canvas, with the padding around the grid free.
pub cell_inside :
    (l : GridLayout) (show : Bool) (col row : ℕ)
    → IsFitting l
    → col < l.cols
    → row < l.rows
    → (l.pad ≤ (cell_origin l col row).0)
      × ((cell_origin l col row).0 + l.cell_w + l.pad ≤ canvas_w l)
      × (l.header_h + l.pad ≤ (cell_origin l col row).1)
      × ((cell_origin l col row).1 + l.cell_h + l.pad ≤ canvas_h l show)
unfolding canvas_w
cell_inside l show col row h c r =
    let across = line_lem col l.cols l.cell_w l.col_gap c in
    let down = line_lem row l.rows l.cell_h l.row_gap r in
    rw (cell_origin_lem l col row h c r) (
      omega arith,
      omega (arith, across, h.width, h.width_fits),
      omega arith,
      omega (arith, down, canvas_h_lem l show h),
    )

-- One of two cells begins behind the end of the other, across or down.
abbrev pub AreApart : ℕ × ℕ → ℕ × ℕ → ℕ → ℕ → Type 0
AreApart (x, y) (x', y') w h = ((x + w ≤ x') ⊎ (x' + w ≤ x)) ⊎ ((y + h ≤ y') ⊎ (y' + h ≤ y))

steps_lem : (i j cell gap : ℕ) → i < j → i * (cell + gap) + cell ≤ j * (cell + gap)
steps_lem i j cell gap h =
    let k : suc i * (cell + gap) ≤ j * (cell + gap) = mul-le-mul_right (cell + gap) (omega arith) in
    omega (arith, k)

line_apart :
    (base i j cell gap : ℕ)
    → ¬ (i ≡ j)
    → (base + i * (cell + gap) + cell ≤ base + j * (cell + gap))
      ⊎ (base + j * (cell + gap) + cell ≤ base + i * (cell + gap))
line_apart base i j cell gap h = elim (Bool-cases (ltb i j)) [
  | inl below ↦ inl (omega (arith, steps_lem i j cell gap (ltb→lt i j below)))
  | inr above ↦
      (let less : j < i = ground (arith, above, h) in
        inr (omega (arith, steps_lem j i cell gap less)))
]

-- Different cells of a grid that fits do not overlap.
pub cells_apart :
    (l : GridLayout) (c r c' r' : ℕ)
    → IsFitting l
    → c < l.cols
    → r < l.rows
    → c' < l.cols
    → r' < l.rows
    → (¬ (c ≡ c')) ⊎ (¬ (r ≡ r'))
    → AreApart (cell_origin l c r) (cell_origin l c' r') l.cell_w l.cell_h
cells_apart l c r c' r' h hc hr hc' hr' (inl ne) =
    rw (cell_origin_lem l c r h hc hr, cell_origin_lem l c' r' h hc' hr')
      (inl (line_apart l.pad c c' l.cell_w l.col_gap ne))
cells_apart l c r c' r' h hc hr hc' hr' (inr ne) =
    rw (cell_origin_lem l c r h hc hr, cell_origin_lem l c' r' h hc' hr')
      (inr (line_apart (l.header_h + l.pad) r r' l.cell_h l.row_gap ne))
