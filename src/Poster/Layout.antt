-- ===== src/Poster/Layout.antt =====
-- The geometry of a poster: GridLayout and the measures of stitch_grid in image_stitcher.rs, the
-- strip of the QR code in qr.rs, the number of cells in run.rs and the badges in text_renderer.rs.
-- All numbers are u32; the arithmetic wraps, as in a release build.
pub mod Cells
pub mod Stitch
use Prim.Native.String.{String}
use jellyfin_recents.Prelude.{
  ℕ, ◌+◌, ◌-◌, ◌*◌, ◌/◌, ◌%◌, ◌^◌, Bool, true, false, ◌&&◌, ◌||◌, Option, none, some, min, max, ltb,
  ◌==◌, nat_eq, if◌then◌else◌,
}
use jellyfin_recents.Wire.Bytes.{Text}
use jellyfin_recents.Wire.Requests.Types.{codes}

abbrev pub cell_gap : ℕ
cell_gap = 4

abbrev pub grid_padding : ℕ
grid_padding = 8

abbrev pub header_height : ℕ
header_height = 144

pub data TimestampPosition : Type 0 where
  inside_top_left inside_top_center inside_top_right : TimestampPosition
  inside_bottom_left inside_bottom_center inside_bottom_right : TimestampPosition
  outside_bottom_left outside_bottom_center outside_bottom_right : TimestampPosition

-- `Display`.
unfoldable pub position_name : TimestampPosition → Text
position_name inside_top_left = codes "inside-top-left"
position_name inside_top_center = codes "inside-top-center"
position_name inside_top_right = codes "inside-top-right"
position_name inside_bottom_left = codes "inside-bottom-left"
position_name inside_bottom_center = codes "inside-bottom-center"
position_name inside_bottom_right = codes "inside-bottom-right"
position_name outside_bottom_left = codes "outside-bottom-left"
position_name outside_bottom_center = codes "outside-bottom-center"
position_name outside_bottom_right = codes "outside-bottom-right"

unfoldable pub is_outside : TimestampPosition → Bool
is_outside outside_bottom_left = true
is_outside outside_bottom_center = true
is_outside outside_bottom_right = true
is_outside _ = false

abbrev pub u32 : ℕ → ℕ
u32 n = n % 2 ^ 32

-- `a - b` of u32s.
abbrev pub sub_u32 : ℕ → ℕ → ℕ
sub_u32 a b = (a + (2 ^ 32 - b)) % 2 ^ 32

pub record GridLayout : Type 0 where
  pub header_h : ℕ
  pub row_gap : ℕ
  pub col_gap : ℕ
  pub pad : ℕ
  pub cell_w : ℕ
  pub cell_h : ℕ
  pub rows : ℕ
  pub cols : ℕ
  pub is_outside_ts : Bool
  pub qr_strip_w : ℕ
  pub icon_area_w : ℕ

unfoldable pub compute : ℕ → ℕ → ℕ → ℕ → ℕ → TimestampPosition → ℕ → ℕ → GridLayout
compute rows cols cell_w cell_h header_h timestamp_pos qr_strip_w icon_area_w = record {
  header_h = header_h;
  row_gap = if is_outside timestamp_pos then 36 else cell_gap;
  col_gap = cell_gap;
  pad = grid_padding;
  cell_w = cell_w;
  cell_h = cell_h;
  rows = rows;
  cols = cols;
  is_outside_ts = is_outside timestamp_pos;
  qr_strip_w = qr_strip_w;
  icon_area_w = icon_area_w;
}

unfoldable pub cell_origin : GridLayout → ℕ → ℕ → ℕ × ℕ
cell_origin l col row = (
  u32 (l.pad + col * (l.cell_w + l.col_gap)),
  u32 (l.header_h + l.pad + row * (l.cell_h + l.row_gap)),
)

unfoldable pub canvas_w : GridLayout → ℕ
canvas_w l = u32 (l.icon_area_w + l.qr_strip_w)

abbrev pub last_row_extra : GridLayout → Bool → ℕ
last_row_extra l show_frame_timestamp =
    if l.is_outside_ts && show_frame_timestamp then l.row_gap else 0

unfoldable pub canvas_h : GridLayout → Bool → ℕ
canvas_h l show_frame_timestamp = u32 (
    l.header_h
    + l.pad * 2
    + l.rows * l.cell_h
    + sub_u32 l.rows 1 * l.row_gap
    + last_row_extra l show_frame_timestamp)

-- The parts of the QR code's strip.
unfoldable pub qr_strip_width : ℕ
qr_strip_width = 10 + 99 + 12 * 2 + 10

-- The options that decide about the header and the strip in it.
pub record Header : Type 0 where
  pub branding_enabled : Bool
  pub video_info_enabled : Bool

abbrev pub has_header : Header → Bool
has_header o = o.video_info_enabled || o.branding_enabled

abbrev pub strip_of : Header → ℕ
strip_of o = if has_header o && o.branding_enabled then qr_strip_width else 0

abbrev pub icon_area_of : ℕ → ℕ → ℕ
icon_area_of cell_width cols =
    u32 (grid_padding * 2 + cols * cell_width + sub_u32 cols 1 * cell_gap)

-- The cells are widened to fill the canvas where there is a strip.
unfoldable pub effective_cell_w : Header → ℕ → ℕ → ℕ
effective_cell_w o cell_width cols =
    if ltb 0 (strip_of o) && ltb 0 cols
    then sub_u32 (sub_u32 (u32 (icon_area_of cell_width cols + strip_of o)) (grid_padding * 2))
        (u32 (sub_u32 cols 1 * cell_gap))
      / cols
    else cell_width

-- `scale` is the height that keeps the frame's proportions, rounded from floating point.
unfoldable pub effective_cell_h : (ℕ → ℕ → ℕ → ℕ) → ℕ → ℕ → ℕ → ℕ
effective_cell_h scale cell_w actual_w actual_h =
    max (if ltb 0 actual_w then scale cell_w actual_h actual_w else u32 (cell_w * 9) / 16) 1

-- The layout of stitch_grid, for a first frame of the given size.
unfoldable pub stitch_layout :
    (ℕ → ℕ → ℕ → ℕ) → Header → TimestampPosition → ℕ → ℕ → ℕ → ℕ → ℕ → GridLayout
stitch_layout scale o timestamp_pos cell_width rows cols actual_w actual_h =
    let cell_w = effective_cell_w o cell_width cols in
    compute rows cols cell_w (effective_cell_h scale cell_w actual_w actual_h)
      (if has_header o then header_height else 0) timestamp_pos (strip_of o)
      (icon_area_of cell_width cols)

-- Where the idx-th frame goes; none once the rows are full.
unfoldable pub place_frame : GridLayout → ℕ → Option (ℕ × ℕ)
place_frame l idx =
    if ltb (idx / l.cols) l.rows then some (cell_origin l (idx % l.cols) (idx / l.cols)) else none

-- The rows and columns of run_generate.
abbrev pub clamp : ℕ → ℕ → ℕ → ℕ
clamp lo hi n = max lo (min hi n)

unfoldable pub grid_size : Header → ℕ → ℕ → ℕ → ℕ → ℕ × ℕ
grid_size o rows cols source_width source_height = (
  clamp 1 20 rows,
  (if ltb source_width source_height && has_header o
      then max (clamp 1 12 cols) 3
      else clamp 1 12 cols),
)

-- The width of the thumbnails, not more than the video's.
unfoldable pub thumb_width_of : ℕ → ℕ → ℕ
thumb_width_of thumb_width source_width =
    if ltb 0 source_width then min thumb_width source_width else thumb_width

-- badge_pos of text_renderer.rs.
unfoldable pub badge_pos : ℕ → ℕ → ℕ → ℕ → ℕ → ℕ → ℕ → TimestampPosition → ℕ × ℕ
badge_pos x y w h bw bh pad inside_top_left = (u32 (x + pad), u32 (y + pad))
badge_pos x y w h bw bh pad inside_top_center = (u32 (x + sub_u32 w bw / 2), u32 (y + pad))
badge_pos x y w h bw bh pad inside_top_right =
    (sub_u32 (sub_u32 (u32 (x + w)) bw) pad, u32 (y + pad))
badge_pos x y w h bw bh pad inside_bottom_left =
    (u32 (x + pad), sub_u32 (sub_u32 (u32 (y + h)) bh) pad)
badge_pos x y w h bw bh pad inside_bottom_center =
    (u32 (x + sub_u32 w bw / 2), sub_u32 (sub_u32 (u32 (y + h)) bh) pad)
badge_pos x y w h bw bh pad inside_bottom_right =
    (sub_u32 (sub_u32 (u32 (x + w)) bw) pad, sub_u32 (sub_u32 (u32 (y + h)) bh) pad)
badge_pos x y w h bw bh pad outside_bottom_left = (u32 (x + pad), u32 (y + h + pad))
badge_pos x y w h bw bh pad outside_bottom_center = (u32 (x + sub_u32 w bw / 2), u32 (y + h + pad))
badge_pos x y w h bw bh pad outside_bottom_right =
    (sub_u32 (sub_u32 (u32 (x + w)) bw) pad, u32 (y + h + pad))
