-- ===== src/Tests/Pictures.antt =====
-- Posters, tiles, borders and file indices at concrete inputs.
use jellyfin_recents.Prelude.{
  ℕ, ◌+◌, ◌-◌, ◌*◌, ◌/◌, ◌≤◌, ◌≡◌, refl, Bool, true, false, not, none, some, List, [], ◌∷◌, ◌++◌,
  arith, inl, length, map, All,
}
use jellyfin_recents.Prelude.Int.{ℤ, pos, negsuc}
use jellyfin_recents.Server.Stream.Demux.Agreement.{video_frames}
use jellyfin_recents.Poster.Layout.{
  Header, inside_bottom_left, GridLayout, cell_origin, canvas_w, canvas_h, stitch_layout,
  place_frame, effective_cell_w, effective_cell_h, qr_strip_width, is_outside,
}
use jellyfin_recents.Poster.Layout.Cells.{IsFitting, AreApart, cells_apart}
use jellyfin_recents.Poster.Layout.Stitch.{IsSmall, gap_of, stitched_inside}
use jellyfin_recents.Poster.Sampling.{available_intervals, is_in_any}
use jellyfin_recents.Poster.Sampling.Available.{available_intervals_lem}
use jellyfin_recents.Forge.Tiles.{tile_origins, IsTiling, Covers, tile_origins_lem}
use jellyfin_recents.Forge.Border.{detect_border_crop, no_border_crop}
use jellyfin_recents.Decoder.Index.{
  RawPacket, Source, add_packets, plain_packet, count_hidden, hidden_packets_lem,
  add_packets-video_frames,
}

abbrev grid : GridLayout
grid = record {
  header_h = 144;
  row_gap = 4;
  col_gap = 4;
  pad = 8;
  cell_w = 320;
  cell_h = 180;
  rows = 2;
  cols = 3;
  is_outside_ts = false;
  qr_strip_w = 0;
  icon_area_w = 984;
}

grid-IsFitting : IsFitting grid
grid-IsFitting = record {
  rows_pos = omega arith;
  rows_fit = omega arith;
  cols_pos = omega arith;
  width = omega arith;
  width_fits = omega arith;
  height_fits = omega arith;
}

cells_apart_example : AreApart (cell_origin grid 0 1) (cell_origin grid 2 1) 320 180
cells_apart_example =
    cells_apart grid 0 1 2 1 grid-IsFitting (omega arith) (omega arith) (omega arith) (omega arith)
      (inl (λ e. omega (arith, e)))

abbrev header : Header
header = record { branding_enabled = true; video_info_enabled = true }

-- The height in proportion, rounded to the nearest.
abbrev scale : ℕ → ℕ → ℕ → ℕ
scale w actual_h actual_w = (2 * w * actual_h + actual_w) / (2 * actual_w)

abbrev cell_h : ℕ
cell_h = effective_cell_h scale (effective_cell_w header 320 3) 1280 720

poster-IsSmall : IsSmall header 320 2 3 cell_h (gap_of inside_bottom_left)
unfolding effective_cell_h effective_cell_w qr_strip_width is_outside
poster-IsSmall = record {
  rows_pos = omega arith;
  rows_fit = omega arith;
  cols_pos = omega arith;
  cols_fit = omega arith;
  width_fits = omega arith;
  height_fits = omega arith;
}

stitched_inside_example :
    let l = stitch_layout scale header inside_bottom_left 320 2 3 1280 720 in
    (x : ℕ) × (y : ℕ) × (place_frame l 5 ≡ some (x, y))
    × (x + l.cell_w + 8 ≤ canvas_w l)
    × (y + l.cell_h + 8 ≤ canvas_h l true)
stitched_inside_example =
    stitched_inside scale header inside_bottom_left true 320 2 3 1280 720 5 poster-IsSmall
      (omega arith)

available_intervals_lem_example :
    is_in_any
      (pos 7)
      (available_intervals (pos 100) ((pos 50, pos 200) ∷ (negsuc 4, pos 5) ∷ (pos 3, pos 10) ∷ []))
    ≡ not (is_in_any (pos 7) ((pos 50, pos 200) ∷ (negsuc 4, pos 5) ∷ (pos 3, pos 10) ∷ []))
available_intervals_lem_example =
    available_intervals_lem (pos 100) (pos 7)
      ((pos 50, pos 200) ∷ (negsuc 4, pos 5) ∷ (pos 3, pos 10) ∷ []) (omega arith) (ground arith)

tile_origins_lem_example :
    (xs : List ℕ) × (tile_origins 300 128 (128 - 16) ≡ some xs)
    × IsTiling 300 128 (128 - 16) 0 xs
    × All (λ (x : ℕ). x + 128 ≤ 300) xs
    × Covers 128 250 xs
tile_origins_lem_example = tile_origins_lem 300 128 16 250 (omega arith) (omega arith) (omega arith)

no_border_crop_example :
    detect_border_crop (λ x. true) (λ y. true) 1920 1080 ≡ (0, 0, 1920 * 8 / 10, 1080 * 8 / 10)
no_border_crop_example =
    no_border_crop (λ x. true) (λ y. true) 1920 1080 (λ x. refl) (λ y. refl) (omega arith)
      (omega arith)

abbrev packet : ℕ → Bool → RawPacket
packet ms shown = record {
  is_video = true;
  is_key = false;
  pts = some (pos ms);
  dts = none;
  is_shown = shown;
  corrected = none;
}

abbrev source : List RawPacket → Source
source packets = record {
  rate_num = pos 24;
  rate_den = pos 1;
  has_time_base = true;
  to_ms = λ t. t;
  stream_start_ms = pos 0;
  has_parser = true;
  packets = packets;
}

abbrev with_hidden : List RawPacket
with_hidden = packet 0 true ∷ packet 84 false ∷ packet 42 true ∷ []

hidden_packets_lem_example :
    length (add_packets (source with_hidden) with_hidden []) + count_hidden with_hidden
    ≡ length {A = ℤ × Bool} []
      + length (video_frames (pos 0) (map (plain_packet (source with_hidden)) with_hidden))
hidden_packets_lem_example = hidden_packets_lem (source with_hidden) with_hidden [] refl

-- The parser reports a time for the second.
abbrev all_shown : List RawPacket
all_shown = packet 0 true ∷ record (packet 42 true) { corrected = some (pos 42) } ∷ []

add_packets-video_frames_example :
    add_packets (source all_shown) all_shown []
    ≡ [] ++ video_frames (pos 0) (map (plain_packet (source all_shown)) all_shown)
add_packets-video_frames_example =
    add_packets-video_frames (source all_shown) all_shown [] refl ((refl, refl), ((refl, refl), tt))
