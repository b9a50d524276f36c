-- ===== src/Wire/Requests/Jobs.antt =====
-- Round trips of the animate and stitch jobs, whose requests carry a list of frames.
use jellyfin_recents.Prelude.{ℕ, ◌<◌, ◌≤◌, ◌^◌, ◌%◌, ◌≡◌, refl, List, [], ◌∷◌, arith, length, All}
use jellyfin_recents.Prelude.Int.{ℤ, IsI64}
use jellyfin_recents.Wire.Bytes.{Text}
use jellyfin_recents.Wire.Utf8.{is_utf8}
use jellyfin_recents.Wire.Reader.{ok, pure, ◌>>=◌, ◌>>◌}
use jellyfin_recents.Wire.Requests.Types.{
  max_frame_count, AnimFormat, ResizeMode, AnimateReq, StitchReq, anim_format_from_u16,
  resize_mode_from_u16, resolution_preset_from_str,
}
use jellyfin_recents.Wire.Requests.Read.{read_paths, read_animate_req, read_stitch_req, crop_of}
use jellyfin_recents.Wire.Requests.Write.{
  AnimateCall, write_paths, format_code, mode_code, write_animate_options, write_animate_req,
  stitch_format, stitch_options, write_stitch_req,
}
use jellyfin_recents.Wire.Requests.Fields.{
  IsString, IsItemId, read_u16-write_u16, read_u32-write_u32, read_i64-write_i64,
  read_flag-write_flag, read_capped_string-write_string, read_item_id-write_bytes, read_hw-write_hw,
  read_len_prefixed_string-write_string, guard_len-ok, read_preset-write_string,
}

abbrev pub PathFits : Text × ℤ → Type 0
PathFits (path, idx) = IsString path × IsI64 idx

read_paths-write_paths :
    (ps : List (Text × ℤ)) (rest : Text)
    → All PathFits ps
    → read_paths (length ps) (write_paths ps rest) ≡ (ok ps, rest)
unfolding read_paths write_paths ◌>>=◌ pure
read_paths-write_paths [] rest h = refl
read_paths-write_paths ((path, idx) ∷ ps) rest h = rw (
  read_i64-write_i64 idx _ h.0.1,
  read_capped_string-write_string path _ h.0.0,
  read_paths-write_paths ps rest h.1,
)

pub record AnimateFits (c : AnimateCall) : Type 0 where
  pub item_id : IsItemId c.item_id
  pub task_id : IsString c.task_id
  pub paths : All PathFits c.paths
  pub count : length c.paths ≤ max_frame_count
  pub target_px : c.target_px < 2 ^ 32
  pub speed : c.speed < 2 ^ 32
  pub loop_count : c.loop_count < 2 ^ 16
  pub crop_x : c.crop_x < 2 ^ 32
  pub crop_y : c.crop_y < 2 ^ 32
  pub crop_w : c.crop_w < 2 ^ 32
  pub crop_h : c.crop_h < 2 ^ 32
  pub quality : c.quality < 2 ^ 32
  pub preset : IsString c.preset

-- What the daemon makes of a call: the crop is dropped unless its width is positive, and the
-- preset is looked up by name.
abbrev pub received : AnimateCall → AnimateReq
received c = record {
  item_id = c.item_id;
  task_id = c.task_id;
  paths = c.paths;
  format = c.format;
  resize_mode = c.resize_mode;
  target_px = c.target_px;
  speed = c.speed;
  loop_count = c.loop_count;
  crop = crop_of c.crop_x c.crop_y c.crop_w c.crop_h;
  quality = c.quality;
  resolution_preset = resolution_preset_from_str c.preset;
  hw = c.hw;
}

format_code-lt : (f : AnimFormat) → format_code f < 2 ^ 16
unfolding format_code
format_code-lt f = ground arith

from_u16-format_code : (f : AnimFormat) → anim_format_from_u16 (format_code f) ≡ f
unfolding format_code anim_format_from_u16
from_u16-format_code f = ground arith

mode_code-lt : (m : ResizeMode) → mode_code m < 2 ^ 16
unfolding mode_code
mode_code-lt m = ground arith

from_u16-mode_code : (m : ResizeMode) → resize_mode_from_u16 (mode_code m) ≡ m
unfolding mode_code resize_mode_from_u16
from_u16-mode_code m = ground arith

length_as_u32 : (n : ℕ) → n ≤ max_frame_count → n % 2 ^ 32 ≡ n
length_as_u32 n h = omega arith

-- An animate request whose fields fit their widths, with at most 4096 frames, is read back as the
-- daemon's view of the call: every frame in order, format and mode decoded, the crop kept just
-- when its width is a positive float, and exactly its bytes are taken off the stream.
pub read-write_animate :
    (c : AnimateCall) (rest : Text)
    → AnimateFits c
    → read_animate_req (write_animate_req c rest) ≡ (ok (received c), rest)
unfolding read_animate_req write_animate_req write_animate_options ◌>>=◌ ◌>>◌ pure
read-write_animate c rest h = rw (
  read_item_id-write_bytes c.item_id _ h.item_id,
  read_capped_string-write_string c.task_id _ h.task_id,
  length_as_u32 (length c.paths) h.count,
  read_u32-write_u32 (length c.paths) _ (omega (arith, h.count)),
  guard_len-ok max_frame_count (length c.paths) _ h.count,
  read_paths-write_paths c.paths _ h.paths,
  read_u16-write_u16 (format_code c.format) _ (format_code-lt c.format),
  read_u16-write_u16 (mode_code c.resize_mode) _ (mode_code-lt c.resize_mode),
  read_u32-write_u32 c.target_px _ h.target_px,
  read_u32-write_u32 c.speed _ h.speed,
  read_u16-write_u16 c.loop_count _ h.loop_count,
  read_u32-write_u32 c.crop_x _ h.crop_x,
  read_u32-write_u32 c.crop_y _ h.crop_y,
  read_u32-write_u32 c.crop_w _ h.crop_w,
  read_u32-write_u32 c.crop_h _ h.crop_h,
  read_u32-write_u32 c.quality _ h.quality,
  read_preset-write_string c.preset _ h.preset,
  read_hw-write_hw c.hw rest,
  from_u16-format_code c.format,
  from_u16-mode_code c.resize_mode,
)

pub record StitchFits (r : StitchReq) : Type 0 where
  pub format : stitch_format r.format ≡ r.format
  pub item_id : IsItemId r.item_id
  pub task_id : IsString r.task_id
  pub paths : All PathFits r.paths
  pub count : length r.paths ≤ max_frame_count
  pub quality : r.quality < 2 ^ 32
  pub device_id : IsString r.device_id
  pub log_path : IsString r.log_path
  pub model_family : IsString r.model_family
  pub model_version : IsString r.model_version
  pub model_path : IsString r.model_path

empty-IsString : IsString []
unfolding is_utf8
empty-IsString = record { valid = refl; short = omega arith }

stitch_options-AnimateFits : (r : StitchReq) → StitchFits r → AnimateFits (stitch_options r)
unfolding stitch_options
stitch_options-AnimateFits r h = record {
  item_id = h.item_id;
  task_id = h.task_id;
  paths = h.paths;
  count = h.count;
  target_px = omega arith;
  speed = omega arith;
  loop_count = omega arith;
  crop_x = omega arith;
  crop_y = omega arith;
  crop_w = omega arith;
  crop_h = omega arith;
  quality = h.quality;
  preset = empty-IsString;
}

-- A stitch request whose fields fit their widths, and whose format is not MP4, is read back as it
-- was written: the six trailing fields follow the animate layout, and exactly its bytes are taken off the stream.
pub read-write_stitch :
    (r : StitchReq) (rest : Text)
    → StitchFits r
    → read_stitch_req (write_stitch_req r rest) ≡ (ok r, rest)
unfolding read_stitch_req write_stitch_req stitch_options ◌>>=◌ pure
read-write_stitch r rest h = rw (
  read-write_animate (stitch_options r) _ (stitch_options-AnimateFits r h),
  read_len_prefixed_string-write_string r.device_id _ h.device_id,
  read_len_prefixed_string-write_string r.log_path _ h.log_path,
  read_flag-write_flag r.model_disabled _,
  read_len_prefixed_string-write_string r.model_family _ h.model_family,
  read_len_prefixed_string-write_string r.model_version _ h.model_version,
  read_len_prefixed_string-write_string r.model_path rest h.model_path,
  h.format,
)
