-- ===== src/Wire/Requests/Read.antt =====
-- The `read_*` functions of protocol.rs, in the order of the bytes on the wire.
use jellyfin_recents.Prelude.{
  ℕ, zero, suc, Option, none, some, List, [], ◌∷◌, ◌==◌, nat_eq, ltb, if◌then◌else◌,
}
use jellyfin_recents.Prelude.Int.{ℤ}
use jellyfin_recents.Wire.Bytes.{Text}
use jellyfin_recents.Wire.Reader.{
  Reader, pure, ◌>>=◌, ◌>>◌, read_exact, read_u8, read_u16, read_u32, read_u64, read_i64, read_flag,
  utf8, utf8_or_default, guard_len,
}
use jellyfin_recents.Wire.Requests.Types.{
  max_str_field_len, max_frame_count, HwDecodeFlags, SingleFrameReq, PrefetchRangeReq,
  ResolutionPreset, device_strategy_from_u8, anim_format_from_u16, resize_mode_from_u16,
  resolution_preset_from_str, f32_is_positive, Crop, AnimateReq, StitchReq, PrefetchRangeStreamReq,
  IndexFramesStreamReq, UpscaleReq, CancelUpscaleReq,
}

unfoldable pub read_hw_decode_flags : Reader HwDecodeFlags
read_hw_decode_flags = do
  enabled ← read_flag
  strategy ← read_u8
  pure (record { hw_decode_enabled = enabled; device_strategy = device_strategy_from_u8 strategy })

unfoldable pub read_msg_type : Reader ℕ
read_msg_type = read_u8

-- A length, its cap, the bytes, and `from_utf8(..)?`: the path and id fields of the requests.
unfoldable pub read_capped_string : Reader Text
read_capped_string = do
  len ← read_u32
  guard_len max_str_field_len len
  bytes ← read_exact len
  utf8 bytes

-- The fixed 32 bytes of an item id.
unfoldable pub read_item_id : Reader Text
read_item_id = do bytes ← read_exact 32; pure (utf8_or_default bytes)

-- An empty string has no bytes to read or check.
unfoldable pub read_len_prefixed_string : Reader Text
read_len_prefixed_string = do
  len ← read_u32
  if len == 0
      then pure []
      else do guard_len max_str_field_len len; bytes ← read_exact len; utf8 bytes

unfoldable pub read_single_frame_req : Reader SingleFrameReq
read_single_frame_req = do
  request_id ← read_u32
  frame_idx ← read_i64
  width ← read_u32
  path ← read_capped_string
  item_id ← read_item_id
  hw ← read_hw_decode_flags
  pure (record {
    request_id = request_id;
    frame_idx = frame_idx;
    width = width;
    path = path;
    item_id = item_id;
    hw = hw;
  })

-- The loop `for _ in 0..frame_count`, with the rounds left.
unfoldable pub read_paths : ℕ → Reader (List (Text × ℤ))
read_paths zero = pure []
read_paths (suc n) = do
  frame_idx ← read_i64
  path ← read_capped_string
  rest ← read_paths n
  pure ((path, frame_idx) ∷ rest)

unfoldable pub crop_of : ℕ → ℕ → ℕ → ℕ → Option Crop
crop_of x y w h = if f32_is_positive w then some (record { x = x; y = y; w = w; h = h }) else none

-- The preset string is capped, and what is not UTF-8 counts as empty.
unfoldable pub read_preset : Reader ResolutionPreset
read_preset = do
  len ← read_u32
  guard_len max_str_field_len len
  bytes ← read_exact len
  pure (resolution_preset_from_str (utf8_or_default bytes))

unfoldable pub read_animate_req : Reader AnimateReq
read_animate_req = do
  item_id ← read_item_id
  task_id ← read_capped_string
  frame_count ← read_u32
  guard_len max_frame_count frame_count
  paths ← read_paths frame_count
  format ← read_u16
  resize_mode ← read_u16
  target_px ← read_u32
  speed ← read_u32
  loop_count ← read_u16
  crop_x ← read_u32
  crop_y ← read_u32
  crop_w ← read_u32
  crop_h ← read_u32
  quality ← read_u32
  resolution_preset ← read_preset
  hw ← read_hw_decode_flags
  pure (record {
    item_id = item_id;
    task_id = task_id;
    paths = paths;
    format = anim_format_from_u16 format;
    resize_mode = resize_mode_from_u16 resize_mode;
    target_px = target_px;
    speed = speed;
    loop_count = loop_count;
    crop = crop_of crop_x crop_y crop_w crop_h;
    quality = quality;
    resolution_preset = resolution_preset;
    hw = hw;
  })

unfoldable pub read_stitch_req : Reader StitchReq
read_stitch_req = do
  base ← read_animate_req
  device_id ← read_len_prefixed_string
  log_path ← read_len_prefixed_string
  model_disabled ← read_flag
  model_family ← read_len_prefixed_string
  model_version ← read_len_prefixed_string
  model_path ← read_len_prefixed_string
  pure (record {
    item_id = base.item_id;
    task_id = base.task_id;
    paths = base.paths;
    format = base.format;
    quality = base.quality;
    device_id = device_id;
    log_path = log_path;
    model_disabled = model_disabled;
    model_family = model_family;
    model_version = model_version;
    model_path = model_path;
    hw = base.hw;
  })

unfoldable pub read_prefetch_range_req : Reader PrefetchRangeReq
read_prefetch_range_req = do
  item_id ← read_item_id
  path ← read_capped_string
  start_idx ← read_i64
  before_seconds ← read_u64
  after_seconds ← read_u64
  include_start ← read_flag
  width ← read_u32
  hw ← read_hw_decode_flags
  pure (record {
    item_id = item_id;
    path = path;
    start_idx = start_idx;
    before_seconds = before_seconds;
    after_seconds = after_seconds;
    include_start = include_start;
    width = width;
    hw = hw;
  })

-- A session id that is not UTF-8 counts as empty.
unfoldable pub read_session_id : Reader Text
read_session_id = do
  len ← read_u32
  guard_len max_str_field_len len
  if ltb 0 len then (do bytes ← read_exact len; pure (utf8_or_default bytes)) else pure []

unfoldable pub read_prefetch_range_stream_req : Reader PrefetchRangeStreamReq
read_prefetch_range_stream_req = do
  item_id ← read_item_id
  path ← read_capped_string
  current_time_ms ← read_i64
  current_frame_idx ← read_i64
  before_ms ← read_i64
  after_ms ← read_i64
  include_current ← read_flag
  width ← read_u32
  session_id ← read_session_id
  hw ← read_hw_decode_flags
  pure (record {
    item_id = item_id;
    path = path;
    current_time_ms = current_time_ms;
    current_frame_idx = current_frame_idx;
    before_ms = before_ms;
    after_ms = after_ms;
    include_current = include_current;
    width = width;
    session_id = session_id;
    hw = hw;
  })

unfoldable pub read_index_frames_stream_req : Reader IndexFramesStreamReq
read_index_frames_stream_req = do
  request_id ← read_u32
  item_id ← read_item_id
  path ← read_capped_string
  current_time_ms ← read_i64
  pure (record {
    request_id = request_id;
    item_id = item_id;
    path = path;
    current_time_ms = current_time_ms;
  })

unfoldable pub read_upscale_req : Reader UpscaleReq
read_upscale_req = do
  item_id ← read_item_id
  input_path ← read_len_prefixed_string
  output_path ← read_len_prefixed_string
  model_path ← read_len_prefixed_string
  device_id ← read_len_prefixed_string
  is_animation ← read_flag
  face_restore_model_path ← read_len_prefixed_string
  log_path ← read_len_prefixed_string
  post_downscale_factor ← read_u32
  job_id ← read_len_prefixed_string
  pure (record {
    item_id = item_id;
    input_path = input_path;
    output_path = output_path;
    model_path = model_path;
    device_id = device_id;
    is_animation = is_animation;
    face_restore_model_path = face_restore_model_path;
    log_path = log_path;
    post_downscale_factor = post_downscale_factor;
    job_id = job_id;
  })

unfoldable pub read_cancel_upscale_req : Reader CancelUpscaleReq
read_cancel_upscale_req = do job_id ← read_len_prefixed_string; pure (record { job_id = job_id })
