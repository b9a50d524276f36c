-- ===== src/Wire/Requests/Write.antt =====
-- The requests as the client writes them: FrameExportService.cs of packages/JellyfinSuite.Plugin.
-- Each function writes its bytes in front of `rest`, what the connection carries next.
use jellyfin_recents.Prelude.{ℕ, List, [], ◌∷◌, length, ◌%◌, ◌^◌}
use jellyfin_recents.Prelude.Int.{ℤ}
use jellyfin_recents.Wire.Bytes.{Text}
use jellyfin_recents.Wire.Writer.{
  write_u8, write_u16, write_u32, write_u64, write_i64, write_flag, write_bytes, write_string,
}
use jellyfin_recents.Wire.Requests.Types.{
  HwDecodeFlags, SingleFrameReq, PrefetchRangeReq, PrefetchRangeStreamReq, IndexFramesStreamReq,
  UpscaleReq, CancelUpscaleReq, StitchReq, DeviceStrategy, performance, idle_resource, AnimFormat,
  gif, webp, mp4, ResizeMode, width, height,
}

unfoldable pub strategy_byte : DeviceStrategy → ℕ
strategy_byte performance = 0
strategy_byte idle_resource = 1

unfoldable pub write_hw : HwDecodeFlags → Text → Text
write_hw hw rest =
    write_flag hw.hw_decode_enabled (write_u8 (strategy_byte hw.device_strategy) rest)

unfoldable pub write_single_frame_req : SingleFrameReq → Text → Text
write_single_frame_req r rest = write_u32 r.request_id (
    write_i64 r.frame_idx
      (write_u32 r.width (write_string r.path (write_bytes r.item_id (write_hw r.hw rest)))))

unfoldable pub write_prefetch_range_req : PrefetchRangeReq → Text → Text
write_prefetch_range_req r rest = write_bytes r.item_id (
    write_string r.path (
      write_i64 r.start_idx (
        write_u64 r.before_seconds (
          write_u64 r.after_seconds
            (write_flag r.include_start (write_u32 r.width (write_hw r.hw rest)))))))

unfoldable pub write_prefetch_range_stream_req : PrefetchRangeStreamReq → Text → Text
write_prefetch_range_stream_req r rest = write_bytes r.item_id (
    write_string r.path (
      write_i64 r.current_time_ms (
        write_i64 r.current_frame_idx (
          write_i64 r.before_ms (
            write_i64 r.after_ms (
              write_flag r.include_current
                (write_u32 r.width (write_string r.session_id (write_hw r.hw rest)))))))))

unfoldable pub write_index_frames_stream_req : IndexFramesStreamReq → Text → Text
write_index_frames_stream_req r rest =
    write_u32 r.request_id
      (write_bytes r.item_id (write_string r.path (write_i64 r.current_time_ms rest)))

unfoldable pub write_upscale_req : UpscaleReq → Text → Text
write_upscale_req r rest = write_bytes r.item_id (
    write_string r.input_path (
      write_string r.output_path (
        write_string r.model_path (
          write_string r.device_id (
            write_flag r.is_animation (
              write_string r.face_restore_model_path (
                write_string r.log_path
                  (write_u32 r.post_downscale_factor (write_string r.job_id rest)))))))))

unfoldable pub write_cancel_upscale_req : CancelUpscaleReq → Text → Text
write_cancel_upscale_req r rest = write_string r.job_id rest

unfoldable pub write_paths : List (Text × ℤ) → Text → Text
write_paths [] rest = rest
write_paths ((path, idx) ∷ ps) rest = write_i64 idx (write_string path (write_paths ps rest))

-- What the client is asked to animate; the format, mode and preset are still what the caller gave.
pub record AnimateCall : Type 0 where
  pub item_id : Text
  pub task_id : Text
  pub paths : List (Text × ℤ)
  pub format : AnimFormat
  pub resize_mode : ResizeMode
  pub target_px : ℕ
  pub speed : ℕ
  pub loop_count : ℕ
  pub crop_x : ℕ
  pub crop_y : ℕ
  pub crop_w : ℕ
  pub crop_h : ℕ
  pub quality : ℕ
  pub preset : Text
  pub hw : HwDecodeFlags

unfoldable pub format_code : AnimFormat → ℕ
format_code webp = 2
format_code mp4 = 3
format_code gif = 1

unfoldable pub mode_code : ResizeMode → ℕ
mode_code height = 2
mode_code width = 1

unfoldable pub write_animate_options : AnimateCall → Text → Text
write_animate_options c rest = write_u16 (format_code c.format) (
    write_u16 (mode_code c.resize_mode) (
      write_u32 c.target_px (
        write_u32 c.speed (
          write_u16 c.loop_count (
            write_u32 c.crop_x (
              write_u32 c.crop_y (
                write_u32 c.crop_w (
                  write_u32 c.crop_h
                    (write_u32 c.quality (write_string c.preset (write_hw c.hw rest)))))))))))

unfoldable pub write_animate_req : AnimateCall → Text → Text
write_animate_req c rest = write_bytes c.item_id (
    write_string c.task_id
      (write_u32 (length c.paths % 2 ^ 32) (write_paths c.paths (write_animate_options c rest))))

-- The format code of a stitch is 2 for "webp", and 1 for anything else.
unfoldable pub stitch_format : AnimFormat → AnimFormat
stitch_format webp = webp
stitch_format gif = gif
stitch_format mp4 = gif

-- `SubmitStitchTaskAsync` fills the animation options with constants: mode width, no size, speed 1.0,
-- no loops, no crop, no preset.
unfoldable pub stitch_options : StitchReq → AnimateCall
stitch_options r = record {
  item_id = r.item_id;
  task_id = r.task_id;
  paths = r.paths;
  format = stitch_format r.format;
  resize_mode = width;
  target_px = 0;
  speed = 0x3f800000;
  loop_count = 0;
  crop_x = 0;
  crop_y = 0;
  crop_w = 0;
  crop_h = 0;
  quality = r.quality;
  preset = [];
  hw = r.hw;
}

unfoldable pub write_stitch_req : StitchReq → Text → Text
unfolding stitch_options
write_stitch_req r rest = write_animate_req (stitch_options r) (
    write_string r.device_id (
      write_string r.log_path (
        write_flag r.model_disabled (
          write_string r.model_family
            (write_string r.model_version (write_string r.model_path rest))))))
