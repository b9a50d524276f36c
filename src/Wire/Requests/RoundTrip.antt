-- ===== src/Wire/Requests/RoundTrip.antt =====
-- The daemon reads back each request that the client writes, and leaves what follows it.
use jellyfin_recents.Prelude.{◌<◌, ◌^◌, ◌≡◌}
use jellyfin_recents.Prelude.Int.{IsI64}
use jellyfin_recents.Wire.Bytes.{Text}
use jellyfin_recents.Wire.Reader.{ok, pure, ◌>>=◌}
use jellyfin_recents.Wire.Requests.Types.{
  SingleFrameReq, PrefetchRangeReq, PrefetchRangeStreamReq, IndexFramesStreamReq, UpscaleReq,
  CancelUpscaleReq,
}
use jellyfin_recents.Wire.Requests.Read.{
  read_single_frame_req, read_prefetch_range_req, read_prefetch_range_stream_req,
  read_index_frames_stream_req, read_upscale_req, read_cancel_upscale_req,
}
use jellyfin_recents.Wire.Requests.Write.{
  write_single_frame_req, write_prefetch_range_req, write_prefetch_range_stream_req,
  write_index_frames_stream_req, write_upscale_req, write_cancel_upscale_req,
}
use jellyfin_recents.Wire.Requests.Fields.{
  IsString, IsItemId, read_u32-write_u32, read_i64-write_i64, read_flag-write_flag,
  read_u64-write_u64, read_capped_string-write_string, read_item_id-write_bytes, read_hw-write_hw,
  read_len_prefixed_string-write_string, read_session_id-write_string,
}

pub record SingleFrameFits (r : SingleFrameReq) : Type 0 where
  pub request_id : r.request_id < 2 ^ 32
  pub frame_idx : IsI64 r.frame_idx
  pub width : r.width < 2 ^ 32
  pub path : IsString r.path
  pub item_id : IsItemId r.item_id

-- A single-frame request whose fields fit their widths is read back as it was written, and
-- exactly its bytes are taken off the stream.
pub read-write_single_frame :
    (r : SingleFrameReq) (rest : Text)
    → SingleFrameFits r
    → read_single_frame_req (write_single_frame_req r rest) ≡ (ok r, rest)
unfolding read_single_frame_req write_single_frame_req ◌>>=◌ pure
read-write_single_frame r rest h = rw (
  read_u32-write_u32 r.request_id _ h.request_id,
  read_i64-write_i64 r.frame_idx _ h.frame_idx,
  read_u32-write_u32 r.width _ h.width,
  read_capped_string-write_string r.path _ h.path,
  read_item_id-write_bytes r.item_id _ h.item_id,
  read_hw-write_hw r.hw rest,
)

pub record PrefetchRangeFits (r : PrefetchRangeReq) : Type 0 where
  pub item_id : IsItemId r.item_id
  pub path : IsString r.path
  pub start_idx : IsI64 r.start_idx
  pub before_seconds : r.before_seconds < 2 ^ 64
  pub after_seconds : r.after_seconds < 2 ^ 64
  pub width : r.width < 2 ^ 32

-- A prefetch-range request whose fields fit their widths is read back as it was written, and
-- exactly its bytes are taken off the stream.
pub read-write_prefetch_range :
    (r : PrefetchRangeReq) (rest : Text)
    → PrefetchRangeFits r
    → read_prefetch_range_req (write_prefetch_range_req r rest) ≡ (ok r, rest)
unfolding read_prefetch_range_req write_prefetch_range_req ◌>>=◌ pure
read-write_prefetch_range r rest h = rw (
  read_item_id-write_bytes r.item_id _ h.item_id,
  read_capped_string-write_string r.path _ h.path,
  read_i64-write_i64 r.start_idx _ h.start_idx,
  read_u64-write_u64 r.before_seconds _ h.before_seconds,
  read_u64-write_u64 r.after_seconds _ h.after_seconds,
  read_flag-write_flag r.include_start _,
  read_u32-write_u32 r.width _ h.width,
  read_hw-write_hw r.hw rest,
)

pub record PrefetchStreamFits (r : PrefetchRangeStreamReq) : Type 0 where
  pub item_id : IsItemId r.item_id
  pub path : IsString r.path
  pub current_time_ms : IsI64 r.current_time_ms
  pub current_frame_idx : IsI64 r.current_frame_idx
  pub before_ms : IsI64 r.before_ms
  pub after_ms : IsI64 r.after_ms
  pub width : r.width < 2 ^ 32
  pub session_id : IsString r.session_id

-- A streamed prefetch request whose fields fit their widths is read back as it was written, its
-- session id included, and exactly its bytes are taken off the stream.
pub read-write_prefetch_range_stream :
    (r : PrefetchRangeStreamReq) (rest : Text)
    → PrefetchStreamFits r
    → read_prefetch_range_stream_req (write_prefetch_range_stream_req r rest) ≡ (ok r, rest)
unfolding read_prefetch_range_stream_req write_prefetch_range_stream_req ◌>>=◌ pure
read-write_prefetch_range_stream r rest h = rw (
  read_item_id-write_bytes r.item_id _ h.item_id,
  read_capped_string-write_string r.path _ h.path,
  read_i64-write_i64 r.current_time_ms _ h.current_time_ms,
  read_i64-write_i64 r.current_frame_idx _ h.current_frame_idx,
  read_i64-write_i64 r.before_ms _ h.before_ms,
  read_i64-write_i64 r.after_ms _ h.after_ms,
  read_flag-write_flag r.include_current _,
  read_u32-write_u32 r.width _ h.width,
  read_session_id-write_string r.session_id _ h.session_id,
  read_hw-write_hw r.hw rest,
)

pub record IndexStreamFits (r : IndexFramesStreamReq) : Type 0 where
  pub request_id : r.request_id < 2 ^ 32
  pub item_id : IsItemId r.item_id
  pub path : IsString r.path
  pub current_time_ms : IsI64 r.current_time_ms

-- An index-stream request whose fields fit their widths is read back as it was written, and
-- exactly its bytes are taken off the stream.
pub read-write_index_frames_stream :
    (r : IndexFramesStreamReq) (rest : Text)
    → IndexStreamFits r
    → read_index_frames_stream_req (write_index_frames_stream_req r rest) ≡ (ok r, rest)
unfolding read_index_frames_stream_req write_index_frames_stream_req ◌>>=◌ pure
read-write_index_frames_stream r rest h = rw (
  read_u32-write_u32 r.request_id _ h.request_id,
  read_item_id-write_bytes r.item_id _ h.item_id,
  read_capped_string-write_string r.path _ h.path,
  read_i64-write_i64 r.current_time_ms rest h.current_time_ms,
)

pub record UpscaleFits (r : UpscaleReq) : Type 0 where
  pub item_id : IsItemId r.item_id
  pub input_path : IsString r.input_path
  pub output_path : IsString r.output_path
  pub model_path : IsString r.model_path
  pub device_id : IsString r.device_id
  pub face_restore_model_path : IsString r.face_restore_model_path
  pub log_path : IsString r.log_path
  pub post_downscale_factor : r.post_downscale_factor < 2 ^ 32
  pub job_id : IsString r.job_id

-- An upscale request whose fields fit their widths is read back as it was written, empty strings
-- included, and exactly its bytes are taken off the stream.
pub read-write_upscale :
    (r : UpscaleReq) (rest : Text)
    → UpscaleFits r
    → read_upscale_req (write_upscale_req r rest) ≡ (ok r, rest)
unfolding read_upscale_req write_upscale_req ◌>>=◌ pure
read-write_upscale r rest h = rw (
  read_item_id-write_bytes r.item_id _ h.item_id,
  read_len_prefixed_string-write_string r.input_path _ h.input_path,
  read_len_prefixed_string-write_string r.output_path _ h.output_path,
  read_len_prefixed_string-write_string r.model_path _ h.model_path,
  read_len_prefixed_string-write_string r.device_id _ h.device_id,
  read_flag-write_flag r.is_animation _,
  read_len_prefixed_string-write_string r.face_restore_model_path _ h.face_restore_model_path,
  read_len_prefixed_string-write_string r.log_path _ h.log_path,
  read_u32-write_u32 r.post_downscale_factor _ h.post_downscale_factor,
  read_len_prefixed_string-write_string r.job_id rest h.job_id,
)

-- A cancel request is read back as it was written.
pub read-write_cancel_upscale :
    (r : CancelUpscaleReq) (rest : Text)
    → IsString r.job_id
    → read_cancel_upscale_req (write_cancel_upscale_req r rest) ≡ (ok r, rest)
unfolding read_cancel_upscale_req write_cancel_upscale_req ◌>>=◌ pure
read-write_cancel_upscale r rest h = rw (read_len_prefixed_string-write_string r.job_id rest h)
