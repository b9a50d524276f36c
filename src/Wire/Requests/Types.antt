-- ===== src/Wire/Requests/Types.antt =====
-- The data types of protocol.rs.
use Prim.Native.Char.{code}
use Prim.Native.String.{String}
use jellyfin_recents.Prelude.{
  ℕ, Bool, true, false, Option, List, [], ◌∷◌, ◌==◌, nat_eq, list_eq, if◌then◌else◌, ltb, leb, ◌&&◌,
  ◌^◌,
}
use jellyfin_recents.Prelude.Int.{ℤ}
use jellyfin_recents.Wire.Bytes.{Text}

-- The code points of a literal, which are its bytes where it is ASCII.
abbrev pub codes : String → Text
codes String.[] = []
codes (String.◌∷◌ c s) = code c ∷ codes s

abbrev pub max_str_field_len : ℕ
max_str_field_len = 2 ^ 20

abbrev pub max_frame_count : ℕ
max_frame_count = 4096

pub data DeviceStrategy : Type 0 where
  performance idle_resource : DeviceStrategy

unfoldable pub device_strategy_from_u8 : ℕ → DeviceStrategy
device_strategy_from_u8 v = if v == 1 then idle_resource else performance

pub record HwDecodeFlags : Type 0 where
  pub hw_decode_enabled : Bool
  pub device_strategy : DeviceStrategy

pub record SingleFrameReq : Type 0 where
  pub request_id : ℕ
  pub frame_idx : ℤ
  pub width : ℕ
  pub path : Text
  pub item_id : Text
  pub hw : HwDecodeFlags

pub record PrefetchRangeReq : Type 0 where
  pub item_id : Text
  pub path : Text
  pub start_idx : ℤ
  pub before_seconds : ℕ
  pub after_seconds : ℕ
  pub include_start : Bool
  pub width : ℕ
  pub hw : HwDecodeFlags

pub data AnimFormat : Type 0 where
  gif webp mp4 : AnimFormat

pub data ResizeMode : Type 0 where
  width height : ResizeMode

pub data ResolutionPreset : Type 0 where
  original p1080 p720 p480 p360 : ResolutionPreset

unfoldable pub anim_format_from_u16 : ℕ → AnimFormat
anim_format_from_u16 v = if v == 2 then webp else if v == 3 then mp4 else gif

unfoldable pub is_webp : AnimFormat → Bool
is_webp webp = true
is_webp gif = false
is_webp mp4 = false

unfoldable pub resize_mode_from_u16 : ℕ → ResizeMode
resize_mode_from_u16 v = if v == 2 then height else width

unfoldable pub resolution_preset_from_str : Text → ResolutionPreset
resolution_preset_from_str s =
    if s == codes "1080p"
    then p1080
    else if s == codes "720p"
    then p720
    else if s == codes "480p"
    then p480
    else if s == codes "360p"
    then p360
    else original

unfoldable pub to_px : ResolutionPreset → ℕ
to_px p1080 = 1080
to_px p720 = 720
to_px p480 = 480
to_px p360 = 360
to_px original = 0

-- `crop_w > 0.0` on the bits of an `f32`: the sign is clear, and it is no zero and no NaN.
unfoldable pub f32_is_positive : ℕ → Bool
f32_is_positive bits = ltb 0 bits && leb bits 0x7f800000

pub record Crop : Type 0 where
  pub x : ℕ
  pub y : ℕ
  pub w : ℕ
  pub h : ℕ

pub record AnimateReq : Type 0 where
  pub item_id : Text
  pub task_id : Text
  pub paths : List (Text × ℤ)
  pub format : AnimFormat
  pub resize_mode : ResizeMode
  pub target_px : ℕ
  pub speed : ℕ
  pub loop_count : ℕ
  pub crop : Option Crop
  pub quality : ℕ
  pub resolution_preset : ResolutionPreset
  pub hw : HwDecodeFlags

pub record StitchReq : Type 0 where
  pub item_id : Text
  pub task_id : Text
  pub paths : List (Text × ℤ)
  pub format : AnimFormat
  pub quality : ℕ
  pub device_id : Text
  pub log_path : Text
  pub model_disabled : Bool
  pub model_family : Text
  pub model_version : Text
  pub model_path : Text
  pub hw : HwDecodeFlags

pub record PrefetchRangeStreamReq : Type 0 where
  pub item_id : Text
  pub path : Text
  pub current_time_ms : ℤ
  pub current_frame_idx : ℤ
  pub before_ms : ℤ
  pub after_ms : ℤ
  pub include_current : Bool
  pub width : ℕ
  pub session_id : Text
  pub hw : HwDecodeFlags

pub record IndexFramesStreamReq : Type 0 where
  pub request_id : ℕ
  pub item_id : Text
  pub path : Text
  pub current_time_ms : ℤ

pub record UpscaleReq : Type 0 where
  pub item_id : Text
  pub input_path : Text
  pub output_path : Text
  pub model_path : Text
  pub device_id : Text
  pub is_animation : Bool
  pub face_restore_model_path : Text
  pub log_path : Text
  pub post_downscale_factor : ℕ
  pub job_id : Text

pub record CancelUpscaleReq : Type 0 where
  pub job_id : Text
