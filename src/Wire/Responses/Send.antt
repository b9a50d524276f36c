-- ===== src/Wire/Responses/Send.antt =====
-- The `write_*` functions of protocol.rs: the bytes of each response, in front of what comes next.
use jellyfin_recents.Prelude.{ℕ, Bool, List, [], ◌∷◌, length, ◌%◌, ◌^◌}
use jellyfin_recents.Prelude.Int.{ℤ}
use jellyfin_recents.Wire.Bytes.{Text}
use jellyfin_recents.Wire.Writer.{
  write_u8, write_u16, write_u32, write_i64, write_flag, write_string,
}

unfoldable pub write_jpeg_response : ℕ → Text → ℕ → ℤ → Text → Text
write_jpeg_response request_id jpeg_data quality_flags actual_pts_ms rest =
    write_u32 request_id
      (write_string jpeg_data (write_u16 quality_flags (write_i64 actual_pts_ms rest)))

unfoldable pub write_ack : ℕ → Text → Text
write_ack request_id rest = write_u32 request_id (write_u32 0 rest)

unfoldable pub write_frames : List (ℤ × Bool) → Text → Text
write_frames [] rest = rest
write_frames ((pts_ms, is_key) ∷ frames) rest =
    write_i64 pts_ms (write_flag is_key (write_frames frames rest))

unfoldable pub write_frame_index : List (ℤ × Bool) → ℤ → ℤ → Text → Text
unfolding write_frames
write_frame_index frames fps_num fps_den rest =
    write_u32 (length frames % 2 ^ 32)
      (write_i64 fps_num (write_i64 fps_den (write_frames frames rest)))

unfoldable pub write_positions : List ℤ → Text → Text
write_positions [] rest = rest
write_positions (pos_ms ∷ positions) rest = write_i64 pos_ms (write_positions positions rest)

unfoldable pub write_list_cached : ℕ → List ℤ → Text → Text
unfolding write_positions
write_list_cached request_id positions rest =
    write_u32 request_id (write_u32 (length positions % 2 ^ 32) (write_positions positions rest))

-- The body that `handle_list_cached` of server.rs writes for each cached (pos_ms, frame_idx).
unfoldable pub write_entries : List (ℤ × ℤ) → Text → Text
write_entries [] rest = rest
write_entries ((pos_ms, frame_idx) ∷ entries) rest =
    write_i64 frame_idx (write_i64 pos_ms (write_entries entries rest))

unfoldable pub write_cached_entries : ℕ → List (ℤ × ℤ) → Text → Text
unfolding write_entries
write_cached_entries request_id entries rest =
    write_u32 request_id (write_u32 (length entries % 2 ^ 32) (write_entries entries rest))

pub data DecodeVendor : Type 0 where
  nvidia amd intel : DecodeVendor

pub record VendorCapability : Type 0 where
  pub vendor : DecodeVendor
  pub supported : Bool
  pub reason : Text

pub record HwDecodeCapabilities : Type 0 where
  pub supported : Bool
  pub vendors : List VendorCapability

unfoldable pub hw_vendor_to_wire : DecodeVendor → ℕ
hw_vendor_to_wire nvidia = 0
hw_vendor_to_wire amd = 1
hw_vendor_to_wire intel = 2

unfoldable pub write_vendors : List VendorCapability → Text → Text
unfolding hw_vendor_to_wire
write_vendors [] rest = rest
write_vendors (v ∷ vs) rest =
    write_u8 (hw_vendor_to_wire v.vendor)
      (write_flag v.supported (write_string v.reason (write_vendors vs rest)))

unfoldable pub write_hw_decode_caps : HwDecodeCapabilities → Text → Text
unfolding write_vendors
write_hw_decode_caps caps rest =
    write_flag caps.supported
      (write_u8 (length caps.vendors % 256) (write_vendors caps.vendors rest))
