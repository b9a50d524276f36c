-- ===== src/Wire/Responses/Receive.antt =====
-- How the client takes the responses apart: `GetFrameAsync`, `FrameIndexAsync`, `ListCachedAsync` and
-- `GetHwDecodeCapsAsync` of FrameExportService.cs. `ReceiveExactAsync` fails at the end of the
-- stream as `read_exact` does.
use jellyfin_recents.Prelude.{
  ℕ, zero, suc, ◌+◌, Bool, true, false, Option, none, some, List, [], ◌∷◌, ◌==◌, nat_eq,
  if◌then◌else◌,
}
use jellyfin_recents.Prelude.Int.{ℤ, pos, negsuc}
use jellyfin_recents.Wire.Bytes.{Text}
use jellyfin_recents.Wire.Reader.{
  Reader, pure, ◌>>=◌, read_exact, read_u8, read_u16, read_u32, read_i64, read_flag,
}

pub record Frame : Type 0 where
  pub jpeg_data : Text
  pub flags : ℕ
  pub actual_pts_ms : ℤ

-- `if (actualPtsMs < 0) actualPtsMs = 0`
unfoldable pub clamp_pts : ℤ → ℤ
clamp_pts (pos n) = pos n
clamp_pts (negsuc n) = pos 0

-- An empty image is an acknowledgement: nothing follows it.
unfoldable pub receive_frame : Reader (Option Frame)
receive_frame = do
  request_id ← read_u32
  jpeg_len ← read_u32
  if jpeg_len == 0 then pure none else do
    jpeg_data ← read_exact jpeg_len
    flags ← read_u16
    pts ← read_i64
    pure (some (record { jpeg_data = jpeg_data; flags = flags; actual_pts_ms = clamp_pts pts }))

pub record FrameIndex : Type 0 where
  pub frames : List (ℤ × Bool)
  pub num : ℤ
  pub den : ℤ

unfoldable pub receive_frames : ℕ → Reader (List (ℤ × Bool))
receive_frames zero = pure []
receive_frames (suc n) = do
  ms ← read_i64
  is_key ← read_flag
  rest ← receive_frames n
  pure ((ms, is_key) ∷ rest)

unfoldable pub receive_frame_index : Reader FrameIndex
receive_frame_index = do
  count ← read_u32
  num ← read_i64
  den ← read_i64
  frames ← receive_frames count
  pure (record { frames = frames; num = num; den = den })

-- The client keeps the frame index of each pair, and passes over the position.
unfoldable pub receive_indices : ℕ → Reader (List ℤ)
receive_indices zero = pure []
receive_indices (suc n) = do
  frame_idx ← read_i64
  pos_ms ← read_i64
  rest ← receive_indices n
  pure (frame_idx ∷ rest)

unfoldable pub receive_cached : Reader (List ℤ)
receive_cached = do request_id ← read_u32; count ← read_u32; receive_indices count

pub record HwDecodeCapsResult : Type 0 where
  pub supported : Bool
  pub reason : Option Text
  pub supported_vendor_count : ℕ

-- The first reason that is given for a vendor without support.
unfoldable pub first_reason : Option Text → Bool → Text → Option Text
first_reason (some r) supported reason = some r
first_reason none true reason = none
first_reason none false [] = none
first_reason none false (b ∷ bs) = some (b ∷ bs)

-- The loop over the vendors, with the rounds left.
unfoldable pub receive_vendors : ℕ → Option Text → ℕ → Reader (Option Text × ℕ)
unfolding first_reason
receive_vendors zero first count = pure (first, count)
receive_vendors (suc n) first count = do
  vendor ← read_u8
  supported ← read_flag
  reason_len ← read_u32
  reason ← read_exact reason_len
  receive_vendors n (first_reason first supported reason) (if supported then count + 1 else count)

unfoldable pub receive_hw_decode_caps : Reader HwDecodeCapsResult
receive_hw_decode_caps = do
  supported ← read_flag
  vendor_count ← read_u8
  found ← receive_vendors vendor_count none 0
  pure (record {
    supported = supported;
    reason = if supported then none else found.0;
    supported_vendor_count = found.1;
  })
