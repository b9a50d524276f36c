-- ===== src/Tests/WireRequests.antt =====
-- The requests of protocol.rs at concrete inputs.
use jellyfin_recents.Prelude.{ℕ, ◌≡◌, refl, true, false, List, [], ◌∷◌, arith, replicate}
use jellyfin_recents.Prelude.Int.{ℤ, pos, negsuc}
use jellyfin_recents.Wire.Bytes.{Text}
use jellyfin_recents.Wire.Utf8.{is_utf8}
use jellyfin_recents.Wire.Reader.{ok, err, too_long}
use jellyfin_recents.Wire.Writer.{write_u32}
use jellyfin_recents.Wire.Requests.Types.{
  codes, idle_resource, HwDecodeFlags, PrefetchRangeStreamReq, webp, width,
}
use jellyfin_recents.Wire.Requests.Read.{
  read_prefetch_range_stream_req, read_animate_req, read_capped_string, read_len_prefixed_string,
  read_preset, read_session_id,
}
use jellyfin_recents.Wire.Requests.Write.{
  write_prefetch_range_stream_req, write_animate_req, AnimateCall,
}
use jellyfin_recents.Wire.Requests.Fields.{IsString, IsItemId}
use jellyfin_recents.Wire.Requests.RoundTrip.{read-write_prefetch_range_stream}
use jellyfin_recents.Wire.Requests.Jobs.{received, read-write_animate}
use jellyfin_recents.Wire.Requests.Caps.{oversize_refused}

abbrev item : Text
item = replicate 32 b'a'

abbrev file : Text
file = codes "/media/film.mkv"

abbrev hw : HwDecodeFlags
hw = record { hw_decode_enabled = true; device_strategy = idle_resource }

-- Bytes behind the message.
abbrev tail : Text
tail = 16 ∷ 1 ∷ []

item-IsItemId : IsItemId item
unfolding is_utf8
item-IsItemId = record { valid = refl; size = refl }

file-IsString : IsString file
unfolding is_utf8
file-IsString = record { valid = refl; short = omega arith }

empty-IsString : IsString []
unfolding is_utf8
empty-IsString = record { valid = refl; short = omega arith }

abbrev stream : PrefetchRangeStreamReq
stream = record {
  item_id = item;
  path = file;
  current_time_ms = pos 41708;
  current_frame_idx = negsuc 0;
  before_ms = pos 5000;
  after_ms = pos 5000;
  include_current = false;
  width = 320;
  session_id = [];
  hw = hw;
}

read-write_prefetch_range_stream_example :
    read_prefetch_range_stream_req (write_prefetch_range_stream_req stream tail) ≡ (ok stream, tail)
read-write_prefetch_range_stream_example = read-write_prefetch_range_stream stream tail (record {
  item_id = item-IsItemId;
  path = file-IsString;
  current_time_ms = omega arith;
  current_frame_idx = omega arith;
  before_ms = omega arith;
  after_ms = omega arith;
  width = omega arith;
  session_id = empty-IsString;
})

item-IsString : IsString item
unfolding is_utf8
item-IsString = record { valid = refl; short = omega arith }

abbrev paths : List (Text × ℤ)
paths = (file, pos 3) ∷ (file, negsuc 0) ∷ []

abbrev animation : AnimateCall
animation = record {
  item_id = item;
  task_id = item;
  paths = paths;
  format = webp;
  resize_mode = width;
  target_px = 480;
  speed = 1065353216;
  loop_count = 0;
  crop_x = 0;
  crop_y = 0;
  crop_w = 1056964608;
  crop_h = 1056964608;
  quality = 80;
  preset = codes "720p";
  hw = hw;
}

preset-IsString : IsString (codes "720p")
unfolding is_utf8
preset-IsString = record { valid = refl; short = omega arith }

read-write_animate_example :
    read_animate_req (write_animate_req animation tail) ≡ (ok (received animation), tail)
read-write_animate_example = read-write_animate animation tail (record {
  item_id = item-IsItemId;
  task_id = item-IsString;
  paths = ((file-IsString, omega arith), ((file-IsString, omega arith), tt));
  count = omega arith;
  target_px = omega arith;
  speed = omega arith;
  loop_count = omega arith;
  crop_x = omega arith;
  crop_y = omega arith;
  crop_w = omega arith;
  crop_h = omega arith;
  quality = omega arith;
  preset = preset-IsString;
})

abbrev too_many : ℕ
too_many = 1048577

oversize_refused_example :
    (read_capped_string (write_u32 too_many tail) ≡ (err too_long, tail))
    × (read_len_prefixed_string (write_u32 too_many tail) ≡ (err too_long, tail))
    × (read_preset (write_u32 too_many tail) ≡ (err too_long, tail))
    × (read_session_id (write_u32 too_many tail) ≡ (err too_long, tail))
oversize_refused_example = oversize_refused too_many tail (omega arith) (omega arith)
