-- ===== src/Server/Bodies.antt =====
-- What the handlers of server.rs read of a message, by its type: the readers of protocol.rs, and the
-- reads that three of the handlers do themselves.
use jellyfin_recents.Prelude.{
  ℕ, zero, suc, ◌≤◌, ap, ◌||◌, List, [], ◌∷◌, arith, ◌==◌, nat_eq, if◌then◌else◌, length,
  length-append,
}
use jellyfin_recents.Prelude.Int.{ℤ}
use jellyfin_recents.Wire.Bytes.{Text}
use jellyfin_recents.Wire.Reader.{Reader, pure, ◌>>=◌, ◌>>◌, read_exact, read_u32, read_i64, utf8}
use jellyfin_recents.Wire.Requests.Types.{HwDecodeFlags}
use jellyfin_recents.Wire.Requests.Read.{
  read_hw_decode_flags, read_item_id, read_single_frame_req, read_animate_req, read_stitch_req,
  read_prefetch_range_req, read_prefetch_range_stream_req, read_index_frames_stream_req,
  read_upscale_req,
}
use jellyfin_recents.Wire.Requests.Framing.{
  Takes, Takes-pure, Takes-if, Takes-bind, Takes-then, Takes-read_exact, Takes-read_u32,
  Takes-read_i64, Takes-utf8, Takes-read_hw, Takes-read_item_id, requests_framed,
}

-- Of handle_list_cached.
unfoldable pub read_list_cached_req : Reader (ℕ × Text × ℕ)
read_list_cached_req = do
  request_id ← read_u32
  item_id ← read_item_id
  width ← read_u32
  pure (request_id, item_id, width)

-- A path without a cap on its length.
unfoldable pub read_path : Reader Text
read_path = do path_len ← read_u32; bytes ← read_exact path_len; utf8 bytes

unfoldable pub read_numbers : ℕ → Reader (List ℤ)
read_numbers zero = pure []
read_numbers (suc n) = do fi ← read_i64; rest ← read_numbers n; pure (fi ∷ rest)

-- Of handle_prefetch_stream.
unfoldable pub read_prefetch_stream_req : Reader (Text × Text × ℕ × HwDecodeFlags × List ℤ)
read_prefetch_stream_req = do
  path ← read_path
  item_id ← read_item_id
  width ← read_u32
  hw ← read_hw_decode_flags
  count ← read_u32
  fi_indices ← read_numbers count
  pure (path, item_id, width, hw, fi_indices)

-- The body of a message; the dump and the capabilities have none.
unfoldable pub read_body : ℕ → Reader (Unit {0})
read_body t =
    if t == 16 || t == 19
    then read_single_frame_req >> pure tt
    else if t == 17
    then read_animate_req >> pure tt
    else if t == 18
    then read_stitch_req >> pure tt
    else if t == 20
    then read_list_cached_req >> pure tt
    else if t == 21
    then read_path >> pure tt
    else if t == 22
    then read_prefetch_range_req >> pure tt
    else if t == 23
    then read_index_frames_stream_req >> pure tt
    else if t == 24
    then read_prefetch_stream_req >> pure tt
    else if t == 25
    then read_prefetch_range_stream_req >> pure tt
    else if t == 27
    then read_upscale_req >> pure tt
    else pure tt

Takes-read_list_cached : Takes read_list_cached_req
unfolding read_list_cached_req
Takes-read_list_cached = search (Takes-pure, Takes-bind, Takes-read_u32, Takes-read_item_id) depth 9

Takes-read_path : Takes read_path
unfolding read_path
Takes-read_path = search (Takes-bind, Takes-read_u32, Takes-read_exact, Takes-utf8) depth 9

Takes-read_numbers : (n : ℕ) → Takes (read_numbers n)
unfolding read_numbers
Takes-read_numbers zero = Takes-pure []
Takes-read_numbers (suc n) =
    Takes-bind read_i64 _ Takes-read_i64
      λ fi. Takes-bind (read_numbers n) _ (Takes-read_numbers n) (λ rest. Takes-pure _)

Takes-read_prefetch_stream : Takes read_prefetch_stream_req
unfolding read_prefetch_stream_req
Takes-read_prefetch_stream =
    search
      (
        Takes-pure, Takes-bind, Takes-read_u32, Takes-read_item_id, Takes-read_path, Takes-read_hw,
        Takes-read_numbers,
      )
      depth 15

ignored : {A : Type 0} (m : Reader A) → Takes m → Takes (m >> pure tt)
ignored m t = Takes-then m (pure tt) t (Takes-pure tt)

Takes-read_body : (t : ℕ) → Takes (read_body t)
unfolding read_body
Takes-read_body t =
    let (single, animate, stitch, range, range_stream, index_stream, upscale, cancel) =
      requests_framed in
    Takes-if _ _ _ (ignored _ single) (
      Takes-if _ _ _ (ignored _ animate) (
        Takes-if _ _ _ (ignored _ stitch) (
          Takes-if _ _ _ (ignored _ Takes-read_list_cached) (
            Takes-if _ _ _ (ignored _ Takes-read_path) (
              Takes-if _ _ _ (ignored _ range) (
                Takes-if _ _ _ (ignored _ index_stream) (
                  Takes-if _ _ _ (ignored _ Takes-read_prefetch_stream) (
                    Takes-if _ _ _ (ignored _ range_stream)
                      (Takes-if _ _ _ (ignored _ upscale) (Takes-pure tt))))))))))

-- No handler puts bytes back.
pub read_body_le : (t : ℕ) (s : Text) → length (read_body t s).1 ≤ length s
read_body_le t s =
    let (u, front) = (Takes-read_body t).at s in
    omega (arith, ap length front, length-append u (read_body t s).1)
