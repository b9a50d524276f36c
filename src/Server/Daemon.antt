-- ===== src/Server/Daemon.antt =====
-- The handlers of server.rs for single frames, and the prefetch worker's turn. Decoding, demuxing
-- and the rating of a picture are parameters. Item ids and paths are only compared and passed on.
use jellyfin_recents.Prelude.{ℕ, Option, none, some, [], ◌∷◌, if◌then◌else◌}
use jellyfin_recents.Prelude.Options.{unwrap_or}
use jellyfin_recents.Prelude.Int.{ℤ, pos, negsuc}
use jellyfin_recents.Wire.Bytes.{Text}
use jellyfin_recents.Wire.Requests.Types.{HwDecodeFlags, SingleFrameReq}
use jellyfin_recents.Wire.Responses.Send.{
  DecodeVendor, HwDecodeCapabilities, write_jpeg_response, write_ack,
}
use jellyfin_recents.DiskCache.State.{Key, Cache, System}
use jellyfin_recents.DiskCache.Access.{read, exists, write}
use jellyfin_recents.Server.Frames.{compute_frame_idx}
use jellyfin_recents.Server.Hardware.{HwDecodeRequest, resolve_hw_decode_request}
use jellyfin_recents.Server.Lru.{Lru}
use jellyfin_recents.Server.FrameIndex.{FrameIndex, FrameIndexManager, resolve_frame_idx}
use jellyfin_recents.Server.Prefetch.{PrefetchJob, Jobs, submit}

-- The key of the frames in memory.
pub record RamKey : Type 0 where
  pub path : Text
  pub pos_ms : ℤ
  pub width : ℕ

-- What `decode_and_encode_hw` returns. `webp_orig` is empty where no full-size picture was made.
pub record Decoded : Type 0 where
  pub pts_ms : ℤ
  pub fps_num : ℤ
  pub fps_den : ℤ
  pub webp : Text
  pub webp_orig : Text

-- What the handlers take from the libraries and the machine. `quality` loads a picture and rates
-- it, and is none where it cannot be loaded.
pub record Outside : Type 0 where
  pub demux : Text → Option FrameIndex
  pub decode : Text → ℤ → ℕ → Option HwDecodeRequest → Option Decoded
  pub quality : Text → Option ℕ
  pub load : DecodeVendor → Option ℕ
  pub node : DecodeVendor → Option Text
  pub caps : HwDecodeCapabilities

-- `failed` is an error of the handler before it has answered.
pub data Reply : Type 0 where
  jpeg : Text → ℕ → ℤ → Reply
  ack : Reply
  failed : Reply

-- The bytes that a reply puts on the stream.
unfoldable pub reply_bytes : ℕ → Reply → Text → Text
reply_bytes request_id (jpeg webp flags pts_ms) rest =
    write_jpeg_response request_id webp flags pts_ms rest
reply_bytes request_id ack rest = write_ack request_id rest
reply_bytes request_id failed rest = rest

abbrev pub at_least_zero : ℤ → ℤ
at_least_zero (pos n) = pos n
at_least_zero (negsuc n) = pos 0

abbrev pub hardware : Outside → HwDecodeFlags → Option HwDecodeRequest
hardware o hw = resolve_hw_decode_request o.load o.node o.caps hw

-- An original that was not made is not written.
abbrev pub write_original : System → Text → Key → ℤ → Text → Cache → Cache
write_original os video k frame_idx [] c = c
write_original os video k frame_idx (b ∷ bs) c =
    (write os os video (record k { width = 0 }) frame_idx (b ∷ bs) c).1

-- Both sizes go to the disk cache, the original under width 0.
unfoldable pub write_decoded : System → Text → Key → Decoded → Cache → Cache
write_decoded os video k r c =
    let frame_idx = compute_frame_idx r.pts_ms r.fps_num r.fps_den in
    (write os os video k frame_idx r.webp (write_original os video k frame_idx r.webp_orig c)).1

module _ (R : Lru RamKey Text) (L : Lru Text FrameIndex) where
  pub record Daemon : Type 0 where
    pub ram : R.Store
    pub cache : Cache
    pub frames : FrameIndexManager L
    pub jobs : Jobs

  -- The frame's position: from the file's index, or else the number in the request itself.
  unfoldable pub position : Outside → Text → ℤ → Daemon → ℤ × Daemon
  position o path frame_idx s =
      let (found, frames) = resolve_frame_idx L o.demux path frame_idx s.frames in
      (unwrap_or (at_least_zero frame_idx) found, record s { frames = frames })

  -- A cached picture is rated again; one that does not load is an error without a reply.
  abbrev pub cached_reply : Outside → Text → Reply
  cached_reply o webp = elim (o.quality webp) [
    | some flags ↦ jpeg webp flags (negsuc 0)
    | none ↦ failed
  ]

  abbrev pub decoded_reply : Outside → Decoded → Reply
  decoded_reply o r = elim (o.quality r.webp) [
    | some flags ↦ jpeg r.webp flags r.pts_ms
    | none ↦ ack
  ]

  abbrev pub serve_decoded :
      System → Outside → Text → Key → Option Decoded → Daemon → Reply × Daemon
  serve_decoded os o path k none s = (ack, s)
  serve_decoded os o path k (some r) s = (
    decoded_reply o r,
    record s {
      cache = write_decoded os path k r s.cache;
      ram = R.put (record { path = path; pos_ms = k.pos_ms; width = k.width }) r.webp s.ram;
    },
  )

  abbrev pub serve_from_disk :
      System → Outside → SingleFrameReq → Key → Option Text × Cache → Daemon → Reply × Daemon
  serve_from_disk os o req k (some webp, c) s = (
    cached_reply o webp,
    record s {
      cache = c;
      ram = R.put (record { path = req.path; pos_ms = k.pos_ms; width = k.width }) webp s.ram;
    },
  )
  serve_from_disk os o req k (none, c) s =
      serve_decoded os o req.path k (o.decode req.path k.pos_ms k.width (hardware o req.hw))
        (record s { cache = c })

  -- Memory, then the disk, then the decoder.
  unfoldable pub serve_at : System → Outside → SingleFrameReq → ℤ → Daemon → Reply × Daemon
  serve_at os o req pos_ms s =
      let ram_key : RamKey = record { path = req.path; pos_ms = pos_ms; width = req.width } in
      let k : Key = record { item_id = req.item_id; pos_ms = pos_ms; width = req.width } in
      elim (R.peek ram_key s.ram) [
        | some webp ↦ (cached_reply o webp, record s { ram = R.touch ram_key s.ram })
        | none ↦
            serve_from_disk os o req k (read os req.path k s.cache)
              (record s { ram = R.touch ram_key s.ram })
      ]

  -- `handle_single_frame`, once the request has been read. What the system answers does not change
  -- during one request.
  unfoldable pub handle_single_frame : System → Outside → SingleFrameReq → Daemon → Reply × Daemon
  handle_single_frame os o req s =
      let (pos_ms, s') = position o req.path req.frame_idx s in serve_at os o req pos_ms s'

  -- `handle_prefetch_frame`, once the request has been read and acknowledged.
  unfoldable pub handle_prefetch_frame : System → Outside → SingleFrameReq → Daemon → Daemon
  handle_prefetch_frame os o req s =
      let (pos_ms, s') = position o req.path req.frame_idx s in
      let k : Key = record { item_id = req.item_id; pos_ms = pos_ms; width = req.width } in
      let job : PrefetchJob = record {
        item_id = req.item_id;
        path = req.path;
        pos_ms = pos_ms;
        width = req.width;
        hw = req.hw;
      } in
      if exists os req.path k s'.cache then s' else record s' { jobs = submit job s'.jobs }

  abbrev pub put_original : PrefetchJob → Text → R.Store → R.Store
  put_original j [] ram = ram
  put_original j (b ∷ bs) ram =
      R.put (record { path = j.path; pos_ms = j.pos_ms; width = 0 }) (b ∷ bs) ram

  abbrev pub keep_decoded : System → PrefetchJob → Key → Option Decoded → Daemon → Daemon
  keep_decoded os j k none s = s
  keep_decoded os j k (some r) s = record s {
    cache = write_decoded os j.path k r s.cache;
    ram =
        R.put (record { path = j.path; pos_ms = j.pos_ms; width = j.width }) r.webp
          (put_original j r.webp_orig s.ram);
  }

  -- A worker's turn with a job, but for the key that it takes out of `in_progress` at the end.
  unfoldable pub work : System → Outside → PrefetchJob → Daemon → Daemon
  work os o j s =
      let k : Key = record { item_id = j.item_id; pos_ms = j.pos_ms; width = j.width } in
      elim (R.peek (record { path = j.path; pos_ms = j.pos_ms; width = j.width }) s.ram) [
        | some webp ↦ s
        | none ↦
            if exists os j.path k s.cache
            then s
            else keep_decoded os j k (o.decode j.path j.pos_ms j.width (hardware o j.hw)) s
      ]
