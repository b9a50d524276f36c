-- ===== src/Seek/Session.antt =====
-- The state of the seek-preview daemon and its handler: crates/seek-preview/src/server.rs. A
-- request is handled in one go here; its steps, between which others may come, are in Steps.antt.
use jellyfin_recents.Prelude.{ℕ, Bool, Option, none, some, ◌==◌, nat_eq, list_eq, if◌then◌else◌}
use jellyfin_recents.Prelude.Int.{ℤ, pos, negsuc}
use jellyfin_recents.Wire.Bytes.{Text}
use jellyfin_recents.Wire.Responses.Send.{write_cached_entries}
use jellyfin_recents.DiskCache.State.{Key, Cache, System, key_eq}
use jellyfin_recents.DiskCache.Access.{read, exists, write, list_cached}
use jellyfin_recents.Server.Frames.{compute_frame_idx}
use jellyfin_recents.Server.Lru.{Lru}
use jellyfin_recents.Seek.Protocol.{Request, write_response, write_ack}

abbrev pub priority_fetch : ℕ
priority_fetch = 1

abbrev pub priority_prefetch : ℕ
priority_prefetch = 2

abbrev pub priority_list : ℕ
priority_list = 3

pub record FrameMeta : Type 0 where
  pub actual_pts_ms : ℤ
  pub fps_num : ℤ
  pub fps_den : ℤ

pub record CacheEntry : Type 0 where
  pub webp : Text
  pub meta : FrameMeta

-- What `decode_and_encode` returns: a parameter.
pub record Decoded : Type 0 where
  pub pts_ms : ℤ
  pub fps_num : ℤ
  pub fps_den : ℤ
  pub webp : Text

pub data Reply : Type 0 where
  response : Text → Reply
  ack : Reply

-- The bytes that a reply puts on the stream.
unfoldable pub reply_bytes : ℕ → Reply → Text → Text
reply_bytes request_id (response webp) rest = write_response request_id webp rest
reply_bytes request_id ack rest = write_ack request_id rest

-- The fields of a request without its number: `CacheKey` is the disk cache's key.
abbrev pub cache_key : Request → Key
cache_key r = record { item_id = r.item_id; pos_ms = r.pos_ms; width = r.width }

abbrev pub is_fetch : Request → Bool
is_fetch r = r.priority == priority_fetch

module _ (L : Lru Key CacheEntry) where
  pub record State : Type 0 where
    pub cache : L.Store
    pub disk : Cache
    pub active_item_id : Option Text

  unfoldable pub evict_on_switch : Text → State → State
  evict_on_switch item_id s = elim s.active_item_id [
    | none ↦ record s { active_item_id = some item_id }
    | some active ↦
        if active == item_id then s else record s { cache = L.empty; active_item_id = some item_id }
  ]

  abbrev pub picture : Request → Text → Reply
  picture r webp = if is_fetch r then response webp else ack

  unfoldable pub remember : Key → CacheEntry → State → State
  remember k e s = record s { cache = L.put k e s.cache }

  abbrev pub from_disk : Text → CacheEntry
  from_disk webp = record {
    webp = webp;
    meta = record { actual_pts_ms = negsuc 0; fps_num = pos 0; fps_den = pos 1 };
  }

  abbrev pub from_decoder : Decoded → CacheEntry
  from_decoder d = record {
    webp = d.webp;
    meta = record { actual_pts_ms = d.pts_ms; fps_num = d.fps_num; fps_den = d.fps_den };
  }

  -- A picture that cannot be decoded is acknowledged, for a fetch too.
  abbrev pub after_decode : System → Request → Option Decoded → State → Reply × State
  after_decode os r none s = (ack, s)
  after_decode os r (some d) s =
      let frame_idx = compute_frame_idx d.pts_ms d.fps_num d.fps_den in
      (
        picture r d.webp,
        remember (cache_key r) (from_decoder d)
            (record s { disk = (write os os r.path (cache_key r) frame_idx d.webp s.disk).1 }),
      )

  abbrev pub after_read :
      System
      → (Text → ℤ → ℕ → Option Decoded)
      → Request
      → Option Text × Cache
      → State
      → Reply × State
  after_read os decode r (some webp, c) s =
      (response webp, remember (cache_key r) (from_disk webp) (record s { disk = c }))
  after_read os decode r (none, c) s =
      after_decode os r (decode r.path r.pos_ms r.width) (record s { disk = c })

  -- A fetch reads the disk, a prefetch only asks whether the frame is there.
  unfoldable pub serve_missing :
      System → (Text → ℤ → ℕ → Option Decoded) → Request → State → Reply × State
  serve_missing os decode r s =
      if is_fetch r
      then after_read os decode r (read os r.path (cache_key r) s.disk) s
      else if exists os r.path (cache_key r) s.disk
      then (ack, s)
      else after_decode os r (decode r.path r.pos_ms r.width) s

  unfoldable pub serve : System → (Text → ℤ → ℕ → Option Decoded) → Request → State → Reply × State
  serve os decode r s = elim (L.peek (cache_key r) s.cache) [
    | some e ↦ (picture r e.webp, record s { cache = L.touch (cache_key r) s.cache })
    | none ↦ serve_missing os decode r (record s { cache = L.touch (cache_key r) s.cache })
  ]

  -- The arm of `handle_conn` for a fetch or a prefetch that has been read.
  unfoldable pub handle_request :
      System → (Text → ℤ → ℕ → Option Decoded) → Request → State → Reply × State
  handle_request os decode r s = serve os decode r (evict_on_switch r.item_id s)

  -- The body of `handle_list_cached`, once its request has been read.
  unfoldable pub handle_list_cached : ℕ → Text → ℕ → State → Text → Text
  handle_list_cached request_id item_id width s rest =
      write_cached_entries request_id (list_cached item_id width s.disk.index) rest
