-- ===== src/Server/Stream/Range.antt =====
-- `handle_prefetch_range_stream`, from its list of frames to process on: what is cached is reported
-- first, then the miss nearest to the current frame is decoded, then the others, in batches. The
-- decoders, with the hardware that was chosen for the whole request, are parameters, which
-- do not look at the daemon's state.
pub mod Account
pub mod Report
use jellyfin_recents.Prelude.{
  ℕ, suc, ◌+◌, Bool, true, false, ◌||◌, Option, none, some, List, [], ◌∷◌, ◌++◌, ltb, if◌then◌else◌,
  length, max,
}
use jellyfin_recents.Prelude.Chunks.{chunks}
use jellyfin_recents.Prelude.Int.{ℤ, pos, negsuc, ◌-ℤ◌, ltb_ℤ, wrap_i64}
use jellyfin_recents.Wire.Bytes.{Text}
use jellyfin_recents.Wire.Requests.Types.{codes, PrefetchRangeStreamReq}
use jellyfin_recents.DiskCache.Text.Decimal.{print_int, print_nat}
use jellyfin_recents.DiskCache.State.{Key, System}
use jellyfin_recents.DiskCache.Access.{exists, write}
use jellyfin_recents.Server.Lru.{Lru}
use jellyfin_recents.Server.FrameIndex.{FrameIndex}
use jellyfin_recents.Server.Daemon.{RamKey, Decoded, Daemon, write_original}

-- The events of the stream. The last one has the numbers of frames that were cached, decoded, and
-- failed.
pub data Event : Type 0 where
  frame_ready : ℤ → Text → Text → Event
  frame_failed : ℤ → Event
  all_done : ℕ → ℕ → ℕ → Event

abbrev pub line_end : Text
line_end = 10 ∷ 10 ∷ []

unfoldable pub event_text : Event → Text
event_text (frame_ready fi thumb orig) =
    codes "data: {\"frameReady\":"
    ++ print_int fi
    ++ codes ",\"thumbPath\":\""
    ++ thumb
    ++ codes "\",\"origPath\":\""
    ++ orig
    ++ codes "\"}"
    ++ line_end
event_text (frame_failed fi) =
    codes "data: {\"frameFailed\":" ++ print_int fi ++ codes "}" ++ line_end
event_text (all_done hits decoded failed) =
    codes "data: {\"done\":true,\"cacheHits\":"
    ++ print_nat hits
    ++ codes ",\"decoded\":"
    ++ print_nat decoded
    ++ codes ",\"failed\":"
    ++ print_nat failed
    ++ codes "}"
    ++ line_end

-- `decode_one` is `decode_and_encode_hw`; `decode_in_range` is `decode_range_hw` for one frame, with
-- the small picture and the original, and none where it fails or finds no frame. The frames of a
-- batch are decoded at once, each by a task that also looks at the cancel flag, so that two calls
-- for one frame may differ: the first argument counts the calls, and nothing is assumed of how the
-- answers depend on it.
pub record Decoders : Type 0 where
  pub decode_one : Text → ℤ → ℕ → Option Decoded
  pub decode_in_range : ℕ → Text → ℤ → ℤ → ℕ → Option (Text × Text)
  pub make_path : Text → ℤ → ℤ → ℕ → Text

-- A frame's number and time.
abbrev pub Target : Type 0
Target = ℤ × ℤ

-- `(a - b).abs()` on i64: the least one has no positive counterpart and stays as it is.
abbrev pub abs_i64 : ℤ → ℤ
abs_i64 (pos n) = pos n
abs_i64 (negsuc n) = wrap_i64 (pos (suc n))

abbrev pub distance : ℤ → ℤ → ℤ
distance a b = abs_i64 (wrap_i64 (a -ℤ b))

-- The first of the frames nearest to a time, and the others.
abbrev pub nearer : ℤ → Target → Target × List Target → Bool
nearer anchor x (y, rest) = ltb_ℤ (distance y.1 anchor) (distance x.1 anchor)

abbrev pub pick : ℤ → Target → List Target → Option (Target × List Target) → Target × List Target
pick anchor x xs none = (x, xs)
pick anchor x xs (some (y, rest)) = if nearer anchor x (y, rest) then (y, x ∷ rest) else (x, xs)

unfoldable pub take_nearest : ℤ → List Target → Option (Target × List Target)
take_nearest anchor [] = none
take_nearest anchor (x ∷ xs) = some (pick anchor x xs (take_nearest anchor xs))

module _ (R : Lru RamKey Text) (L : Lru Text FrameIndex) (os : System) (d : Decoders)
    (req : PrefetchRangeStreamReq) where
  pub record Work : Type 0 where
    pub cache_hits : ℕ
    pub decoded : ℕ
    pub failed : ℕ
    pub events : List Event
    pub daemon : Daemon R L

  abbrev pub key_at : ℤ → ℕ → Key
  key_at pos_ms width = record { item_id = req.item_id; pos_ms = pos_ms; width = width }

  abbrev pub ram_key_at : ℤ → ℕ → RamKey
  ram_key_at pos_ms width = record { path = req.path; pos_ms = pos_ms; width = width }

  abbrev pub ready_event : ℤ → ℤ → Event
  ready_event fi pos_ms =
      frame_ready fi (d.make_path req.item_id fi pos_ms req.width)
        (d.make_path req.item_id fi pos_ms 0)

  abbrev pub in_memory : Option Text → Bool
  in_memory none = false
  in_memory (some bytes) = true

  unfoldable pub is_cached : ℤ → Daemon R L → Bool
  is_cached pos_ms s =
      in_memory (R.peek (ram_key_at pos_ms req.width) s.ram)
      || exists os req.path (key_at pos_ms req.width) s.cache

  -- Pass 1, for one frame: a hit is reported, a miss is kept for later.
  unfoldable pub scan_frame : Target → List Target × Work → List Target × Work
  scan_frame (fi, pos_ms) (misses, w) =
      if is_cached pos_ms w.daemon
      then (
        misses,
        record w { cache_hits = w.cache_hits + 1; events = w.events ++ ready_event fi pos_ms ∷ [] },
      )
      else (misses ++ (fi, pos_ms) ∷ [], w)

  unfoldable pub scan : List Target → List Target × Work → List Target × Work
  scan [] s = s
  scan (f ∷ fs) s = scan fs (scan_frame f s)

  abbrev pub report_failed : ℤ → Work → Work
  report_failed fi w = record w { failed = w.failed + 1; events = w.events ++ frame_failed fi ∷ [] }

  abbrev pub report_ready : ℤ → ℤ → R.Store → Work → Work
  report_ready fi pos_ms ram w = record w {
    decoded = w.decoded + 1;
    events = w.events ++ ready_event fi pos_ms ∷ [];
    daemon = record w.daemon { ram = ram };
  }

  abbrev pub put_original : ℤ → Text → R.Store → R.Store
  put_original pos_ms [] ram = ram
  put_original pos_ms (b ∷ bs) ram = R.put (ram_key_at pos_ms 0) (b ∷ bs) ram

  -- The frame nearest to the current one, decoded alone. The picture is written before the
  -- original.
  abbrev pub anchor_result : Target → Option Decoded → Work → Work
  anchor_result (fi, pos_ms) none w = report_failed fi w
  anchor_result (fi, pos_ms) (some r) w =
      let (wrote, cache) =
        write os os req.path (key_at pos_ms req.width) fi r.webp w.daemon.cache in
      let saved = write_original os req.path (key_at pos_ms req.width) fi r.webp_orig cache in
      let w' = record w { daemon = record w.daemon { cache = saved } } in
      if wrote
      then report_ready fi pos_ms
          (R.put (ram_key_at pos_ms req.width) r.webp
            (put_original pos_ms r.webp_orig w.daemon.ram))
          w'
      else report_failed fi w'

  abbrev pub do_anchor : Option (Target × List Target) → Work → List Target × Work
  do_anchor none w = ([], w)
  do_anchor (some ((fi, pos_ms), rest)) w =
      (rest, anchor_result (fi, pos_ms) (d.decode_one req.path pos_ms req.width) w)

  -- A frame of a batch. The original is written before the picture.
  abbrev pub frame_result : Target → Option (Text × Text) → Work → Work
  frame_result (fi, pos_ms) none w = report_failed fi w
  frame_result (fi, pos_ms) (some (webp, webp_orig)) w =
      let cache =
        write_original os req.path (key_at pos_ms req.width) fi webp_orig w.daemon.cache in
      let (wrote, saved) = write os os req.path (key_at pos_ms req.width) fi webp cache in
      let w' = record w { daemon = record w.daemon { cache = saved } } in
      if wrote
      then report_ready fi pos_ms
          (R.put (ram_key_at pos_ms req.width) webp
            (R.put (ram_key_at pos_ms 0) webp_orig w.daemon.ram))
          w'
      else report_failed fi w'

  unfoldable pub do_frame : ℕ → Target → Work → Work
  do_frame i (fi, pos_ms) w =
      frame_result (fi, pos_ms) (d.decode_in_range i req.path fi pos_ms req.width) w

  -- The frames of one batch, in order. `cancelled i` is the cancel flag after the result of the
  -- i-th frame; the first component tells whether the request has been given up.
  unfoldable pub do_batch : (ℕ → Bool) → ℕ → List Target → Work → Bool × Work
  do_batch cancelled i [] w = (false, w)
  do_batch cancelled i (f ∷ fs) w =
      let rest = do_batch cancelled (suc i) fs (do_frame i f w) in
      if cancelled i then (true, do_frame i f w) else rest

  unfoldable pub do_batches : (ℕ → Bool) → ℕ → List (List Target) → Work → Bool × Work
  do_batches cancelled i [] w = (false, w)
  do_batches cancelled i (b ∷ bs) w =
      let (given_up, w') = do_batch cancelled i b w in
      let rest = do_batches cancelled (i + length b) bs w' in if given_up then (true, w') else rest

  abbrev pub report_done : Bool × Work → Work
  report_done (true, w) = w
  report_done (false, w) = record w {
    events = w.events ++ all_done w.cache_hits w.decoded w.failed ∷ [];
  }

  abbrev pub no_work : Daemon R L → Work
  no_work s = record { cache_hits = 0; decoded = 0; failed = 0; events = []; daemon = s }

  unfoldable pub process_frames : (ℕ → Bool) → ℕ → ℤ → List Target → Daemon R L → Bool × Work
  process_frames cancelled concurrency anchor_ms to_process s =
      let (misses, scanned) = scan to_process ([], no_work s) in
      let (rest, started) = do_anchor (take_nearest anchor_ms misses) scanned in
      do_batches cancelled 0 (chunks (max concurrency 1) rest) started

  -- The whole: whether it was given up is in the first component.
  unfoldable pub process : (ℕ → Bool) → ℕ → ℤ → List Target → Daemon R L → Bool × Work
  process cancelled concurrency anchor_ms to_process s =
      let (given_up, w) = process_frames cancelled concurrency anchor_ms to_process s in
      (given_up, report_done (given_up, w))
