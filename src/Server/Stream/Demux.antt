-- ===== src/Server/Stream/Demux.antt =====
-- The two ways in which a stream of frame indices gets its events in server.rs: `queue_b_demux`,
-- which walks the file and publishes batches while it goes, and the finished index. Opening a file,
-- the times in floating point and serde's JSON are parameters.
pub mod Agreement
use jellyfin_recents.Prelude.{
  ℕ, ◌-◌, ◌^◌, ◌≡◌, refl, ap, sym, ◌∙◌, Bool, true, false, not, Option, none, some, List, [], ◌∷◌,
  ◌++◌, map, arith, leb, if◌then◌else◌, Bool-cases, Option-cases, inl, inr, length,
}
use mathlib.Core.List.{append_assoc, append-nil}
use jellyfin_recents.Prelude.Int.{ℤ, pos, negsuc, ◌-ℤ◌, ltb_ℤ, wrap_i64}
use jellyfin_recents.Wire.Bytes.{Text}
use jellyfin_recents.Wire.Writer.{write_u32, write_string}
use jellyfin_recents.Wire.Requests.Types.{codes}
use jellyfin_recents.Server.Lru.{Lru}
use jellyfin_recents.Server.Daemon.{at_least_zero}
use jellyfin_recents.Server.FrameIndex.{
  FrameIndex, IndexProgress, push, finish, FrameIndexManager, get, put_if_absent, remove_progress,
}
use jellyfin_recents.Server.Stream.Batches.{
  Entry, FrameIndexEntry, Batches, batch_size, batch_size_pos, make_batch, add_frame, add_frames,
  send_rest, add_frames_lem, chunk_events,
}
use jellyfin_recents.Server.Stream.Window.{Frame, enumerate}

-- A packet of the file: whether it is the video's, its time in milliseconds, and whether it is a
-- key frame.
pub record Packet : Type 0 where
  pub is_video : Bool
  pub raw_ms : ℤ
  pub is_key : Bool

-- A file that could be opened and has a video stream.
pub record Opened : Type 0 where
  pub rate_num : ℤ
  pub rate_den : ℤ
  pub stream_start_ms : ℤ
  pub packets : List Packet

abbrev pub max_ℤ : ℤ → ℤ → ℤ
max_ℤ a b = if ltb_ℤ a b then b else a

unfoldable pub packet_ms : ℤ → ℤ → ℤ
packet_ms start raw_ms = at_least_zero (wrap_i64 (raw_ms -ℤ start))

abbrev pub fps_den_of : Opened → ℤ
fps_den_of o = if ltb_ℤ (pos 0) o.rate_den then o.rate_den else pos 1

abbrev pub done_event : Text
done_event = codes "data: {\"done\":true}" ++ 10 ∷ 10 ∷ []

module _ (fps_json : ℤ → ℤ → Text) (to_string : List FrameIndexEntry → Option Text) where
  unfoldable pub fps_event : ℤ → ℤ → Text
  fps_event num den = codes "data: " ++ fps_json num den ++ 10 ∷ 10 ∷ []

  pub record Demuxing : Type 0 where
    pub progress : IndexProgress
    pub all_frames : List Frame
    pub batch : List Entry
    pub max_ms_in_batch : ℤ

  abbrev pub demux_frame : ℤ → Bool → Demuxing → Demuxing
  demux_frame ms is_key d =
      let batch = d.batch ++ (length d.all_frames, ms, is_key) ∷ [] in
      let max_ms = max_ℤ d.max_ms_in_batch ms in
      if leb batch_size (length batch)
      then (record {
        progress = push (make_batch to_string batch) max_ms d.progress;
        all_frames = d.all_frames ++ (ms, is_key) ∷ [];
        batch = [];
        max_ms_in_batch = pos 0;
      })
      else (record {
        progress = d.progress;
        all_frames = d.all_frames ++ (ms, is_key) ∷ [];
        batch = batch;
        max_ms_in_batch = max_ms;
      })

  unfoldable pub demux_packet : ℤ → Packet → Demuxing → Demuxing
  demux_packet start p d =
      if p.is_video then demux_frame (packet_ms start p.raw_ms) p.is_key d else d

  unfoldable pub demux_packets : ℤ → List Packet → Demuxing → Demuxing
  demux_packets start [] d = d
  demux_packets start (p ∷ ps) d = demux_packets start ps (demux_packet start p d)

  abbrev pub push_rest : Demuxing → IndexProgress
  push_rest d = elim d.batch [
    | [] ↦ d.progress
    | e ∷ es ↦ push (make_batch to_string (e ∷ es)) d.max_ms_in_batch d.progress
  ]

  abbrev pub start_demux : Opened → IndexProgress → Demuxing
  start_demux o p = record {
    progress = push (fps_event o.rate_num (fps_den_of o)) (negsuc 0) p;
    all_frames = [];
    batch = [];
    max_ms_in_batch = pos 0;
  }

  abbrev pub demuxed : Opened → IndexProgress → Demuxing
  demuxed o p = demux_packets o.stream_start_ms o.packets (start_demux o p)

  abbrev pub built_index : Opened → IndexProgress → FrameIndex
  built_index o p = record {
    frames = (demuxed o p).all_frames;
    fps_num = o.rate_num;
    fps_den = fps_den_of o;
  }

  -- Whether it succeeded, the progress, and the manager. `m` is the manager when the walk is over:
  -- the task does not touch it before. A file that cannot be opened ends the task at once.
  unfoldable pub queue_b_demux :
      (L : Lru Text FrameIndex)
      → (Text → Option Opened)
      → Text
      → IndexProgress
      → FrameIndexManager L
      → Bool × IndexProgress × FrameIndexManager L
  queue_b_demux L input path p m = elim (input path) [
    | none ↦ (false, p, m)
    | some o ↦ (
      true,
      finish (push done_event (pos (2 ^ 63 - 1)) (push_rest (demuxed o p))),
      remove_progress L path (put_if_absent L path (built_index o p) m),
    )
  ]

  -- The events for an index that is cached, in `handle_index_frames_stream`.
  unfoldable pub cached_events : FrameIndex → List Text
  cached_events idx =
      fps_event idx.fps_num idx.fps_den ∷ chunk_events to_string (enumerate 0 idx.frames)
      ++ done_event ∷ []
