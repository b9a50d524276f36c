-- ===== src/Tests/Streams.antt =====
-- The streams of the frame server at concrete inputs.
use jellyfin_recents.Prelude.{
  ℕ, suc, ◌+◌, ◌≡◌, refl, ap, Bool, true, false, Option, none, some, List, [], ◌∷◌, ◌++◌, arith,
  nat_eq, list_eq, length, if◌then◌else◌,
}
use mathlib.Core.List.{Perm}
use jellyfin_recents.Prelude.Assoc.{lookup}
use jellyfin_recents.Prelude.Chunks.{chunks, chunks_on}
use jellyfin_recents.DiskCache.Access.{exists}
use jellyfin_recents.Prelude.Int.{ℤ, pos, ◌+ℤ◌, ◌-ℤ◌}
use jellyfin_recents.Wire.Bytes.{Text}
use jellyfin_recents.Wire.Requests.Types.{codes, PrefetchRangeReq, PrefetchRangeStreamReq}
use jellyfin_recents.Server.FrameIndex.{IndexProgress, finish}
use jellyfin_recents.Server.PrefetchRange.{Frame, handle_prefetch_range}
use jellyfin_recents.Server.PrefetchRange.Walks.{submit_all}
use jellyfin_recents.Server.PrefetchRange.Frames.{
  frames_back, frames_on, frame_alone, handle_prefetch_range_lem,
}
use jellyfin_recents.Server.Stream.Batches.{FrameIndexEntry, chunk_events}
use jellyfin_recents.Server.Stream.Window.{IsPartitionPoint, IsSorted, entries_between}
use jellyfin_recents.Server.Stream.Parts.{send_window_from_cache, send_window_from_cache_lem}
use jellyfin_recents.Server.Stream.Prefetch.{
  anchor_of, whole_fps, wanted_frames, build_prefetch_window_from_cache,
  build_prefetch_window_from_cache_lem,
}
use jellyfin_recents.Server.Stream.Bridge.{
  new_bridge, texts, idle, ended, notify_waiters, bridge_step, Stream, Run, stop, next, bridged,
}
use jellyfin_recents.Server.Stream.Bridge.Faithful.{start-IsFaithful, ended_complete}
use jellyfin_recents.Server.Stream.Bridge.Ending.{three_steps, finish_ends, finish_lost}
use jellyfin_recents.Server.Stream.Demux.{Opened, queue_b_demux, cached_events, built_index}
use jellyfin_recents.Server.Stream.Demux.Agreement.{queue_b_demux-cached_events}
use jellyfin_recents.Server.Stream.Range.{
  Decoders, Target, Event, all_done, process, scan, scan_frame, is_cached, take_nearest, do_frame,
  do_batch, do_batches, process_frames,
}
use jellyfin_recents.Server.Stream.Range.Account.{numbers, frame_numbers}
use jellyfin_recents.Server.Stream.Range.Report.{process_complete}
use jellyfin_recents.Server.Stream.Sessions.{
  Sessions, look, ask, arrive, start, release, cancel_lost, cancels_itself,
}
use jellyfin_recents.Tests.Daemons.{file, film, hw, indices, manager, os, ram, daemon, job}
use jellyfin_recents.Tests.Daemons as Daemons

-- Serde fails on nothing here, and its text does not matter.
abbrev to_string : List FrameIndexEntry → Option Text
to_string es = some (length es ∷ [])

abbrev fps_json : ℤ → ℤ → Text
fps_json num den = codes "fps"

-- A search from the front.
abbrev leading : (Frame → Bool) → List Frame → ℕ
leading p [] = 0
leading p (x ∷ xs) = let rest = leading p xs in if p x then suc rest else 0

leading-IsPartitionPoint : IsPartitionPoint leading
leading-IsPartitionPoint p [] [] h k = refl
leading-IsPartitionPoint p [] (y ∷ ys) h k = rw k.0
leading-IsPartitionPoint p (x ∷ xs) ys h k =
    rw h.0 (ap suc (leading-IsPartitionPoint p xs ys h.1 k))

film-IsSorted : IsSorted film.frames
film-IsSorted = ((omega arith, tt), (tt, tt))

send_window_from_cache_lem_example :
    send_window_from_cache to_string leading film (pos 10) (pos 50) ≡ (
      chunk_events to_string (entries_between (pos 10) (pos 50) 0 film.frames),
      length (entries_between (pos 10) (pos 50) 0 film.frames),
    )
send_window_from_cache_lem_example =
    send_window_from_cache_lem to_string leading film (pos 10) (pos 50) leading-IsPartitionPoint
      film-IsSorted

build_prefetch_window_from_cache_lem_example :
    build_prefetch_window_from_cache leading film (pos 1) (pos 0) (pos 1000) (pos 1000) false ≡ (
      wanted_frames
          (anchor_of film (pos 1) (pos 0) -ℤ pos 1000)
          (anchor_of film (pos 1) (pos 0) +ℤ pos 1000)
          false
          (anchor_of film (pos 1) (pos 0))
          film.frames,
      whole_fps film,
      anchor_of film (pos 1) (pos 0),
    )
build_prefetch_window_from_cache_lem_example =
    build_prefetch_window_from_cache_lem leading film (pos 1) (pos 0) (pos 1000) (pos 1000) false
      leading-IsPartitionPoint film-IsSorted (omega arith, (omega arith, tt)) (omega arith)
      (omega arith) (omega arith)

abbrev progress : IndexProgress
progress = record { batches = []; done = false }

abbrev opened : Opened
opened = record {
  rate_num = pos 24000;
  rate_den = pos 1001;
  stream_start_ms = pos 0;
  packets =
      record { is_video = true; raw_ms = pos 0; is_key = true }
      ∷ record { is_video = false; raw_ms = pos 3; is_key = true }
      ∷ record { is_video = true; raw_ms = pos 42; is_key = false }
      ∷ [];
}

abbrev input : Text → Option Opened
input path = some opened

queue_b_demux-cached_events_example :
    let r = queue_b_demux fps_json to_string indices input file progress manager in
    (r.0 ≡ true)
    × (texts r.1
        ≡ cached_events fps_json to_string (built_index fps_json to_string opened progress))
    × (r.1.done ≡ true)
    × (lookup file r.2.in_progress ≡ none)
queue_b_demux-cached_events_example =
    queue_b_demux-cached_events fps_json to_string indices input file opened progress manager refl
      refl

abbrev one_event : Bool → IndexProgress
one_event done = record { batches = (file, pos 0) ∷ []; done = done }

abbrev late_client : Stream
late_client = record { progress = one_event true; bridge = new_bridge }

abbrev served : Stream
served = record { progress = one_event true; bridge = three_steps (one_event true) new_bridge }

abbrev three_rounds : Run late_client served
three_rounds =
    next _ _ _ (bridged late_client) (next _ _ _ (bridged _) (next _ _ _ (bridged _) (stop _)))

served_lem : served.bridge.phase ≡ ended
unfolding bridge_step
served_lem = refl

ended_complete_example :
    (served.progress.done ≡ true) × (served.bridge.delivered ≡ texts served.progress)
ended_complete_example = ended_complete (one_event true) served three_rounds served_lem

abbrev client : Stream
client = record { progress = one_event false; bridge = new_bridge }

finish_ends_example :
    let b = three_steps (finish client.progress) (notify_waiters client.bridge) in
    (b.phase ≡ ended) × (b.delivered ≡ texts client.progress)
finish_ends_example = finish_ends client (start-IsFaithful (one_event false)) refl refl

abbrev about_to_wait : Stream
about_to_wait = record {
  progress = one_event false;
  bridge = record { next = 1; delivered = file ∷ []; phase = idle };
}

abbrev woken_in_vain : Stream
woken_in_vain = record {
  progress = finish about_to_wait.progress;
  bridge = notify_waiters about_to_wait.bridge;
}

finish_lost_example : ¬ (woken_in_vain.bridge.phase ≡ ended)
finish_lost_example = finish_lost about_to_wait woken_in_vain refl (stop woken_in_vain)

abbrev range : PrefetchRangeStreamReq
range = record {
  item_id = codes "abc";
  path = file;
  current_time_ms = pos 42;
  current_frame_idx = pos 1;
  before_ms = pos 1000;
  after_ms = pos 1000;
  include_current = true;
  width = 320;
  session_id = codes "s";
  hw = hw;
}

-- The second decoder finds no frame.
abbrev decoders : Decoders
decoders = record {
  decode_one = λ path ms w. some (record {
    pts_ms = ms;
    fps_num = pos 24000;
    fps_den = pos 1001;
    webp = 1 ∷ 2 ∷ [];
    webp_orig = 3 ∷ [];
  });
  decode_in_range = λ i path fi ms w. none;
  make_path = λ item fi ms w. codes "/cache/abc";
}

abbrev targets : List Target
targets = (pos 0, pos 0) ∷ (pos 1, pos 42) ∷ (pos 2, pos 83) ∷ []

abbrev never : ℕ → Bool
never i = false

not_given_up : (process ram indices os decoders range never 2 (pos 42) targets daemon).0 ≡ false
unfolding process process_frames scan scan_frame is_cached take_nearest do_frame do_batch do_batches
    chunks chunks_on lookup exists ◌-ℤ◌
not_given_up = refl

process_complete_example :
    let w = (process ram indices os decoders range never 2 (pos 42) targets daemon).1 in
    Perm (numbers w.events) (frame_numbers targets)
    × (w.cache_hits + w.decoded + w.failed ≡ length targets)
    × ((before : List Event) × (w.events ≡ before ++ all_done w.cache_hits w.decoded w.failed ∷ []))
process_complete_example =
    process_complete ram indices os decoders range never 2 (pos 42) targets daemon not_given_up

abbrev sessions : Sessions
sessions = record {
  current_session_id = some (codes "a");
  cancel_flag = false;
  waiting = [];
  running = some (codes "a");
}

different : ¬ (codes "a" ≡ codes "b")
different e = ground (arith, e)

cancel_lost_example :
    let raised = arrive (codes "b") (arrive (codes "a") sessions) in
    let later = start (release raised) in
    (raised.cancel_flag ≡ true)
    × (later.cancel_flag ≡ false)
    × (later.running ≡ some (codes "a"))
    × (later.waiting ≡ (codes "b", true) ∷ [])
cancel_lost_example = cancel_lost (codes "a") (codes "b") sessions different refl refl refl

abbrev quiet : Sessions
quiet = record sessions { running = none }

cancels_itself_example :
    let first = look (codes "b") quiet in
    let second = look (codes "b") quiet in
    let started = start (ask first quiet) in
    let later = ask second started in
    (started.running ≡ some (codes "b"))
    × (started.current_session_id ≡ some (codes "b"))
    × (started.cancel_flag ≡ false)
    × (later.running ≡ some (codes "b"))
    × (later.cancel_flag ≡ true)
cancels_itself_example = cancels_itself (codes "b") quiet refl refl refl

abbrev around : PrefetchRangeReq
around = record {
  item_id = codes "abc";
  path = file;
  start_idx = pos 1;
  before_seconds = 1;
  after_seconds = 1;
  include_start = true;
  width = 320;
  hw = hw;
}

abbrev second : ℕ → ℤ
second n = pos 1000

handle_prefetch_range_lem_example :
    handle_prefetch_range second around film Daemons.idle
    ≡ submit_all around
        (frames_back around film.frames 1 (pos 42) (pos 1000)
          ++ (frames_on around film.frames 1 (pos 42) (pos 1000)
              ++ frame_alone around (pos 42, false) (pos 1000) (pos 1000)))
        Daemons.idle
handle_prefetch_range_lem_example =
    handle_prefetch_range_lem second around film (pos 42, false) Daemons.idle
      ((omega arith, tt), (tt, tt)) refl
