-- ===== src/Server/PrefetchRange.antt =====
-- `handle_prefetch_range` of server.rs: the jobs for the frames before and after one frame. The
-- seconds of the request, floating-point numbers, are turned to milliseconds outside.
pub mod Walks
pub mod Frames
use jellyfin_recents.Prelude.{
  ℕ, zero, suc, ◌+◌, ◌-◌, ◌≤◌, Bool, true, false, not, ◌&&◌, Option, none, some, List, [], ◌∷◌,
  ◌==◌, nat_eq, int_eq, if◌then◌else◌, get_elem?, take, drop,
}
use mathlib.Core.List.{reverse}
use jellyfin_recents.Prelude.Int.{ℤ, pos, pos_part, ◌+ℤ◌, ◌-ℤ◌, ltb_ℤ, wrap_i64}
use jellyfin_recents.Wire.Requests.Types.{PrefetchRangeReq}
use jellyfin_recents.Server.Daemon.{at_least_zero}
use jellyfin_recents.Server.FrameIndex.{FrameIndex}
use jellyfin_recents.Server.Prefetch.{PrefetchJob, Jobs, submit_unchecked}

abbrev pub Frame : Type 0
Frame = ℤ × Bool

abbrev pub job_at : PrefetchRangeReq → ℤ → PrefetchJob
job_at req pts = record {
  item_id = req.item_id;
  path = req.path;
  pos_ms = pts;
  width = req.width;
  hw = req.hw;
}

abbrev pub submit_at : PrefetchRangeReq → ℤ → Jobs → Jobs
submit_at req pts s = submit_unchecked (job_at req pts) s

-- The start frame, which comes first in each walk, is passed over unless it is asked for.
abbrev pub is_skipped : PrefetchRangeReq → ℕ → ℕ → Bool
is_skipped req start i = not req.include_start && i == start

-- From frame `i` down to the first: the frames are given in that order.
unfoldable pub walk_back : PrefetchRangeReq → ℕ → ℤ → ℕ → List Frame → Jobs → Jobs
walk_back req start lower i [] s = s
walk_back req start lower i ((pts, is_key) ∷ fs) s =
    let skip = is_skipped req start i in
    let rest = walk_back req start lower (i - 1) fs (if skip then s else submit_at req pts s) in
    if not skip && ltb_ℤ pts lower then s else rest

-- From frame `i` up.
unfoldable pub walk_forward : PrefetchRangeReq → ℕ → ℤ → ℕ → List Frame → Jobs → Jobs
walk_forward req start upper i [] s = s
walk_forward req start upper i ((pts, is_key) ∷ fs) s =
    let skip = is_skipped req start i in
    let rest = walk_forward req start upper (i + 1) fs (if skip then s else submit_at req pts s) in
    if not skip && ltb_ℤ upper pts then s else rest

-- The three parts, around a start frame at `center`.
abbrev pub back_part : PrefetchRangeReq → FrameIndex → ℕ → ℤ → ℤ → Jobs → Jobs
back_part req idx si center before_ms s =
    if ltb_ℤ (pos 0) before_ms
    then walk_back req si (wrap_i64 (center -ℤ before_ms)) si (reverse (take (suc si) idx.frames)) s
    else s

abbrev pub forward_part : PrefetchRangeReq → FrameIndex → ℕ → ℤ → ℤ → Jobs → Jobs
forward_part req idx si center after_ms s =
    if ltb_ℤ (pos 0) after_ms
    then walk_forward req si (wrap_i64 (center +ℤ after_ms)) si (drop si idx.frames) s
    else s

abbrev pub start_part : PrefetchRangeReq → ℤ → ℤ → ℤ → Jobs → Jobs
start_part req center before_ms after_ms s =
    if req.include_start && (before_ms == pos 0) && (after_ms == pos 0)
    then submit_at req center s
    else s

abbrev pub range_around : (ℕ → ℤ) → PrefetchRangeReq → FrameIndex → ℕ → Option Frame → Jobs → Jobs
range_around to_ms req idx si none s = s
range_around to_ms req idx si (some (center, is_key)) s =
    let before_ms = to_ms req.before_seconds in
    let after_ms = to_ms req.after_seconds in
    start_part req center before_ms after_ms
      (forward_part req idx si center after_ms (back_part req idx si center before_ms s))

-- Once the request has been read and the index is there. The acknowledgement follows in every
-- case.
unfoldable pub handle_prefetch_range : (ℕ → ℤ) → PrefetchRangeReq → FrameIndex → Jobs → Jobs
handle_prefetch_range to_ms req idx s =
    let si = pos_part (at_least_zero req.start_idx) in
    range_around to_ms req idx si (get_elem? idx.frames si) s
