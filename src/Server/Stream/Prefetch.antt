-- ===== src/Server/Stream/Prefetch.antt =====
-- `build_prefetch_window_from_cache`: the frames that a prefetch range asks for.
use jellyfin_recents.Prelude.{
  ℕ, zero, suc, ◌-◌, ◌^◌, ◌≡◌, refl, Bool, not, ◌&&◌, ◌||◌, some, List, [], ◌∷◌, map, arith, ◌==◌,
  int_eq, if◌then◌else◌, length, get_elem?, drop, keep, min, All,
}
use jellyfin_recents.Prelude.Options.{◌>>=◌, unwrap_or}
use jellyfin_recents.Prelude.Int.{
  ℤ, pos, pos_part, negsuc, div_trunc, ◌+ℤ◌, ◌-ℤ◌, ◌≤ℤ◌, ltb_ℤ, IsI64,
}
use jellyfin_recents.Server.FrameIndex.{FrameIndex}
use jellyfin_recents.Server.Stream.Batches.{Entry}
use jellyfin_recents.Server.Stream.Window.{
  Frame, IsSorted, IsPartitionPoint, is_before, entries_between, entries_until, entries_until_lem,
}
use jellyfin_recents.Server.Stream.Parts.{saturate, saturate_lower, saturate_upper}

-- The time that the range is around: of the frame that is asked for or else the last one, or the
-- time that is asked for.
unfoldable pub anchor_of : FrameIndex → ℤ → ℤ → ℤ
anchor_of idx (negsuc n) current_time_ms = current_time_ms
anchor_of idx (pos n) current_time_ms =
    unwrap_or current_time_ms
      (get_elem? idx.frames (min n (length idx.frames - 1)) >>= λ (f : Frame). some f.0)

-- The walk over the frames from the first one of the range on.
unfoldable pub take_window : ℤ → ℤ → Bool → ℕ → List Frame → List (ℤ × ℤ)
take_window hi anchor include_current i [] = []
take_window hi anchor include_current i ((ms, is_key) ∷ fs) =
    let rest = take_window hi anchor include_current (suc i) fs in
    if ltb_ℤ hi ms
    then []
    else (if not include_current && ms == anchor then rest else (pos i, ms) ∷ rest)

unfoldable pub whole_fps : FrameIndex → ℤ
whole_fps idx =
    if ltb_ℤ (pos 0) idx.fps_num && ltb_ℤ (pos 0) idx.fps_den
    then div_trunc idx.fps_num (pos_part idx.fps_den)
    else pos 24

-- The frames with their numbers, the frame rate, and the time of the current frame.
unfoldable pub build_prefetch_window_from_cache :
    ((Frame → Bool) → List Frame → ℕ) → FrameIndex → ℤ → ℤ → ℤ → ℤ → Bool → List (ℤ × ℤ) × ℤ × ℤ
build_prefetch_window_from_cache point idx frame_idx time_ms before_ms after_ms include_current =
    let anchor = anchor_of idx frame_idx time_ms in
    let range_start_ms = saturate (anchor -ℤ before_ms) in
    let range_end_ms = saturate (anchor +ℤ after_ms) in
    let start = point (is_before range_start_ms) idx.frames in
    (
      take_window range_end_ms anchor include_current start (drop start idx.frames),
      whole_fps idx,
      anchor,
    )

abbrev pub is_wanted : Bool → ℤ → Entry → Bool
is_wanted include_current anchor (i, ms, is_key) = include_current || not (ms == anchor)

abbrev pub number_and_time : Entry → ℤ × ℤ
number_and_time (i, ms, is_key) = (pos i, ms)

-- The frames that a range asks for: those from its start to its end, both included, but for the
-- current frame where it is not asked for.
unfoldable pub wanted_frames : ℤ → ℤ → Bool → ℤ → List Frame → List (ℤ × ℤ)
wanted_frames lo hi include_current anchor frames =
    map number_and_time (keep (is_wanted include_current anchor) (entries_between lo hi 0 frames))

take_window_lem :
    (hi anchor : ℤ) (include_current : Bool) (i : ℕ) (fs : List Frame)
    → take_window hi anchor include_current i fs
      ≡ map number_and_time (keep (is_wanted include_current anchor) (entries_until hi i fs))
unfolding take_window entries_until
take_window_lem hi anchor include_current i [] = refl
take_window_lem hi anchor include_current i ((ms, key) ∷ fs) =
    ground (arith, take_window_lem hi anchor include_current (suc i) fs)

-- Bounds that tell the same of every frame find the same frames.
same_bounds :
    (lo lo' hi hi' : ℤ) (i : ℕ) (fs : List Frame)
    → ((ms : ℤ) → IsI64 ms → ltb_ℤ ms lo' ≡ ltb_ℤ ms lo)
    → ((ms : ℤ) → IsI64 ms → ltb_ℤ hi' ms ≡ ltb_ℤ hi ms)
    → All (λ (f : Frame). IsI64 f.0) fs
    → entries_between lo' hi' i fs ≡ entries_between lo hi i fs
unfolding entries_between
same_bounds lo lo' hi hi' i [] l u h = refl
same_bounds lo lo' hi hi' i ((ms, key) ∷ fs) l u h =
    rw (l ms h.0, u ms h.0, same_bounds lo lo' hi hi' (suc i) fs l u h.1)

get_elem-IsI64 :
    (i : ℕ) (d : ℤ) (fs : List Frame)
    → IsI64 d
    → All (λ (f : Frame). IsI64 f.0) fs
    → IsI64 (unwrap_or d (get_elem? fs i >>= λ (f : Frame). some f.0))
get_elem-IsI64 i d [] z h = z
get_elem-IsI64 zero d (f ∷ fs) z h = h.0
get_elem-IsI64 (suc i) d (f ∷ fs) z h = get_elem-IsI64 i d fs z h.1

anchor_of-IsI64 :
    (idx : FrameIndex) (frame_idx time_ms : ℤ)
    → IsI64 time_ms
    → All (λ (f : Frame). IsI64 f.0) idx.frames
    → IsI64 (anchor_of idx frame_idx time_ms)
unfolding anchor_of
anchor_of-IsI64 idx (negsuc n) time_ms z h = z
anchor_of-IsI64 idx (pos n) time_ms z h =
    get_elem-IsI64 (min n (length idx.frames - 1)) time_ms idx.frames z h

lower_fits : (a b : ℤ) → IsI64 a → pos 0 ≤ℤ b → a -ℤ b ≤ℤ pos (2 ^ 63 - 1)
unfolding ◌-ℤ◌
lower_fits a b h z = ground arith

upper_fits : (a b : ℤ) → IsI64 a → pos 0 ≤ℤ b → negsuc (2 ^ 63 - 1) ≤ℤ a +ℤ b
unfolding ◌+ℤ◌
upper_fits a b h z = ground arith

-- For an index whose frames are sorted by time and have times that fit i64, a time that fits i64,
-- and lengths that are not negative: the window holds, in order and with their numbers, exactly
-- the frames whose time lies between the exact bounds around the current frame, both included; the
-- current frame only where it is asked for. Bounds that leave i64 lose no frame and add none.
pub build_prefetch_window_from_cache_lem :
    (point : (Frame → Bool) → List Frame → ℕ) (idx : FrameIndex)
    (frame_idx time_ms before_ms after_ms : ℤ) (include_current : Bool)
    → IsPartitionPoint point
    → IsSorted idx.frames
    → All (λ (f : Frame). IsI64 f.0) idx.frames
    → IsI64 time_ms
    → pos 0 ≤ℤ before_ms
    → pos 0 ≤ℤ after_ms
    → let anchor = anchor_of idx frame_idx time_ms in
      build_prefetch_window_from_cache point idx frame_idx time_ms before_ms after_ms
        include_current
      ≡ (
        wanted_frames (anchor -ℤ before_ms) (anchor +ℤ after_ms) include_current anchor idx.frames,
        whole_fps idx,
        anchor,
      )
unfolding build_prefetch_window_from_cache wanted_frames
build_prefetch_window_from_cache_lem point idx frame_idx time_ms before_ms after_ms inc doc s h t b
      a =
    let anchor = anchor_of idx frame_idx time_ms in
    let fits = anchor_of-IsI64 idx frame_idx time_ms t h in
    rw (
      take_window_lem,
      entries_until_lem point (saturate (anchor -ℤ before_ms)) (saturate (anchor +ℤ after_ms))
          idx.frames doc s,
      same_bounds (anchor -ℤ before_ms) (saturate (anchor -ℤ before_ms)) (anchor +ℤ after_ms)
          (saturate (anchor +ℤ after_ms)) 0 idx.frames
          (λ ms m. saturate_lower _ ms m (lower_fits anchor before_ms fits b))
          (λ ms m. saturate_upper _ ms m (upper_fits anchor after_ms fits a)) h,
    )
