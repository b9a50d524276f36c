-- ===== src/Server/Stream/Fallback.antt =====
-- What the streams do while the index of a file is not there: they ask for it thirty times more, and
-- then estimate the frames' numbers from the frame rate. `queue_a_demux` sends the frames around the
-- current time; the list of `handle_prefetch_range_stream` is the other.
use mathlib.Core.Option
use jellyfin_recents.Prelude.{
  ℕ, zero, suc, Bool, not, ◌&&◌, ◌||◌, Option, none, some, List, [], ◌∷◌, ◌++◌, ◌==◌, int_eq,
  if◌then◌else◌, length,
}
use jellyfin_recents.Prelude.Int.{ℤ, pos, negsuc, ◌+ℤ◌, ◌-ℤ◌, ◌*ℤ◌, ltb_ℤ, wrap_i64, wrap_u64}
use jellyfin_recents.Wire.Bytes.{Text}
use jellyfin_recents.Server.Daemon.{at_least_zero}
use jellyfin_recents.Server.FrameIndex.{FrameIndex}
use jellyfin_recents.Server.Frames.{compute_frame_idx, div_i64}
use jellyfin_recents.Server.Stream.Batches.{FrameIndexEntry, Batches, add_frame, send_rest}
use jellyfin_recents.Server.Stream.Demux.{Packet, Opened, packet_ms, fps_den_of}
use jellyfin_recents.Server.Stream.Parts.{send_window_from_cache}
use jellyfin_recents.Server.Stream.Window.{Frame}

-- `answers i` is what the index has at the i-th time.
unfoldable pub poll : ℕ → (ℕ → Option FrameIndex) → ℕ → Option FrameIndex
poll zero answers i = none
poll (suc n) answers i =
    let later = poll n answers (suc i) in elim (answers i) [ some idx ↦ some idx | none ↦ later ]

-- At once, and after each of thirty pauses.
unfoldable pub wait_for_index : (ℕ → Option FrameIndex) → Option FrameIndex
wait_for_index answers = poll 31 answers 0

-- The part around the current time: a second before, but not before the start, to a second after.
abbrev pub part_start : ℤ → ℤ
part_start time_ms = at_least_zero (wrap_i64 (time_ms -ℤ pos 1000))

abbrev pub part_end : ℤ → ℤ
part_end time_ms = wrap_i64 (time_ms +ℤ pos 1000)

module _ (to_string : List FrameIndexEntry → Option Text) where
  -- The packets after the seek. `first_ms` is the time of the first packet of the file.
  unfoldable pub estimate_part :
      Opened → ℤ → ℤ → ℤ → List Packet → Batches to_string → Batches to_string
  estimate_part o first_ms p_start p_end [] b = b
  estimate_part o first_ms p_start p_end (p ∷ ps) b =
      let ms = packet_ms o.stream_start_ms p.raw_ms in
      let fi = compute_frame_idx (wrap_i64 (ms -ℤ first_ms)) o.rate_num (fps_den_of o) in
      let passed = not p.is_video || ltb_ℤ ms p_start in
      let b' = if passed then b else add_frame to_string (wrap_u64 fi, ms, p.is_key) b in
      let rest = estimate_part o first_ms p_start p_end ps b' in
      if not passed && ltb_ℤ p_end ms then b else rest

  abbrev pub estimated : Option (Opened × ℤ) → (ℤ → Option (List Packet)) → ℤ → Option (List Text)
  estimated none seek time_ms = none
  estimated (some (o, first_ms)) seek time_ms =
      Option.map
        (λ (packets : List Packet).
          (send_rest to_string (
            estimate_part o first_ms (part_start time_ms) (part_end time_ms) packets
              (record { events = []; batch = [] }))).events)
        (seek (part_start time_ms))

  -- `input` is the file, where it can be opened, with the time of its first packet; `seek` has the
  -- packets from a time on, where the file can be searched. The events, or none for an error.
  unfoldable pub queue_a_demux :
      ((Frame → Bool) → List Frame → ℕ)
      → (ℕ → Option FrameIndex)
      → Option (Opened × ℤ)
      → (ℤ → Option (List Packet))
      → ℤ
      → Option (List Text)
  queue_a_demux point answers input seek time_ms = elim (wait_for_index answers) [
    | some idx ↦
        some (send_window_from_cache to_string point idx (part_start time_ms) (part_end time_ms)).0
    | none ↦ estimated input seek time_ms
  ]

abbrev pub is_rated : Opened → Bool
is_rated o = ltb_ℤ (pos 0) o.rate_num && ltb_ℤ (pos 0) (fps_den_of o)

-- The anchor, from the number of the current frame where it is given.
unfoldable pub estimated_anchor : Opened → ℤ → ℤ → ℤ → ℤ
estimated_anchor o first_ms (negsuc n) time_ms = time_ms
estimated_anchor o first_ms (pos n) time_ms =
    if is_rated o
    then wrap_i64 (first_ms +ℤ div_i64 (wrap_i64 (pos n *ℤ fps_den_of o *ℤ pos 1000)) o.rate_num)
    else time_ms

abbrev pub estimated_number : Opened → ℤ → ℤ → ℕ → ℤ
estimated_number o first_ms ms n =
    if is_rated o
    then div_i64 (wrap_i64 ((ms -ℤ first_ms) *ℤ o.rate_num +ℤ fps_den_of o *ℤ pos 500))
        (wrap_i64 (fps_den_of o *ℤ pos 1000))
    else pos n

unfoldable pub quick_window :
    Opened → ℤ → ℤ → ℤ → ℤ → Bool → List Packet → List (ℤ × ℤ) → List (ℤ × ℤ)
quick_window o first_ms anchor lo hi include_current [] found = found
quick_window o first_ms anchor lo hi include_current (p ∷ ps) found =
    let ms = packet_ms o.stream_start_ms p.raw_ms in
    let passed = not p.is_video || ltb_ℤ ms lo in
    let skipped = not include_current && ms == anchor in
    let found' =
      if passed || skipped
      then found
      else found ++ (estimated_number o first_ms ms (length found), ms) ∷ [] in
    let rest = quick_window o first_ms anchor lo hi include_current ps found' in
    if not passed && ltb_ℤ hi ms then found else rest

-- The time of the file's first packet of the video, 0 where it has none.
unfoldable pub first_video_pkt_ms : ℤ → List Packet → ℤ
first_video_pkt_ms start [] = pos 0
first_video_pkt_ms start (p ∷ ps) =
    let rest = first_video_pkt_ms start ps in if p.is_video then packet_ms start p.raw_ms else rest
