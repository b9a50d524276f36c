-- ===== src/Server/Stream/Parts.antt =====
-- The parts of a finished index that the streams work on: `send_window_from_cache`, for the frames
-- around the current time, and `build_prefetch_window_from_cache`, for the frames to prefetch.
use jellyfin_recents.Prelude.{
  ℕ, suc, ◌+◌, ◌-◌, ◌^◌, ◌≡◌, refl, ap, ◌∙◌, Bool, Option, List, [], ◌∷◌, ◌++◌, arith, ltb, leb,
  int_eq, if◌then◌else◌, Bool-cases, inl, inr, length, drop, length-append,
}
use jellyfin_recents.Prelude.Int.{ℤ, pos, negsuc, ◌≤ℤ◌, ltb_ℤ, IsI64}
use jellyfin_recents.Wire.Bytes.{Text}
use jellyfin_recents.Server.FrameIndex.{FrameIndex}
use jellyfin_recents.Server.Stream.Batches.{
  Entry, FrameIndexEntry, Batches, batch_size, batch_size_pos, add_frame, add_frames, send_rest,
  add_frames_lem, chunk_events,
}
use jellyfin_recents.Server.Stream.Window.{
  Frame, IsSorted, IsPartitionPoint, is_before, entries_between, entries_until, entries_until_lem,
}

-- `saturating_add` and `saturating_sub` of i64: the exact result, or the nearest i64.
abbrev pub saturate : ℤ → ℤ
saturate (pos n) = if ltb n (2 ^ 63) then pos n else pos (2 ^ 63 - 1)
saturate (negsuc n) = if ltb n (2 ^ 63) then negsuc n else negsuc (2 ^ 63 - 1)

-- Against an i64, a saturated bound is as good as the exact one, unless it overflows to the inside.
pub saturate_lower :
    (z ms : ℤ) → IsI64 ms → z ≤ℤ pos (2 ^ 63 - 1) → ltb_ℤ ms (saturate z) ≡ ltb_ℤ ms z
saturate_lower (pos n) (pos m) h z = ground arith
saturate_lower (pos n) (negsuc m) h z = ground arith
saturate_lower (negsuc n) (pos m) h z = ground arith
saturate_lower (negsuc n) (negsuc m) h z = ground arith

pub saturate_upper :
    (z ms : ℤ) → IsI64 ms → negsuc (2 ^ 63 - 1) ≤ℤ z → ltb_ℤ (saturate z) ms ≡ ltb_ℤ z ms
saturate_upper (pos n) (pos m) h z = ground arith
saturate_upper (pos n) (negsuc m) h z = ground arith
saturate_upper (negsuc n) (pos m) h z = ground arith
saturate_upper (negsuc n) (negsuc m) h z = ground arith

module _ (to_string : List FrameIndexEntry → Option Text) where
  -- The batches, and the number of frames in those that were sent.
  abbrev pub Sending : Type 0
  Sending = Batches to_string × ℕ

  unfoldable pub send_frame : Entry → Sending → Sending
  send_frame e (b, sent) = (
    add_frame to_string e b,
    let n = length (b.batch ++ e ∷ []) in if leb batch_size n then sent + n else sent,
  )

  unfoldable pub send_until : ℤ → ℕ → List Frame → Sending → Sending
  send_until hi i [] w = w
  send_until hi i ((ms, is_key) ∷ fs) w =
      let rest = send_until hi (suc i) fs (send_frame (i, ms, is_key) w) in
      if ltb_ℤ hi ms then w else rest

  abbrev pub send_left : Sending → List Text × ℕ
  send_left (b, sent) = ((send_rest to_string b).events, sent + length b.batch)

  -- The events that go to the channel, and the number of frames in them.
  unfoldable pub send_window_from_cache :
      ((Frame → Bool) → List Frame → ℕ) → FrameIndex → ℤ → ℤ → List Text × ℕ
  send_window_from_cache point idx p_start p_end =
      let start = point (is_before p_start) idx.frames in
      send_left
        (send_until p_end start (drop start idx.frames) (record { events = []; batch = [] }, 0))

  abbrev pub send_all : List Entry → Sending → Sending
  send_all [] w = w
  send_all (e ∷ es) w = send_all es (send_frame e w)

  send_until_lem :
      (hi : ℤ) (i : ℕ) (fs : List Frame) (w : Sending)
      → send_until hi i fs w ≡ send_all (entries_until hi i fs) w
  unfolding send_until entries_until
  send_until_lem hi i [] w = refl
  send_until_lem hi i ((ms, key) ∷ fs) w = elim (Bool-cases (ltb_ℤ hi ms)) [
    | inl over ↦ rw over
    | inr inside ↦ rw inside (send_until_lem hi (suc i) fs (send_frame (i, ms, key) w))
  ]

  send_all-batches :
      (es : List Entry) (w : Sending) → (send_all es w).0 ≡ add_frames to_string es w.0
  unfolding add_frames send_frame
  send_all-batches [] w = refl
  send_all-batches (e ∷ es) w = send_all-batches es (send_frame e w)

  abbrev pub counted : Sending → ℕ
  counted (b, sent) = sent + length b.batch

  send_frame-counted : (e : Entry) (w : Sending) → counted (send_frame e w) ≡ suc (counted w)
  unfolding send_frame add_frame
  send_frame-counted e (b, sent) = elim (Bool-cases (leb batch_size (length (b.batch ++ e ∷ [])))) [
    | inl full ↦ rw full (omega (arith, length-append b.batch (e ∷ [])))
    | inr room ↦ rw room (omega (arith, length-append b.batch (e ∷ [])))
  ]

  send_all-counted :
      (es : List Entry) (w : Sending) → counted (send_all es w) ≡ counted w + length es
  send_all-counted [] w = omega arith
  send_all-counted (e ∷ es) w =
      omega (arith, send_all-counted es (send_frame e w), send_frame-counted e w)

  send_left_lem :
      (es : List Entry)
      → send_left (send_all es (record { events = []; batch = [] }, 0))
        ≡ (chunk_events to_string es, length es)
  send_left_lem es =
      let w : Sending = (record { events = []; batch = [] }, 0) in
      let total : counted (send_all es w) ≡ length es = omega (arith, send_all-counted es w) in
      let texts : (send_rest to_string (send_all es w).0).events ≡ chunk_events to_string es =
        ap (λ (b : Batches to_string). (send_rest to_string b).events) (send_all-batches es w)
        ∙ add_frames_lem to_string es (record { events = []; batch = [] }) batch_size_pos in
      cc

  -- For an index whose frames are sorted by time: the events are the batches of exactly the frames
  -- from the first time to the last, both included, in order and with their numbers, cut after
  -- every 5000 frames. The count is the number of these frames.
  pub send_window_from_cache_lem :
      (point : (Frame → Bool) → List Frame → ℕ) (idx : FrameIndex) (p_start p_end : ℤ)
      → IsPartitionPoint point
      → IsSorted idx.frames
      → let es = entries_between p_start p_end 0 idx.frames in
        send_window_from_cache point idx p_start p_end ≡ (chunk_events to_string es, length es)
  unfolding send_window_from_cache
  send_window_from_cache_lem point idx p_start p_end doc s =
      rw (send_until_lem, entries_until_lem point p_start p_end idx.frames doc s)
        (send_left_lem (entries_between p_start p_end 0 idx.frames))
