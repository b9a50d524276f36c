-- ===== src/Server/Stream/Range/Report.antt =====
-- What a whole prefetch range reports.
use jellyfin_recents.Prelude.{
  ℕ, suc, ◌+◌, ◌≡◌, refl, ap, sym, subst, ◌∙◌, Bool, true, false, Bool-cases, inl, inr, List, [],
  ◌∷◌, ◌++◌, arith, if◌then◌else◌, length, max,
}
use mathlib.Core.List.{append-nil, Perm}
use mathlib.Core.List.Perm
use jellyfin_recents.Prelude.Chunks.{chunks, concat, concat-chunks}
use jellyfin_recents.Prelude.Int.{ℤ}
use jellyfin_recents.Wire.Bytes.{Text}
use jellyfin_recents.Wire.Requests.Types.{PrefetchRangeStreamReq}
use jellyfin_recents.DiskCache.State.{System}
use jellyfin_recents.Server.Lru.{Lru}
use jellyfin_recents.Server.FrameIndex.{FrameIndex}
use jellyfin_recents.Server.Daemon.{RamKey, Daemon}
use jellyfin_recents.Server.Stream.Range.{
  Event, all_done, Decoders, Target, take_nearest, Work, scan, do_anchor, do_frame, do_batch,
  do_batches, report_done, no_work, process_frames, process,
}
use jellyfin_recents.Server.Stream.Range.Account.{
  numbers, numbers-append, frame_numbers, take_nearest-IsPick, total, IsAccount, scan-IsAccount,
  do_anchor-IsAccount, frame_result-IsAccount,
}

module _ (R : Lru RamKey Text) (L : Lru Text FrameIndex) (os : System) (d : Decoders)
    (req : PrefetchRangeStreamReq) where
  abbrev pub Outcome : Type 0
  Outcome = Bool × Work R L os d req

  abbrev pub continue_with : (Work R L os d req → Outcome) → Outcome → Outcome
  continue_with f (true, w) = (true, w)
  continue_with f (false, w) = f w

  do_batch-append :
      (cancelled : ℕ → Bool) (i : ℕ) (xs ys : List Target) (w : Work R L os d req)
      → do_batch R L os d req cancelled i (xs ++ ys) w
        ≡ continue_with
            (do_batch R L os d req cancelled (i + length xs) ys)
            (do_batch R L os d req cancelled i xs w)
  unfolding do_batch
  do_batch-append cancelled i [] ys w =
      ap (λ (n : ℕ). do_batch R L os d req cancelled n ys w) (omega arith)
  do_batch-append cancelled i (x ∷ xs) ys w = elim (Bool-cases (cancelled i)) [
    | inl over ↦ rw over
    | inr going ↦ rw going (
        do_batch-append cancelled (suc i) xs ys (do_frame R L os d req i x w)
        ∙ ap
            (λ (n : ℕ).
              continue_with (do_batch R L os d req cancelled n ys)
                (do_batch R L os d req cancelled (suc i) xs (do_frame R L os d req i x w)))
            (omega arith))
  ]

  continue_lem :
      (f g : Work R L os d req → Outcome) (r : Outcome)
      → ((w : Work R L os d req) → f w ≡ g w)
      → (if r.0 then (true, r.1) else f r.1) ≡ continue_with g r
  continue_lem f g (true, w) e = refl
  continue_lem f g (false, w) e = e w

  -- The batches do what one batch of all their frames does.
  do_batches-concat :
      (cancelled : ℕ → Bool) (i : ℕ) (bs : List (List Target)) (w : Work R L os d req)
      → do_batches R L os d req cancelled i bs w ≡ do_batch R L os d req cancelled i (concat bs) w
  unfolding do_batches do_batch
  do_batches-concat cancelled i [] w = refl
  do_batches-concat cancelled i (b ∷ bs) w =
      continue_lem (do_batches R L os d req cancelled (i + length b) bs)
        (do_batch R L os d req cancelled (i + length b) (concat bs))
        (do_batch R L os d req cancelled i b w) (do_batches-concat cancelled (i + length b) bs)
      ∙ sym (do_batch-append cancelled i b (concat bs) w)

  in_chunks :
      (cancelled : ℕ → Bool) (n : ℕ) (fs : List Target) (w : Work R L os d req)
      → do_batches R L os d req cancelled 0 (chunks (max n 1) fs) w
        ≡ do_batch R L os d req cancelled 0 fs w
  in_chunks cancelled n fs w =
      do_batches-concat cancelled 0 (chunks (max n 1) fs) w
      ∙ ap (λ (xs : List Target). do_batch R L os d req cancelled 0 xs w)
          (concat-chunks (max n 1) fs (omega arith))

  -- After a batch: the frames that were not reached, none where it was not given up.
  pub record IsReported (all : List ℤ) (r : Outcome) : Type 0 where
    pub pending : List ℤ
    pub account : IsAccount R L os d req all pending r.1
    pub all_reported : r.0 ≡ false → pending ≡ []

  do_batch-IsReported :
      (cancelled : ℕ → Bool) (i : ℕ) (all : List ℤ) (fs : List Target) (w : Work R L os d req)
      → IsAccount R L os d req all (frame_numbers fs) w
      → IsReported all (do_batch R L os d req cancelled i fs w)
  unfolding do_batch do_frame
  do_batch-IsReported cancelled i all [] w h = record {
    pending = [];
    account = h;
    all_reported = λ _. refl;
  }
  do_batch-IsReported cancelled i all (f ∷ fs) w h =
      let h' = frame_result-IsAccount R L os d req all (frame_numbers fs) f _ w h in
      elim (Bool-cases (cancelled i)) [
        | inl over ↦
            rw over
              (record { pending = frame_numbers fs; account = h'; all_reported = λ e. absurd cc })
        | inr going ↦ rw going (do_batch-IsReported cancelled (suc i) all fs _ h')
      ]

  process_frames-IsReported :
      (cancelled : ℕ → Bool) (n : ℕ) (anchor_ms : ℤ) (fs : List Target) (s : Daemon R L)
      → IsReported (frame_numbers fs) (process_frames R L os d req cancelled n anchor_ms fs s)
  unfolding process_frames numbers
  process_frames-IsReported cancelled n anchor_ms fs s =
      let all = frame_numbers fs in
      let (misses, scanned) = scan R L os d req fs ([], no_work R L os d req s) in
      let first : IsAccount R L os d req all (frame_numbers fs) (no_work R L os d req s) = record {
        frames = Perm.rfl;
        counts = omega arith;
      } in
      let hits = scan-IsAccount R L os d req all fs [] (no_work R L os d req s) first in
      let t = take_nearest anchor_ms misses in
      let (rest, w) = do_anchor R L os d req t scanned in
      let started =
        do_anchor-IsAccount R L os d req all misses t scanned (take_nearest-IsPick anchor_ms misses)
          hits in
      subst (IsReported all) (sym (in_chunks cancelled n rest w))
        (do_batch-IsReported cancelled 0 all rest w started)

  report_done-numbers :
      (r : Outcome) → numbers (report_done R L os d req r).events ≡ numbers r.1.events
  unfolding numbers
  report_done-numbers (true, w) = refl
  report_done-numbers (false, w) =
      numbers-append w.events (all_done w.cache_hits w.decoded w.failed ∷ [])
      ∙ append-nil (numbers w.events)

  -- Whatever is cached, fails, or is given up: the frames that are reported, as ready or as failed,
  -- are among the frames of the range, each at most as often as it stands there.
  pub process_once :
      (cancelled : ℕ → Bool) (n : ℕ) (anchor_ms : ℤ) (fs : List Target) (s : Daemon R L)
      → (pending : List ℤ) × Perm
          (numbers (process R L os d req cancelled n anchor_ms fs s).1.events ++ pending)
          (frame_numbers fs)
  unfolding process
  process_once cancelled n anchor_ms fs s =
      let r = process_frames R L os d req cancelled n anchor_ms fs s in
      let h = process_frames-IsReported cancelled n anchor_ms fs s in
      (h.pending, rw (report_done-numbers r) h.account.frames)

  done_lem :
      (all : List ℤ) (r : Outcome)
      → r.0 ≡ false
      → IsReported all r
      → let w = report_done R L os d req r in
        Perm (numbers w.events) all
        × (total R L os d req w ≡ length all)
        × (w.events ≡ r.1.events ++ all_done w.cache_hits w.decoded w.failed ∷ [])
  done_lem all (true, w) e h = absurd cc
  done_lem all (false, w) e h =
      let none_left : h.pending ≡ [] = h.all_reported refl in
      let frames : Perm (numbers w.events ++ []) all = rw none_left at h.account.frames in
      let size : length h.pending ≡ 0 = ap length none_left in
      (
        rw (report_done-numbers (false, w), sym (append-nil (numbers w.events))) frames,
        omega (arith, size, h.account.counts),
        refl,
      )

  length-frame_numbers : (fs : List Target) → length (frame_numbers fs) ≡ length fs
  length-frame_numbers [] = refl
  length-frame_numbers (f ∷ fs) = ap suc (length-frame_numbers fs)

  -- A range that is not given up reports every frame exactly once, as ready or as failed. Its
  -- counts of cached, decoded and failed frames add up to the number of frames, and its last event
  -- has these counts.
  pub process_complete :
      (cancelled : ℕ → Bool) (n : ℕ) (anchor_ms : ℤ) (fs : List Target) (s : Daemon R L)
      → (process R L os d req cancelled n anchor_ms fs s).0 ≡ false
      → let w = (process R L os d req cancelled n anchor_ms fs s).1 in
        Perm (numbers w.events) (frame_numbers fs)
        × (w.cache_hits + w.decoded + w.failed ≡ length fs)
        × ((before : List Event) × (w.events
              ≡ before ++ all_done w.cache_hits w.decoded w.failed ∷ []))
  unfolding process
  process_complete cancelled n anchor_ms fs s e =
      let r = process_frames R L os d req cancelled n anchor_ms fs s in
      let (frames, counts, last) =
        done_lem (frame_numbers fs) r e (process_frames-IsReported cancelled n anchor_ms fs s) in
      (frames, counts ∙ length-frame_numbers fs, (r.1.events, last))
