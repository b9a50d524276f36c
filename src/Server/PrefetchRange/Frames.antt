-- ===== src/Server/PrefetchRange/Frames.antt =====
-- The frames that a prefetch range submits, and a submission that asks for nothing.
use jellyfin_recents.Prelude.{
  ℕ, zero, suc, ◌≤◌, ◌≡◌, refl, ap, sym, subst, ◌∙◌, Bool, true, false, ◌&&◌, Option, some, List,
  [], ◌∷◌, ◌++◌, arith, ◌==◌, nat_eq, int_eq, if◌then◌else◌, Bool-cases, inl, inr, get_elem?, take,
  drop, keep, length, All, length-append, length-take,
}
use mathlib.Core.List.{reverse, reverse-cons, append_assoc}
use jellyfin_recents.Prelude.Int.{ℤ, pos, pos_part, ◌+ℤ◌, ◌-ℤ◌, ◌≤ℤ◌, ltb_ℤ, wrap_i64}
use jellyfin_recents.Wire.Requests.Types.{PrefetchRangeReq}
use jellyfin_recents.DiskCache.State.{key_eq}
use jellyfin_recents.Server.Daemon.{at_least_zero}
use jellyfin_recents.Server.FrameIndex.{FrameIndex}
use jellyfin_recents.Server.Prefetch.{Jobs}
use jellyfin_recents.Server.PrefetchRange.{
  Frame, submit_at, back_part, forward_part, start_part, range_around, handle_prefetch_range,
}
use jellyfin_recents.Server.PrefetchRange.Walks.{
  submit_all, IsFalling, IsRising, from_time, to_time, with_start, walk_back-with_start,
  walk_forward-with_start,
}

All-append_one :
    (fs : List Frame) (f : Frame) (P : Frame → Type 0) → All P fs → P f → All P (fs ++ f ∷ [])
All-append_one [] f P a p = (p, tt)
All-append_one (g ∷ fs) f P a p = (a.0, All-append_one fs f P a.1 p)

IsFalling-append :
    (fs : List Frame) (f : Frame)
    → IsFalling fs
    → All (λ (g : Frame). f.0 ≤ℤ g.0) fs
    → IsFalling (fs ++ f ∷ [])
IsFalling-append [] f h a = (tt, tt)
IsFalling-append (g ∷ fs) f h a =
    (All-append_one fs f (λ (x : Frame). x.0 ≤ℤ g.0) h.0 a.0, IsFalling-append fs f h.1 a.1)

-- The frames up to one, backwards.
abbrev pub back_from : ℕ → List Frame → List Frame
back_from n fs = reverse (take n fs)

take_all_of : (P : Frame → Type 0) (n : ℕ) (fs : List Frame) → All P fs → All P (take n fs)
take_all_of P zero fs a = tt
take_all_of P (suc n) [] a = tt
take_all_of P (suc n) (f ∷ fs) a = (a.0, take_all_of P n fs a.1)

reverse_all : (P : Frame → Type 0) (fs : List Frame) → All P fs → All P (reverse fs)
reverse_all P [] a = tt
reverse_all P (f ∷ fs) a =
    subst (All P) (sym (reverse-cons f fs))
      (All-append_one (reverse fs) f P (reverse_all P fs a.1) a.0)

back_from-IsFalling : (n : ℕ) (fs : List Frame) → IsRising fs → IsFalling (back_from n fs)
back_from-IsFalling zero fs h = tt
back_from-IsFalling (suc n) [] h = tt
back_from-IsFalling (suc n) (f ∷ fs) h = subst IsFalling (sym (reverse-cons f (take n fs))) (
    IsFalling-append (back_from n fs) f (back_from-IsFalling n fs h.1) (
      reverse_all (λ (g : Frame). f.0 ≤ℤ g.0) (take n fs)
        (take_all_of (λ (g : Frame). f.0 ≤ℤ g.0) n fs h.0)))

drop-IsRising : (n : ℕ) (fs : List Frame) → IsRising fs → IsRising (drop n fs)
drop-IsRising zero fs h = h
drop-IsRising (suc n) [] h = tt
drop-IsRising (suc n) (f ∷ fs) h = drop-IsRising n fs h.1

length-reverse : (fs : List Frame) → length (reverse fs) ≡ length fs
length-reverse [] = refl
length-reverse (f ∷ fs) =
    ap length (reverse-cons f fs)
    ∙ omega (arith, length-append (reverse fs) (f ∷ []), length-reverse fs)

found_before : (n : ℕ) (fs : List Frame) (f : Frame) → get_elem? fs n ≡ some f → suc n ≤ length fs
found_before n [] f h = absurd cc
found_before zero (g ∷ fs) f h = omega arith
found_before (suc n) (g ∷ fs) f h = omega (arith, found_before n fs f h)

submit_all-append :
    (req : PrefetchRangeReq) (xs ys : List Frame) (s : Jobs)
    → submit_all req (xs ++ ys) s ≡ submit_all req ys (submit_all req xs s)
submit_all-append req [] ys s = refl
submit_all-append req ((pts, key) ∷ xs) ys s = submit_all-append req xs ys (submit_at req pts s)

-- The frames, in the order in which they are submitted: from the start frame back, from it on, and
-- the start frame alone.
unfoldable pub frames_back : PrefetchRangeReq → List Frame → ℕ → ℤ → ℤ → List Frame
frames_back req frames si center before_ms =
    if ltb_ℤ (pos 0) before_ms
    then keep (from_time (wrap_i64 (center -ℤ before_ms)))
        (with_start req (back_from (suc si) frames))
    else []

unfoldable pub frames_on : PrefetchRangeReq → List Frame → ℕ → ℤ → ℤ → List Frame
frames_on req frames si center after_ms =
    if ltb_ℤ (pos 0) after_ms
    then keep (to_time (wrap_i64 (center +ℤ after_ms))) (with_start req (drop si frames))
    else []

unfoldable pub frame_alone : PrefetchRangeReq → Frame → ℤ → ℤ → List Frame
frame_alone req f before_ms after_ms =
    if req.include_start && (before_ms == pos 0) && (after_ms == pos 0) then f ∷ [] else []

back_lem :
    (req : PrefetchRangeReq) (idx : FrameIndex) (si : ℕ) (f : Frame) (before_ms : ℤ) (s : Jobs)
    → IsRising idx.frames
    → get_elem? idx.frames si ≡ some f
    → back_part req idx si f.0 before_ms s
      ≡ submit_all req (frames_back req idx.frames si f.0 before_ms) s
unfolding frames_back
back_lem req idx si f before_ms s h e =
    let size : length (back_from (suc si) idx.frames) ≡ suc si =
      length-reverse (take (suc si) idx.frames)
      ∙ omega (arith, length-take (suc si) idx.frames, found_before si idx.frames f e) in
    elim (Bool-cases (ltb_ℤ (pos 0) before_ms)) [
      | inl some_time ↦ rw some_time (
          walk_back-with_start req si (wrap_i64 (f.0 -ℤ before_ms)) (back_from (suc si) idx.frames)
            s (back_from-IsFalling (suc si) idx.frames h) size)
      | inr no_time ↦ rw no_time
    ]

on_lem :
    (req : PrefetchRangeReq) (idx : FrameIndex) (si : ℕ) (center after_ms : ℤ) (s : Jobs)
    → IsRising idx.frames
    → forward_part req idx si center after_ms s
      ≡ submit_all req (frames_on req idx.frames si center after_ms) s
unfolding frames_on
on_lem req idx si center after_ms s h = elim (Bool-cases (ltb_ℤ (pos 0) after_ms)) [
  | inl some_time ↦ rw some_time (
      walk_forward-with_start req si (wrap_i64 (center +ℤ after_ms)) (drop si idx.frames) s
        (drop-IsRising si idx.frames h))
  | inr no_time ↦ rw no_time
]

one_if_test :
    (req : PrefetchRangeReq) (test : Bool) (f : Frame) (s : Jobs)
    → (if test then submit_at req f.0 s else s) ≡ submit_all req (if test then f ∷ [] else []) s
one_if_test req true f s = refl
one_if_test req false f s = refl

alone_lem :
    (req : PrefetchRangeReq) (f : Frame) (before_ms after_ms : ℤ) (s : Jobs)
    → start_part req f.0 before_ms after_ms s
      ≡ submit_all req (frame_alone req f before_ms after_ms) s
unfolding frame_alone
alone_lem req f before_ms after_ms s = one_if_test req _ f s

-- For an index sorted by time that has the start frame: the request submits, in this order, the
-- frames from the start frame back to the lower bound, those from the start frame on to the upper
-- bound, and the start frame alone where both lengths are 0; the start frame is left out of the
-- first two where it is not asked for.
pub handle_prefetch_range_lem :
    (to_ms : ℕ → ℤ) (req : PrefetchRangeReq) (idx : FrameIndex) (f : Frame) (s : Jobs)
    → IsRising idx.frames
    → get_elem? idx.frames (pos_part (at_least_zero req.start_idx)) ≡ some f
    → let si = pos_part (at_least_zero req.start_idx) in
      let before_ms = to_ms req.before_seconds in
      let after_ms = to_ms req.after_seconds in
      handle_prefetch_range to_ms req idx s
      ≡ submit_all req
          (frames_back req idx.frames si f.0 before_ms
            ++ (frames_on req idx.frames si f.0 after_ms ++ frame_alone req f before_ms after_ms))
          s
unfolding handle_prefetch_range
handle_prefetch_range_lem to_ms req idx f s h e =
    let si = pos_part (at_least_zero req.start_idx) in
    let before_ms = to_ms req.before_seconds in
    let after_ms = to_ms req.after_seconds in
    let first = frames_back req idx.frames si f.0 before_ms in
    let second = frames_on req idx.frames si f.0 after_ms in
    let third = frame_alone req f before_ms after_ms in
    ap (λ (o : Option Frame). range_around to_ms req idx si o s) e
    ∙ alone_lem req f before_ms after_ms _
    ∙ ap (submit_all req third) (
        on_lem req idx si f.0 after_ms _ h
        ∙ ap (submit_all req second) (back_lem req idx si f before_ms s h e))
    ∙ ap (submit_all req third) (sym (submit_all-append req first second s))
    ∙ sym (submit_all-append req (first ++ second) third s)
    ∙ ap (λ (fs : List Frame). submit_all req fs s) (append_assoc first second third)
