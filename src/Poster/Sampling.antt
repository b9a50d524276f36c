-- ===== src/Poster/Sampling.antt =====
-- The parts of the video from which a poster takes its frames: `available_intervals` of sampling.rs.
-- A finite f64 is a whole number of units of 2^-1074, and the intervals only compare and copy times: a
-- time is an integer here.
pub mod Available
use jellyfin_recents.Prelude.{Bool, false, not, ◌&&◌, List, [], ◌∷◌, if◌then◌else◌, any}
use jellyfin_recents.Prelude.Int.{ℤ, pos, ltb_ℤ}

abbrev pub Segment : Type 0
Segment = ℤ × ℤ

-- `sort_by` on the starts, which is stable.
abbrev pub insert_segment : Segment → List Segment → List Segment
insert_segment x [] = x ∷ []
insert_segment x (y ∷ ys) =
    let rest = insert_segment x ys in if ltb_ℤ y.0 x.0 then y ∷ rest else x ∷ y ∷ ys

unfoldable pub sort_segments : List Segment → List Segment
sort_segments [] = []
sort_segments (x ∷ xs) = insert_segment x (sort_segments xs)

-- `clamp(0.0, duration)`.
abbrev pub clamp : ℤ → ℤ → ℤ
clamp duration t = if ltb_ℤ t (pos 0) then pos 0 else (if ltb_ℤ duration t then duration else t)

unfoldable pub walk : ℤ → ℤ → List Segment → List Segment
walk duration cursor [] = if ltb_ℤ cursor duration then (cursor, duration) ∷ [] else []
walk duration cursor ((s, e) ∷ rest) =
    let start = clamp duration s in
    let end = clamp duration e in
    let after = walk duration (if ltb_ℤ cursor end then end else cursor) rest in
    if ltb_ℤ cursor start then (cursor, start) ∷ after else after

unfoldable pub available_intervals : ℤ → List Segment → List Segment
available_intervals duration skip = walk duration (pos 0) (sort_segments skip)

-- Whether a time lies in one of the segments, without their ends.
abbrev pub is_in : ℤ → Segment → Bool
is_in t (s, e) = not (ltb_ℤ t s) && ltb_ℤ t e

abbrev pub is_in_any : ℤ → List Segment → Bool
is_in_any t xs = any (is_in t) xs
