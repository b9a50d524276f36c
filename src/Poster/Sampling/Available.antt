-- ===== src/Poster/Sampling/Available.antt =====
-- The available intervals are what the skipped segments leave of the video.
use jellyfin_recents.Prelude.{
  ◌≡◌, refl, ap, ◌∙◌, Bool, true, false, not, ◌&&◌, ◌||◌, List, [], ◌∷◌, arith, if◌then◌else◌,
  Bool-cases, inl, inr, All,
}
use jellyfin_recents.Prelude.Int.{ℤ, pos, ◌≤ℤ◌, ltb_ℤ}
use jellyfin_recents.Poster.Sampling.{
  Segment, insert_segment, sort_segments, clamp, walk, available_intervals, is_in, is_in_any,
}

abbrev pub IsOrdered : List Segment → Type 0
IsOrdered [] = Unit
IsOrdered (x ∷ xs) = All (λ (y : Segment). x.0 ≤ℤ y.0) xs × IsOrdered xs

insert-All :
    (b : ℤ) (x : Segment) (xs : List Segment)
    → b ≤ℤ x.0
    → All (λ (y : Segment). b ≤ℤ y.0) xs
    → All (λ (y : Segment). b ≤ℤ y.0) (insert_segment x xs)
insert-All b x [] h a = (h, tt)
insert-All b x (y ∷ ys) h a = elim (Bool-cases (ltb_ℤ y.0 x.0)) [
  | inl later ↦ rw later (a.0, insert-All b x ys h a.1)
  | inr first ↦ rw first (h, a)
]

all_from :
    (b c : ℤ) (xs : List Segment)
    → b ≤ℤ c
    → All (λ (y : Segment). c ≤ℤ y.0) xs
    → All (λ (y : Segment). b ≤ℤ y.0) xs
all_from b c [] h a = tt
all_from b c (y ∷ ys) h a = (omega (arith, h, a.0), all_from b c ys h a.1)

insert-IsOrdered :
    (x : Segment) (xs : List Segment) → IsOrdered xs → IsOrdered (insert_segment x xs)
insert-IsOrdered x [] h = (tt, tt)
insert-IsOrdered x (y ∷ ys) h = elim (Bool-cases (ltb_ℤ y.0 x.0)) [
  | inl later ↦
      rw later (insert-All y.0 x ys (ground (arith, later)) h.0, insert-IsOrdered x ys h.1)
  | inr first ↦
      (let le : x.0 ≤ℤ y.0 = ground (arith, first) in
        rw first ((le, all_from x.0 y.0 ys le h.0), h))
]

sort-IsOrdered : (xs : List Segment) → IsOrdered (sort_segments xs)
unfolding sort_segments
sort-IsOrdered [] = tt
sort-IsOrdered (x ∷ xs) = insert-IsOrdered x (sort_segments xs) (sort-IsOrdered xs)

or_swap : (a b c : Bool) → (a || (b || c)) ≡ (b || (a || c))
or_swap a b c = ground arith

insert-is_in_any :
    (t : ℤ) (x : Segment) (xs : List Segment)
    → is_in_any t (insert_segment x xs) ≡ (is_in t x || is_in_any t xs)
insert-is_in_any t x [] = refl
insert-is_in_any t x (y ∷ ys) = elim (Bool-cases (ltb_ℤ y.0 x.0)) [
  | inl later ↦ rw (later, insert-is_in_any t x ys) (or_swap (is_in t y) (is_in t x) _)
  | inr first ↦ rw first
]

sort-is_in_any : (t : ℤ) (xs : List Segment) → is_in_any t (sort_segments xs) ≡ is_in_any t xs
unfolding sort_segments
sort-is_in_any t [] = refl
sort-is_in_any t (x ∷ xs) =
    insert-is_in_any t x (sort_segments xs)
    ∙ ap (λ (b : Bool). is_in t x || b) (sort-is_in_any t xs)

if_cons :
    (test : Bool) (t : ℤ) (x : Segment) (xs : List Segment)
    → is_in_any t (if test then x ∷ xs else xs) ≡ ((test && is_in t x) || is_in_any t xs)
if_cons true t x xs = refl
if_cons false t x xs = refl

abbrev pub reach : ℤ → ℤ → ℤ
reach cursor end = if ltb_ℤ cursor end then end else cursor

reach-ge : (cursor end : ℤ) → cursor ≤ℤ reach cursor end
reach-ge cursor end = ground arith

gap_passed :
    (cursor start t : ℤ)
    → ltb_ℤ t cursor ≡ true
    → (ltb_ℤ cursor start && is_in t (cursor, start)) ≡ false
gap_passed cursor start t h = ground (arith, h)

gap_lem :
    (cursor start t : ℤ)
    → cursor ≤ℤ t
    → (ltb_ℤ cursor start && is_in t (cursor, start)) ≡ ltb_ℤ t start
gap_lem cursor start t h = ground (arith, h)

reach_lem : (cursor end t : ℤ) → cursor ≤ℤ t → ltb_ℤ t (reach cursor end) ≡ ltb_ℤ t end
reach_lem cursor end t h = ground (arith, h)

clamp-lt :
    (duration t x : ℤ)
    → pos 0 ≤ℤ t
    → ltb_ℤ t duration ≡ true
    → ltb_ℤ t (clamp duration x) ≡ ltb_ℤ t x
clamp-lt duration t x z d = ground (arith, z, d)

-- Before the place that the walk has reached, nothing is available.
passed_lem :
    (duration cursor t : ℤ) (xs : List Segment)
    → ltb_ℤ t cursor ≡ true
    → is_in_any t (walk duration cursor xs) ≡ false
unfolding walk
passed_lem duration cursor t [] h = ground (arith, h)
passed_lem duration cursor t ((s, e) ∷ rest) h =
    let cursor' = reach cursor (clamp duration e) in
    let still : ltb_ℤ t cursor' ≡ true = ground (arith, h, reach-ge cursor (clamp duration e)) in
    if_cons (ltb_ℤ cursor (clamp duration s)) t (cursor, clamp duration s)
      (walk duration cursor' rest)
    ∙ (rw (gap_passed cursor (clamp duration s) t h, passed_lem duration cursor' t rest still))

not_started :
    (s t : ℤ) (xs : List Segment)
    → ltb_ℤ t s ≡ true
    → All (λ (y : Segment). s ≤ℤ y.0) xs
    → is_in_any t xs ≡ false
not_started s t [] h a = refl
not_started s t (y ∷ ys) h a =
    let before : ltb_ℤ t y.0 ≡ true = ground (arith, h, a.0) in
    rw (before, not_started s t ys h a.1)

-- The gap, and what comes after it, from whether the time is before the segment's start and its end.
combine :
    (u v after later : Bool)
    → (u ≡ true → later ≡ false)
    → (v ≡ true → after ≡ false)
    → (v ≡ false → after ≡ not later)
    → (u || after) ≡ not ((not u && v) || later)
combine true v after later f g h = rw (f refl)
combine false true after later f g h = rw (g refl)
combine false false after later f g h = h refl

not_less : (t c : ℤ) → ltb_ℤ t c ≡ false → c ≤ℤ t
not_less t c h = ground (arith, h)

-- From there on, it is what the segments leave.
walk_lem :
    (duration cursor t : ℤ) (xs : List Segment)
    → IsOrdered xs
    → pos 0 ≤ℤ cursor
    → cursor ≤ℤ t
    → ltb_ℤ t duration ≡ true
    → is_in_any t (walk duration cursor xs) ≡ not (is_in_any t xs)
unfolding walk
walk_lem duration cursor t [] o z c d = ground (arith, c, d)
walk_lem duration cursor t ((s, e) ∷ rest) o z c d =
    let start = clamp duration s in
    let end = clamp duration e in
    let cursor' = reach cursor end in
    let after = is_in_any t (walk duration cursor' rest) in
    let zt : pos 0 ≤ℤ t = omega (arith, z, c) in
    let u : ltb_ℤ t start ≡ ltb_ℤ t s = clamp-lt duration t s zt d in
    let v : ltb_ℤ t cursor' ≡ ltb_ℤ t e = reach_lem cursor end t c ∙ clamp-lt duration t e zt d in
    if_cons (ltb_ℤ cursor start) t (cursor, start) (walk duration cursor' rest)
    ∙ ap (λ (b : Bool). b || after) (gap_lem cursor start t c ∙ u)
    ∙ combine (ltb_ℤ t s) (ltb_ℤ t e) after (is_in_any t rest)
        (λ before. not_started s t rest before o.0)
        (λ within. passed_lem duration cursor' t rest (v ∙ within))
        (λ behind.
          walk_lem duration cursor' t rest o.1 (omega (arith, z, reach-ge cursor end))
            (not_less t cursor' (v ∙ behind)) d)

-- A time of the video lies in one of the available intervals exactly if it lies in none of the
-- segments to skip; each interval is taken without its end.
pub available_intervals_lem :
    (duration t : ℤ) (skip : List Segment)
    → pos 0 ≤ℤ t
    → ltb_ℤ t duration ≡ true
    → is_in_any t (available_intervals duration skip) ≡ not (is_in_any t skip)
unfolding available_intervals
available_intervals_lem duration t skip z d =
    walk_lem duration (pos 0) t (sort_segments skip) (sort-IsOrdered skip) (omega arith) z d
    ∙ ap not (sort-is_in_any t skip)
