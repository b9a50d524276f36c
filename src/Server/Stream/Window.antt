-- ===== src/Server/Stream/Window.antt =====
-- The frames of a part of the video, taken from a finished index: `send_window_from_cache` and
-- `build_prefetch_window_from_cache`. `partition_point` is the binary search of the standard
-- library, whose answer is documented for a list that the predicate divides.
use jellyfin_recents.Prelude.{
  ℕ, suc, ◌+◌, ◌≡◌, refl, ap, sym, ◌∙◌, Bool, true, false, not, ◌&&◌, List, [], ◌∷◌, ◌++◌, arith,
  int_eq, if◌then◌else◌, Bool-cases, inl, inr, length, drop, keep, All, drop_append_self,
}
use jellyfin_recents.Prelude.Int.{ℤ, ◌≤ℤ◌, ltb_ℤ}
use jellyfin_recents.Server.Stream.Batches.{Entry}

abbrev pub Frame : Type 0
Frame = ℤ × Bool

abbrev pub enumerate : ℕ → List Frame → List Entry
enumerate i [] = []
enumerate i ((ms, is_key) ∷ fs) = (i, ms, is_key) ∷ enumerate (suc i) fs

abbrev pub IsSorted : List Frame → Type 0
IsSorted [] = Unit
IsSorted (f ∷ fs) = All (λ (g : Frame). f.0 ≤ℤ g.0) fs × IsSorted fs

-- What `partition_point` documents.
abbrev pub IsPartitionPoint : ((Frame → Bool) → List Frame → ℕ) → Type 0
IsPartitionPoint point =
    (p : Frame → Bool) (xs ys : List Frame)
    → All (λ x. p x ≡ true) xs
    → All (λ y. p y ≡ false) ys
    → point p (xs ++ ys) ≡ length xs

-- The frames with their numbers, from the first on that lies in the part, to the last.
abbrev pub in_part : ℤ → ℤ → Entry → Bool
in_part lo hi (i, ms, is_key) = not (ltb_ℤ ms lo) && not (ltb_ℤ hi ms)

unfoldable pub entries_between : ℤ → ℤ → ℕ → List Frame → List Entry
entries_between lo hi i fs = keep (in_part lo hi) (enumerate i fs)

-- The walk that stops at the first frame behind the part.
unfoldable pub entries_until : ℤ → ℕ → List Frame → List Entry
entries_until hi i [] = []
entries_until hi i ((ms, is_key) ∷ fs) =
    let rest = entries_until hi (suc i) fs in if ltb_ℤ hi ms then [] else (i, ms, is_key) ∷ rest

-- Frames that are all behind the part.
behind_lem :
    (lo hi : ℤ) (i : ℕ) (fs : List Frame)
    → All (λ (g : Frame). ltb_ℤ hi g.0 ≡ true) fs
    → entries_between lo hi i fs ≡ []
unfolding entries_between
behind_lem lo hi i [] h = refl
behind_lem lo hi i ((ms, key) ∷ fs) h = ground (arith, behind_lem lo hi (suc i) fs h.1, h.0)

all_behind :
    (hi ms : ℤ) (fs : List Frame)
    → ltb_ℤ hi ms ≡ true
    → All (λ (g : Frame). ms ≤ℤ g.0) fs
    → All (λ (g : Frame). ltb_ℤ hi g.0 ≡ true) fs
all_behind hi ms [] h a = tt
all_behind hi ms (g ∷ fs) h a = (ground (arith, a.0), all_behind hi ms fs h a.1)

all_reached :
    (lo ms : ℤ) (fs : List Frame)
    → ltb_ℤ ms lo ≡ false
    → All (λ (g : Frame). ms ≤ℤ g.0) fs
    → All (λ (g : Frame). ltb_ℤ g.0 lo ≡ false) fs
all_reached lo ms [] h a = tt
all_reached lo ms (g ∷ fs) h a = (ground (arith, a.0), all_reached lo ms fs h a.1)

-- Where no frame is before the part, the walk finds the frames of the part.
reached_lem :
    (lo hi : ℤ) (i : ℕ) (fs : List Frame)
    → IsSorted fs
    → All (λ (g : Frame). ltb_ℤ g.0 lo ≡ false) fs
    → entries_until hi i fs ≡ entries_between lo hi i fs
unfolding entries_until entries_between
reached_lem lo hi i [] s a = refl
reached_lem lo hi i ((ms, key) ∷ fs) s a =
    let rest = reached_lem lo hi (suc i) fs s.1 a.1 in
    elim (Bool-cases (ltb_ℤ hi ms)) [
      | inl over ↦ rw (over, a.0) (sym (behind_lem lo hi (suc i) fs (all_behind hi ms fs over s.0)))
      | inr inside ↦ rw (inside, a.0) (ap (◌∷◌ (i, ms, key)) rest)
    ]

-- A sorted list is divided by a bound: the frames before it, and those from it on.
pub record Division (lo : ℤ) (fs : List Frame) : Type 0 where
  pub before : List Frame
  pub from : List Frame
  pub whole : fs ≡ before ++ from
  pub lower : All (λ (g : Frame). ltb_ℤ g.0 lo ≡ true) before
  pub upper : All (λ (g : Frame). ltb_ℤ g.0 lo ≡ false) from
  pub sorted : IsSorted from

divide : (lo : ℤ) (fs : List Frame) → IsSorted fs → Division lo fs
divide lo [] s = record {
  before = [];
  from = [];
  whole = refl;
  lower = tt;
  upper = tt;
  sorted = tt;
}
divide lo (f ∷ fs) s = elim (Bool-cases (ltb_ℤ f.0 lo)) [
  | inl less ↦
      (let d = divide lo fs s.1 in
        record {
          before = f ∷ d.before;
          from = d.from;
          whole = ap (◌∷◌ f) d.whole;
          lower = (less, d.lower);
          upper = d.upper;
          sorted = d.sorted;
        })
  | inr reached ↦ record {
    before = [];
    from = f ∷ fs;
    whole = refl;
    lower = tt;
    upper = (reached, all_reached lo f.0 fs reached s.0);
    sorted = s;
  }
]

renumber :
    (lo hi : ℤ) (i j : ℕ) (fs : List Frame)
    → i ≡ j
    → entries_between lo hi i fs ≡ entries_between lo hi j fs
renumber lo hi i j fs e = ap (λ (n : ℕ). entries_between lo hi n fs) e

-- Frames before the part add nothing.
before_lem :
    (lo hi : ℤ) (i : ℕ) (xs ys : List Frame)
    → All (λ (g : Frame). ltb_ℤ g.0 lo ≡ true) xs
    → entries_between lo hi i (xs ++ ys) ≡ entries_between lo hi (i + length xs) ys
unfolding entries_between
before_lem lo hi i [] ys h = renumber lo hi i (i + 0) ys (omega arith)
before_lem lo hi i ((ms, key) ∷ xs) ys h = rw h.0 (
    before_lem lo hi (suc i) xs ys h.1
    ∙ renumber lo hi (suc i + length xs) (i + suc (length xs)) ys (omega arith))

abbrev pub is_before : ℤ → Frame → Bool
is_before bound (ms, is_key) = ltb_ℤ ms bound

-- From the partition point on, the walk finds exactly the frames of the part.
pub entries_until_lem :
    (point : (Frame → Bool) → List Frame → ℕ) (lo hi : ℤ) (fs : List Frame)
    → IsPartitionPoint point
    → IsSorted fs
    → entries_until hi (point (is_before lo) fs) (drop (point (is_before lo) fs) fs)
      ≡ entries_between lo hi 0 fs
entries_until_lem point lo hi fs doc s =
    let d = divide lo fs s in
    let at_point : point (is_before lo) (d.before ++ d.from) ≡ length d.before =
      doc (is_before lo) d.before d.from d.lower d.upper in
    rw (d.whole, at_point, drop_append_self d.before d.from)
      (reached_lem lo hi (length d.before) d.from d.sorted d.upper
        ∙ renumber lo hi (length d.before) (0 + length d.before) d.from (omega arith)
        ∙ sym (before_lem lo hi 0 d.before d.from d.lower))
