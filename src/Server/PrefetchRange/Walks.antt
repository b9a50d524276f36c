-- ===== src/Server/PrefetchRange/Walks.antt =====
-- Which frames a prefetch range submits, and what that does to the jobs.
use jellyfin_recents.Prelude.{
  ℕ, suc, ◌+◌, ◌-◌, ◌≤◌, ◌<◌, ◌≡◌, refl, ap, sym, ◌∙◌, Bool, true, false, not, List, [], ◌∷◌, arith,
  nat_eq, int_eq, if◌then◌else◌, Bool-cases, inl, inr, drop, keep, length, All,
}
use jellyfin_recents.Prelude.Int.{ℤ, ◌≤ℤ◌, ltb_ℤ}
use jellyfin_recents.Wire.Requests.Types.{PrefetchRangeReq}
use jellyfin_recents.DiskCache.State.{key_eq}
use jellyfin_recents.Server.Prefetch.{Jobs}
use jellyfin_recents.Server.PrefetchRange.{Frame, submit_at, is_skipped, walk_back, walk_forward}

abbrev pub submit_all : PrefetchRangeReq → List Frame → Jobs → Jobs
submit_all req [] s = s
submit_all req ((pts, is_key) ∷ fs) s = submit_all req fs (submit_at req pts s)

-- Times that do not rise, and times that do not fall.
abbrev pub IsFalling : List Frame → Type 0
IsFalling [] = Unit
IsFalling (f ∷ fs) = All (λ (g : Frame). g.0 ≤ℤ f.0) fs × IsFalling fs

abbrev pub IsRising : List Frame → Type 0
IsRising [] = Unit
IsRising (f ∷ fs) = All (λ (g : Frame). f.0 ≤ℤ g.0) fs × IsRising fs

abbrev pub from_time : ℤ → Frame → Bool
from_time lower (pts, is_key) = not (ltb_ℤ pts lower)

abbrev pub to_time : ℤ → Frame → Bool
to_time upper (pts, is_key) = not (ltb_ℤ upper pts)

none_from :
    (lower pts : ℤ) (fs : List Frame)
    → ltb_ℤ pts lower ≡ true
    → All (λ (g : Frame). g.0 ≤ℤ pts) fs
    → keep (from_time lower) fs ≡ []
none_from lower pts [] h a = refl
none_from lower pts (f ∷ fs) h a = ground (arith, none_from lower pts fs h a.1, a.0)

none_to :
    (upper pts : ℤ) (fs : List Frame)
    → ltb_ℤ upper pts ≡ true
    → All (λ (g : Frame). pts ≤ℤ g.0) fs
    → keep (to_time upper) fs ≡ []
none_to upper pts [] h a = refl
none_to upper pts (f ∷ fs) h a = ground (arith, none_to upper pts fs h a.1, a.0)

-- Where no frame is passed over, a walk submits exactly the frames up to its bound.
walk_back_lem :
    (req : PrefetchRangeReq) (start : ℕ) (lower : ℤ) (i : ℕ) (fs : List Frame) (s : Jobs)
    → IsFalling fs
    → i ≡ length fs - 1
    → ((n : ℕ) → n < length fs → is_skipped req start n ≡ false)
    → walk_back req start lower i fs s ≡ submit_all req (keep (from_time lower) fs) s
unfolding walk_back
walk_back_lem req start lower i [] s h e k = refl
walk_back_lem req start lower i ((pts, key) ∷ fs) s h e k =
    let here : is_skipped req start i ≡ false = k i (omega (arith, e)) in
    elim (Bool-cases (ltb_ℤ pts lower)) [
      | inl under ↦ rw (here, under, none_from lower pts fs under h.0)
      | inr inside ↦
          rw (here, inside)
            (walk_back_lem req start lower (i - 1) fs (submit_at req pts s) h.1 (omega (arith, e))
              (λ n l. k n (omega (arith, l))))
    ]

walk_forward_lem :
    (req : PrefetchRangeReq) (start : ℕ) (upper : ℤ) (i : ℕ) (fs : List Frame) (s : Jobs)
    → IsRising fs
    → ((n : ℕ) → i ≤ n → is_skipped req start n ≡ false)
    → walk_forward req start upper i fs s ≡ submit_all req (keep (to_time upper) fs) s
unfolding walk_forward
walk_forward_lem req start upper i [] s h k = refl
walk_forward_lem req start upper i ((pts, key) ∷ fs) s h k =
    let here : is_skipped req start i ≡ false = k i (omega arith) in
    elim (Bool-cases (ltb_ℤ upper pts)) [
      | inl over ↦ rw (here, over, none_to upper pts fs over h.0)
      | inr inside ↦
          rw (here, inside)
            (walk_forward_lem req start upper (i + 1) fs (submit_at req pts s) h.1
              (λ n l. k n (omega (arith, l))))
    ]

-- The start frame comes first in each walk, and is left out unless it is asked for.
abbrev pub with_start : PrefetchRangeReq → List Frame → List Frame
with_start req fs = if req.include_start then fs else drop 1 fs

asked_lem :
    (req : PrefetchRangeReq) (start n : ℕ) (fs : List Frame)
    → req.include_start ≡ true
    → (is_skipped req start n ≡ false) × (with_start req fs ≡ fs)
asked_lem req start n fs e = ground (arith, e)

left_lem :
    (req : PrefetchRangeReq) (start : ℕ) (fs : List Frame)
    → req.include_start ≡ false
    → (is_skipped req start start ≡ true)
      × ((n : ℕ) → ¬ (n ≡ start) → is_skipped req start n ≡ false)
      × (with_start req fs ≡ drop 1 fs)
left_lem req start fs e = (ground (arith, e), λ n h. ground (arith, e, h), ground (arith, e))

pub walk_back-with_start :
    (req : PrefetchRangeReq) (start : ℕ) (lower : ℤ) (fs : List Frame) (s : Jobs)
    → IsFalling fs
    → length fs ≡ suc start
    → walk_back req start lower start fs s
      ≡ submit_all req (keep (from_time lower) (with_start req fs)) s
unfolding walk_back
walk_back-with_start req start lower [] s h e = absurd (omega arith)
walk_back-with_start req start lower ((pts, key) ∷ fs) s h e = elim (Bool-cases req.include_start) [
  | inl asked ↦
      walk_back_lem req start lower start ((pts, key) ∷ fs) s h (omega (arith, e))
        (λ n l. (asked_lem req start n [] asked).0)
      ∙ ap (λ (xs : List Frame). submit_all req (keep (from_time lower) xs) s)
          (sym (asked_lem req start 0 ((pts, key) ∷ fs) asked).1)
  | inr left ↦
      (let (skipped, others, rest) = left_lem req start ((pts, key) ∷ fs) left in
        (rw skipped (
          walk_back_lem req start lower (start - 1) fs s h.1 (omega (arith, e))
            (λ n l. others n (λ same. absurd (omega (arith, same, l, e))))))
        ∙ ap (λ (xs : List Frame). submit_all req (keep (from_time lower) xs) s) (sym rest))
]

pub walk_forward-with_start :
    (req : PrefetchRangeReq) (start : ℕ) (upper : ℤ) (fs : List Frame) (s : Jobs)
    → IsRising fs
    → walk_forward req start upper start fs s
      ≡ submit_all req (keep (to_time upper) (with_start req fs)) s
unfolding walk_forward
walk_forward-with_start req start upper [] s h = ground arith
walk_forward-with_start req start upper ((pts, key) ∷ fs) s h =
    elim (Bool-cases req.include_start) [
      | inl asked ↦
          walk_forward_lem req start upper start ((pts, key) ∷ fs) s h
            (λ n l. (asked_lem req start n [] asked).0)
          ∙ ap (λ (xs : List Frame). submit_all req (keep (to_time upper) xs) s)
              (sym (asked_lem req start 0 ((pts, key) ∷ fs) asked).1)
      | inr left ↦
          (let (skipped, others, rest) = left_lem req start ((pts, key) ∷ fs) left in
            (rw skipped (
              walk_forward_lem req start upper (start + 1) fs s h.1
                (λ n l. others n (λ same. absurd (omega (arith, same, l))))))
            ∙ ap (λ (xs : List Frame). submit_all req (keep (to_time upper) xs) s) (sym rest))
    ]
