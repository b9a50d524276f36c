-- ===== src/Calendar.antt =====
-- The date of a time stamp: epoch_to_parts and its helpers in
-- crates/frame-forge/src/generation_log.rs.
use jellyfin_recents.Prelude.{
  length, ℕ, zero, suc, ◌+◌, ◌-◌, ◌*◌, ◌/◌, ◌%◌, ◌≤◌, ◌<◌, ◌≡◌, Bool, not, ◌&&◌, ◌||◌, List, [],
  ◌∷◌, ltb, ◌==◌, nat_eq, if◌then◌else◌,
}

unfoldable pub is_leap : ℕ → Bool
is_leap y = y % 4 == 0 && not (y % 100 == 0) || y % 400 == 0

unfoldable pub year_days : ℕ → ℕ
year_days y = if is_leap y then 366 else 365

-- The loop of `days_to_year` from the year `y`, on fuel.
unfoldable pub year_loop : ℕ → ℕ → ℕ → ℕ × ℕ
year_loop zero y days = (y, days)
year_loop (suc f) y days =
    let rest = year_loop f (y + 1) (days - year_days y) in
    if ltb days (year_days y) then (y, days) else rest

-- Every turn takes off at least 365 days, so a turn for each day is enough.
unfoldable pub days_to_year : ℕ → ℕ × ℕ
days_to_year days = year_loop (suc days) 1970 days

abbrev pub months : Bool → List ℕ
months leap = 31 ∷ (if leap then 29 else 28) ∷ 31 ∷ 30 ∷ 31 ∷ 30 ∷ 31 ∷ 31 ∷ 30 ∷ 31 ∷ 30 ∷ 31 ∷ []

unfoldable pub month_loop : List ℕ → ℕ → ℕ → ℕ × ℕ
month_loop [] mo days = (mo, days + 1)
month_loop (dm ∷ dms) mo days =
    let rest = month_loop dms (mo + 1) (days - dm) in if ltb days dm then (mo, days + 1) else rest

unfoldable pub days_to_month : ℕ → Bool → ℕ × ℕ
days_to_month days leap = month_loop (months leap) 1 days

pub record Parts : Type 0 where
  pub year : ℕ
  pub month : ℕ
  pub day : ℕ
  pub hour : ℕ
  pub minute : ℕ
  pub second : ℕ

unfoldable pub epoch_to_parts : ℕ → Parts
epoch_to_parts secs =
    let (y, remaining) = days_to_year (secs / 60 / 60 / 24) in
    let (mo, d) = days_to_month remaining (is_leap y) in
    record {
      year = y;
      month = mo;
      day = d;
      hour = secs / 60 / 60 % 24;
      minute = secs / 60 % 60;
      second = secs % 60;
    }

-- The days of `n` years from the year `y`.
unfoldable pub days_of_years : ℕ → ℕ → ℕ
days_of_years y zero = 0
days_of_years y (suc n) = year_days y + days_of_years (y + 1) n

-- The days of the first `n` of the months `ms`.
unfoldable pub days_of_months : ℕ → List ℕ → ℕ
days_of_months zero ms = 0
days_of_months (suc n) [] = 0
days_of_months (suc n) (m ∷ ms) = m + days_of_months n ms

abbrev pub month_length : ℕ → List ℕ → ℕ
month_length zero [] = 0
month_length zero (m ∷ ms) = m
month_length (suc n) [] = 0
month_length (suc n) (m ∷ ms) = month_length n ms

-- The days of the calendar date, counted from the first of January of `y`.
pub record IsYear (y days : ℕ) (r : ℕ × ℕ) : Type 0 where
  pub passed : ℕ
  pub year : r.0 ≡ y + passed
  pub days_left : days_of_years y passed + r.1 ≡ days
  pub in_year : r.1 < year_days r.0

pub record IsMonth (ms : List ℕ) (mo days : ℕ) (r : ℕ × ℕ) : Type 0 where
  pub passed : ℕ
  pub in_list : passed < length ms
  pub month : r.0 ≡ mo + passed
  pub days_left : days_of_months passed ms + r.1 ≡ days + 1
  pub in_month : (1 ≤ r.1) × (r.1 ≤ month_length passed ms)

sum : List ℕ → ℕ
sum [] = 0
sum (m ∷ ms) = m + sum ms

-- The seconds since 1970-01-01 of a date, by the lengths of the years and the months before it.
unfoldable pub epoch_of_parts : Parts → ℕ
epoch_of_parts p =
    let years = days_of_years 1970 (p.year - 1970) in
    let earlier = days_of_months (p.month - 1) (months (is_leap p.year)) in
    (((years + earlier + (p.day - 1)) * 24 + p.hour) * 60 + p.minute) * 60 + p.second

-- A date of the calendar from 1970 on.
pub record IsDate (p : Parts) : Type 0 where
  pub year : 1970 ≤ p.year
  pub month : (1 ≤ p.month) × (p.month ≤ 12)
  pub day : (1 ≤ p.day) × (p.day ≤ month_length (p.month - 1) (months (is_leap p.year)))
  pub time : (p.hour < 24) × (p.minute < 60) × (p.second < 60)
