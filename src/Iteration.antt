-- ===== src/Iteration.antt =====
-- internal/iteration/iteration.go: how a project slices time into iterations. Instants are Unix
-- seconds; local days are numbered from a Sunday well before the epoch.
pub mod Bounds
pub mod Lookup
use trackstar.Common.{
  Bool, List, [], if◌then◌else◌, ltb, max, not, suc, zero, ℕ, ◌%◌, ◌&&◌, ◌*◌, ◌+◌, ◌-◌, ◌/◌, ◌<◌,
  ◌∷◌, ◌≤◌,
}

-- What package time does in the schedule's location: the instant at which a local day begins
-- (`time.Date` at 0:00:00, which takes a day out of its month's range as the day so many days on),
-- and the local day of an instant (`Year`, `Month` and `Day` of `In`).
pub record Calendar : Type 0 where
  pub midnight : ℕ → ℕ
  pub day_of : ℕ → ℕ

-- Days follow one another, and an instant lies in its day. (Not so in a zone whose clocks change at
-- midnight, where `time.Date` promises no more than some instant near by.)
pub record IsCalendar (c : Calendar) : Type 0 where
  pub midnight_step : (d : ℕ) → c.midnight d < c.midnight (d + 1)
  pub day_begins : (t : ℕ) → c.midnight (c.day_of t) ≤ t
  pub day_ends : (t : ℕ) → t < c.midnight (c.day_of t + 1)

pub record Schedule : Type 0 where
  pub length_days : ℕ
  pub start_weekday : ℕ
  pub anchor : ℕ

pub record Iteration : Type 0 where
  pub number : ℕ
  pub start_at : ℕ
  pub end_at : ℕ

-- `Contains`
unfoldable pub contains : Iteration → ℕ → Bool
contains it t = not (ltb t it.start_at) && ltb t it.end_at

-- `length`
unfoldable pub length_of : Schedule → ℕ
length_of s = if ltb s.length_days 1 then 7 else s.length_days

-- `Weekday`, 0 for Sunday.
abbrev pub weekday : ℕ → ℕ
weekday day = day % 7

module _ (c : Calendar) (s : Schedule) where
  -- The day that `origin` falls on; the source's sum of integers is never negative, as the start
  -- weekday is at most 6.
  unfoldable pub origin_day : ℕ
  origin_day = let day = c.day_of s.anchor in day - (weekday day + 7 - s.start_weekday) % 7

  unfoldable pub origin : ℕ
  unfolding origin_day
  origin = c.midnight origin_day

  -- `Number`, for n ≥ 1.
  unfoldable pub number : ℕ → Iteration
  unfolding origin_day length_of
  number n = record {
    number = n;
    start_at = c.midnight (origin_day + (n - 1) * length_of s);
    end_at = c.midnight (origin_day + n * length_of s);
  }

  -- The loop of `At`, on fuel.
  unfoldable pub seek : ℕ → ℕ → ℕ → Iteration
  unfolding number
  seek zero n t = number n
  seek (suc fuel) n t =
      let it = number n in
      let earlier = seek fuel (n - 1) t in
      let later = seek fuel (n + 1) t in
      if ltb t it.start_at then earlier else if ltb t it.end_at then it else later

  -- `At`
  unfoldable pub at_time : ℕ → Iteration
  unfolding seek origin
  at_time t =
      let n = (t - origin) / (length_of s * 86400) + 1 in
      if ltb t origin then number 1 else seek (n + c.day_of t + 2) n t

  unfoldable pub range_from : ℕ → ℕ → List Iteration
  range_from zero n = []
  range_from (suc k) n = number n ∷ range_from k (n + 1)

  -- `Range`
  unfoldable pub range : ℕ → ℕ → List Iteration
  unfolding range_from
  range from to = let from' = max 1 from in range_from (to + 1 - from') from'
