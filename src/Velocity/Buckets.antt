-- ===== src/Velocity/Buckets.antt =====
-- The buckets of internal/velocity/velocity.go over a range of iterations.
use native.Mathlib.Decide.{dec_lt}
use trackstar.Common.{
  Bool-cases, List, arith, if◌then◌else◌, inl, inr, refl, suc, zero, ℕ, ◌*◌, ◌+◌, ◌-◌, ◌<◌, ◌==◌,
  ◌≡◌, ◌≤◌,
}
use trackstar.Db.Rows.{StoryRow}
use trackstar.Iteration.{
  Calendar, IsCalendar, Iteration, Schedule, at_time, length_of, number, origin, origin_day,
  range_from,
}
use trackstar.Iteration.Bounds.{before_start, contains_days, from_start, midnight_le, mul_le}
use trackstar.Iteration.Lookup.{at_time-contains}
use trackstar.Velocity.{Bucket, points_in, points_of, total_of, with_story}

module _ (c : Calendar) (k : IsCalendar c) (s : Schedule) where
  -- `At` always returns an iteration numbered from 1 on.
  pub at_time_number : (t : ℕ) → (q : ℕ) × (at_time c s t ≡ number c s (q + 1))
  at_time_number t = elim (dec_lt t (origin c s)) [
    | yes early ↦ (0, (at_time-contains c k s t).0 early)
    | no late ↦ let (q, found, _, _) = (at_time-contains c k s t).1 (omega arith) in (q, found)
  ]

  after_origin : (f t : ℕ) → (number c s (f + 1)).start_at ≤ t → origin c s ≤ t
  unfolding origin number
  after_origin f t h = omega (
    arith,
    midnight_le c k (origin_day c s) (origin_day c s + (f + 1 - 1) * length_of s) (omega arith),
    h,
  )

  not_before :
      (f q day : ℕ)
      → origin_day c s + f * length_of s ≤ day
      → day < origin_day c s + (q + 1) * length_of s
      → f ≤ q
  not_before f q day lo hi = elim (dec_lt q f) [
    | yes lt ↦ absurd (omega (arith, mul_le (q + 1) f (length_of s) (omega arith), lo, hi))
    | no ge ↦ omega arith
  ]

  not_after :
      (q e day : ℕ)
      → origin_day c s + q * length_of s ≤ day
      → day < origin_day c s + e * length_of s
      → q < e
  not_after q e day lo hi = elim (dec_lt q e) [
    | yes lt ↦ lt
    | no ge ↦ absurd (omega (arith, mul_le e q (length_of s) (omega arith), lo, hi))
  ]

  -- An instant between the starts of two iterations belongs to one from the first on and before the
  -- second.
  pub at_time_between :
      (f e t : ℕ)
      → (number c s (f + 1)).start_at ≤ t
      → t < (number c s (e + 1)).start_at
      → (q : ℕ) × (at_time c s t ≡ number c s (q + 1)) × (f ≤ q) × (q < e)
  at_time_between f e t from before =
      let begins : origin_day c s + f * length_of s ≤ c.day_of t =
        elim (dec_lt (c.day_of t) (origin_day c s + f * length_of s)) [
          | yes lt ↦ absurd (omega (arith, before_start c k s f t lt))
          | no ge ↦ omega arith
        ] in
      let ends : c.day_of t < origin_day c s + e * length_of s =
        elim (dec_lt (c.day_of t) (origin_day c s + e * length_of s)) [
          | yes lt ↦ lt
          | no ge ↦ absurd (omega (arith, from_start c k s e t (omega arith)))
        ] in
      let (q, found, inside, _) = (at_time-contains c k s t).1 (after_origin f t from) in
      let days = (contains_days c k s q t).0 inside in
      (q, found, not_before f q (c.day_of t) begins days.1, not_after q e (c.day_of t) days.0 ends)

abbrev pub total_in : (ℕ → Bucket) → List Iteration → ℕ
total_in m its = total_of (points_in m its)

-- One more story in the bucket `n`.
abbrev pub bumped : StoryRow → ℕ → (ℕ → Bucket) → ℕ → Bucket
bumped r n m k = if k == n then with_story r (m k) else m k

module _ (c : Calendar) (s : Schedule) (r : StoryRow) (m : ℕ → Bucket) where
  bumped_outside :
      (n count from : ℕ)
      → n < from
      → total_in (bumped r n m) (range_from c s count from) ≡ total_in m (range_from c s count from)
  unfolding range_from number total_of
  bumped_outside n zero from lt = refl
  bumped_outside n (suc count) from lt =
      ground (arith, lt, bumped_outside n count (from + 1) (omega arith))

  pub bumped_inside :
      (n count from : ℕ)
      → from ≤ n
      → n < from + count
      → total_in (bumped r n m) (range_from c s count from)
        ≡ total_in m (range_from c s count from) + points_of r
  unfolding range_from number total_of
  bumped_inside n zero from lo hi = absurd (omega arith)
  bumped_inside n (suc count) from lo hi = elim (Bool-cases (from == n)) [
    | inl here ↦ ground (arith, here, bumped_outside n count (from + 1) (ground (arith, here)))
    | inr later ↦
        ground
          (arith, later, bumped_inside n count (from + 1) (ground (arith, later)) (omega arith))
  ]
