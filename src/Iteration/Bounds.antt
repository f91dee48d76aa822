-- ===== src/Iteration/Bounds.antt =====
-- Where iterations begin and end.
use native.Mathlib.Nat.{add-zero}
use native.Mathlib.Decide.{dec_lt}
use trackstar.Common.{ap, arith, subst, suc, sym, true, zero, ℕ, ◌*◌, ◌+◌, ◌-◌, ◌<◌, ◌↔◌, ◌≡◌, ◌≤◌}
use trackstar.Iteration.{
  Calendar, IsCalendar, Iteration, Schedule, contains, length_of, number, origin_day,
}

module _ (c : Calendar) (k : IsCalendar c) where
  midnight_add : (d n : ℕ) → c.midnight d + n ≤ c.midnight (d + n)
  midnight_add d zero = omega (arith, ap c.midnight (add-zero d))
  midnight_add d (suc n) =
      let e : d + suc n ≡ d + n + 1 = omega arith in
      omega (arith, midnight_add d n, k.midnight_step (d + n), ap c.midnight e)

  -- Later days begin later, by a second a day at least.
  pub midnight_le : (a b : ℕ) → a ≤ b → c.midnight a + (b - a) ≤ c.midnight b
  midnight_le a b h =
      let e : a + (b - a) ≡ b = omega arith in
      omega (arith, midnight_add a (b - a), ap c.midnight e)

  -- A day that begins after an instant is a later day than the instant's.
  pub day_of-lt : (t d : ℕ) → t < c.midnight d → c.day_of t < d
  day_of-lt t d h = elim (dec_lt (c.day_of t) d) [
    | yes lt ↦ lt
    | no ge ↦ absurd (omega (arith, midnight_le d (c.day_of t) (omega arith), k.day_begins t))
  ]

  pub le-day_of : (t d : ℕ) → c.midnight d ≤ t → d ≤ c.day_of t
  le-day_of t d h = elim (dec_lt (c.day_of t) d) [
    | no ge ↦ omega arith
    | yes lt ↦ absurd (omega (arith, midnight_le (c.day_of t + 1) d (omega arith), k.day_ends t))
  ]

pub contains_iff :
    (it : Iteration) (t : ℕ) → (contains it t ≡ true) ↔ ((it.start_at ≤ t) × (t < it.end_at))
unfolding contains
contains_iff it t = ground arith

pub mul_le : (a b n : ℕ) → a ≤ b → a * n ≤ b * n
mul_le a b n h = grind arith

pub mul_pos : (a n : ℕ) → 1 ≤ n → a ≤ a * n
mul_pos a n h = grind arith

pub length_of_pos : (s : Schedule) → 1 ≤ length_of s
unfolding length_of
length_of_pos s = ground arith

module _ (c : Calendar) (k : IsCalendar c) (s : Schedule) where
  -- Iterations follow one another without a gap.
  pub number_contiguous : (n : ℕ) → (number c s n).end_at ≡ (number c s (n + 1)).start_at
  unfolding number
  number_contiguous n = ap (λ m. c.midnight (origin_day c s + m * length_of s)) (omega arith)

  -- The days of iteration m + 1.
  abbrev pub InDays : ℕ → ℕ → Type 0
  InDays m t =
      (origin_day c s + m * length_of s ≤ c.day_of t)
      × (c.day_of t < origin_day c s + (m + 1) * length_of s)

  -- An instant before the first of these days is before the iteration.
  pub before_start :
      (m t : ℕ) → c.day_of t < origin_day c s + m * length_of s → t < (number c s (m + 1)).start_at
  unfolding number
  before_start m t h =
      let e : origin_day c s + (m + 1 - 1) * length_of s ≡ origin_day c s + m * length_of s =
        ap (λ j. origin_day c s + j * length_of s) (omega arith) in
      omega (
        arith,
        k.day_ends t,
        midnight_le c k (c.day_of t + 1) (origin_day c s + m * length_of s) (omega arith),
        ap c.midnight e,
      )

  pub from_start :
      (m t : ℕ) → origin_day c s + m * length_of s ≤ c.day_of t → (number c s (m + 1)).start_at ≤ t
  unfolding number
  from_start m t h =
      let e : origin_day c s + (m + 1 - 1) * length_of s ≡ origin_day c s + m * length_of s =
        ap (λ j. origin_day c s + j * length_of s) (omega arith) in
      omega (
        arith,
        k.day_begins t,
        midnight_le c k (origin_day c s + m * length_of s) (c.day_of t) h,
        ap c.midnight e,
      )

  pub before_end :
      (m t : ℕ)
      → c.day_of t < origin_day c s + (m + 1) * length_of s
      → t < (number c s (m + 1)).end_at
  before_end m t h = subst (λ e. t < e) (sym (number_contiguous (m + 1))) (before_start (m + 1) t h)

  pub from_end :
      (m t : ℕ)
      → origin_day c s + (m + 1) * length_of s ≤ c.day_of t
      → (number c s (m + 1)).end_at ≤ t
  from_end m t h = subst (λ e. e ≤ t) (sym (number_contiguous (m + 1))) (from_start (m + 1) t h)

  -- An iteration contains exactly the instants of its days.
  pub contains_days : (m t : ℕ) → (contains (number c s (m + 1)) t ≡ true) ↔ InDays m t
  contains_days m t = (
    λ h.
        let (from, to) = (contains_iff (number c s (m + 1)) t).0 h in (first_day from, last_day to),
    λ h. (contains_iff (number c s (m + 1)) t).1 (from_start m t h.0, before_end m t h.1),
  )
    where
      first_day : (number c s (m + 1)).start_at ≤ t → origin_day c s + m * length_of s ≤ c.day_of t
      first_day h = elim (dec_lt (c.day_of t) (origin_day c s + m * length_of s)) [
        | yes lt ↦ absurd (omega (arith, before_start m t lt))
        | no ge ↦ omega arith
      ]

      last_day :
          t < (number c s (m + 1)).end_at → c.day_of t < origin_day c s + (m + 1) * length_of s
      last_day h = elim (dec_lt (c.day_of t) (origin_day c s + (m + 1) * length_of s)) [
        | yes lt ↦ lt
        | no ge ↦ absurd (omega (arith, from_end m t (omega arith)))
      ]
