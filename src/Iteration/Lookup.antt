-- ===== src/Iteration/Lookup.antt =====
-- `At` of internal/iteration/iteration.go and its loop.
use native.Mathlib.Nat.{div-add-mod, mod-lt}
use native.Mathlib.Decide.{dec_lt}
use trackstar.Common.{ap, arith, suc, true, zero, ℕ, ◌*◌, ◌+◌, ◌-◌, ◌/◌, ◌<◌, ◌∙◌, ◌≡◌, ◌≤◌}
use trackstar.Iteration.{
  Calendar, IsCalendar, Schedule, at_time, contains, length_of, number, origin, origin_day, seek,
}
use trackstar.Iteration.Bounds.{
  InDays, before_end, before_start, contains_days, from_end, from_start, le-day_of, length_of_pos,
  mul_le, mul_pos,
}

module _ (c : Calendar) (k : IsCalendar c) (s : Schedule) where
  seek_earlier :
      (fuel n t : ℕ)
      → t < (number c s n).start_at
      → seek c s (suc fuel) n t ≡ seek c s fuel (n - 1) t
  unfolding seek
  seek_earlier fuel n t h = ground arith

  seek_later :
      (fuel n t : ℕ)
      → (number c s n).start_at ≤ t
      → (number c s n).end_at ≤ t
      → seek c s (suc fuel) n t ≡ seek c s fuel (n + 1) t
  unfolding seek
  seek_later fuel n t h h' = ground arith

  seek_found :
      (fuel n t : ℕ)
      → (number c s n).start_at ≤ t
      → t < (number c s n).end_at
      → seek c s (suc fuel) n t ≡ number c s n
  unfolding seek
  seek_found fuel n t h h' = ground arith

  abbrev dist : ℕ → ℕ → ℕ
  dist a b = a - b + (b - a)

  -- With fuel for the distance to the right iteration the loop arrives there.
  seek-eq :
      (fuel m q t : ℕ)
      → InDays c k s q t
      → dist m q < fuel
      → seek c s fuel (m + 1) t ≡ number c s (q + 1)
  seek-eq zero m q t h lt = absurd (omega arith)
  seek-eq (suc fuel) m q t h lt = elim (dec_lt m q) [
    | yes below ↦
        let past : origin_day c s + (m + 1) * length_of s ≤ c.day_of t =
          omega (arith, mul_le (m + 1) q (length_of s) (omega arith), h) in
        seek_later fuel (m + 1) t
          (from_start c k s m t (omega (arith, mul_le m q (length_of s) (omega arith), h)))
          (from_end c k s m t past)
        ∙ seek-eq fuel (m + 1) q t h (omega arith)
    | no ge ↦ elim (dec_lt q m) [
      | yes above ↦
          let back : m + 1 - 1 ≡ m - 1 + 1 = omega arith in
          seek_earlier fuel (m + 1) t (
            before_start c k s m t (omega (arith, mul_le (q + 1) m (length_of s) (omega arith), h)))
          ∙ ap (λ n. seek c s fuel n t) back
          ∙ seek-eq fuel (m - 1) q t h (omega arith)
      | no le ↦
          let same : m ≡ q = omega arith in
          seek_found fuel (m + 1) t (from_start c k s m t (rw same h.0))
            (before_end c k s m t (rw same h.1))
          ∙ ap (λ n. number c s (n + 1)) same
    ]
  ]

  -- The iteration of an instant on or after the origin, by division.
  abbrev index_of_day : ℕ → ℕ
  index_of_day t = (c.day_of t - origin_day c s) / length_of s

  index_of_day-InDays : (t : ℕ) → origin c s ≤ t → InDays c k s (index_of_day t) t
  unfolding origin
  index_of_day-InDays t h =
      let late = le-day_of c k t (origin_day c s) h in
      let back = c.day_of t - origin_day c s in
      let parts = div-add-mod back (length_of s) in
      let small = mod-lt back (length_of_pos s) in (omega arith, omega arith)

  InDays-unique : (m q t : ℕ) → InDays c k s m t → InDays c k s q t → m ≡ q
  InDays-unique m q t h h' = elim (dec_lt m q) [
    | yes lt ↦ absurd (omega (arith, mul_le (m + 1) q (length_of s) (omega arith), h, h'))
    | no ge ↦ elim (dec_lt q m) [
      | yes gt ↦ absurd (omega (arith, mul_le (q + 1) m (length_of s) (omega arith), h, h'))
      | no le ↦ omega arith
    ]
  ]

  index_le_day : (q t : ℕ) → InDays c k s q t → q ≤ c.day_of t
  index_le_day q t h = omega (arith, mul_pos q (length_of s) (length_of_pos s), h)

  at_time_later : (q t : ℕ) → origin c s ≤ t → InDays c k s q t → at_time c s t ≡ number c s (q + 1)
  unfolding at_time
  at_time_later q t h days =
      let m = (t - origin c s) / (length_of s * 86400) in
      let arrives =
        seek-eq (m + 1 + c.day_of t + 2) m q t days (omega (arith, index_le_day q t days)) in
      ground (arith, arrives)

  at_time_earlier : (t : ℕ) → t < origin c s → at_time c s t ≡ number c s 1
  unfolding at_time
  at_time_earlier t h = ground arith

  -- The instants on or after the origin of iteration 1 each lie in the iteration that `At` returns,
  -- which is numbered from 1 on; no other iteration contains the instant, and earlier instants get
  -- iteration 1. The loop ends within the fuel given.
  pub at_time-contains :
      (t : ℕ)
      → (t < origin c s → at_time c s t ≡ number c s 1)
        × (origin c s ≤ t
            → (q : ℕ) × (at_time c s t ≡ number c s (q + 1))
              × (contains (number c s (q + 1)) t ≡ true)
              × ((m : ℕ) → contains (number c s (m + 1)) t ≡ true → m ≡ q))
  at_time-contains t = (
    at_time_earlier t,
    λ h.
        let days = index_of_day-InDays t h in
        let q = index_of_day t in
        (
          q,
          at_time_later q t h days,
          (contains_days c k s q t).1 days,
          λ m inside. InDays-unique m q t ((contains_days c k s m t).0 inside) days,
        ),
  )
