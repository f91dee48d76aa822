-- ===== src/Velocity/Total.antt =====
-- `Velocity` of internal/velocity/velocity.go, and the stories accepted in its iterations.
use trackstar.Common.{
  All, All-imp, Bool, List, Option-cases, [], ap, arith, false, inl, inr, length, length-map, max,
  min, refl, select, select_passes, subst, suc, true, zero, ℕ, ◌+◌, ◌-◌, ◌/◌, ◌<◌, ◌∷◌, ◌≡◌, ◌≤◌,
}
use trackstar.Db.Accounts.{get_project}
use trackstar.Db.Order.{All-sort_by, insert_by, sort_by}
use trackstar.Db.Rows.{Db, ProjectRow, StoryRow}
use trackstar.Db.Tx.{ok}
use trackstar.Iteration.{
  Calendar, IsCalendar, Iteration, Schedule, at_time, number, range, range_from,
}
use trackstar.Story.Types.{Env}
use trackstar.Story.View.{schedule_of}
use trackstar.Velocity.{
  Bucket, IterationPoints, VelocityResult, accepted_between, accepted_le, accepted_time, buckets,
  count_into, list_accepted_stories, measured, no_buckets, points_in, points_of, total_of, velocity,
}
use trackstar.Velocity.Buckets.{at_time_between, bumped, bumped_inside, total_in}

pub sum_points : List StoryRow → ℕ
sum_points [] = 0
sum_points (r ∷ rs) = points_of r + sum_points rs

-- The points of the stories of a project that were accepted in a span of time.
abbrev pub accepted_points : ℕ → ℕ → ℕ → Db → ℕ
accepted_points project from before d =
    sum_points (select (accepted_between project from before) d.stories)

sum_points-insert_by :
    (le : StoryRow → StoryRow → Bool) (r : StoryRow) (rs : List StoryRow)
    → sum_points (insert_by le r rs) ≡ points_of r + sum_points rs
unfolding insert_by sum_points
sum_points-insert_by le r [] = refl
sum_points-insert_by le r (x ∷ xs) = ground (arith, sum_points-insert_by le r xs)

sum_points-sort_by :
    (le : StoryRow → StoryRow → Bool) (rs : List StoryRow)
    → sum_points (sort_by le rs) ≡ sum_points rs
unfolding sort_by sum_points
sum_points-sort_by le [] = refl
sum_points-sort_by le (r ∷ rs) =
    omega (arith, sum_points-insert_by le r (sort_by le rs), sum_points-sort_by le rs)

total_in_empty :
    (c : Calendar) (s : Schedule) (count from : ℕ)
    → total_in no_buckets (range_from c s count from) ≡ 0
unfolding range_from number total_of
total_in_empty c s zero from = refl
total_in_empty c s (suc count) from = omega (arith, total_in_empty c s count (from + 1))

-- When a row was accepted.
abbrev AcceptedIn : ℕ → ℕ → StoryRow → Type 0
AcceptedIn from before r = (from ≤ accepted_time r) × (accepted_time r < before)

between-AcceptedIn :
    (project from before : ℕ) (r : StoryRow)
    → accepted_between project from before r ≡ true
    → AcceptedIn from before r
between-AcceptedIn project from before r e = elim (Option-cases r.accepted_at) [
  | inl never ↦ absurd (ground (arith, never, e))
  | inr (at, found) ↦ rw found (ground (arith, found, e), ground (arith, found, e))
]

module _ (env : Env) (k : IsCalendar env.calendar) (s : Schedule) where
  -- The rows of a span of iterations add their points to the buckets of the span.
  count_into-total :
      (f count : ℕ) (rows : List StoryRow) (m : ℕ → Bucket)
      → All
          (AcceptedIn
            (number env.calendar s (f + 1)).start_at
            (number env.calendar s (f + count + 1)).start_at)
          rows
      → total_in (count_into env s rows m) (range_from env.calendar s count (f + 1))
        ≡ total_in m (range_from env.calendar s count (f + 1)) + sum_points rows
  unfolding count_into sum_points number
  count_into-total f count [] m h = omega arith
  count_into-total f count (r ∷ rows) m h =
      let (q, found, lo, hi) =
        at_time_between env.calendar k s f (f + count) (accepted_time r) h.0.0 h.0.1 in
      let n = (at_time env.calendar s (accepted_time r)).number in
      let same : n ≡ q + 1 = number_of q found in
      omega (
        arith,
        count_into-total f count rows (bumped r n m) h.1,
        bumped_inside env.calendar s r m n count (f + 1) (omega arith) (omega arith),
      )
    where
      number_of : {it : Iteration} (q : ℕ) → it ≡ number env.calendar s (q + 1) → it.number ≡ q + 1
      number_of q e = ap (λ (i : Iteration). i.number) e

length-range_from :
    (c : Calendar) (s : Schedule) (count from : ℕ) → length (range_from c s count from) ≡ count
unfolding range_from
length-range_from c s zero from = refl
length-range_from c s (suc count) from = ap suc (length-range_from c s count (from + 1))

-- The rows that `Velocity` reads.
abbrev window_rows : ℕ → ℕ → ℕ → Db → List StoryRow
window_rows project from before d =
    sort_by accepted_le (select (accepted_between project from before) d.stories)

range_window :
    (c : Calendar) (s : Schedule) (q f n w : ℕ)
    → f ≡ q + 1 - w
    → 1 ≤ w
    → q ≡ f + n
    → range c s (max 1 (q + 2 - w)) (q + 2 - 1) ≡ range_from c s (suc n) (f + 1)
unfolding range
range_window c s q f n w a b e =
    let start : max 1 (max 1 (q + 2 - w)) ≡ f + 1 = omega arith in
    let count : q + 2 - 1 + 1 - max 1 (max 1 (q + 2 - w)) ≡ suc n = omega arith in
    rw (count, start) refl

window_total :
    (env : Env) (k : IsCalendar env.calendar) (s : Schedule) (project f count : ℕ) (d : Db)
    → total_in
        (count_into env s
          (window_rows project
            (number env.calendar s (f + 1)).start_at
            (number env.calendar s (f + count + 1)).start_at
            d)
          no_buckets)
        (range_from env.calendar s count (f + 1))
      ≡ accepted_points project
          (number env.calendar s (f + 1)).start_at
          (number env.calendar s (f + count + 1)).start_at
          d
window_total env k s project f count d =
    let from = (number env.calendar s (f + 1)).start_at in
    let before = (number env.calendar s (f + count + 1)).start_at in
    let rows = select (accepted_between project from before) d.stories in
    let inside : All (AcceptedIn from before) rows =
      All-imp rows (between-AcceptedIn project from before)
        (select_passes (accepted_between project from before) d.stories) in
    omega (
      arith,
      count_into-total env k s f count (sort_by accepted_le rows) no_buckets
          (All-sort_by (AcceptedIn from before) accepted_le rows inside),
      total_in_empty env.calendar s count (f + 1),
      sum_points-sort_by accepted_le rows,
    )

velocity_runs :
    (env : Env) (project now q f n : ℕ) (p : ProjectRow) (d : Db)
    → get_project project d ≡ (ok p, d)
    → at_time env.calendar (schedule_of p) now ≡ number env.calendar (schedule_of p) (q + 2)
    → range env.calendar (schedule_of p) (max 1 (q + 2 - p.velocity_window)) (q + 2 - 1)
      ≡ range_from env.calendar (schedule_of p) (suc n) (f + 1)
    → velocity env now project d ≡ (
      ok (
          measured p.velocity_window (
            points_in
              (count_into env
                (schedule_of p)
                (window_rows project
                  (number env.calendar (schedule_of p) (f + 1)).start_at
                  (number env.calendar (schedule_of p) (q + 2)).start_at
                  d)
                no_buckets)
              (range_from env.calendar (schedule_of p) (suc n) (f + 1)))),
      d,
    )
unfolding velocity buckets list_accepted_stories number range_from
velocity_runs env project now q f n p d found at window = ground (arith, found, at, window)

-- With `q + 1` completed iterations, of which the window covers the last ones, numbered from
-- `f + 1` on, `Velocity` succeeds. What it averages over is as many iterations as are both
-- completed and in the window, and their total is the points of all stories of the project that
-- were accepted from the start of the first of them to the start of the current iteration: every
-- story counts, and counts once. The velocity is the average rounded down.
pub velocity-accepted_points :
    (env : Env) (k : IsCalendar env.calendar) (project now q : ℕ) (p : ProjectRow) (d : Db)
    → get_project project d ≡ (ok p, d)
    → 1 ≤ p.velocity_window
    → at_time env.calendar (schedule_of p) now ≡ number env.calendar (schedule_of p) (q + 2)
    → (v : VelocityResult) × (velocity env now project d ≡ (ok v, d))
      × (v.average.0
          ≡ accepted_points project
              (number env.calendar (schedule_of p) (q + 1 - p.velocity_window + 1)).start_at
              (number env.calendar (schedule_of p) (q + 2)).start_at
              d)
      × (v.average.1 ≡ min p.velocity_window (q + 1))
      × (v.velocity ≡ v.average.0 / v.average.1)
      × (v.estimated ≡ false)
unfolding velocity buckets list_accepted_stories
velocity-accepted_points env k project now q p d found w at =
    let s = schedule_of p in
    let c = env.calendar in
    let f = q + 1 - p.velocity_window in
    let n = q - f in
    let from = (number c s (f + 1)).start_at in
    let before = (number c s (q + 2)).start_at in
    let rows = window_rows project from before d in
    let its = range_from c s (suc n) (f + 1) in
    let m = count_into env s rows no_buckets in
    let v = measured p.velocity_window (points_in m its) in
    let last : f + suc n + 1 ≡ q + 2 = omega arith in
    (
      v,
      velocity_runs env project now q f n p d found at
          (range_window c s q f n p.velocity_window refl w (omega arith)),
      subst
          (λ j.
            total_in
              (count_into env s (window_rows project from (number c s j).start_at d) no_buckets) its
            ≡ accepted_points project from (number c s j).start_at d)
          last (window_total env k s project f (suc n) d),
      omega (
        arith,
        length-map {B = IterationPoints}
            (λ (it : Iteration). record { number = it.number; points = (m it.number).points }) its,
        length-range_from c s (suc n) (f + 1),
      ),
      refl,
      refl,
    )
