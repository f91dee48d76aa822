-- ===== src/Velocity.antt =====
-- internal/velocity/velocity.go: points per iteration and the average that plans are made with.
pub mod Buckets
pub mod Total
use mathlib.Core.Option
use trackstar.AppErr.{or_not_found}
use trackstar.Common.{
  Bool, List, Option, [], false, if◌then◌else◌, is_some, leb, length, ltb, map, max, none, not,
  select, some, true, ℕ, ◌&&◌, ◌+◌, ◌-◌, ◌/◌, ◌==◌, ◌||◌, ◌∷◌,
}
use trackstar.Db.Accounts.{get_project}
use trackstar.Db.Order.{sort_by}
use trackstar.Db.Rows.{StoryRow}
use trackstar.Db.Tx.{Tx, gets, map_err, pure, ◌>>=◌, ◌>>◌}
use trackstar.Iteration.{Iteration, Schedule, at_time, number, range}
use trackstar.Story.Types.{Env}
use trackstar.Story.View.{schedule_of}

pub record IterationPoints : Type 0 where
  pub number : ℕ
  pub points : ℕ

-- `Result`. `Average`, a float64, is kept as the division that it is the result of.
pub record VelocityResult : Type 0 where
  pub velocity : ℕ
  pub average : ℕ × ℕ
  pub window : ℕ
  pub estimated : Bool
  pub iterations : List IterationPoints

pub record IterationSummary : Type 0 where
  pub iteration : Iteration
  pub current : Bool
  pub points : ℕ
  pub accepted_stories : ℕ

abbrev pub default_velocity : ℕ
default_velocity = 10

pub record Bucket : Type 0 where
  pub points : ℕ
  pub stories : ℕ

-- The map of `buckets`, which gives the zero bucket for a key that is missing.
abbrev pub no_buckets : ℕ → Bucket
no_buckets n = record { points = 0; stories = 0 }

abbrev pub points_of : StoryRow → ℕ
points_of r = Option.get_or r.estimate 0

-- `r.AcceptedAt.Int64`
abbrev pub accepted_time : StoryRow → ℕ
accepted_time r = Option.get_or r.accepted_at 0

abbrev pub with_story : StoryRow → Bucket → Bucket
with_story r b = record { points = b.points + points_of r; stories = b.stories + 1 }

-- ListAcceptedStories of internal/database/dbgen/stories.sql.go.
abbrev pub accepted_between : ℕ → ℕ → ℕ → StoryRow → Bool
accepted_between project from before s =
    s.project_id == project
    && not (is_some s.deleted_at)
    && elim s.accepted_at [ none ↦ false | some at ↦ leb from at && ltb at before ]

abbrev pub accepted_le : StoryRow → StoryRow → Bool
accepted_le a b =
    let s = accepted_time a in let t = accepted_time b in ltb s t || (s == t && leb a.id b.id)

unfoldable pub list_accepted_stories : ℕ → ℕ → ℕ → Tx (List StoryRow)
list_accepted_stories project from before =
    gets λ d. sort_by accepted_le (select (accepted_between project from before) d.stories)

abbrev pub points_in : (ℕ → Bucket) → List Iteration → List IterationPoints
points_in m = map (λ it. record { number = it.number; points = (m it.number).points })

pub total_of : List IterationPoints → ℕ
total_of [] = 0
total_of (p ∷ ps) = p.points + total_of ps

abbrev pub measured : ℕ → List IterationPoints → VelocityResult
measured window ps = record {
  velocity = total_of ps / length ps;
  average = (total_of ps, length ps);
  window = window;
  estimated = false;
  iterations = ps;
}

abbrev pub summary : ℕ → (ℕ → Bucket) → Iteration → IterationSummary
summary current m it = record {
  iteration = it;
  current = it.number == current;
  points = (m it.number).points;
  accepted_stories = (m it.number).stories;
}

module _ (env : Env) where
  -- The loop of `buckets`.
  unfoldable pub count_into : Schedule → List StoryRow → (ℕ → Bucket) → ℕ → Bucket
  count_into sched [] m = m
  count_into sched (r ∷ rs) m =
      let n = (at_time env.calendar sched (accepted_time r)).number in
      count_into sched rs (λ k. if k == n then with_story r (m k) else m k)

  unfoldable pub buckets : ℕ → Schedule → ℕ → ℕ → Tx (ℕ → Bucket)
  unfolding list_accepted_stories count_into
  buckets project sched from to = do
    rows ← list_accepted_stories project from to
    pure (count_into sched rows no_buckets)

  -- `Velocity`
  unfoldable pub velocity : ℕ → ℕ → Tx VelocityResult
  unfolding buckets schedule_of
  velocity now project = do
    p ← map_err (or_not_found "project") (get_project project)
    let sched = schedule_of p
    let current = at_time env.calendar sched now
    let from = max 1 (current.number - p.velocity_window)
    elim (range env.calendar sched from (current.number - 1)) [
      | [] ↦ pure (record {
        velocity = default_velocity;
        average = (default_velocity, 1);
        window = p.velocity_window;
        estimated = true;
        iterations = [];
      })
      | it ∷ its ↦ do
        m ← buckets project sched it.start_at current.start_at
        pure (measured p.velocity_window (points_in m (it ∷ its)))
    ]

  -- `Iterations`
  unfoldable pub iterations : ℕ → ℕ → Tx (List IterationSummary)
  unfolding buckets schedule_of
  iterations now project = do
    p ← map_err (or_not_found "project") (get_project project)
    let sched = schedule_of p
    let current = at_time env.calendar sched now
    m ← buckets project sched (number env.calendar sched 1).start_at current.end_at
    pure (map (summary current.number m) (range env.calendar sched 1 current.number))
