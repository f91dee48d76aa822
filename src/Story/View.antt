-- ===== src/Story/View.antt =====
-- `load`, `save`, `record` and the other helpers of internal/story/story.go.
use trackstar.AppErr.{invalid_err, is_not_found, or_not_found}
use trackstar.Common.{
  Bool, List, Option, String, [], false, if◌then◌else◌, is_some, length, ltb, none, not, select,
  some, ℕ, ◌||◌, ◌∷◌,
}
use trackstar.Db.Accounts.{get_project, get_user}
use trackstar.Db.Labels.{list_story_labels}
use trackstar.Db.Planning.{list_story_blockers, list_tasks}
use trackstar.Db.Rows.{LogValue, ProjectRow, StoryRow, TaskRow}
use trackstar.Db.Stories.{count_comments, create_activity, get_story, update_story}
use trackstar.Db.Tx.{Tx, map_err, pure, ◌>>=◌}
use trackstar.Iteration.{Schedule, at_time}
use trackstar.Story.Types.{Env, Story}
use trackstar.Workflow.{Section, State, section_of, state_eq}

-- `Project.Schedule` of internal/project/project.go.
unfoldable pub schedule_of : ProjectRow → Schedule
schedule_of p = record {
  length_days = p.iteration_length_days;
  start_weekday = p.iteration_start_weekday;
  anchor = p.created_at;
}

-- `fromRow`: the section of the board that a row stands in.
unfoldable pub board_section : StoryRow → ℕ → Section
board_section r current_start = elim r.accepted_at [
  | none ↦ section_of r.state
  | some at ↦ if ltb at current_start then Section.done else section_of r.state
]

-- The loop of `load` over the blockers: those that are not deleted, and whether one is open.
unfoldable pub load_blockers : List ℕ → Tx (List ℕ × Bool)
load_blockers [] = pure ([], false)
load_blockers (id ∷ ids) = do
  b ← get_story id
  rest ← load_blockers ids
  pure (
      if is_some b.deleted_at
      then rest
      else (id ∷ rest.0, not (state_eq b.state State.accepted) || rest.1))

-- `requireUser`
unfoldable pub require_user : Option ℕ → String → Tx Unit
require_user none message = pure tt
require_user (some id) message = do
  user ← map_err (λ e. if is_not_found e then invalid_err message else e) (get_user id)
  pure tt

-- What `load` fills in.
abbrev pub loaded_story : StoryRow → ℕ → List String → List ℕ × Bool → ℕ → List TaskRow → Story
loaded_story row start labels waits comments tasks = record {
  row = row;
  section = board_section row start;
  labels = labels;
  comment_count = comments;
  task_count = length tasks;
  tasks_done = length (select (λ t. t.done) tasks);
  blocked_by = waits.0;
  blocked = waits.1;
}

module _ (env : Env) (now : ℕ) where
  unfoldable pub current_iteration_start : ℕ → Tx ℕ
  current_iteration_start project = do
    p ← map_err (or_not_found "project") (get_project project)
    pure (at_time env.calendar (schedule_of p) now).start_at

  unfoldable pub load : StoryRow → Tx Story
  unfolding current_iteration_start board_section load_blockers
  load row = do
    start ← current_iteration_start row.project_id
    labels ← list_story_labels row.id
    blockers ← list_story_blockers row.id
    waits ← load_blockers blockers
    comments ← count_comments row.id
    tasks ← list_tasks row.id
    pure (loaded_story row start labels waits comments tasks)

  unfoldable pub save : StoryRow → Tx Story
  unfolding load
  save row = do updated ← update_story row now; load updated

  -- `record`
  unfoldable pub record_activity : ℕ → ℕ → String → LogValue → LogValue → Tx Unit
  record_activity story actor kind old new = create_activity env.engine story actor kind old new now
