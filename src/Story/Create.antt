-- ===== src/Story/Create.antt =====
-- `Create` of internal/story/story.go.
pub mod Keeps
use mathlib.Core.Option
use Prim.Native.String.{len}
use trackstar.AppErr.{invalid_err, or_not_found}
use trackstar.Common.{
  Option, String, false, if◌then◌else◌, is_some, length, ltb, none, not, some, ℕ, ◌&&◌, ◌==◌,
}
use trackstar.Common.Int.{ℤ}
use trackstar.Common.Text.{is_empty, trim_space}
use trackstar.Db.Accounts.{get_project}
use trackstar.Db.Rows.{LogValue}
use trackstar.Db.Stories.{NewStory, create_story}
use trackstar.Db.Tx.{Result, Tx, err, in_tx, map_err, ok, pure, refuse_if, ◌>>=◌, ◌>>◌}
use trackstar.Story.Blockers.{set_blockers}
use trackstar.Story.Labels.{set_labels}
use trackstar.Story.Move.{bad_target}
use trackstar.Story.Place.{Placement, place}
use trackstar.Story.Types.{CreateInput, Env, Story}
use trackstar.Story.Update.{bad_estimate, no_bug_chore_points}
use trackstar.Story.View.{load, record_activity, require_user}
use trackstar.Workflow.{
  Section, StoryType, entry_state, is_target, section_eq, section_text, type_eq, type_valid,
}

-- The input with its defaults, and the trimmed title.
unfoldable pub checked_input : CreateInput → Result (String × StoryType × Section)
checked_input input =
    let title = trim_space input.title in
    let type = Option.get_or input.type StoryType.feature in
    let sec = Option.get_or input.section Section.icebox in
    if is_empty title
    then err (invalid_err "title is required")
    else if ltb 500 (len title)
    then err (invalid_err "title is too long")
    else if not (type_valid type)
    then err (invalid_err "type must be feature, bug or chore")
    else if bad_estimate input.estimate
    then err (invalid_err "estimate must be one of 0, 1, 2, 3, 5, 8")
    else if not (is_target sec)
    then err bad_target
    else ok (title, type, sec)

-- New stories go on top of the icebox, to the bottom elsewhere, or after a given story.
abbrev pub create_placement : CreateInput → Section → Placement
create_placement input sec = elim input.after [
  | some id ↦ record { prev_id = some id; next_id = none; bottom = false }
  | none ↦ record { prev_id = none; next_id = none; bottom = not (section_eq sec Section.icebox) }
]

abbrev pub new_story : ℕ → ℕ → CreateInput → String → StoryType → Section → ℤ → NewStory
new_story project actor input title type sec position = record {
  project_id = project;
  title = title;
  description = input.description;
  type = type;
  state = entry_state sec;
  estimate = input.estimate;
  position = position;
  requester_id = actor;
  owner_id = input.owner_id;
}

module _ (env : Env) (now : ℕ) where
  unfoldable pub create_body : ℕ → ℕ → CreateInput → String → StoryType → Section → Tx Story
  unfolding require_user
  create_body project actor input title type sec = do
    p ← map_err (or_not_found "project") (get_project project)
    refuse_if
        (is_some input.estimate
          && not (type_eq type StoryType.feature)
          && not p.estimate_bugs_and_chores)
        no_bug_chore_points
    require_user input.owner_id "owner %d does not exist"
    placed ← place project sec 0 (create_placement input sec)
    row ← create_story env.engine (new_story project actor input title type sec placed.0) now
    set_labels env project row.id input.labels
    if length input.blocked_by == 0 then pure tt else set_blockers row input.blocked_by
    record_activity env now row.id actor "created" (LogValue.text "")
        (LogValue.text (section_text sec))
    load env now row

  -- `Create`
  unfoldable pub create : ℕ → ℕ → CreateInput → Tx Story
  unfolding checked_input create_body
  create project actor input = do
    checked ← λ d. (checked_input input, d)
    in_tx (create_body project actor input checked.0 checked.1 checked.2)
