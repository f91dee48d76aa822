-- ===== src/Story/Move.antt =====
-- `Move` and `MoveMany` of internal/story/story.go.
pub mod Keeps
pub mod Refused
use trackstar.AppErr.{Failure, invalid_err, or_not_found}
use trackstar.Common.{
  Bool, List, Option, String, [], any, false, if◌then◌else◌, is_some, length, ltb, none, not, some,
  ℕ, ◌&&◌, ◌==◌, ◌||◌, ◌∷◌,
}
use trackstar.Db.Rows.{LogValue, StoryRow}
use trackstar.Db.Stories.{get_story}
use trackstar.Db.Tx.{Tx, fail, in_tx, map_err, ok, pure, refuse_if, ◌>>=◌, ◌>>◌}
use trackstar.Story.Place.{Placement, place}
use trackstar.Story.Types.{Env, MoveInput, MoveResult, Story}
use trackstar.Story.Update.{trashed}
use trackstar.Story.View.{record_activity, save}
use trackstar.Workflow.{
  Section, State, entry_state, in_progress, is_target, section_eq, section_of, section_text,
  state_eq,
}

-- The checks of a story that is to be moved, with the messages of `Move` or `MoveMany`.
abbrev pub Messages : Type 0
Messages = record { trashed : String; accepted : String; pinned : String }

unfoldable pub check_movable : Messages → Section → StoryRow → Tx Unit
check_movable messages sec row =
    if is_some row.deleted_at
    then fail (invalid_err messages.trashed)
    else if state_eq row.state State.accepted
    then fail (invalid_err messages.accepted)
    else if in_progress row.state && not (section_eq sec Section.current)
    then fail (invalid_err messages.pinned)
    else pure tt

abbrev pub move_messages : Messages
move_messages = record {
  trashed = "this story is in the trash; restore it first";
  accepted = "accepted stories cannot be moved";
  pinned = "a %s story stays in the current iteration";
}

abbrev pub move_many_messages : Messages
move_many_messages = record {
  trashed = "#%d is in the trash";
  accepted = "#%d is accepted and cannot be moved";
  pinned = "#%d is %s and stays in the current iteration";
}

abbrev pub bad_target : Failure
bad_target = invalid_err "section must be icebox, backlog or current"

-- The state of a story that is dragged into a section.
unfoldable pub dragged_state : Section → State → State
dragged_state sec s = if section_eq (section_of s) sec then s else entry_state sec

-- The first story sets the project of a batch.
abbrev pub other_project : Option ℕ → StoryRow → Bool
other_project none row = false
other_project (some project) row = not (row.project_id == project)

-- The ids that may not be the drop target.
abbrev pub is_moving : List ℕ → Option ℕ → Bool
is_moving ids none = false
is_moving ids (some target) = any (λ id. id == target) ids

abbrev pub different_projects : Failure
different_projects = invalid_err "stories must belong to the same project"

abbrev pub target_moves : Failure
target_moves = invalid_err "the drop target cannot be one of the moved stories"

-- The first story goes where it is asked, and each other one after the one before it.
abbrev pub after_prev : Option ℕ → MoveInput → Placement
after_prev prev input = record {
  prev_id = prev;
  next_id = if is_some prev then none else input.next_id;
  bottom = false;
}

module _ (env : Env) (now : ℕ) where
  -- The part that `Move` and the loop of `MoveMany` share: from the checks to `save`.
  unfoldable pub move_row : Messages → ℕ → Section → Placement → StoryRow → Tx MoveResult
  unfolding check_movable dragged_state
  move_row messages actor sec w row = do
    check_movable messages sec row
    if section_eq (section_of row.state) sec
        then pure tt
        else record_activity env now row.id actor "moved"
            (LogValue.text (section_text (section_of row.state))) (LogValue.text (section_text sec))
    placed ← place row.project_id sec row.id w
    story ← save env now (record row { state = dragged_state sec row.state; position = placed.0 })
    pure (record { story = story; renormalized = placed.1 })

  unfoldable pub move_body : ℕ → ℕ → MoveInput → Tx MoveResult
  unfolding move_row
  move_body id actor input = do
    row ← map_err (or_not_found "story") (get_story id)
    move_row move_messages actor input.section
        (record { prev_id = input.prev_id; next_id = input.next_id; bottom = false }) row

  -- `Move`
  unfoldable pub move : ℕ → ℕ → MoveInput → Tx MoveResult
  unfolding move_body
  move id actor input = do
    refuse_if (not (is_target input.section)) bad_target
    in_tx (move_body id actor input)

  -- The loop of `MoveMany`: `seen` holds the stories placed so far, `project` that of the first one
  -- and `prev` the story that the next one goes after.
  unfoldable pub move_each : List ℕ → List ℕ → Option ℕ → Option ℕ → ℕ → MoveInput → Tx (List Story)
  unfolding move_row
  move_each [] seen project prev actor input d = (ok [], d)
  move_each (id ∷ ids) seen project prev actor input d =
      let skip = move_each ids seen project prev actor input d in
      let place_one : Tx (List Story) = do
        row ← map_err (or_not_found "story") (get_story id)
        refuse_if (other_project project row) different_projects
        moved ← move_row move_many_messages actor input.section (after_prev prev input) row
        rest ← move_each ids (id ∷ seen) (some row.project_id) (some id) actor input
        pure (moved.story ∷ rest)
      in if any (λ s. s == id) seen then skip else place_one d

  unfoldable pub move_batch : List ℕ → ℕ → MoveInput → Tx (List Story)
  unfolding move_each
  move_batch ids actor input = do
    refuse_if (is_moving ids input.prev_id || is_moving ids input.next_id) target_moves
    move_each ids [] none input.prev_id actor input

  -- `MoveMany`
  unfoldable pub move_many : List ℕ → ℕ → MoveInput → Tx (List Story)
  unfolding move_batch
  move_many ids actor input = do
    refuse_if (length ids == 0 || ltb 200 (length ids))
        (invalid_err "move between 1 and 200 stories at a time")
    refuse_if (not (is_target input.section)) bad_target
    in_tx (move_batch ids actor input)
