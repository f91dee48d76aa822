-- ===== src/Story/Tasks.antt =====
-- The task lists of internal/story/tasks.go.
pub mod Added
pub mod Numbered
pub mod Renumber
use Prim.Native.String.{len}
use mathlib.Core.Option
use trackstar.AppErr.{Failure, invalid_err, not_found_err, or_not_found}
use trackstar.Common.{
  Bool, List, Option, String, [], drop, if◌then◌else◌, is_some, length, ltb, map, min, none, not,
  select, some, suc, take, ℕ, ◌++◌, ◌==◌, ◌||◌, ◌∷◌,
}
use trackstar.Common.Int.{eq_ℤ, int64, pos, pos_part, ℤ, ◌+ℤ◌}
use trackstar.Common.Text.{is_empty, trim_space}
use trackstar.Db.Planning.{list_tasks}
use trackstar.Db.Rows.{TaskRow}
use trackstar.Db.Stories.{get_story}
use trackstar.Db.Tasks.{create_task, delete_task, get_task, max_task_position, update_task}
use trackstar.Db.Tx.{Result, Tx, err, in_tx, map_err, ok, pure, refuse_if, ◌>>=◌, ◌>>◌}
use trackstar.Story.Place.{others}
use trackstar.Story.Types.{Env}

-- `Task`
pub record Task : Type 0 where
  pub id : ℕ
  pub story_id : ℕ
  pub description : String
  pub done : Bool
  pub position : ℤ
  pub created_at : ℕ

-- `TaskInput`
pub record TaskInput : Type 0 where
  pub description : Option String
  pub done : Option Bool
  pub position : Option ℤ

-- `taskFromRow`
abbrev pub task_of : TaskRow → Task
task_of r = record {
  id = r.id;
  story_id = r.story_id;
  description = r.description;
  done = r.done;
  position = r.position;
  created_at = r.created_at;
}

-- `Tasks`
unfoldable pub story_tasks : ℕ → Tx (List Task)
story_tasks story = do rows ← list_tasks story; pure (map task_of rows)

abbrev pub bad_description : String → Bool
bad_description text = is_empty text || ltb 500 (len text)

abbrev pub description_err : Failure
description_err = invalid_err "task description must be 1 to 500 characters"

unfoldable pub add_task_body : Env → ℕ → ℕ → String → Tx TaskRow
add_task_body env now story description = do
  st ← map_err (or_not_found "story") (get_story story)
  refuse_if (is_some st.deleted_at) (not_found_err "story")
  last ← max_task_position story
  create_task env.engine story description (int64 (last +ℤ pos 1)) now

-- `AddTask`
unfoldable pub add_task : Env → ℕ → ℕ → String → Tx Task
unfolding add_task_body
add_task env now story description = do
  refuse_if (bad_description (trim_space description)) description_err
  row ← in_tx (add_task_body env now story (trim_space description))
  pure (task_of row)

abbrev pub described : Option String → TaskRow → Result TaskRow
described none t = ok t
described (some text) t =
    let trimmed = trim_space text in
    if bad_description trimmed then err description_err else ok (record t { description = trimmed })

-- The loop over the new list: every task but the one that moves gets its place in the database, and
-- the one that moves remembers its own.
abbrev pub renumber_tasks : ℕ → ℕ → List TaskRow → TaskRow → Tx TaskRow
renumber_tasks id n [] t = pure t
renumber_tasks id n (x ∷ xs) t =
    let rest = λ (moved : TaskRow). renumber_tasks id (suc n) xs moved in
    if x.id == id
    then rest (record t { position = pos n })
    else if eq_ℤ x.position (pos n)
    then rest t
    else (do row ← update_task x.id x.description x.done (pos n) x.updated_at; rest t)

-- The other tasks of the story with the task put in among them; the index is kept inside the list.
abbrev pub put_at : ℤ → TaskRow → List TaskRow → List TaskRow
put_at index t others =
    let i = min (pos_part index) (length others) in take i others ++ (t ∷ drop i others)

unfoldable pub reordered : ℕ → Option ℤ → TaskRow → Tx TaskRow
reordered id none t = pure t
reordered id (some index) t = do
  all ← list_tasks t.story_id
  renumber_tasks id 1 (put_at index t (select (λ x. not (x.id == id)) all)) t

unfoldable pub update_task_body : ℕ → ℕ → TaskInput → Tx TaskRow
unfolding reordered
update_task_body now id input = do
  row ← map_err (or_not_found "task") (get_task id)
  text ← λ d. (described input.description row, d)
  t ← reordered id input.position (record text { done = Option.get_or input.done text.done })
  update_task id t.description t.done t.position now

-- `UpdateTask`
unfoldable pub update_task_fields : ℕ → ℕ → TaskInput → Tx Task
unfolding update_task_body
update_task_fields now id input = do row ← in_tx (update_task_body now id input); pure (task_of row)

-- `DeleteTask`
unfoldable pub remove_task : ℕ → Tx ℕ
remove_task id = do t ← map_err (or_not_found "task") (get_task id); delete_task id; pure t.story_id
