-- ===== src/Tests/Tasks.antt =====
-- The theorem on task lists at concrete inputs.
use trackstar.Common.{List, [], arith, false, none, refl, some, true, ℕ, ◌++◌, ◌∷◌, ◌≡◌}
use trackstar.Common.Int.{pos}
use trackstar.Common.Text.{trim_space}
use trackstar.Db.Order.{insert_by, sort_by}
use trackstar.Db.Planning.{list_tasks}
use trackstar.Db.Rows.{Db, TaskRow}
use trackstar.Db.Stories.{get_story}
use trackstar.Db.Tx.{ok}
use trackstar.Sample.{sample_db, sample_env, sample_now, sample_story}
use trackstar.Story.Tasks.{Task, TaskInput, add_task, story_tasks, task_of}
use trackstar.Story.Tasks.Added.{add_task-story_tasks}
use trackstar.Workflow.{State}

abbrev sample_task : ℕ → ℕ → TaskRow
sample_task id position = record {
  id = id;
  story_id = 2;
  description = "A task";
  done = false;
  position = pos position;
  created_at = 100000;
  updated_at = 100000;
}

abbrev task_db : Db
task_db = record sample_db { tasks = sample_task 9 3 ∷ sample_task 7 1 ∷ sample_task 8 2 ∷ [] }

abbrev task_list : List Task
task_list = task_of (sample_task 7 1) ∷ task_of (sample_task 8 2) ∷ task_of (sample_task 9 3) ∷ []

add_task-story_tasks_example :
    (added : Task) × (d' : Db) × (add_task sample_env sample_now 2 " Write it down " task_db
      ≡ (ok added, d'))
    × (added.description ≡ trim_space " Write it down ")
    × ((story_tasks 2 d').0 ≡ ok (task_list ++ (added ∷ [])))
unfolding get_story trim_space story_tasks list_tasks sort_by insert_by
add_task-story_tasks_example =
    add_task-story_tasks sample_env sample_now 2 " Write it down "
      (sample_story 2 State.icebox none 65536 none none) task_list task_db refl refl refl
      (omega arith) refl

-- The third task is moved to the front.
abbrev to_front : TaskInput
to_front = record { description = none; done = some true; position = some (pos 0) }
