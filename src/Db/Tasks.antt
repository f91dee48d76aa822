-- ===== src/Db/Tasks.antt =====
-- internal/database/dbgen/planning.sql.go: the statements that read and write one task.
use mathlib.Core.Option
use trackstar.AppErr.{no_rows}
use trackstar.Common.{
  Bool, List, Option, String, [], false, first, if◌then◌else◌, map, modify, none, not, select, some,
  ℕ, ◌==◌, ◌∷◌,
}
use trackstar.Common.Int.{ltb_ℤ, pos, ℤ}
use trackstar.Db.Rows.{TaskRow}
use trackstar.Db.Stories.{Engine}
use trackstar.Db.Tx.{Tx, gets, ok, or_fail, update, ◌>>◌}

abbrev pub has_task_id : ℕ → TaskRow → Bool
has_task_id id t = t.id == id

-- COALESCE(MAX(position), 0)
abbrev pub max_position : List TaskRow → Option ℤ
max_position [] = none
max_position (t ∷ ts) = elim (max_position ts) [
  | none ↦ some t.position
  | some p ↦ some (if ltb_ℤ p t.position then t.position else p)
]

unfoldable pub max_task_position : ℕ → Tx ℤ
max_task_position story =
    gets λ d. Option.get_or (max_position (select (λ t. t.story_id == story) d.tasks)) (pos 0)

unfoldable pub create_task : Engine → ℕ → String → ℤ → ℕ → Tx TaskRow
create_task engine story description position now d =
    let row : TaskRow = record {
      id = engine.fresh_id (map (λ t. t.id) d.tasks);
      story_id = story;
      description = description;
      done = false;
      position = position;
      created_at = now;
      updated_at = now;
    } in
    (ok row, record d { tasks = row ∷ d.tasks })

unfoldable pub get_task : ℕ → Tx TaskRow
get_task id d = or_fail no_rows (first (has_task_id id) d.tasks) d

abbrev pub updated_task : String → Bool → ℤ → ℕ → TaskRow → TaskRow
updated_task description done position now t = record t {
  description = description;
  done = done;
  position = position;
  updated_at = now;
}

abbrev pub write_task : ℕ → (TaskRow → TaskRow) → Tx Unit
write_task id f = update λ d. record d { tasks = modify (has_task_id id) f d.tasks }

unfoldable pub update_task : ℕ → String → Bool → ℤ → ℕ → Tx TaskRow
update_task id description done position now = do
  write_task id (updated_task description done position now)
  get_task id

unfoldable pub delete_task : ℕ → Tx Unit
delete_task id = update λ d. record d { tasks = select (λ t. not (has_task_id id t)) d.tasks }
