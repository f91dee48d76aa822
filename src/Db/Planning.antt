-- ===== src/Db/Planning.antt =====
-- internal/database/dbgen/planning.sql.go: the statements on tasks, blockers and members.
use mathlib.Core.Option
use trackstar.AppErr.{constraint, no_rows}
use trackstar.Common.{
  Bool, List, any, first, if◌then◌else◌, leb, length, map, modify, not, select, ℕ, ◌&&◌, ◌==◌, ◌||◌,
  ◌∷◌,
}
use trackstar.Common.Int.{eq_ℤ, ltb_ℤ}
use trackstar.Db.Order.{sort_by}
use trackstar.Db.Rows.{MemberRow, Role, TaskRow}
use trackstar.Db.Tx.{Tx, err, gets, ok, or_fail, update}

unfoldable pub list_story_blockers : ℕ → Tx (List ℕ)
list_story_blockers story =
    gets λ d. sort_by leb (map (λ b. b.blocker_id) (select (λ b. b.story_id == story) d.blockers))

unfoldable pub clear_story_blockers : ℕ → Tx Unit
clear_story_blockers story =
    update λ d. record d { blockers = select (λ b. not (b.story_id == story)) d.blockers }

-- The primary key of the table is the pair.
unfoldable pub add_story_blocker : ℕ → ℕ → Tx Unit
add_story_blocker story blocker d =
    if any (λ b. b.story_id == story && b.blocker_id == blocker) d.blockers
    then (err constraint, d)
    else (
      ok tt,
      record d { blockers = record { story_id = story; blocker_id = blocker } ∷ d.blockers },
    )

-- ORDER BY position, id
abbrev pub task_le : TaskRow → TaskRow → Bool
task_le a b = ltb_ℤ a.position b.position || (eq_ℤ a.position b.position && leb a.id b.id)

unfoldable pub list_tasks : ℕ → Tx (List TaskRow)
list_tasks story = gets λ d. sort_by task_le (select (λ t. t.story_id == story) d.tasks)

-- ORDER BY user_id
unfoldable pub list_project_members : ℕ → Tx (List MemberRow)
list_project_members project =
    gets λ d.
      sort_by (λ a b. leb a.user_id b.user_id) (select (λ m. m.project_id == project) d.members)

abbrev pub count_project_members : ℕ → Tx ℕ
count_project_members project = gets λ d. length (select (λ m. m.project_id == project) d.members)

abbrev pub is_member : ℕ → ℕ → MemberRow → Bool
is_member project user m = m.project_id == project && m.user_id == user

unfoldable pub get_project_member : ℕ → ℕ → Tx Role
get_project_member project user d =
    or_fail no_rows (Option.map (λ m. m.role) (first (is_member project user) d.members)) d

-- INSERT ... ON CONFLICT DO UPDATE
unfoldable pub upsert_project_member : ℕ → ℕ → Role → Tx Unit
upsert_project_member project user role = update λ d. record d {
  members =
      if any (is_member project user) d.members
      then modify (is_member project user) (λ m. record m { role = role }) d.members
      else record { project_id = project; user_id = user; role = role } ∷ d.members;
}

unfoldable pub delete_project_member : ℕ → ℕ → Tx Unit
delete_project_member project user =
    update λ d. record d { members = select (λ m. not (is_member project user m)) d.members }
