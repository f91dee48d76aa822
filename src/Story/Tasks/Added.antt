-- ===== src/Story/Tasks/Added.antt =====
-- The list that `Tasks` of internal/story/tasks.go gives after `AddTask`.
use mathlib.Core.List.{map-append}
use mathlib.Core.Option
use trackstar.Common.{
  All, All-imp, Bool, List, Option-cases, String, [], arith, false, inl, inr, map, none, refl,
  select, some, subst, sym, true, ℕ, ◌++◌, ◌==◌, ◌^◌, ◌∷◌, ◌≡◌,
}
use trackstar.Common.Int.{Within, int64, int64_id, pos, ℤ, ◌+ℤ◌, ◌≤ℤ◌}
use trackstar.Common.Text.{trim_space}
use trackstar.Db.Order.{All-sort_by, insert_by, sort_by}
use trackstar.Db.Planning.{list_tasks, task_le}
use trackstar.Db.Rows.{Db, StoryRow, TaskRow}
use trackstar.Db.Stories.{get_story}
use trackstar.Db.Tasks.{create_task, max_position, max_task_position}
use trackstar.Db.Tx.{in_tx, ok}
use trackstar.Story.Tasks.{Task, add_task, add_task_body, bad_description, story_tasks, task_of}
use trackstar.Story.Types.{Env}

-- What comes before nothing of a list is put at its end.
insert_by_last :
    {A : Type 0} (le : A → A → Bool) (x : A) (ys : List A)
    → All (λ y. le x y ≡ false) ys
    → insert_by le x ys ≡ ys ++ (x ∷ [])
unfolding insert_by
insert_by_last le x [] h = refl
insert_by_last le x (y ∷ ys) h = ground (arith, h.0, insert_by_last le x ys h.1)

abbrev last_position : List TaskRow → ℤ
last_position ts = Option.get_or (max_position ts) (pos 0)

max_none : (ts : List TaskRow) → max_position ts ≡ none → ts ≡ []
max_none [] h = refl
max_none (t ∷ ts) h = elim (Option-cases (max_position ts)) [
  | inl e ↦ absurd (ground (arith, e, h))
  | inr (q, e) ↦ absurd (ground (arith, e, h))
]

All-below_max :
    (ts : List TaskRow) (p : ℤ) → max_position ts ≡ some p → All (λ t. t.position ≤ℤ p) ts
All-below_max [] p h = tt
All-below_max (t ∷ ts) p h = elim (Option-cases (max_position ts)) [
  | inl e ↦ (ground (arith, e, h), subst (All (λ x. x.position ≤ℤ p)) (sym (max_none ts e)) tt)
  | inr (q, e) ↦
      let below = All-below_max ts q e in
      (ground (arith, e, h), All-imp ts (λ x le. ground (arith, e, h, le)) below)
]

-- No task of a list stands after its last position.
All-below_last : (ts : List TaskRow) → All (λ t. t.position ≤ℤ last_position ts) ts
All-below_last ts = elim (Option-cases (max_position ts)) [
  | inl e ↦ subst (All (λ t. t.position ≤ℤ last_position ts)) (sym (max_none ts e)) tt
  | inr (p, e) ↦ All-imp ts (λ x le. ground (arith, e, le)) (All-below_max ts p e)
]

max-Within :
    (ts : List TaskRow) (p : ℤ)
    → All (λ t. Within (2 ^ 62) t.position) ts
    → max_position ts ≡ some p
    → Within (2 ^ 62) p
max-Within [] p h e = absurd (ground (arith, e))
max-Within (t ∷ ts) p h e = elim (Option-cases (max_position ts)) [
  | inl none_left ↦ ground (arith, e, h.0, none_left)
  | inr (q, some_left) ↦ ground (arith, e, h.0, some_left, max-Within ts q h.1 some_left)
]

-- The position after the last one is an int64, and is not the place of any task there is.
after_last :
    (ts : List TaskRow)
    → All (λ t. Within (2 ^ 62) t.position) ts
    → int64 (last_position ts +ℤ pos 1) ≡ last_position ts +ℤ pos 1
unfolding ◌+ℤ◌
after_last ts h = int64_id (last_position ts +ℤ pos 1) (elim (Option-cases (max_position ts)) [
  | inl e ↦ ground (arith, e)
  | inr (p, e) ↦ ground (arith, e, max-Within ts p h e)
])

after_all :
    (row t : TaskRow) (last : ℤ)
    → row.position ≡ last +ℤ pos 1
    → t.position ≤ℤ last
    → task_le row t ≡ false
unfolding ◌+ℤ◌
after_all row t last e h = ground (arith, e, h)

-- A row with the next position comes last.
listed_last :
    (row : TaskRow) (ts : List TaskRow)
    → row.position ≡ last_position ts +ℤ pos 1
    → sort_by task_le (row ∷ ts) ≡ sort_by task_le ts ++ (row ∷ [])
unfolding sort_by
listed_last row ts e = insert_by_last task_le row (sort_by task_le ts) (
    All-sort_by (λ y. task_le row y ≡ false) task_le ts
      (All-imp ts (λ t le. after_all row t (last_position ts) e le) (All-below_last ts)))

-- `AddTask` on a story that is there with a description that is allowed succeeds and answers a task
-- with the trimmed description; `Tasks` then gives the tasks that it gave before in their order and
-- this one after them. The positions of the story's tasks are within 2 ^ 62 of zero.
pub add_task-story_tasks :
    (env : Env) (now story : ℕ) (text : String) (st : StoryRow) (ts : List Task) (d : Db)
    → get_story story d ≡ (ok st, d)
    → st.deleted_at ≡ none
    → bad_description (trim_space text) ≡ false
    → All (λ t. Within (2 ^ 62) t.position) (select (λ t. t.story_id == story) d.tasks)
    → story_tasks story d ≡ (ok ts, d)
    → (added : Task) × (d' : Db) × (add_task env now story text d ≡ (ok added, d'))
      × (added.description ≡ trim_space text)
      × ((story_tasks story d').0 ≡ ok (ts ++ (added ∷ [])))
unfolding add_task add_task_body story_tasks create_task max_task_position list_tasks in_tx
add_task-story_tasks env now story text st ts d found live good small before =
    let rows = select (λ (t : TaskRow). t.story_id == story) d.tasks in
    let row : TaskRow = record {
      id = env.engine.fresh_id (map (λ t. t.id) d.tasks);
      story_id = story;
      description = trim_space text;
      done = false;
      position = int64 (last_position rows +ℤ pos 1);
      created_at = now;
      updated_at = now;
    } in
    let e : add_task env now story text d ≡ (ok (task_of row), record d { tasks = row ∷ d.tasks }) =
      ground (arith, good, found, live) in
    let all : sort_by task_le (row ∷ rows) ≡ sort_by task_le rows ++ (row ∷ []) =
      listed_last row rows (after_last rows small) in
    let f : (story_tasks story (record d { tasks = row ∷ d.tasks })).0
        ≡ ok (ts ++ (task_of row ∷ [])) =
      let same : ts ≡ map task_of (sort_by task_le rows) = cc in
      let own : (story == story) ≡ true = ground arith in
      rw own
        (rw all (rw same (λ i. ok (map-append task_of (sort_by task_le rows) (row ∷ []) i)))) in
    (task_of row, record d { tasks = row ∷ d.tasks }, e, refl, f)
