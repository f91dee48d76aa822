-- ===== src/Story/Tasks/Renumber.antt =====
-- The loop of `UpdateTask` in internal/story/tasks.go that numbers the tasks of a story.
use mathlib.Core.Option
use trackstar.Common.{
  All, All-both, All-imp, Bool, Bool-cases, List, Option, Option-cases, String, [], arith, false,
  first, if◌then◌else◌, inl, inr, modify, refl, some, suc, ℕ, ◌==◌, ◌∙◌, ◌∷◌, ◌≡◌,
}
use trackstar.Common.Int.{eq_ℤ, pos, ℤ}
use trackstar.Db.Order.{Ascending}
use trackstar.Db.Rows.{Db, TaskRow}
use trackstar.Db.Tasks.{get_task, has_task_id, update_task, updated_task}
use trackstar.Db.Tx.{ok}
use trackstar.Db.Tx.Keeps.{runs_then}
use trackstar.Story.Tasks.{renumber_tasks}

-- The position of a task in the table.
abbrev pub position_of : ℕ → List TaskRow → Option ℤ
position_of i ts = Option.map (λ (t : TaskRow). t.position) (first (has_task_id i) ts)

abbrev pub DifferentTasks : TaskRow → TaskRow → Type 0
DifferentTasks a b = (a.id == b.id) ≡ false

-- The rows stand in the table with the positions that they have.
abbrev pub Located : List TaskRow → List TaskRow → Type 0
Located xs ts = All (λ x. position_of x.id ts ≡ some x.position) xs

-- The rows have the positions from `n` on, one after the other, in the table; the moved one has `p`.
abbrev pub Numbered : ℕ → ℤ → ℕ → List TaskRow → List TaskRow → Type 0
Numbered id p n [] ts = Unit
Numbered id p n (x ∷ xs) ts =
    ((if x.id == id then some p else position_of x.id ts) ≡ some (pos n))
    × Numbered id p (suc n) xs ts

pub position_kept :
    (i j : ℕ) (f : TaskRow → TaskRow) (ts : List TaskRow)
    → ((t : TaskRow) → (f t).id ≡ t.id)
    → (i == j) ≡ false
    → position_of j (modify (has_task_id i) f ts) ≡ position_of j ts
position_kept i j f [] same h = refl
position_kept i j f (t ∷ ts) same h = ground (arith, h, same t, position_kept i j f ts same h)

pub position_set :
    (i : ℕ) (p q : ℤ) (f : TaskRow → TaskRow) (ts : List TaskRow)
    → ((t : TaskRow) → (f t).id ≡ t.id)
    → ((t : TaskRow) → (f t).position ≡ p)
    → position_of i ts ≡ some q
    → position_of i (modify (has_task_id i) f ts) ≡ some p
position_set i p q f [] same at h = absurd (ground (arith, h))
position_set i p q f (t ∷ ts) same at h = elim (Bool-cases (has_task_id i t)) [
  | inl e ↦ ground (arith, e, same t, at t)
  | inr e ↦
      let later : position_of i ts ≡ some q = ground (arith, e, h) in
      ground (arith, e, position_set i p q f ts same at later)
]

-- UpdateTask of a row that is there succeeds and changes this row.
pub update_task-runs :
    (i : ℕ) (text : String) (done : Bool) (p q : ℤ) (now : ℕ) (d : Db)
    → position_of i d.tasks ≡ some q
    → (r : TaskRow) × (update_task i text done p now d ≡ (
      ok r,
      record d { tasks = modify (has_task_id i) (updated_task text done p now) d.tasks },
    ))
unfolding update_task get_task
update_task-runs i text done p q now d h =
    let f = updated_task text done p now in
    let there = position_set i p q f d.tasks (λ t. refl) (λ t. refl) h in
    elim (Option-cases (first (has_task_id i) (modify (has_task_id i) f d.tasks))) [
      | inl e ↦ absurd (ground (arith, e, there))
      | inr (r, e) ↦ (r, rw e refl)
    ]

-- What the loop leaves: the rows have their positions from `n` on, where the moved row is counted
-- with the position of the task that goes on; other tasks, and this one in the table, keep theirs.
abbrev pub Renumbered : ℕ → ℕ → List TaskRow → TaskRow → Db → TaskRow → Db → Type 0
Renumbered id n xs t d t' d' =
    (renumber_tasks id n xs t d ≡ (ok t', d'))
    × Numbered id t'.position n xs d'.tasks
    × ((i : ℕ) → All (λ y. (i == y.id) ≡ false) xs → position_of i d'.tasks ≡ position_of i d.tasks)
    × (All (λ y. (y.id == id) ≡ false) xs → t'.position ≡ t.position)
    × (position_of id d'.tasks ≡ position_of id d.tasks)

pub renumber_tasks-Renumbered :
    (id n : ℕ) (xs : List TaskRow) (t : TaskRow) (d : Db)
    → Ascending DifferentTasks xs
    → Located xs d.tasks
    → (t' : TaskRow) × (d' : Db) × Renumbered id n xs t d t' d'
renumber_tasks-Renumbered id n [] t d apart at = (t, d, (refl, tt, λ i a. refl, λ a. refl, refl))
renumber_tasks-Renumbered id n (x ∷ xs) t d apart at = elim (Bool-cases (x.id == id)) [
  | inl hit ↦
      let (t', d', (run, num, kept, same, still)) =
        renumber_tasks-Renumbered id (suc n) xs (record t { position = pos n }) d apart.1 at.1 in
      let absent : All (λ y. (y.id == id) ≡ false) xs =
        All-imp xs (λ y ne. ground (arith, hit, ne)) apart.0 in
      let here = same absent in
      (
        t',
        d',
        (
          rw hit run,
          (rw (hit, here) refl, num),
          λ i a. kept i a.1,
          λ a. absurd (ground (arith, a.0, hit)),
          still,
        ),
      )
  | inr miss ↦ elim (Bool-cases (eq_ℤ x.position (pos n))) [
    | inl placed ↦
        let (t', d', (run, num, kept, same, still)) =
          renumber_tasks-Renumbered id (suc n) xs t d apart.1 at.1 in
        let stays = kept x.id apart.0 in
        let there = at.0 in
        let is_n : x.position ≡ pos n = ground (arith, placed) in
        (
          t',
          d',
          (
            rw (miss, placed) run,
            (rw (miss, stays, there, is_n) refl, num),
            λ i a. kept i a.1,
            λ a. same a.1,
            still,
          ),
        )
    | inr elsewhere ↦
        let f = updated_task x.description x.done (pos n) x.updated_at in
        let d1 : Db = record d { tasks = modify (has_task_id x.id) f d.tasks } in
        let at1 : Located xs d1.tasks =
          All-both xs (λ y ne here. position_kept x.id y.id f d.tasks (λ z. refl) ne ∙ here) apart.0
            at.1 in
        let (r, wrote) =
          update_task-runs x.id x.description x.done (pos n) x.position x.updated_at d at.0 in
        let rest =
          runs_then (update_task x.id x.description x.done (pos n) x.updated_at)
            (λ row. renumber_tasks id (suc n) xs t) d wrote in
        let (t', d', (run, num, kept, same, still)) =
          renumber_tasks-Renumbered id (suc n) xs t d1 apart.1 at1 in
        let stays = kept x.id apart.0 in
        let set = position_set x.id (pos n) x.position f d.tasks (λ z. refl) (λ z. refl) at.0 in
        (
          t',
          d',
          (
            rw (miss, elsewhere) (rest ∙ run),
            (rw (miss, stays, set) refl, num),
            λ i a. kept i a.1 ∙ position_kept x.id i f d.tasks (λ z. refl) (ground (arith, a.0)),
            λ a. same a.1,
            still ∙ position_kept x.id id f d.tasks (λ z. refl) miss,
          ),
        )
  ]
]
