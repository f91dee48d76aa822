-- ===== src/Story/Tasks/Numbered.antt =====
-- The positions that `UpdateTask` of internal/story/tasks.go leaves where it is given a place.
use mathlib.Core.Option
use trackstar.Common.{List, Option, [], not, select, some, suc, ℕ, ◌==◌, ◌∷◌, ◌≡◌}
use trackstar.Common.Int.{pos}
use trackstar.Db.Order.{sort_by}
use trackstar.Db.Planning.{task_le}
use trackstar.Db.Rows.{Db, TaskRow}
use trackstar.Story.Tasks.Renumber.{position_of}

-- The tasks with these ids have the positions from `n` on, one after the other.
abbrev pub NumberedFrom : ℕ → List ℕ → List TaskRow → Type 0
NumberedFrom n [] ts = Unit
NumberedFrom n (i ∷ is) ts = (position_of i ts ≡ some (pos n)) × NumberedFrom (suc n) is ts

-- The other tasks of the story in their order.
abbrev others_of : ℕ → ℕ → Db → List TaskRow
others_of id story d =
    select (λ x. not (x.id == id)) (sort_by task_le (select (λ t. t.story_id == story) d.tasks))

abbrev IsRow : ℕ → TaskRow → TaskRow → Type 0
IsRow id row t = (t.id ≡ id) × (t.position ≡ row.position) × (t.story_id ≡ row.story_id)
