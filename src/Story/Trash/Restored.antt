-- ===== src/Story/Trash/Restored.antt =====
-- What `Restore` of internal/story/story.go does to a story in the trash.
use trackstar.Common.{List, is_some, none, true, ℕ, ◌≡◌}
use trackstar.Common.Int.{ℤ}
use trackstar.Db.Ids.{UniqueIds}
use trackstar.Db.Rows.{Db, StoryRow}
use trackstar.Db.Stories.{has_id, update_stories}
use trackstar.Db.Tx.Hoare.{Hoare}
use trackstar.Iteration.{range}
use trackstar.Story.Place.Lands.{IsSmall}
use trackstar.Story.Place.Rows.{InRange}
use trackstar.Story.Rowwise.{Rows}
use trackstar.Story.Trash.Bottom.{other_stories}
use trackstar.Story.Trash.Written.{IsPlaced, IsRestored, Mine}
use trackstar.Story.Types.{Story}
use trackstar.Workflow.{section_of}

abbrev untrashed : ℕ → StoryRow → StoryRow
untrashed now s = record s { deleted_at = none; updated_at = now }

-- The database after `SetStoryDeleted`.
abbrev untrashed_db : ℕ → ℕ → Db → Db
untrashed_db now id d = update_stories (has_id id) (untrashed now) d

module _ (now : ℕ) (row : StoryRow) (d : Db) (unique : UniqueIds d) (range : InRange d)
    (small : IsSmall d) where
  abbrev d1 : Db
  d1 = untrashed_db now row.id d

  abbrev section_others : List StoryRow
  section_others = other_stories row.project_id (section_of row.state) row.id d1.stories

  -- What `Restore` leaves: the rows of the story, the story that it returns, and the places.
  abbrev pub Restored : Story → Db → Type 0
  Restored t e =
      (p : ℤ) × Rows (Mine row.id row p) e
      × IsRestored row p t.row
      × IsPlaced row p (other_stories row.project_id (section_of row.state) row.id d.stories)
          e.stories
      × (is_some row.deleted_at ≡ true)
