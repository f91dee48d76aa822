-- ===== src/Tests/Trash.antt =====
-- The theorem on restored stories at a concrete input.
use trackstar.Common.{[], false, none, some, ◌∷◌}
use trackstar.Common.Int.{pos}
use trackstar.Db.Rows.{Db, StoryRow}
use trackstar.Sample.{sample_db, sample_now, sample_story}
use trackstar.Story.Types.{Story}
use trackstar.Story.View.{loaded_story}
use trackstar.Workflow.{State}

-- A story of the icebox in the trash, beside two that are not.
abbrev trashed_row : StoryRow
trashed_row = sample_story 6 State.icebox (some 1) 0 none (some 300000)

abbrev trash_db : Db
trash_db = record sample_db { stories = trashed_row ∷ sample_db.stories }

abbrev restored_row : Story
restored_row =
    loaded_story
      (record trashed_row { deleted_at = none; position = pos 196608; updated_at = sample_now })
      691200 [] ([], false) 0 []
