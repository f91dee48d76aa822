-- ===== src/Story/Trash.antt =====
-- `Delete`, `Restore` and `Purge` of internal/story/story.go.
pub mod Purged
pub mod Bottom
pub mod Written
pub mod Restored
use trackstar.AppErr.{Failure, invalid_err, not_found_err, or_not_found}
use trackstar.Common.{
  List, [], if◌then◌else◌, is_some, none, not, some, true, ℕ, ◌*◌, ◌-◌, ◌==◌, ◌∷◌,
}
use trackstar.Common.Int.{ℤ}
use trackstar.Db.Labels.{delete_unused_labels}
use trackstar.Db.Rows.{LogValue, ProjectRow, StoryRow}
use trackstar.Db.Stories.{get_story, purge_deleted_stories, set_story_deleted}
use trackstar.Db.Tx.{Tx, gets, in_tx, map_err, pure, refuse_if, ◌>>=◌, ◌>>◌}
use trackstar.Story.Place.{place}
use trackstar.Story.Types.{Env, Story}
use trackstar.Story.View.{load, record_activity, save}
use trackstar.Workflow.{State, section_of, state_eq}

-- `DeletedRetention`, in seconds.
abbrev pub deleted_retention : ℕ
deleted_retention = 30 * 24 * 3600

abbrev pub not_deleted : Failure
not_deleted = invalid_err "story is not deleted"

module _ (env : Env) (now : ℕ) where
  unfoldable pub delete_body : ℕ → ℕ → Tx Story
  delete_body id actor = do
    row ← map_err (or_not_found "story") (get_story id)
    refuse_if (is_some row.deleted_at) (not_found_err "story")
    set_story_deleted id (some now) now
    record_activity env now id actor "deleted" (LogValue.text "") (LogValue.text "")
    load env now (record row { deleted_at = some now })

  -- `Delete`
  unfoldable pub delete : ℕ → ℕ → Tx Story
  unfolding delete_body
  delete id actor = in_tx (delete_body id actor)

  -- The position of a restored story: the bottom of its section, unless it is accepted.
  unfoldable pub restored_position : StoryRow → Tx ℤ
  restored_position row = if state_eq row.state State.accepted then pure row.position else do
    placed ←
        place row.project_id (section_of row.state) row.id
          (record { prev_id = none; next_id = none; bottom = true })
    pure placed.0

  unfoldable pub restore_body : ℕ → ℕ → Tx Story
  unfolding restored_position
  restore_body id actor = do
    row ← map_err (or_not_found "story") (get_story id)
    refuse_if (not (is_some row.deleted_at)) not_deleted
    set_story_deleted id none now
    position ← restored_position row
    record_activity env now id actor "restored" (LogValue.text "") (LogValue.text "")
    save env now (record row { deleted_at = none; position = position })

  -- `Restore`
  unfoldable pub restore : ℕ → ℕ → Tx Story
  unfolding restore_body
  restore id actor = in_tx (restore_body id actor)

  -- The loop of `Purge` over the projects.
  unfoldable pub clean_projects : List ProjectRow → Tx Unit
  clean_projects [] = pure tt
  clean_projects (p ∷ ps) = do delete_unused_labels p.id; clean_projects ps

  -- Where stories were deleted, labels may be left without one.
  unfoldable pub purge_body : Tx ℕ
  unfolding clean_projects
  purge_body = do
    n ← purge_deleted_stories (now - deleted_retention)
    if n == 0 then pure n else do projects ← gets (λ d. d.projects); clean_projects projects; pure n

  -- `Purge`; the cut-off is never before the epoch.
  unfoldable pub purge : Tx ℕ
  unfolding purge_body
  purge = in_tx purge_body
