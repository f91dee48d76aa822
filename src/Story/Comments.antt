-- ===== src/Story/Comments.antt =====
-- `AddComment` and `DeleteComment` of internal/story/story.go, which run outside a transaction.
pub mod Undo
use trackstar.AppErr.{Failure, forbidden_err, invalid_err, not_found_err, or_not_found}
use trackstar.Common.{String, is_some, not, ℕ, ◌==◌}
use trackstar.Common.Text.{is_empty, trim_space}
use trackstar.Db.Rows.{CommentRow}
use trackstar.Db.Stories.{create_comment, delete_comment, get_comment, get_story}
use trackstar.Db.Tx.{Tx, map_err, pure, refuse_if, ◌>>=◌, ◌>>◌}
use trackstar.Story.Types.{Env}

abbrev pub empty_comment : Failure
empty_comment = invalid_err "comment body is required"

abbrev pub not_author : Failure
not_author = forbidden_err "only the author can delete a comment"

unfoldable pub add_comment : Env → ℕ → ℕ → ℕ → String → Tx CommentRow
add_comment env now story actor text = do
  refuse_if (is_empty (trim_space text)) empty_comment
  st ← map_err (or_not_found "story") (get_story story)
  refuse_if (is_some st.deleted_at) (not_found_err "story")
  create_comment env.engine story actor (trim_space text) now

-- The result is the id of the story.
unfoldable pub remove_comment : ℕ → ℕ → Tx ℕ
remove_comment id actor = do
  c ← map_err (or_not_found "comment") (get_comment id)
  refuse_if (not (c.user_id == actor)) not_author
  delete_comment id
  pure c.story_id
