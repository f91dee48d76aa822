-- ===== src/Db/Accounts.antt =====
-- internal/database/dbgen/projects.sql.go and users.sql.go: the statements on projects and users
-- that the services modelled here call.
pub mod Users
pub mod Tokens
pub mod Oauth
pub mod OauthTokens
use trackstar.AppErr.{no_rows}
use trackstar.Common.{Bool, first, is_some, length, none, not, select, ℕ, ◌&&◌, ◌==◌}
use trackstar.Db.Rows.{ProjectRow, StoryRow, UserRow}
use trackstar.Db.Stories.{update_stories}
use trackstar.Db.Tx.{Tx, ok, or_fail}
use trackstar.Workflow.{StoryType, type_eq}

unfoldable pub get_project : ℕ → Tx ProjectRow
get_project id d = or_fail no_rows (first (λ p. p.id == id) d.projects) d

unfoldable pub get_user : ℕ → Tx UserRow
get_user id d = or_fail no_rows (first (λ u. u.id == id) d.users) d

-- type <> 'feature' AND estimate IS NOT NULL
abbrev pub has_stray_points : ℕ → StoryRow → Bool
has_stray_points project s =
    s.project_id == project && not (type_eq s.type StoryType.feature) && is_some s.estimate

unfoldable pub clear_non_feature_estimates : ℕ → ℕ → Tx ℕ
clear_non_feature_estimates project now d = (
  ok (length (select (has_stray_points project) d.stories)),
  update_stories (has_stray_points project) (λ s. record s { estimate = none; updated_at = now }) d,
)
