-- ===== src/Project/Create.antt =====
-- `Create` of internal/project/project.go.
pub mod Owned
use mathlib.Core.Option
use trackstar.AppErr.{constraint, no_rows, or_not_found}
use trackstar.Common.{Bool, String, any, false, if◌then◌else◌, map, none, ℕ, ◌==◌, ◌∷◌}
use trackstar.Common.Int.{pos, pos_part}
use trackstar.Db.Accounts.{get_user}
use trackstar.Db.Planning.{upsert_project_member}
use trackstar.Db.Rows.{ProjectRow, Role}
use trackstar.Db.Stories.{Engine}
use trackstar.Db.Tx.{Tx, err, in_tx, map_err, ok, or_fail, pure, ◌>>=◌, ◌>>◌}
use trackstar.Project.Settings.{ProjectInput, Settings, apply}
use trackstar.Project.Slug.{SlugEnv, has_slug, unique_slug}

-- What the services take from libraries here.
pub record CreateEnv : Type 0 where
  pub engine : Engine
  pub slugs : SlugEnv

-- The defaults, before `apply`: one week from Monday, three iterations of velocity.
abbrev pub default_settings : Bool → Settings
default_settings combine = record {
  name = "";
  description = "";
  length_days = pos 7;
  start_weekday = pos 1;
  velocity_window = pos 3;
  estimate_bugs_and_chores = false;
  combine_icebox_backlog = combine;
}

abbrev pub new_project_row : Settings → String → ℕ → ℕ → ProjectRow
new_project_row s slug id now = record {
  id = id;
  name = s.name;
  description = s.description;
  slug = slug;
  iteration_length_days = pos_part s.length_days;
  iteration_start_weekday = pos_part s.start_weekday;
  velocity_window = pos_part s.velocity_window;
  created_at = now;
  updated_at = now;
  archived_at = none;
  estimate_bugs_and_chores = s.estimate_bugs_and_chores;
  combine_icebox_backlog = s.combine_icebox_backlog;
}

-- `CreateProject` of internal/database/dbgen/projects.sql.go; a slug is unique.
unfoldable pub create_project : Engine → Settings → String → ℕ → Tx ProjectRow
create_project engine s slug now d =
    let row = new_project_row s slug (engine.fresh_id (map (λ p. p.id) d.projects)) now in
    if any (has_slug slug) d.projects
    then (err constraint, d)
    else (ok row, record d { projects = row ∷ d.projects })

-- The creator's preference, where there is a creator.
unfoldable pub combine_of : ℕ → Tx Bool
combine_of owner = if owner == 0 then pure false else (do
  u ← map_err (or_not_found "user") (get_user owner)
  pure u.default_combine_icebox_backlog)

abbrev pub make_owner : ℕ → ProjectRow → Tx ProjectRow
make_owner owner row = do upsert_project_member row.id owner Role.owner; pure row

-- The search for a slug always finds one.
unfoldable pub create_body : CreateEnv → ℕ → ℕ → Settings → Tx ProjectRow
unfolding create_project
create_body env now owner s = do
  slug ← λ d. or_fail no_rows (unique_slug env.slugs s.name d.projects) d
  row ← create_project env.engine s slug now
  if owner == 0 then pure row else make_owner owner row

-- `Create`; an owner of 0 is none.
unfoldable pub create_owned : CreateEnv → ℕ → ℕ → ProjectInput → Tx ProjectRow
unfolding combine_of create_body
create_owned env now owner input = do
  combine ← combine_of owner
  s ← λ d. (apply input (default_settings combine), d)
  in_tx (create_body env now owner s)
