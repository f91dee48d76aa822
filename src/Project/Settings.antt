-- ===== src/Project/Settings.antt =====
-- `Update`, `SetArchived` and `apply` of internal/project/project.go: the settings of a project.
pub mod Points
use Prim.Native.String.{len}
use mathlib.Core.Option
use trackstar.AppErr.{invalid_err, or_not_found}
use trackstar.Common.{
  Bool, Option, String, false, if◌then◌else◌, is_some, ltb, modify, none, not, some, true, ℕ, ◌%◌,
  ◌&&◌, ◌==◌, ◌||◌,
}
use trackstar.Common.Int.{ltb_ℤ, pos, pos_part, ℤ}
use trackstar.Common.Text.{is_empty, trim_space}
use trackstar.Db.Accounts.{clear_non_feature_estimates, get_project}
use trackstar.Db.Rows.{ProjectRow}
use trackstar.Db.Tx.{Result, Tx, err, in_tx, map_err, ok, pure, update, ◌>>=◌, ◌>>◌}

-- The fields of `Project` that `Input` may set; the numbers are int64, of either sign until checked.
pub record Settings : Type 0 where
  pub name : String
  pub description : String
  pub length_days : ℤ
  pub start_weekday : ℤ
  pub velocity_window : ℤ
  pub estimate_bugs_and_chores : Bool
  pub combine_icebox_backlog : Bool

-- `Input`
pub record ProjectInput : Type 0 where
  pub name : Option String
  pub description : Option String
  pub length_days : Option ℤ
  pub start_weekday : Option ℤ
  pub velocity_window : Option ℤ
  pub estimate_bugs_and_chores : Option Bool
  pub combine_icebox_backlog : Option Bool

abbrev pub settings_of : ProjectRow → Settings
settings_of p = record {
  name = p.name;
  description = p.description;
  length_days = pos p.iteration_length_days;
  start_weekday = pos p.iteration_start_weekday;
  velocity_window = pos p.velocity_window;
  estimate_bugs_and_chores = p.estimate_bugs_and_chores;
  combine_icebox_backlog = p.combine_icebox_backlog;
}

-- The fields that are given, in place of those that were.
abbrev pub with_input : ProjectInput → Settings → Settings
with_input input s = record {
  name = elim input.name [ none ↦ s.name | some name ↦ trim_space name ];
  description = elim input.description [ none ↦ s.description | some text ↦ trim_space text ];
  length_days = Option.get_or input.length_days s.length_days;
  start_weekday = Option.get_or input.start_weekday s.start_weekday;
  velocity_window = Option.get_or input.velocity_window s.velocity_window;
  estimate_bugs_and_chores =
      Option.get_or input.estimate_bugs_and_chores s.estimate_bugs_and_chores;
  combine_icebox_backlog = Option.get_or input.combine_icebox_backlog s.combine_icebox_backlog;
}

-- `apply`
unfoldable pub apply : ProjectInput → Settings → Result Settings
apply input before =
    let s = with_input input before in
    if is_empty s.name
    then err (invalid_err "project name is required")
    else if ltb 100 (len s.name)
    then err (invalid_err "project name is too long")
    else if ltb_ℤ s.length_days (pos 7)
        || ltb_ℤ (pos 28) s.length_days
        || not (pos_part s.length_days % 7 == 0)
    then err (invalid_err "iteration length must be 7, 14, 21 or 28 days")
    else if ltb_ℤ s.start_weekday (pos 0) || ltb_ℤ (pos 6) s.start_weekday
    then err (invalid_err "iteration start weekday must be 0 (Sunday) to 6 (Saturday)")
    else if ltb_ℤ s.velocity_window (pos 1) || ltb_ℤ (pos 12) s.velocity_window
    then err (invalid_err "velocity window must be between 1 and 12 iterations")
    else ok s

-- `UpdateProject` of internal/database/dbgen/projects.sql.go. What `apply` lets through is not
-- negative.
abbrev pub updated_project : Settings → ℕ → ProjectRow → ProjectRow
updated_project s now p = record p {
  name = s.name;
  description = s.description;
  iteration_length_days = pos_part s.length_days;
  iteration_start_weekday = pos_part s.start_weekday;
  velocity_window = pos_part s.velocity_window;
  estimate_bugs_and_chores = s.estimate_bugs_and_chores;
  combine_icebox_backlog = s.combine_icebox_backlog;
  updated_at = now;
}

abbrev pub write_project : ℕ → (ProjectRow → ProjectRow) → Tx Unit
write_project id f = update λ d. record d { projects = modify (λ p. p.id == id) f d.projects }

unfoldable pub update_project : ℕ → Settings → ℕ → Tx ProjectRow
update_project id s now = do write_project id (updated_project s now); get_project id

unfoldable pub set_project_archived : ℕ → Option ℕ → ℕ → Tx ProjectRow
set_project_archived id at now = do
  write_project id (λ p. record p { archived_at = at; updated_at = now })
  get_project id

unfoldable pub update_settings_body : ℕ → ℕ → ProjectInput → Tx ProjectRow
unfolding apply update_project
update_settings_body now id input = do
  p ← map_err (or_not_found "project") (get_project id)
  s ← λ d. (apply input (settings_of p), d)
  row ← update_project id s now
  if p.estimate_bugs_and_chores && not s.estimate_bugs_and_chores
      then (do n ← clear_non_feature_estimates id now; pure row)
      else pure row

-- `Update`
unfoldable pub update_settings : ℕ → ℕ → ProjectInput → Tx ProjectRow
unfolding update_settings_body
update_settings now id input = in_tx (update_settings_body now id input)

abbrev pub same_bool : Bool → Bool → Bool
same_bool true b = b
same_bool false b = not b

unfoldable pub set_archived_body : ℕ → ℕ → Bool → Tx ProjectRow
unfolding set_project_archived
set_archived_body now id archived = do
  p ← map_err (or_not_found "project") (get_project id)
  if same_bool (is_some p.archived_at) archived
      then get_project id
      else set_project_archived id (if archived then some now else none) now

-- `SetArchived`
unfoldable pub set_archived : ℕ → ℕ → Bool → Tx ProjectRow
unfolding set_archived_body
set_archived now id archived = in_tx (set_archived_body now id archived)
