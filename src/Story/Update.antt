-- ===== src/Story/Update.antt =====
-- `Update` of internal/story/story.go, a stage for each part of its body.
pub mod Stages
pub mod Keeps
pub mod Frozen
pub mod Saved
use Prim.Native.String.{len}
use text.Mathlib.Text.{◌==◌ as str_eq}
use trackstar.AppErr.{Failure, forbidden_err, invalid_err, or_not_found}
use trackstar.Common.{
  Bool, List, Option, String, [], false, if◌then◌else◌, is_some, ltb, none, not, opt_eq, some, true,
  ℕ, ◌&&◌, ◌++◌, ◌||◌, ◌∷◌,
}
use trackstar.Common.Text.{is_empty, trim_space}
use trackstar.Db.Accounts.{get_project}
use trackstar.Db.Rows.{LogValue, StoryRow}
use trackstar.Db.Stories.{get_story}
use trackstar.Db.Tx.{Tx, fail, in_tx, map_err, pure, refuse_if, ◌>>=◌, ◌>>◌}
use trackstar.Story.Blockers.{set_blockers}
use trackstar.Story.Labels.{set_labels}
use trackstar.Story.Place.{place}
use trackstar.Story.Types.{Actor, Env, Opt, Story, UpdateInput, fmt_null_int}
use trackstar.Story.View.{record_activity, require_user, save}
use trackstar.Workflow.{
  State, StoryType, can_transition, in_progress, section_eq, section_of, state_eq, state_text,
  state_valid, type_eq, type_text, type_valid, valid_estimate,
}

-- An entry of `acts`.
pub record Note : Type 0 where
  pub kind : String
  pub old_value : LogValue
  pub new_value : LogValue

-- The row as it is changed, and the notes so far.
pub record Draft : Type 0 where
  pub row : StoryRow
  pub notes : List Note

-- `note`
abbrev pub noted : Draft → StoryRow → String → LogValue → LogValue → Draft
noted draft row kind old new = record {
  row = row;
  notes = draft.notes ++ record { kind = kind; old_value = old; new_value = new } ∷ [];
}

abbrev pub is_accepted : StoryRow → Bool
is_accepted row = state_eq row.state State.accepted

unfoldable pub update_title : Option String → Draft → Tx Draft
update_title none draft = pure draft
update_title (some text) draft =
    let title = trim_space text in
    let row = record draft.row { title = title } in
    if str_eq title draft.row.title
    then pure draft
    else if is_empty title || ltb 500 (len title)
    then fail (invalid_err "title must be 1 to 500 characters")
    else pure (noted draft row "title" (LogValue.text draft.row.title) (LogValue.text title))

unfoldable pub update_description : Option String → Draft → Tx Draft
update_description none draft = pure draft
update_description (some text) draft =
    pure (record draft { row = record draft.row { description = text } })

unfoldable pub update_type : Option StoryType → Draft → Tx Draft
update_type none draft = pure draft
update_type (some type) draft =
    if type_eq type draft.row.type
    then pure draft
    else if not (type_valid type)
    then fail (invalid_err "type must be feature, bug or chore")
    else if is_accepted draft.row
    then fail (invalid_err "an accepted story's type cannot change")
    else pure (
        noted draft (record draft.row { type = type }) "type"
          (LogValue.text (type_text draft.row.type)) (LogValue.text (type_text type)))

abbrev pub bad_estimate : Option ℕ → Bool
bad_estimate none = false
bad_estimate (some v) = not (valid_estimate v)

unfoldable pub update_estimate : Opt ℕ → Draft → Tx Draft
unfolding fmt_null_int
update_estimate none draft = pure draft
update_estimate (some value) draft =
    if opt_eq draft.row.estimate value
    then pure draft
    else if bad_estimate value
    then fail (invalid_err "estimate must be one of 0, 1, 2, 3, 5, 8")
    else if is_accepted draft.row
    then fail (invalid_err "an accepted story's estimate cannot change")
    else pure (
        noted draft (record draft.row { estimate = value }) "estimate"
          (fmt_null_int draft.row.estimate) (fmt_null_int value))

unfoldable pub update_owner : Opt ℕ → Draft → Tx Draft
unfolding fmt_null_int require_user
update_owner none draft = pure draft
update_owner (some value) draft = if opt_eq draft.row.owner_id value then pure draft else do
  require_user value "owner %d does not exist"
  pure (
      noted draft (record draft.row { owner_id = value }) "owner" (fmt_null_int draft.row.owner_id)
        (fmt_null_int value))

unfoldable pub update_requester : Option ℕ → Draft → Tx Draft
unfolding require_user
update_requester none draft = pure draft
update_requester (some user) draft = do
  require_user (some user) "requester %d does not exist"
  pure (record draft { row = record draft.row { requester_id = user } })

-- The parts of a change of state, in their order.
unfoldable pub reopen : Actor → Draft → Tx Draft
reopen actor draft =
    if not (is_accepted draft.row)
    then pure draft
    else if not actor.is_admin
    then fail (forbidden_err "only an administrator can reopen an accepted story")
    else pure (
        noted draft (record draft.row { accepted_at = none }) "reopened" (LogValue.text "")
          (LogValue.text ""))

unfoldable pub change_section : State → Draft → Tx Draft
change_section to draft =
    if section_eq (section_of to) (section_of draft.row.state) then pure draft else do
      placed ←
          place draft.row.project_id (section_of to) draft.row.id
            (record { prev_id = none; next_id = none; bottom = true })
      pure (record draft { row = record draft.row { position = placed.0 } })

unfoldable pub take_over : Actor → State → Draft → Draft
take_over actor to draft =
    if state_eq to State.started && not (is_some draft.row.owner_id)
    then noted draft (record draft.row { owner_id = some actor.id }) "owner" (LogValue.text "")
        (LogValue.decimal actor.id)
    else draft

unfoldable pub accept : State → ℕ → Draft → Draft
accept to now draft =
    if state_eq to State.accepted
    then record draft { row = record draft.row { accepted_at = some now } }
    else draft

abbrev pub enter_state : State → Draft → Draft
enter_state to draft =
    noted draft (record draft.row { state = to }) "state"
      (LogValue.text (state_text draft.row.state)) (LogValue.text (state_text to))

unfoldable pub update_state : Option State → Actor → ℕ → Draft → Tx Draft
unfolding reopen change_section take_over accept
update_state none actor now draft = pure draft
update_state (some to) actor now draft =
    if state_eq to draft.row.state
    then pure draft
    else if not (state_valid to)
    then fail (invalid_err "unknown state %q")
    else if not (can_transition draft.row.state to)
    then fail (invalid_err "a story cannot go from %s to %s")
    else do
      reopened ← reopen actor draft
      moved ← change_section to reopened
      pure (enter_state to (accept to now (take_over actor to moved)))

abbrev pub no_estimate : Failure
no_estimate = invalid_err "a feature needs an estimate before it can be started"

abbrev pub trashed : Failure
trashed = invalid_err "this story is in the trash; restore it first"

unfoldable pub needs_estimate : StoryRow → Bool
needs_estimate row =
    type_eq row.type StoryType.feature
    && not (is_some row.estimate)
    && (in_progress row.state || is_accepted row)

abbrev pub no_bug_chore_points : Failure
no_bug_chore_points =
    invalid_err
      "bugs and chores cannot have points in this project; a project owner can allow them in the project settings"

abbrev pub sets_value : Opt ℕ → Bool
sets_value none = false
sets_value (some value) = is_some value

-- Points on a bug or chore where the project does not allow them.
unfoldable pub drop_points : Opt ℕ → Draft → Tx Draft
unfolding fmt_null_int
drop_points asked draft =
    if type_eq draft.row.type StoryType.feature || not (is_some draft.row.estimate)
    then pure draft
    else do
      p ← get_project draft.row.project_id
      if p.estimate_bugs_and_chores
          then pure draft
          else if sets_value asked
          then fail no_bug_chore_points
          else pure (
              noted draft (record draft.row { estimate = none }) "estimate"
                (fmt_null_int draft.row.estimate) (LogValue.text ""))

-- From the story as it was read to the row that is saved.
unfoldable pub revise : UpdateInput → Actor → ℕ → StoryRow → Tx Draft
unfolding update_title update_description update_type update_estimate update_owner update_requester
    update_state needs_estimate drop_points
revise input actor now row = do
  titled ← update_title input.title (record { row = row; notes = [] })
  described ← update_description input.description titled
  typed ← update_type input.type described
  estimated ← update_estimate input.estimate typed
  owned ← update_owner input.owner_id estimated
  requested ← update_requester input.requester_id owned
  entered ← update_state input.state actor now requested
  refuse_if (needs_estimate entered.row) no_estimate
  drop_points input.estimate entered

module _ (env : Env) (now : ℕ) where
  unfoldable pub record_notes : ℕ → ℕ → List Note → Tx Unit
  record_notes story actor [] = pure tt
  record_notes story actor (n ∷ ns) = do
    record_activity env now story actor n.kind n.old_value n.new_value
    record_notes story actor ns

  unfoldable pub update_row : Actor → UpdateInput → StoryRow → Tx Story
  unfolding revise record_notes
  update_row actor input row = do
    refuse_if (is_some row.deleted_at) trashed
    draft ← revise input actor now row
    elim input.labels [
      | none ↦ pure tt
      | some names ↦ set_labels env draft.row.project_id draft.row.id names
    ]
    elim input.blocked_by [ none ↦ pure tt | some ids ↦ set_blockers draft.row ids ]
    record_notes draft.row.id actor.id draft.notes
    save env now draft.row

  unfoldable pub update_body : ℕ → Actor → UpdateInput → Tx Story
  unfolding update_row
  update_body id actor input = do
    row ← map_err (or_not_found "story") (get_story id)
    update_row actor input row

  -- `Update`
  unfoldable pub update_story_fields : ℕ → Actor → UpdateInput → Tx Story
  unfolding update_body
  update_story_fields id actor input = in_tx (update_body id actor input)
