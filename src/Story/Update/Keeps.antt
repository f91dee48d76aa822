-- ===== src/Story/Update/Keeps.antt =====
-- `Update` of internal/story/story.go, and valid stories.
use trackstar.AppErr.{or_not_found}
use trackstar.Common.{List, Option, String, [], is_some, none, some, ℕ, ◌∷◌}
use trackstar.Db.Rows.{Db, StoryRow}
use trackstar.Db.Tx.{pure}
use trackstar.Db.Tx.Frame.{KeepsStories, KeepsStories-bind, KeepsStories-pure, in_tx-keeps}
use trackstar.Db.Tx.Hoare.{Hoare, Hoare-bind, Hoare-given, Hoare-map_err, Hoare-refuse}
use trackstar.Story.Blockers.{set_blockers}
use trackstar.Story.Frame.{
  record_activity-KeepsStories, set_blockers-KeepsStories, set_labels-KeepsStories,
}
use trackstar.Story.Labels.{set_labels}
use trackstar.Story.Types.{Actor, Env, UpdateInput}
use trackstar.Story.Update.{
  Draft, Note, needs_estimate, no_estimate, record_notes, revise, trashed, update_body, update_row,
  update_story_fields,
}
use trackstar.Story.Update.Stages.{
  drop_points-IsValidStory, update_description-IsSound, update_estimate-IsSound,
  update_owner-IsSound, update_requester-IsSound, update_state-IsSound, update_title-IsSound,
  update_type-IsSound,
}
use trackstar.Story.Validity.{
  IsSound, IsValid, IsValidStory, get_story-IsValid, keeps-IsValid, save-IsValid,
}

record_notes-KeepsStories :
    (env : Env) (now story actor : ℕ) (notes : List Note)
    → KeepsStories (record_notes env now story actor notes)
unfolding record_notes
record_notes-KeepsStories env now story actor [] = KeepsStories-pure tt
record_notes-KeepsStories env now story actor (n ∷ ns) =
    KeepsStories-bind _ _
      (record_activity-KeepsStories env now story actor n.kind n.old_value n.new_value)
      (λ _. record_notes-KeepsStories env now story actor ns)

labels_step :
    (env : Env) (row : StoryRow) (asked : Option (List String))
    → KeepsStories
        (elim asked [ none ↦ pure tt | some names ↦ set_labels env row.project_id row.id names ])
labels_step env row none = KeepsStories-pure tt
labels_step env row (some names) = set_labels-KeepsStories env row.project_id row.id names

blockers_step :
    (row : StoryRow) (asked : Option (List ℕ))
    → KeepsStories (elim asked [ none ↦ pure tt | some ids ↦ set_blockers row ids ])
blockers_step row none = KeepsStories-pure tt
blockers_step row (some ids) = set_blockers-KeepsStories row ids

abbrev Sound : Draft → Db → Type 0
Sound r d = IsValid d × IsSound r.row

revise-IsValidStory :
    (input : UpdateInput) (actor : Actor) (now : ℕ) (row : StoryRow)
    → IsValidStory row
    → Hoare IsValid (revise input actor now row) (λ r d. IsValid d × IsValidStory r.row)
unfolding revise
revise-IsValidStory input actor now row v =
    Hoare-bind Sound (update_title-IsSound input.title (record { row = row; notes = [] }) v.sound)
      λ titled. Hoare-given λ v1.
        Hoare-bind Sound (update_description-IsSound input.description titled v1) λ described.
          Hoare-given λ v2. Hoare-bind Sound (update_type-IsSound input.type described v2) λ typed.
            Hoare-given λ v3.
              Hoare-bind Sound (update_estimate-IsSound input.estimate typed v3) λ estimated.
                Hoare-given λ v4.
                  Hoare-bind Sound (update_owner-IsSound input.owner_id estimated v4) λ owned.
                    Hoare-given λ v5.
                      Hoare-bind Sound (update_requester-IsSound input.requester_id owned v5)
                        λ requested. Hoare-given λ v6.
                          Hoare-bind Sound (update_state-IsSound input.state actor now requested v6)
                            λ entered. Hoare-given λ v7.
                              Hoare-refuse (needs_estimate entered.row) no_estimate λ has_points.
                                drop_points-IsValidStory input.estimate entered
                                  (record { sound = v7; estimated = has_points })

update_row-IsValid :
    (env : Env) (now : ℕ) (actor : Actor) (input : UpdateInput) (row : StoryRow)
    → IsValidStory row
    → Hoare IsValid (update_row env now actor input row) (λ _ d. IsValid d)
unfolding update_row
update_row-IsValid env now actor input row v = Hoare-refuse (is_some row.deleted_at) trashed λ _.
    Hoare-bind (λ r d. IsValid d × IsValidStory r.row) (revise-IsValidStory input actor now row v)
      λ draft. Hoare-given λ v'.
        Hoare-bind (λ _ d. IsValid d) (keeps-IsValid _ (labels_step env draft.row input.labels))
          λ _.
            Hoare-bind (λ _ d. IsValid d)
              (keeps-IsValid _ (blockers_step draft.row input.blocked_by))
              λ _.
                Hoare-bind (λ _ d. IsValid d)
                  (keeps-IsValid _
                    (record_notes-KeepsStories env now draft.row.id actor.id draft.notes))
                  λ _. save-IsValid env now draft.row v'

update_body-IsValid :
    (env : Env) (now id : ℕ) (actor : Actor) (input : UpdateInput)
    → Hoare IsValid (update_body env now id actor input) (λ _ d. IsValid d)
unfolding update_body
update_body-IsValid env now id actor input =
    Hoare-bind (λ s d. IsValid d × IsValidStory s)
      (Hoare-map_err (or_not_found "story") (get_story-IsValid id))
      λ row. Hoare-given λ v. update_row-IsValid env now actor input row v

-- Whatever `Update` is asked, and whether it succeeds or is refused, every story stays valid: its
-- type, state and points are among the constants, it has an acceptance time exactly when it is
-- accepted, and a feature that was started has points.
pub update_story_fields-IsValid :
    (env : Env) (now id : ℕ) (actor : Actor) (input : UpdateInput) (d : Db)
    → IsValid d
    → IsValid (update_story_fields env now id actor input d).1
unfolding update_story_fields
update_story_fields-IsValid env now id actor input =
    in_tx-keeps IsValid (update_body env now id actor input)
      (update_body-IsValid env now id actor input)
