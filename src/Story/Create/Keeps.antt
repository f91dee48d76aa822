-- ===== src/Story/Create/Keeps.antt =====
-- `Create` of internal/story/story.go, and valid stories.
use trackstar.AppErr.{or_not_found}
use trackstar.Common.{
  List, Option, String, arith, false, if◌then◌else◌, is_some, length, not, refl, true, ℕ, ◌&&◌,
  ◌==◌, ◌≡◌,
}
use trackstar.Db.Rows.{Db, LogValue, StoryRow}
use trackstar.Db.Stories.{Engine, NewStory, create_story, new_story_row, story_ids}
use trackstar.Db.Tx.{Result, err, in_tx, ok, pure, ◌>>=◌}
use trackstar.Db.Tx.Frame.{KeepsStories, KeepsStories-if, KeepsStories-pure, in_tx-keeps}
use trackstar.Db.Tx.Hoare.{Hoare, Hoare-bind, Hoare-map_err, Hoare-refuse, OkPost}
use trackstar.Story.Blockers.{set_blockers}
use trackstar.Story.Create.{checked_input, create, create_body, create_placement, new_story}
use trackstar.Story.Frame.{
  get_project-KeepsStories, load-KeepsStories, record_activity-KeepsStories,
  require_user-KeepsStories, set_blockers-KeepsStories, set_labels-KeepsStories,
}
use trackstar.Story.Types.{CreateInput, Env}
use trackstar.Story.Update.{bad_estimate, needs_estimate, no_bug_chore_points}
use trackstar.Story.Validity.{IsValid, IsValidStory, keeps-IsValid, place-IsValid}
use trackstar.Workflow.{
  Section, StoryType, entry_state, in_progress, is_target, section_text, state_valid, type_eq,
  type_valid,
}

abbrev Checked : String × StoryType × Section → Option ℕ → Type 0
Checked r estimate =
    (type_valid r.1 ≡ true) × (bad_estimate estimate ≡ false) × (is_target r.2 ≡ true)

checked_input-Checked :
    (input : CreateInput)
    → Hoare IsValid (λ d. (checked_input input, d)) (λ r d. IsValid d × Checked r input.estimate)
unfolding checked_input
checked_input-Checked input = record { at = λ d h. ground (arith, h) }

new_story_row-IsValidStory :
    (n : NewStory) (id now : ℕ) (sec : Section)
    → type_valid n.type ≡ true
    → bad_estimate n.estimate ≡ false
    → n.state ≡ entry_state sec
    → IsValidStory (new_story_row n id now)
unfolding needs_estimate entry_state state_valid in_progress
new_story_row-IsValidStory n id now Section.icebox t e s = record {
  sound = record { type_ok = t; state_ok = rw s refl; points_ok = e; dated = rw s refl };
  estimated = rw s (ground arith);
}
new_story_row-IsValidStory n id now Section.backlog t e s = record {
  sound = record { type_ok = t; state_ok = rw s refl; points_ok = e; dated = rw s refl };
  estimated = rw s (ground arith);
}
new_story_row-IsValidStory n id now Section.current t e s = record {
  sound = record { type_ok = t; state_ok = rw s refl; points_ok = e; dated = rw s refl };
  estimated = rw s (ground arith);
}
new_story_row-IsValidStory n id now Section.done t e s = record {
  sound = record { type_ok = t; state_ok = rw s refl; points_ok = e; dated = rw s refl };
  estimated = rw s (ground arith);
}
new_story_row-IsValidStory n id now Section.unknown t e s = record {
  sound = record { type_ok = t; state_ok = rw s refl; points_ok = e; dated = rw s refl };
  estimated = rw s (ground arith);
}

create_story-IsValid :
    (engine : Engine) (n : NewStory) (now : ℕ) (sec : Section)
    → type_valid n.type ≡ true
    → bad_estimate n.estimate ≡ false
    → n.state ≡ entry_state sec
    → Hoare IsValid (create_story engine n now) (λ _ d. IsValid d)
unfolding create_story
create_story-IsValid engine n now sec t e s = record {
  at = λ d h. (new_story_row-IsValidStory n (engine.fresh_id (story_ids d)) now sec t e s, h);
}

blockers_step :
    (row : StoryRow) (ids : List ℕ)
    → KeepsStories (if length ids == 0 then pure tt else set_blockers row ids)
blockers_step row ids =
    KeepsStories-if (length ids == 0) (pure tt) (set_blockers row ids) (KeepsStories-pure tt)
      (set_blockers-KeepsStories row ids)

module _ (env : Env) (now : ℕ) where
  create_body-IsValid :
      (project actor : ℕ) (input : CreateInput) (r : String × StoryType × Section)
      → Checked r input.estimate
      → Hoare IsValid (create_body env now project actor input r.0 r.1 r.2) (λ _ d. IsValid d)
  unfolding create_body
  create_body-IsValid project actor input (title, type, sec) checked =
      Hoare-bind (λ _ d. IsValid d)
        (Hoare-map_err (or_not_found "project")
          (keeps-IsValid _ (get_project-KeepsStories project)))
        λ p.
          Hoare-refuse
            (is_some input.estimate
              && not (type_eq type StoryType.feature)
              && not p.estimate_bugs_and_chores)
            no_bug_chore_points
            λ _.
              Hoare-bind (λ _ d. IsValid d)
                (keeps-IsValid _
                  (require_user-KeepsStories input.owner_id "owner %d does not exist"))
                λ _.
                  Hoare-bind (λ _ d. IsValid d)
                    (place-IsValid project sec 0 (create_placement input sec))
                    λ placed.
                      Hoare-bind (λ _ d. IsValid d)
                        (create_story-IsValid env.engine
                          (new_story project actor input title type sec placed.0) now sec checked.0
                          checked.1 refl)
                        λ row.
                          Hoare-bind (λ _ d. IsValid d)
                            (keeps-IsValid _
                              (set_labels-KeepsStories env project row.id input.labels))
                            λ _.
                              Hoare-bind (λ _ d. IsValid d)
                                (keeps-IsValid _ (blockers_step row input.blocked_by))
                                λ _.
                                  Hoare-bind (λ _ d. IsValid d)
                                    (keeps-IsValid _ (
                                      record_activity-KeepsStories env now row.id actor "created"
                                        (LogValue.text "") (LogValue.text (section_text sec))))
                                    λ _. keeps-IsValid _ (load-KeepsStories env now row)

  create_bound :
      (project actor : ℕ) (input : CreateInput) (r : Result (String × StoryType × Section)) (d : Db)
      → OkPost (λ c e. IsValid e × Checked c input.estimate) (r, d)
      → IsValid d
      → IsValid
          (((λ (e : Db). (r, e)) >>= λ c.
              in_tx (create_body env now project actor input c.0 c.1 c.2))
            d).1
  create_bound project actor input (ok c) d h v =
      in_tx-keeps IsValid (create_body env now project actor input c.0 c.1 c.2)
        (create_body-IsValid project actor input c h.1) d v
  create_bound project actor input (err e) d h v = v

  -- `Create` leaves every story valid, whether it succeeds or is refused.
  pub create-IsValid :
      (project actor : ℕ) (input : CreateInput) (d : Db)
      → IsValid d
      → IsValid (create env now project actor input d).1
  unfolding create
  create-IsValid project actor input d h =
      create_bound project actor input (checked_input input) d
        ((checked_input-Checked input).at d h) h
