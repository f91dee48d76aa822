-- ===== src/Story/Move/Keeps.antt =====
-- `Move` and `MoveMany` of internal/story/story.go, and valid stories.
use trackstar.AppErr.{invalid_err, or_not_found}
use trackstar.Common.{
  Bool-cases, List, Option, [], any, arith, false, if◌then◌else◌, inl, inr, is_some, length, ltb,
  none, not, refl, some, true, ℕ, ◌&&◌, ◌==◌, ◌||◌, ◌∙◌, ◌∷◌, ◌≡◌,
}
use trackstar.Common.Int.{ℤ}
use trackstar.Db.Rows.{Db, LogValue, StoryRow}
use trackstar.Db.Tx.{pure}
use trackstar.Db.Tx.Frame.{KeepsStories, KeepsStories-if, KeepsStories-pure, in_tx-keeps}
use trackstar.Db.Tx.Hoare.{
  Hoare, Hoare-bind, Hoare-fail, Hoare-given, Hoare-if, Hoare-if-below, Hoare-map_err, Hoare-pure,
  Hoare-refuse,
}
use trackstar.Story.Frame.{record_activity-KeepsStories}
use trackstar.Story.Move.{
  Messages, after_prev, check_movable, different_projects, dragged_state, is_moving, move,
  move_batch, move_body, move_each, move_many, move_many_messages, move_messages, move_row,
  other_project, target_moves,
}
use trackstar.Story.Place.{Placement}
use trackstar.Story.Types.{Env, MoveInput}
use trackstar.Story.Update.{is_accepted, needs_estimate}
use trackstar.Story.Validity.{
  IsValid, IsValidStory, SameContent-IsValidStory, get_story-IsValid, keeps-IsValid, place-IsValid,
  save-IsValid,
}
use trackstar.Story.View.{record_activity}
use trackstar.Workflow.{
  Section, State, entry_state, in_progress, is_target, section_eq, section_of, section_text,
  state_eq, state_valid,
}

check_movable-IsValid :
    (messages : Messages) (sec : Section) (row : StoryRow)
    → Hoare IsValid (check_movable messages sec row) (λ _ d. IsValid d × (is_accepted row ≡ false))
unfolding check_movable
check_movable-IsValid messages sec row =
    Hoare-if (is_some row.deleted_at) (λ _. Hoare-fail (invalid_err messages.trashed))
      λ _.
        Hoare-if (state_eq row.state State.accepted)
          (λ _. Hoare-fail (invalid_err messages.accepted))
          λ unaccepted.
            Hoare-if (in_progress row.state && not (section_eq sec Section.current))
              (λ _. Hoare-fail (invalid_err messages.pinned))
              (λ _. Hoare-pure tt (λ d h. (h, unaccepted)))

-- A story enters a section in a state that is open and not in progress.
entry_row-IsValidStory :
    (sec : Section) (row : StoryRow) (p : ℤ)
    → IsValidStory row
    → is_accepted row ≡ false
    → is_target sec ≡ true
    → IsValidStory (record row { state = entry_state sec; position = p })
unfolding needs_estimate entry_state state_valid is_target in_progress
entry_row-IsValidStory Section.icebox row p v e t = record {
  sound = record {
    type_ok = v.sound.type_ok;
    state_ok = refl;
    points_ok = v.sound.points_ok;
    dated = v.sound.dated ∙ e;
  };
  estimated = ground arith;
}
entry_row-IsValidStory Section.backlog row p v e t = record {
  sound = record {
    type_ok = v.sound.type_ok;
    state_ok = refl;
    points_ok = v.sound.points_ok;
    dated = v.sound.dated ∙ e;
  };
  estimated = ground arith;
}
entry_row-IsValidStory Section.current row p v e t = record {
  sound = record {
    type_ok = v.sound.type_ok;
    state_ok = refl;
    points_ok = v.sound.points_ok;
    dated = v.sound.dated ∙ e;
  };
  estimated = ground arith;
}
entry_row-IsValidStory Section.done row p v e t = cc
entry_row-IsValidStory Section.unknown row p v e t = cc

dragged_row-IsValidStory :
    (sec : Section) (row : StoryRow) (p : ℤ)
    → IsValidStory row
    → is_accepted row ≡ false
    → is_target sec ≡ true
    → IsValidStory (record row { state = dragged_state sec row.state; position = p })
unfolding dragged_state
dragged_row-IsValidStory sec row p v e t =
    elim (Bool-cases (section_eq (section_of row.state) sec)) [
      | inl here ↦
          rw here
            (SameContent-IsValidStory row (record row { position = p }) (refl, refl, refl, refl) v)
      | inr there ↦ rw there (entry_row-IsValidStory sec row p v e t)
    ]

pub log_move-KeepsStories :
    (env : Env) (now actor : ℕ) (sec : Section) (row : StoryRow)
    → KeepsStories (
        if section_eq (section_of row.state) sec
        then pure tt
        else record_activity env now row.id actor "moved"
            (LogValue.text (section_text (section_of row.state)))
            (LogValue.text (section_text sec)))
log_move-KeepsStories env now actor sec row =
    KeepsStories-if (section_eq (section_of row.state) sec) (pure tt) _ (KeepsStories-pure tt)
      (record_activity-KeepsStories env now row.id actor "moved" _ _)

module _ (env : Env) (now : ℕ) where
  move_row-IsValid :
      (messages : Messages) (actor : ℕ) (sec : Section) (w : Placement) (row : StoryRow)
      → IsValidStory row
      → is_target sec ≡ true
      → Hoare IsValid (move_row env now messages actor sec w row) (λ _ d. IsValid d)
  unfolding move_row
  move_row-IsValid messages actor sec w row v t =
      Hoare-bind (λ _ d. IsValid d × (is_accepted row ≡ false))
        (check_movable-IsValid messages sec row)
        λ _. Hoare-given λ e.
          Hoare-bind (λ _ d. IsValid d)
            (keeps-IsValid _ (log_move-KeepsStories env now actor sec row))
            λ _.
              Hoare-bind (λ _ d. IsValid d) (place-IsValid row.project_id sec row.id w)
                λ placed.
                  Hoare-bind (λ _ d. IsValid d)
                    (save-IsValid env now
                      (record row { state = dragged_state sec row.state; position = placed.0 })
                      (dragged_row-IsValidStory sec row placed.0 v e t))
                    λ story.
                      Hoare-pure (record { story = story; renormalized = placed.1 }) (λ d h. h)

  move_body-IsValid :
      (id actor : ℕ) (input : MoveInput)
      → is_target input.section ≡ true
      → Hoare IsValid (move_body env now id actor input) (λ _ d. IsValid d)
  unfolding move_body
  move_body-IsValid id actor input t =
      Hoare-bind (λ s d. IsValid d × IsValidStory s)
        (Hoare-map_err (or_not_found "story") (get_story-IsValid id))
        λ row. Hoare-given λ v.
          move_row-IsValid move_messages actor input.section
            (record { prev_id = input.prev_id; next_id = input.next_id; bottom = false }) row v t

  -- `Move` leaves every story valid, whether it succeeds or is refused.
  pub move-IsValid :
      (id actor : ℕ) (input : MoveInput) (d : Db)
      → IsValid d
      → IsValid (move env now id actor input d).1
  unfolding move
  move-IsValid id actor input d h = elim (Bool-cases (is_target input.section)) [
    | inl t ↦ rw t (
        in_tx-keeps IsValid (move_body env now id actor input) (move_body-IsValid id actor input t)
          d h)
    | inr f ↦ rw f h
  ]

  move_each-IsValid :
      (ids seen : List ℕ) (project prev : Option ℕ) (actor : ℕ) (input : MoveInput)
      → is_target input.section ≡ true
      → Hoare IsValid (move_each env now ids seen project prev actor input) (λ _ d. IsValid d)
  unfolding move_each
  move_each-IsValid [] seen project prev actor input t = Hoare-pure [] (λ d h. h)
  move_each-IsValid (id ∷ ids) seen project prev actor input t =
      Hoare-if-below (any (λ s. s == id) seen)
        (move_each-IsValid ids seen project prev actor input t)
        (Hoare-bind (λ s d. IsValid d × IsValidStory s)
          (Hoare-map_err (or_not_found "story") (get_story-IsValid id))
          λ row. Hoare-given λ v. Hoare-refuse (other_project project row) different_projects λ _.
            Hoare-bind (λ _ d. IsValid d)
              (move_row-IsValid move_many_messages actor input.section (after_prev prev input) row v
                t)
              λ moved.
                Hoare-bind (λ _ d. IsValid d)
                  (move_each-IsValid ids (id ∷ seen) (some row.project_id) (some id) actor input t)
                  λ rest. Hoare-pure (moved.story ∷ rest) (λ d h. h))

  move_batch-IsValid :
      (ids : List ℕ) (actor : ℕ) (input : MoveInput)
      → is_target input.section ≡ true
      → Hoare IsValid (move_batch env now ids actor input) (λ _ d. IsValid d)
  unfolding move_batch
  move_batch-IsValid ids actor input t =
      Hoare-refuse (is_moving ids input.prev_id || is_moving ids input.next_id) target_moves
        λ _. move_each-IsValid ids [] none input.prev_id actor input t

  -- `MoveMany` leaves every story valid, whether it succeeds or is refused.
  pub move_many-IsValid :
      (ids : List ℕ) (actor : ℕ) (input : MoveInput) (d : Db)
      → IsValid d
      → IsValid (move_many env now ids actor input d).1
  unfolding move_many
  move_many-IsValid ids actor input d h =
      elim (Bool-cases (length ids == 0 || ltb 200 (length ids))) [
        | inl out ↦ rw out h
        | inr size ↦ elim (Bool-cases (is_target input.section)) [
          | inl t ↦
              rw (size, t)
                (in_tx-keeps IsValid (move_batch env now ids actor input)
                  (move_batch-IsValid ids actor input t) d h)
          | inr f ↦ rw (size, f) h
        ]
      ]
