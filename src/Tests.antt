-- ===== src/Tests.antt =====
-- The theorems at concrete inputs.
mod Accounts
mod Tasks
mod Trash
use trackstar.AppErr.{Failure}
use trackstar.Auth.Limiter.Window.{granted, granted_bound}
use trackstar.Common.{
  Bool, [], any, arith, false, inl, length, max, min, none, not, refl, select, some, true, ℕ, ◌+◌,
  ◌-◌, ◌/◌, ◌<◌, ◌^◌, ◌↔◌, ◌∷◌, ◌≡◌, ◌≢◌, ◌≤◌,
}
use trackstar.Common.Int.{Within, half, int64, pos, ℤ, ◌+ℤ◌, ◌-ℤ◌, ◌<ℤ◌}
use trackstar.Common.Text.{trim_space}
use trackstar.Db.Accounts.{get_project}
use trackstar.Db.Labels.{list_story_labels}
use trackstar.Db.Order.{insert_by, sort_by}
use trackstar.Db.Planning.{
  add_story_blocker, clear_story_blockers, delete_project_member, list_project_members,
  list_story_blockers, list_tasks,
}
use trackstar.Db.Rows.{CommentRow, Db, Role, StoryRow}
use trackstar.Db.Stories.{create_comment, get_story, section_positions, update_story}
use trackstar.Db.Tx.{err, in_tx, ok}
use trackstar.Iteration.{at_time, contains, length_of, number, origin, origin_day, seek}
use trackstar.Iteration.Lookup.{at_time-contains}
use trackstar.Position.{between, gap}
use trackstar.Position.Between.{After, Before, between-eq-none, between-fits}
use trackstar.Project.Keeps.{IsOwned, remove_member-IsOwned, set_member-IsOwned}
use trackstar.Project.Members.{
  access_for, ensure_another_owner, no_access, owner_stays, remove_member, remove_member_body,
  set_member,
}
use trackstar.Project.Revoke.{remove_member-access_for}
use trackstar.Project.Settings.{ProjectInput, update_settings}
use trackstar.Project.Settings.Points.{HasNoStrayPoints, update_settings-HasNoStrayPoints}
use trackstar.Sample.{
  next_id, sample_calendar, sample_calendar-IsCalendar, sample_db, sample_db-InRange,
  sample_db-IsValid, sample_db-UniqueIds, sample_env, sample_now, sample_project, sample_story,
}
use trackstar.Story.Blockers.{
  add_blockers, any_reaches, check_blockers, reaches, reaches_from, set_blockers,
}
use trackstar.Story.Blockers.Acyclic.{Acyclic, set_blockers-Acyclic}
use trackstar.Story.Blockers.Search.{Edge, Waits, more, one, reaches_complete}
use trackstar.Story.Comments.{add_comment, remove_comment}
use trackstar.Story.Comments.Undo.{add_comment-remove_comment}
use trackstar.Story.Create.{create}
use trackstar.Story.Create.Keeps.{create-IsValid}
use trackstar.Story.Move.{move, move_many}
use trackstar.Story.Move.Keeps.{move-IsValid, move_many-IsValid}
use trackstar.Story.Move.Refused.{move_many-refused}
use trackstar.Story.Place.{place, slot}
use trackstar.Story.Place.Order.{Asked, other_ids, place-Slotted}
use trackstar.Story.Place.Slots.{Slotted}
use trackstar.Story.Trash.{purge}
use trackstar.Story.Trash.Purged.{IsCascaded, is_expired, purge-IsCascaded}
use trackstar.Story.Types.{CreateInput, MoveInput, Story, UpdateInput}
use trackstar.Story.Update.{
  drop_points, needs_estimate, record_notes, revise, update_body, update_description,
  update_estimate, update_owner, update_requester, update_row, update_state, update_story_fields,
  update_title, update_type,
}
use trackstar.Story.Update.Frozen.{SameAcceptance}
use trackstar.Story.Update.Keeps.{update_story_fields-IsValid}
use trackstar.Story.Update.Saved.{IsFrozen, update_story_fields-IsFrozen}
use trackstar.Story.Validity.{IsValid}
use trackstar.Story.View.{
  board_section, current_iteration_start, load, load_blockers, loaded_story, save, schedule_of,
}
use trackstar.Velocity.{VelocityResult, velocity}
use trackstar.Velocity.Total.{accepted_points, velocity-accepted_points}
use trackstar.Workflow.{
  Section, State, StoryType, can_transition, entry_state, in_progress, is_target, ordered_states,
  section_of, state_eq, state_valid, transitions,
}
use trackstar.Workflow.Graph.{
  IsUnderway, IsUnderway-leaves_by_unstarted, Run, accepted_needs_delivery, accepted_reachable,
  ordered_states_exact,
}

abbrev sample_update : UpdateInput
sample_update = record {
  title = some " Renamed ";
  description = none;
  type = some StoryType.bug;
  state = some State.finished;
  estimate = some (some 5);
  owner_id = none;
  requester_id = none;
  labels = none;
  blocked_by = some (3 ∷ []);
}

update_story_fields-IsValid_example :
    IsValid
      (update_story_fields sample_env sample_now 1
        (record { id = 1; is_admin = true })
        sample_update
        sample_db).1
update_story_fields-IsValid_example =
    update_story_fields-IsValid sample_env sample_now 1 (record { id = 1; is_admin = true })
      sample_update sample_db sample_db-IsValid

abbrev sample_move : MoveInput
sample_move = record { section = Section.backlog; prev_id = none; next_id = none }

move-IsValid_example : IsValid (move sample_env sample_now 2 1 sample_move sample_db).1
move-IsValid_example =
    move-IsValid sample_env sample_now 2 1 sample_move sample_db sample_db-IsValid

move_many-IsValid_example :
    IsValid (move_many sample_env sample_now (3 ∷ 2 ∷ []) 1 sample_move sample_db).1
move_many-IsValid_example =
    move_many-IsValid sample_env sample_now (3 ∷ 2 ∷ []) 1 sample_move sample_db sample_db-IsValid

abbrev sample_create : CreateInput
sample_create = record {
  title = "New";
  description = "";
  type = none;
  estimate = some 8;
  section = some Section.current;
  owner_id = some 2;
  labels = "ui" ∷ [];
  blocked_by = 2 ∷ [];
  after = some 1;
}

create-IsValid_example : IsValid (create sample_env sample_now 1 1 sample_create sample_db).1
create-IsValid_example =
    create-IsValid sample_env sample_now 1 1 sample_create sample_db sample_db-IsValid

purge-IsCascaded_example :
    ((purge sample_env 9000000 sample_db).0
      ≡ ok (length (select (is_expired 9000000) sample_db.stories)))
    × IsCascaded
        (select (λ s. not (is_expired 9000000 s)) sample_db.stories)
        sample_db
        (purge sample_env 9000000 sample_db).1
purge-IsCascaded_example = purge-IsCascaded sample_env 9000000 sample_db

-- Blockers.
sample-Edge : (a b : ℕ) → Edge sample_db a b → (a ≡ 2) × (b ≡ 3)
sample-Edge a b e = ground (arith, e)

no_chain_from_3 : (a b : ℕ) → a ≡ 3 → ¬ Waits sample_db a b
no_chain_from_3 a b at (one e) = omega (arith, at, (sample-Edge a b e).0)
no_chain_from_3 a b at (more {b = m} e w) = omega (arith, at, (sample-Edge a m e).0)

sample_db-Acyclic : Acyclic sample_db
sample_db-Acyclic s (one e) = omega (arith, (sample-Edge s s e).0, (sample-Edge s s e).1)
sample_db-Acyclic s (more {b = m} e w) = no_chain_from_3 m s (sample-Edge s m e).1 w

set_blockers-Acyclic_example :
    Acyclic
      (set_blockers
        (sample_story 1 State.started (some 3) 0 none none)
        (2 ∷ 3 ∷ 2 ∷ [])
        sample_db).1
unfolding set_blockers check_blockers add_blockers clear_story_blockers add_story_blocker reaches
    reaches_from any_reaches sort_by insert_by
set_blockers-Acyclic_example =
    set_blockers-Acyclic (sample_story 1 State.started (some 3) 0 none none) (2 ∷ 3 ∷ 2 ∷ [])
      sample_db
      (set_blockers (sample_story 1 State.started (some 3) 0 none none) (2 ∷ 3 ∷ 2 ∷ [])
        sample_db).1
      sample_db-Acyclic refl

reaches_complete_example : ¬ Waits sample_db 3 2
unfolding reaches reaches_from any_reaches sort_by insert_by
reaches_complete_example = reaches_complete sample_db 3 2 refl

-- Positions.
place-Slotted_example :
    (p : ℤ) × (moved : Bool) × (d' : Db) × (place 1 Section.icebox 5
        (record { prev_id = some 2; next_id = none; bottom = false })
        sample_db
      ≡ (ok (p, moved), d'))
    × Slotted d' (other_ids 1 Section.icebox 5 sample_db) 1 p
    × Asked (some 2) none false (other_ids 1 Section.icebox 5 sample_db) 1
unfolding slot section_positions ordered_states sort_by insert_by
place-Slotted_example =
    place-Slotted 1 Section.icebox 5 (record { prev_id = some 2; next_id = none; bottom = false })
      sample_db 1 sample_db-UniqueIds sample_db-InRange (omega arith) refl

between-fits_example :
    After (some (pos 10)) (pos 15)
    × Before (pos 15) (some (pos 20))
    × Within (2 ^ 61 + gap) (pos 15)
unfolding between half int64 ◌+ℤ◌ ◌-ℤ◌
between-fits_example =
    between-fits (some (pos 10)) (some (pos 20)) (pos 15) (omega arith, omega arith)
      (omega arith, omega arith) refl

between-eq-none_example :
    (between (some (pos 10)) (some (pos 11)) ≡ none) ↔ (pos 11 <ℤ pos 10 +ℤ pos 2)
between-eq-none_example =
    between-eq-none (pos 10) (pos 11) (omega arith, omega arith) (omega arith, omega arith)

-- The workflow.
IsUnderway-leaves_by_unstarted_example : IsUnderway State.finished
unfolding can_transition transitions in_progress
IsUnderway-leaves_by_unstarted_example =
    IsUnderway-leaves_by_unstarted {s = State.started} {t = State.finished} (inl refl)
      (Run.next Run.here refl (ground arith))

accepted_needs_delivery_example :
    (State.started ≢ State.accepted) × (State.started ≢ State.delivered)
unfolding can_transition transitions
accepted_needs_delivery_example =
    accepted_needs_delivery {s = State.icebox} {t = State.started} (ground arith, ground arith)
      (Run.next Run.here refl (ground arith))

accepted_reachable_example : Run (λ u. Unit {0}) State.icebox State.accepted
unfolding state_valid
accepted_reachable_example = accepted_reachable State.icebox refl

ordered_states_exact_example :
    ((any (λ t. state_eq t State.rejected) (ordered_states Section.current) ≡ true)
      ↔ ((section_of State.rejected ≡ Section.current) × (State.rejected ≢ State.accepted)))
    × (any (λ t. state_eq t (entry_state Section.current)) (ordered_states Section.current) ≡ true)
unfolding is_target state_valid
ordered_states_exact_example = ordered_states_exact Section.current State.rejected refl refl

-- Iterations and velocity.
at_time-contains_example :
    (500000 < origin sample_calendar (schedule_of sample_project)
      → at_time sample_calendar (schedule_of sample_project) 500000
        ≡ number sample_calendar (schedule_of sample_project) 1)
    × (origin sample_calendar (schedule_of sample_project) ≤ 500000
        → (q : ℕ) × (at_time sample_calendar (schedule_of sample_project) 500000
            ≡ number sample_calendar (schedule_of sample_project) (q + 1))
          × (contains (number sample_calendar (schedule_of sample_project) (q + 1)) 500000 ≡ true)
          × ((m : ℕ)
              → contains (number sample_calendar (schedule_of sample_project) (m + 1)) 500000 ≡ true
              → m ≡ q))
at_time-contains_example =
    at_time-contains sample_calendar sample_calendar-IsCalendar (schedule_of sample_project) 500000

velocity-accepted_points_example :
    (v : VelocityResult) × (velocity sample_env sample_now 1 sample_db ≡ (ok v, sample_db))
    × (v.average.0
        ≡ accepted_points 1
            (number sample_calendar (schedule_of sample_project) (0 + 1 - 3 + 1)).start_at
            (number sample_calendar (schedule_of sample_project) (0 + 2)).start_at
            sample_db)
    × (v.average.1 ≡ min 3 (0 + 1))
    × (v.velocity ≡ v.average.0 / v.average.1)
    × (v.estimated ≡ false)
unfolding get_project at_time seek number schedule_of origin origin_day length_of
velocity-accepted_points_example =
    velocity-accepted_points sample_env sample_calendar-IsCalendar 1 sample_now 0 sample_project
      sample_db refl (omega arith) refl

-- Members and settings.
sample_db-IsOwned : IsOwned 1 sample_db
sample_db-IsOwned = (((refl, tt), (tt, tt)), refl)

remove_member-IsOwned_example : IsOwned 1 (remove_member 1 1 sample_db).1
remove_member-IsOwned_example = remove_member-IsOwned 1 1 sample_db sample_db-IsOwned

set_member-IsOwned_example : IsOwned 1 (set_member 1 2 Role.member sample_db).1
set_member-IsOwned_example = set_member-IsOwned 1 2 Role.member sample_db sample_db-IsOwned

remove_member-access_for_example :
    access_for 1 2 false (remove_member 1 2 sample_db).1
    ≡ (ok (record no_access { archived = false }), (remove_member 1 2 sample_db).1)
unfolding remove_member remove_member_body ensure_another_owner owner_stays list_project_members
    delete_project_member in_tx sort_by insert_by
remove_member-access_for_example =
    remove_member-access_for 1 2 sample_project sample_db (remove_member 1 2 sample_db).1
      sample_db-IsOwned refl refl

abbrev sample_settings : ProjectInput
sample_settings = record {
  name = none;
  description = none;
  length_days = some (pos 14);
  start_weekday = none;
  velocity_window = none;
  estimate_bugs_and_chores = some false;
  combine_icebox_backlog = none;
}

update_settings-HasNoStrayPoints_example :
    HasNoStrayPoints 1 (update_settings sample_now 1 sample_settings sample_db).1
update_settings-HasNoStrayPoints_example =
    update_settings-HasNoStrayPoints sample_now 1 sample_settings sample_db (inl refl)

-- A refusal, an undo and a limit.
move_many-refused_example :
    (e : Failure) × (move_many sample_env sample_now (2 ∷ 4 ∷ []) 1 sample_move sample_db
      ≡ (err e, sample_db))
move_many-refused_example =
    move_many-refused sample_env sample_now 4 (2 ∷ 4 ∷ []) 1 sample_move sample_db refl
      (cc, (cc, (cc, ((λ _. refl), (cc, tt)))))

abbrev sample_comment : CommentRow
sample_comment = record {
  id = 1;
  story_id = 2;
  user_id = 1;
  body = "Fine";
  created_at = sample_now;
  updated_at = sample_now;
}

add_comment-remove_comment_example :
    remove_comment 1 1 (add_comment sample_env sample_now 2 1 "Fine" sample_db).1
    ≡ (ok 2, sample_db)
unfolding add_comment get_story create_comment trim_space
add_comment-remove_comment_example =
    add_comment-remove_comment sample_env sample_now 2 1 "Fine" sample_db
      (add_comment sample_env sample_now 2 1 "Fine" sample_db).1 sample_comment refl

granted_bound_example :
    granted "a"
      (record { time = 10; key = "a" }
        ∷ record { time = 11; key = "b" }
        ∷ record { time = 12; key = "a" }
        ∷ record { time = 13; key = "a" }
        ∷ [])
      (record { limit = 2; window = 60; entries = [] })
    ≤ max 1 2
granted_bound_example =
    granted_bound "a" 10
      (record { time = 11; key = "b" }
        ∷ record { time = 12; key = "a" }
        ∷ record { time = 13; key = "a" }
        ∷ [])
      (record { limit = 2; window = 60; entries = [] }) tt
      (omega arith, (omega arith, (omega arith, tt)))

abbrev sample_edit : UpdateInput
sample_edit = record {
  title = none;
  description = some "Shipped";
  type = none;
  state = none;
  estimate = none;
  owner_id = none;
  requester_id = none;
  labels = none;
  blocked_by = none;
}

abbrev sample_accepted : StoryRow
sample_accepted = sample_story 4 State.accepted (some 2) 0 (some 200000) none

abbrev edited_accepted : Story
edited_accepted =
    loaded_story (record sample_accepted { description = "Shipped"; updated_at = sample_now })
      691200 [] ([], false) 0 []

update_story_fields-IsFrozen_example :
    IsFrozen 4 sample_accepted
      (update_story_fields sample_env sample_now 4
        (record { id = 2; is_admin = false })
        sample_edit
        sample_db).1
    × SameAcceptance sample_accepted edited_accepted.row
unfolding update_story_fields update_body update_row revise update_title update_description
    update_type update_estimate update_owner update_requester update_state needs_estimate
    drop_points record_notes get_story save update_story load current_iteration_start get_project
    schedule_of at_time seek number origin origin_day length_of list_story_labels
    list_story_blockers load_blockers list_tasks board_section in_tx sort_by insert_by section_of
    in_progress
update_story_fields-IsFrozen_example =
    update_story_fields-IsFrozen sample_env sample_now 4 (record { id = 2; is_admin = false })
      sample_edit sample_db
      (update_story_fields sample_env sample_now 4 (record { id = 2; is_admin = false }) sample_edit
        sample_db).1
      sample_accepted edited_accepted refl refl refl refl
