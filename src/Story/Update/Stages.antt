-- ===== src/Story/Update/Stages.antt =====
-- The stages of `Update` of internal/story/story.go, and sound rows.
use Prim.Native.String.{len}
use text.Mathlib.Text.{◌==◌ as str_eq}
use trackstar.Common.{
  Bool-cases, Option, String, arith, false, inl, inr, is_some, ltb, none, not, opt_eq, refl, some,
  sym, true, ℕ, ◌&&◌, ◌||◌, ◌∙◌, ◌≡◌,
}
use trackstar.Common.Text.{is_empty, trim_space}
use trackstar.Db.Accounts.{get_project}
use trackstar.Db.Rows.{StoryRow}
use trackstar.Db.Tx.{Tx, pure, ◌>>=◌}
use trackstar.Db.Tx.Hoare.{
  Hoare, Hoare-bind, Hoare-fail, Hoare-given, Hoare-if, Hoare-pure, Hoare-then,
}
use trackstar.Story.Frame.{get_project-KeepsStories, require_user-KeepsStories}
use trackstar.Story.Types.{Actor, Opt}
use trackstar.Story.Update.{
  Draft, accept, bad_estimate, change_section, drop_points, enter_state, is_accepted,
  needs_estimate, reopen, sets_value, take_over, update_description, update_estimate, update_owner,
  update_requester, update_state, update_title, update_type,
}
use trackstar.Story.Validity.{
  IsSound, IsValid, IsValidStory, SameContent, keeps-IsValid, place-IsValid,
}
use trackstar.Workflow.{
  State, StoryType, can_transition, section_eq, section_of, state_eq, state_valid, type_eq,
  type_valid,
}

pub SameContent-IsSound : (s t : StoryRow) → SameContent s t → IsSound s → IsSound t
SameContent-IsSound s t same v = record {
  type_ok = rw same.0 v.type_ok;
  state_ok = rw same.1 v.state_ok;
  points_ok = rw same.2 v.points_ok;
  dated = rw (same.1, same.3) v.dated;
}

-- A stage ends with a sound row, and the database stays valid.
abbrev pub EndsSound : Tx Draft → Type 0
EndsSound m = Hoare IsValid m (λ r d. IsValid d × IsSound r.row)

done : (r : Draft) → IsSound r.row → EndsSound (pure r)
done r v = Hoare-pure r (λ d h. (h, v))

pub update_title-IsSound :
    (text : Option String) (draft : Draft) → IsSound draft.row → EndsSound (update_title text draft)
unfolding update_title
update_title-IsSound none draft v = done draft v
update_title-IsSound (some text) draft v =
    Hoare-if (str_eq (trim_space text) draft.row.title) (λ _. done draft v)
      λ _.
        Hoare-if (is_empty (trim_space text) || ltb 500 (len (trim_space text))) (λ _. Hoare-fail _)
          λ _. done _ (SameContent-IsSound draft.row _ (refl, refl, refl, refl) v)

pub update_description-IsSound :
    (text : Option String) (draft : Draft)
    → IsSound draft.row
    → EndsSound (update_description text draft)
unfolding update_description
update_description-IsSound none draft v = done draft v
update_description-IsSound (some text) draft v =
    done _ (SameContent-IsSound draft.row _ (refl, refl, refl, refl) v)

pub update_type-IsSound :
    (type : Option StoryType) (draft : Draft)
    → IsSound draft.row
    → EndsSound (update_type type draft)
unfolding update_type
update_type-IsSound none draft v = done draft v
update_type-IsSound (some type) draft v =
    Hoare-if (type_eq type draft.row.type) (λ _. done draft v)
      λ _.
        Hoare-if (not (type_valid type)) (λ _. Hoare-fail _)
          λ valid.
            Hoare-if (is_accepted draft.row) (λ _. Hoare-fail _)
              λ _. done _ (record {
                type_ok = ground (arith, valid);
                state_ok = v.state_ok;
                points_ok = v.points_ok;
                dated = v.dated;
              })

pub update_estimate-IsSound :
    (value : Opt ℕ) (draft : Draft) → IsSound draft.row → EndsSound (update_estimate value draft)
unfolding update_estimate
update_estimate-IsSound none draft v = done draft v
update_estimate-IsSound (some value) draft v =
    Hoare-if (opt_eq draft.row.estimate value) (λ _. done draft v)
      λ _.
        Hoare-if (bad_estimate value) (λ _. Hoare-fail _)
          λ valid.
            Hoare-if (is_accepted draft.row) (λ _. Hoare-fail _)
              λ _. done _ (record {
                type_ok = v.type_ok;
                state_ok = v.state_ok;
                points_ok = valid;
                dated = v.dated;
              })

pub update_owner-IsSound :
    (value : Opt ℕ) (draft : Draft) → IsSound draft.row → EndsSound (update_owner value draft)
unfolding update_owner
update_owner-IsSound none draft v = done draft v
update_owner-IsSound (some value) draft v =
    Hoare-if (opt_eq draft.row.owner_id value) (λ _. done draft v)
      λ _.
        Hoare-then (keeps-IsValid _ (require_user-KeepsStories value _))
          λ _. done _ (SameContent-IsSound draft.row _ (refl, refl, refl, refl) v)

pub update_requester-IsSound :
    (user : Option ℕ) (draft : Draft) → IsSound draft.row → EndsSound (update_requester user draft)
unfolding update_requester
update_requester-IsSound none draft v = done draft v
update_requester-IsSound (some user) draft v =
    Hoare-then (keeps-IsValid _ (require_user-KeepsStories (some user) _))
      λ _. done _ (SameContent-IsSound draft.row _ (refl, refl, refl, refl) v)

-- In the middle of a change of state the row has no acceptance time.
pub record IsUndated (s : StoryRow) : Type 0 where
  pub type_ok : type_valid s.type ≡ true
  pub points_ok : bad_estimate s.estimate ≡ false
  pub dated : is_some s.accepted_at ≡ false

abbrev EndsUndated : Tx Draft → Type 0
EndsUndated m = Hoare IsValid m (λ r d. IsValid d × IsUndated r.row)

reopen-IsUndated :
    (actor : Actor) (draft : Draft) → IsSound draft.row → EndsUndated (reopen actor draft)
unfolding reopen
reopen-IsUndated actor draft v =
    Hoare-if (not (is_accepted draft.row))
      (λ unaccepted. Hoare-pure draft (λ d h. (
        h,
        record {
          type_ok = v.type_ok;
          points_ok = v.points_ok;
          dated = ground (arith, unaccepted, v.dated);
        },
      )))
      λ _.
        Hoare-if (not actor.is_admin) (λ _. Hoare-fail _)
          λ _.
            Hoare-pure _
              (λ d h. (h, record { type_ok = v.type_ok; points_ok = v.points_ok; dated = refl }))

change_section-IsUndated :
    (to : State) (draft : Draft) → IsUndated draft.row → EndsUndated (change_section to draft)
unfolding change_section
change_section-IsUndated to draft v =
    Hoare-if (section_eq (section_of to) (section_of draft.row.state))
      (λ _. Hoare-pure draft (λ d h. (h, v)))
      λ _. Hoare-then (place-IsValid _ _ _ _) λ placed.
        Hoare-pure _
          (λ d h. (h, record { type_ok = v.type_ok; points_ok = v.points_ok; dated = v.dated }))

-- An owner is all that `take_over` changes.
take_over-IsUndated :
    (actor : Actor) (to : State) (draft : Draft)
    → IsUndated draft.row
    → IsUndated (take_over actor to draft).row
unfolding take_over
take_over-IsUndated actor to draft v =
    elim (Bool-cases (state_eq to State.started && not (is_some draft.row.owner_id))) [
      | inl e ↦ rw e (record { type_ok = v.type_ok; points_ok = v.points_ok; dated = v.dated })
      | inr e ↦ rw e v
    ]

enter-IsSound :
    (to : State) (now : ℕ) (draft : Draft)
    → state_valid to ≡ true
    → IsUndated draft.row
    → IsSound (enter_state to (accept to now draft)).row
unfolding accept
enter-IsSound to now draft valid v = elim (Bool-cases (state_eq to State.accepted)) [
  | inl e ↦
      rw e
        (record { type_ok = v.type_ok; state_ok = valid; points_ok = v.points_ok; dated = sym e })
  | inr e ↦ rw e (record {
    type_ok = v.type_ok;
    state_ok = valid;
    points_ok = v.points_ok;
    dated = v.dated ∙ sym e;
  })
]

pub update_state-IsSound :
    (to : Option State) (actor : Actor) (now : ℕ) (draft : Draft)
    → IsSound draft.row
    → EndsSound (update_state to actor now draft)
unfolding update_state
update_state-IsSound none actor now draft v = done draft v
update_state-IsSound (some to) actor now draft v =
    let enter : Draft → Tx Draft =
      λ moved. pure (enter_state to (accept to now (take_over actor to moved))) in
    Hoare-if (state_eq to draft.row.state) (λ _. done draft v)
      λ _.
        Hoare-if (not (state_valid to)) (λ _. Hoare-fail _)
          λ valid.
            Hoare-if (not (can_transition draft.row.state to)) (λ _. Hoare-fail _)
              λ _.
                Hoare-bind (λ r d. IsValid d × IsUndated r.row)
                  {f = λ reopened. change_section to reopened >>= enter}
                  (reopen-IsUndated actor draft v)
                  λ reopened. Hoare-given λ u.
                    Hoare-bind (λ r d. IsValid d × IsUndated r.row) {f = enter}
                      (change_section-IsUndated to reopened u)
                      λ moved. Hoare-given λ u'.
                        done (enter_state to (accept to now (take_over actor to moved))) (
                          enter-IsSound to now (take_over actor to moved) (ground (arith, valid))
                            (take_over-IsUndated actor to moved u'))

get_project-IsValid : (id : ℕ) → Hoare IsValid (get_project id) (λ _ d. IsValid d)
get_project-IsValid id = keeps-IsValid (get_project id) (get_project-KeepsStories id)

-- Dropping the points of a bug or a chore leaves a valid story.
pub drop_points-IsValidStory :
    (asked : Opt ℕ) (draft : Draft)
    → IsValidStory draft.row
    → Hoare IsValid (drop_points asked draft) (λ r d. IsValid d × IsValidStory r.row)
unfolding drop_points needs_estimate
drop_points-IsValidStory asked draft v =
    Hoare-if (type_eq draft.row.type StoryType.feature || not (is_some draft.row.estimate))
      (λ _. Hoare-pure draft (λ d h. (h, v)))
      λ not_feature. Hoare-then (get_project-IsValid draft.row.project_id) λ p.
        Hoare-if p.estimate_bugs_and_chores (λ _. Hoare-pure draft (λ d h. (h, v)))
          λ _.
            Hoare-if (sets_value asked) (λ _. Hoare-fail _)
              λ _. Hoare-pure _ (λ d h. (
                h,
                record {
                  sound = record {
                    type_ok = v.sound.type_ok;
                    state_ok = v.sound.state_ok;
                    points_ok = refl;
                    dated = v.sound.dated;
                  };
                  estimated = ground (arith, not_feature);
                },
              ))
