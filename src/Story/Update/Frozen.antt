-- ===== src/Story/Update/Frozen.antt =====
-- The stages of `Update` of internal/story/story.go on an accepted story.
use Prim.Native.String.{len}
use text.Mathlib.Text.{◌==◌ as str_eq}
use trackstar.Common.{
  Option, String, [], arith, false, is_some, ltb, none, not, opt_eq, refl, some, true, ℕ, ◌||◌, ◌≡◌,
}
use trackstar.Common.Text.{is_empty, trim_space}
use trackstar.Db.Accounts.{get_project}
use trackstar.Db.Rows.{Db, StoryRow}
use trackstar.Db.Tx.{Tx, pure, ◌>>=◌}
use trackstar.Db.Tx.Hoare.{
  Hoare, Hoare-any, Hoare-bind, Hoare-fail, Hoare-given, Hoare-if, Hoare-pure, Hoare-refuse,
  Hoare-then,
}
use trackstar.Story.Types.{Actor, Opt, UpdateInput}
use trackstar.Story.Update.{
  Draft, accept, bad_estimate, change_section, drop_points, enter_state, is_accepted,
  needs_estimate, no_estimate, reopen, revise, sets_value, take_over, update_description,
  update_estimate, update_owner, update_requester, update_state, update_title, update_type,
}
use trackstar.Workflow.{
  State, StoryType, can_transition, state_eq, state_valid, type_eq, type_valid,
}

-- What stays: the state, the type, the acceptance time and the id.
abbrev pub SameAcceptance : StoryRow → StoryRow → Type 0
SameAcceptance s t =
    (t.state ≡ s.state) × (t.type ≡ s.type) × (t.accepted_at ≡ s.accepted_at) × (t.id ≡ s.id)

abbrev pub Any : Db → Type 0
Any d = Unit

module _ (row : StoryRow) (accepted_row : is_accepted row ≡ true) where
  abbrev Stays : Tx Draft → Type 0
  Stays m = Hoare Any m (λ r d. Any d × SameAcceptance row r.row)

  stay : (r : Draft) → SameAcceptance row r.row → Stays (pure r)
  stay r v = Hoare-pure r (λ d h. (tt, v))

  still_accepted : (r : Draft) → SameAcceptance row r.row → is_accepted r.row ≡ true
  still_accepted r v = rw v.0 accepted_row

  update_title-Stays :
      (text : Option String) (r : Draft) → SameAcceptance row r.row → Stays (update_title text r)
  unfolding update_title
  update_title-Stays none r v = stay r v
  update_title-Stays (some text) r v =
      Hoare-if (str_eq (trim_space text) r.row.title) (λ _. stay r v)
        λ _.
          Hoare-if (is_empty (trim_space text) || ltb 500 (len (trim_space text)))
            (λ _. Hoare-fail _) (λ _. stay _ (v.0, v.1, v.2, v.3))

  update_description-Stays :
      (text : Option String) (r : Draft)
      → SameAcceptance row r.row
      → Stays (update_description text r)
  unfolding update_description
  update_description-Stays none r v = stay r v
  update_description-Stays (some text) r v = stay _ (v.0, v.1, v.2, v.3)

  update_type-Stays :
      (type : Option StoryType) (r : Draft) → SameAcceptance row r.row → Stays (update_type type r)
  unfolding update_type
  update_type-Stays none r v = stay r v
  update_type-Stays (some type) r v =
      Hoare-if (type_eq type r.row.type) (λ _. stay r v)
        λ _.
          Hoare-if (not (type_valid type)) (λ _. Hoare-fail _)
            λ _.
              Hoare-if (is_accepted r.row) (λ _. Hoare-fail _)
                (λ open_row. absurd (ground (arith, open_row, still_accepted r v)))

  update_estimate-Stays :
      (value : Opt ℕ) (r : Draft) → SameAcceptance row r.row → Stays (update_estimate value r)
  unfolding update_estimate
  update_estimate-Stays none r v = stay r v
  update_estimate-Stays (some value) r v =
      Hoare-if (opt_eq r.row.estimate value) (λ _. stay r v)
        λ _.
          Hoare-if (bad_estimate value) (λ _. Hoare-fail _)
            λ _.
              Hoare-if (is_accepted r.row) (λ _. Hoare-fail _)
                (λ open_row. absurd (ground (arith, open_row, still_accepted r v)))

  update_owner-Stays :
      (value : Opt ℕ) (r : Draft) → SameAcceptance row r.row → Stays (update_owner value r)
  unfolding update_owner
  update_owner-Stays none r v = stay r v
  update_owner-Stays (some value) r v =
      Hoare-if (opt_eq r.row.owner_id value) (λ _. stay r v)
        λ _. Hoare-then (Hoare-any _) (λ _. stay _ (v.0, v.1, v.2, v.3))

  update_requester-Stays :
      (user : Option ℕ) (r : Draft) → SameAcceptance row r.row → Stays (update_requester user r)
  unfolding update_requester
  update_requester-Stays none r v = stay r v
  update_requester-Stays (some user) r v =
      Hoare-then (Hoare-any _) (λ _. stay _ (v.0, v.1, v.2, v.3))

  -- Only an administrator gets past `reopen`.
  reopen_refused :
      (actor : Actor) (r : Draft)
      → SameAcceptance row r.row
      → actor.is_admin ≡ false
      → Hoare Any (reopen actor r) (λ _ d. ⊥)
  unfolding reopen
  reopen_refused actor r v plain =
      Hoare-if (not (is_accepted r.row))
        (λ open_row. absurd (ground (arith, open_row, still_accepted r v)))
        λ _.
          Hoare-if (not actor.is_admin) (λ _. Hoare-fail _)
            (λ admin. absurd (ground (arith, admin, plain)))

  update_state-Stays :
      (to : Option State) (actor : Actor) (now : ℕ) (r : Draft)
      → SameAcceptance row r.row
      → actor.is_admin ≡ false
      → Stays (update_state to actor now r)
  unfolding update_state
  update_state-Stays none actor now r v plain = stay r v
  update_state-Stays (some to) actor now r v plain =
      Hoare-if (state_eq to r.row.state) (λ _. stay r v)
        λ _.
          Hoare-if (not (state_valid to)) (λ _. Hoare-fail _)
            λ _.
              Hoare-if (not (can_transition r.row.state to)) (λ _. Hoare-fail _)
                λ _.
                  Hoare-bind (λ _ d. ⊥)
                    {f = λ reopened. change_section to reopened >>= λ moved.
                      pure (enter_state to (accept to now (take_over actor to moved)))}
                    (reopen_refused actor r v plain) (λ _. record { at = λ d h. absurd h })

  points_stay : (asked : Opt ℕ) (r : Draft) → SameAcceptance row r.row → Stays (drop_points asked r)
  unfolding drop_points
  points_stay asked r v =
      Hoare-if (type_eq r.row.type StoryType.feature || not (is_some r.row.estimate))
        (λ _. stay r v)
        λ _. Hoare-then (Hoare-any (get_project r.row.project_id)) λ p.
          Hoare-if p.estimate_bugs_and_chores (λ _. stay r v)
            λ _. Hoare-if (sets_value asked) (λ _. Hoare-fail _) (λ _. stay _ (v.0, v.1, v.2, v.3))

  abbrev pub Kept : Draft → Db → Type 0
  Kept r d = Any d × SameAcceptance row r.row

  pub revise-Stays :
      (input : UpdateInput) (actor : Actor) (now : ℕ)
      → actor.is_admin ≡ false
      → Stays (revise input actor now row)
  unfolding revise
  revise-Stays input actor now plain =
      Hoare-bind Kept
        (update_title-Stays input.title (record { row = row; notes = [] }) (refl, refl, refl, refl))
        λ titled. Hoare-given λ v1.
          Hoare-bind Kept (update_description-Stays input.description titled v1) λ described.
            Hoare-given λ v2. Hoare-bind Kept (update_type-Stays input.type described v2) λ typed.
              Hoare-given λ v3.
                Hoare-bind Kept (update_estimate-Stays input.estimate typed v3) λ estimated.
                  Hoare-given λ v4.
                    Hoare-bind Kept (update_owner-Stays input.owner_id estimated v4) λ owned.
                      Hoare-given λ v5.
                        Hoare-bind Kept (update_requester-Stays input.requester_id owned v5)
                          λ requested. Hoare-given λ v6.
                            Hoare-bind Kept
                              (update_state-Stays input.state actor now requested v6 plain)
                              λ entered. Hoare-given λ v7.
                                Hoare-refuse (needs_estimate entered.row) no_estimate
                                  (λ _. points_stay input.estimate entered v7)
