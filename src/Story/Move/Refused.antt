-- ===== src/Story/Move/Refused.antt =====
-- `MoveMany` of internal/story/story.go with a story that may not move.
use trackstar.AppErr.{Failure, invalid_err, or_not_found}
use trackstar.Common.{
  ==_iff, All, Bool, Bool-cases, List, Option, [], any, arith, false, inl, inr, is_some, length,
  ltb, none, not, refl, some, subst, sym, true, ℕ, ◌&&◌, ◌==◌, ◌||◌, ◌∷◌, ◌≡◌,
}
use trackstar.Db.Rows.{Db, StoryRow}
use trackstar.Db.Stories.{get_story, has_id}
use trackstar.Db.Tx.{Result, Tx, err, in_tx, map_err, ok, rolled_back}
use trackstar.Db.Tx.Hoare.{
  Hoare, Hoare-bind, Hoare-fail, Hoare-given, Hoare-if, Hoare-if-below, Hoare-map_err, Hoare-post,
  Hoare-pure, Hoare-refuse, Hoare-then, OkPost,
}
use trackstar.Story.Move.{
  Messages, after_prev, bad_target, check_movable, different_projects, dragged_state, is_moving,
  move_batch, move_each, move_many, move_many_messages, move_row, other_project, target_moves,
}
use trackstar.Story.Move.Keeps.{log_move-KeepsStories}
use trackstar.Story.Place.{Placement}
use trackstar.Story.Rowwise.{Rows, get_story-Rows, keeps-Rows, place-Rows, save-Rows}
use trackstar.Story.Types.{Env, MoveInput}
use trackstar.Workflow.{Section, State, in_progress, is_target, section_eq, state_eq}

-- A story that may not move to the section: it is in the trash, accepted, or in progress with the
-- section not the current one.
abbrev pub is_stuck : Section → StoryRow → Bool
is_stuck sec s =
    is_some s.deleted_at
    || state_eq s.state State.accepted
    || (in_progress s.state && not (section_eq sec Section.current))

-- The stored rows with the id `k`, if there are any, may not move to the section.
abbrev pub Stuck : ℕ → Section → StoryRow → Type 0
Stuck k sec s = has_id k s ≡ true → is_stuck sec s ≡ true

abbrev Never : {A : Type 0} → A → Db → Type 0
Never a d = ⊥

Hoare-never : {A : Type 0} (m : Tx A) {Q : A → Db → Type 0} → Hoare (λ d. ⊥) m Q
Hoare-never m = record { at = λ d h. absurd h }

check_movable-err :
    (messages : Messages) (sec : Section) (row : StoryRow)
    → is_stuck sec row ≡ true
    → (e : Failure) × ((d : Db) → check_movable messages sec row d ≡ (err e, d))
unfolding check_movable
check_movable-err messages sec row stuck = elim (Bool-cases (is_some row.deleted_at)) [
  | inl gone ↦ (invalid_err messages.trashed, λ d. rw gone refl)
  | inr live ↦ elim (Bool-cases (state_eq row.state State.accepted)) [
    | inl accepted ↦ (invalid_err messages.accepted, λ d. rw (live, accepted) refl)
    | inr unaccepted ↦
        let pinned : in_progress row.state && not (section_eq sec Section.current) ≡ true =
          ground (arith, stuck, live, unaccepted) in
        (invalid_err messages.pinned, λ d. rw (live, unaccepted, pinned) refl)
  ]
]

module _ (env : Env) (now k : ℕ) (input : MoveInput) where
  abbrev StuckRows : Db → Type 0
  StuckRows = Rows (Stuck k input.section)

  move_row-Never :
      (messages : Messages) (actor : ℕ) (w : Placement) (row : StoryRow) (P : Db → Type 0)
      → is_stuck input.section row ≡ true
      → Hoare P (move_row env now messages actor input.section w row) Never
  unfolding move_row
  move_row-Never messages actor w row P stuck =
      let (e, ran) = check_movable-err messages input.section row stuck in
      record {
        at = λ d h. subst (OkPost Never) (sym (refused messages actor w row e d (ran d))) tt;
      }
    where
      refused :
          (messages : Messages) (actor : ℕ) (w : Placement) (row : StoryRow) (e : Failure) (d : Db)
          → check_movable messages input.section row d ≡ (err e, d)
          → move_row env now messages actor input.section w row d ≡ (err e, d)
      refused messages actor w row e d ran = ground (arith, ran)

  any_check :
      (messages : Messages) (row : StoryRow)
      → Hoare StuckRows (check_movable messages input.section row) (λ _ d. StuckRows d)
  unfolding check_movable
  any_check messages row =
      Hoare-if (is_some row.deleted_at) (λ _. Hoare-fail (invalid_err messages.trashed))
        λ _.
          Hoare-if (state_eq row.state State.accepted)
            (λ _. Hoare-fail (invalid_err messages.accepted))
            λ _.
              Hoare-if (in_progress row.state && not (section_eq input.section Section.current))
                (λ _. Hoare-fail (invalid_err messages.pinned)) (λ _. Hoare-pure tt (λ d h. h))

  -- The move of another story.
  move_row-Stuck :
      (messages : Messages) (actor : ℕ) (w : Placement) (row : StoryRow)
      → (row.id == k) ≡ false
      → Hoare StuckRows (move_row env now messages actor input.section w row) (λ _ d. StuckRows d)
  unfolding move_row
  move_row-Stuck messages actor w row other = Hoare-then (any_check messages row) λ _.
      Hoare-then
        (keeps-Rows (Stuck k input.section) (log_move-KeepsStories env now actor input.section row))
        λ _.
          Hoare-then
            (place-Rows (Stuck k input.section) (λ s p h. h) row.project_id input.section row.id w)
            λ placed.
              Hoare-then
                (save-Rows (Stuck k input.section) env now
                  (record row {
                    state = dragged_state input.section row.state;
                    position = placed.0;
                  })
                  (λ s mine _ its. absurd (ground (arith, other, mine, its))))
                λ story. Hoare-pure (record { story = story; renormalized = placed.1 }) (λ d h. h)

  get_story-Stuck :
      (id : ℕ)
      → Hoare StuckRows
          (map_err (or_not_found "story") (get_story id))
          (λ s d. StuckRows d × (Stuck k input.section s × (s.id ≡ id)))
  get_story-Stuck id = Hoare-map_err (or_not_found "story") (
      Hoare-post (λ s d. StuckRows d × Stuck k input.section s × (s.id ≡ id))
        (λ s d h. (h.0, (h.1, h.2))) (get_story-Rows (Stuck k input.section) id))

  -- The loop never gets to its end where the story is among those that it has still to place.
  move_each-Never :
      (ids seen : List ℕ) (project prev : Option ℕ) (actor : ℕ)
      → any (λ i. i == k) ids ≡ true
      → any (λ s. s == k) seen ≡ false
      → Hoare StuckRows (move_each env now ids seen project prev actor input) Never
  unfolding move_each
  move_each-Never [] seen project prev actor there new = cc
  move_each-Never (id ∷ ids) seen project prev actor there new = elim (Bool-cases (id == k)) [
    | inl hit ↦
        let is_k : id ≡ k = (==_iff id k).0 hit in
        let unseen : any (λ s. s == id) seen ≡ false =
          subst (λ i. any (λ s. s == i) seen ≡ false) (sym is_k) new in
        rw (unseen, move_each)
          (Hoare-bind _ (get_story-Stuck id) λ row. Hoare-given λ v.
            Hoare-refuse (other_project project row) different_projects λ _.
              Hoare-bind Never
                (move_row-Never move_many_messages actor (after_prev prev input) row StuckRows
                  (v.0 (ground (arith, v.1, hit))))
                λ moved.
                  Hoare-bind Never
                    (Hoare-never (
                      move_each env now ids (id ∷ seen) (some row.project_id) (some id) actor
                        input))
                    (λ rest. Hoare-pure (moved.story ∷ rest) (λ d h. h)))
    | inr miss ↦
        let later : any (λ i. i == k) ids ≡ true = ground (arith, there, miss) in
        Hoare-if-below (any (λ s. s == id) seen)
          (move_each-Never ids seen project prev actor later new)
          (Hoare-bind _ (get_story-Stuck id) λ row. Hoare-given λ v.
            Hoare-refuse (other_project project row) different_projects λ _.
              Hoare-then
                (move_row-Stuck move_many_messages actor (after_prev prev input) row
                  (ground (arith, v.1, miss)))
                λ moved.
                  Hoare-bind Never
                    (move_each-Never ids (id ∷ seen) (some row.project_id) (some id) actor later
                      (ground (arith, miss, new)))
                    (λ rest. Hoare-pure (moved.story ∷ rest) (λ d h. h)))
  ]

rolled_refused :
    {A : Type 0} (r : Result A) (d e : Db)
    → OkPost Never (r, e)
    → (x : Failure) × (rolled_back r d e ≡ (err x, d))
rolled_refused (ok a) d e h = absurd h
rolled_refused (err x) d e h = (x, refl)

-- A transaction whose body never succeeds changes nothing.
in_tx-refused :
    {A : Type 0} (m : Tx A) (d : Db) → OkPost Never (m d) → (x : Failure) × (in_tx m d ≡ (err x, d))
unfolding in_tx
in_tx-refused m d h = rolled_refused (m d).0 d (m d).1 h

-- A batch that has, at any place, the id of a story that may not move to the section is refused as
-- a whole, and leaves the database as it was, whatever stories come before that one: one in the
-- trash, an accepted one, one in progress that is to leave the current iteration, or one that there
-- is not.
pub move_many-refused :
    (env : Env) (now k : ℕ) (ids : List ℕ) (actor : ℕ) (input : MoveInput) (d : Db)
    → any (λ i. i == k) ids ≡ true
    → All (λ s. has_id k s ≡ true → is_stuck input.section s ≡ true) d.stories
    → (e : Failure) × (move_many env now ids actor input d ≡ (err e, d))
unfolding move_many move_batch
move_many-refused env now k ids actor input d there stuck =
    elim (Bool-cases (length ids == 0 || ltb 200 (length ids))) [
      | inl out ↦ (invalid_err "move between 1 and 200 stories at a time", rw out refl)
      | inr size ↦ elim (Bool-cases (is_target input.section)) [
        | inl target ↦
            let body =
              Hoare-refuse (is_moving ids input.prev_id || is_moving ids input.next_id) target_moves
                (λ _. move_each-Never env now k input ids [] none input.prev_id actor there refl) in
            let (e, ran) = in_tx-refused (move_batch env now ids actor input) d (body.at d stuck) in
            (e, rw (size, target) ran)
        | inr other ↦ (bad_target, rw (size, other) refl)
      ]
    ]
