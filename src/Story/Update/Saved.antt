-- ===== src/Story/Update/Saved.antt =====
-- `Update` of internal/story/story.go on an accepted story.
use trackstar.AppErr.{no_rows, or_not_found}
use trackstar.Common.{
  ==_iff, All, All-first, Bool-cases, List, Option, [], ap, arith, false, first_passes, inl, inr,
  is_some, modify, none, refl, some, subst, sym, true, ℕ, ◌∙◌, ◌∷◌, ◌≡◌,
}
use trackstar.Db.Labels.{list_story_labels}
use trackstar.Db.Planning.{list_story_blockers, list_tasks}
use trackstar.Db.Rows.{Db, StoryRow}
use trackstar.Db.Stories.{
  count_comments, find_story, get_story, has_id, update_stories, update_story, updated_row,
}
use trackstar.Db.Tx.{Result, map_err, ok, or_fail, pure, update, ◌>>=◌}
use trackstar.Db.Tx.Frame.{Hoare-keeps, in_tx-ok}
use trackstar.Db.Tx.Hoare.{
  Hoare, Hoare-any, Hoare-bind, Hoare-both, Hoare-given, Hoare-post, Hoare-pure, Hoare-refuse,
  Hoare-weaken, OkPost,
}
use trackstar.Story.Blockers.{set_blockers}
use trackstar.Story.Frame.{load-KeepsStories}
use trackstar.Story.Labels.{set_labels}
use trackstar.Story.Types.{Actor, Env, Story, UpdateInput}
use trackstar.Story.Update.{
  is_accepted, record_notes, trashed, update_body, update_row, update_story_fields,
}
use trackstar.Story.Update.Frozen.{Any, Kept, SameAcceptance, revise-Stays}
use trackstar.Story.View.{current_iteration_start, load, load_blockers, loaded_story, save}

-- Every stored row of the story agrees with `row` on what stays.
abbrev pub IsFrozen : ℕ → StoryRow → Db → Type 0
IsFrozen id row d = All (λ s. has_id id s ≡ true → SameAcceptance row s) d.stories

write_rows-frozen :
    (row new : StoryRow) (now : ℕ) (ss : List StoryRow)
    → SameAcceptance row new
    → All
        (λ s. has_id new.id s ≡ true → SameAcceptance row s)
        (modify (has_id new.id) (updated_row new now) ss)
write_rows-frozen row new now [] v = tt
write_rows-frozen row new now (s ∷ ss) v = elim (Bool-cases (has_id new.id s)) [
  | inl hit ↦
      rw hit (
        (λ _. (v.0, v.1, v.2, (==_iff s.id new.id).0 hit ∙ v.3)),
        write_rows-frozen row new now ss v,
      )
  | inr miss ↦
      rw miss ((λ hit. absurd (ground (arith, hit, miss))), write_rows-frozen row new now ss v)
]

found-IsFrozen :
    (id : ℕ) (row : StoryRow) (o : Option StoryRow) (d : Db)
    → IsFrozen id row d
    → ((s : StoryRow) → o ≡ some s → SameAcceptance row s)
    → OkPost (λ s e. IsFrozen id row e × SameAcceptance row s) (or_fail no_rows o d)
found-IsFrozen id row none d h k = tt
found-IsFrozen id row (some s) d h k = (h, k s refl)

get_story-IsFrozen :
    (id : ℕ) (row : StoryRow)
    → Hoare (IsFrozen id row) (get_story id) (λ s d. IsFrozen id row d × SameAcceptance row s)
unfolding get_story
get_story-IsFrozen id row = record {
  at = λ d h. found-IsFrozen id row (find_story id d) d h (λ s e.
      All-first (λ x. has_id id x ≡ true → SameAcceptance row x) (has_id id) d.stories h e
        (first_passes (has_id id) d.stories e));
}

write_row-IsFrozen :
    (row new : StoryRow) (now : ℕ)
    → SameAcceptance row new
    → Hoare {A = Unit} Any
        (update (update_stories (has_id new.id) (updated_row new now)))
        (λ _ d. IsFrozen new.id row d)
write_row-IsFrozen row new now v = record { at = λ d h. write_rows-frozen row new now d.stories v }

update_story-IsFrozen :
    (row new : StoryRow) (now : ℕ)
    → SameAcceptance row new
    → Hoare Any (update_story new now) (λ s d. IsFrozen new.id row d × SameAcceptance row s)
unfolding update_story
update_story-IsFrozen row new now v =
    Hoare-bind (λ _ d. IsFrozen new.id row d) (write_row-IsFrozen row new now v)
      (λ _. get_story-IsFrozen new.id row)

module _ (env : Env) (now : ℕ) where
  pub load_row : (row : StoryRow) → Hoare Any (load env now row) (λ s d. s.row ≡ row)
  unfolding load
  load_row row =
      Hoare-bind (λ _ d. Any d) (Hoare-any (current_iteration_start env now row.project_id))
        λ start.
          Hoare-bind (λ _ d. Any d) (Hoare-any (list_story_labels row.id))
            λ labels.
              Hoare-bind (λ _ d. Any d) (Hoare-any (list_story_blockers row.id))
                λ blockers.
                  Hoare-bind (λ _ d. Any d) (Hoare-any (load_blockers blockers))
                    λ waits.
                      Hoare-bind (λ _ d. Any d) (Hoare-any (count_comments row.id))
                        λ comments.
                          Hoare-bind (λ _ d. Any d) (Hoare-any (list_tasks row.id))
                            λ tasks.
                              Hoare-pure (loaded_story row start labels waits comments tasks)
                                (λ d h. refl)

  -- The story that is returned, and the stored rows.
  abbrev Saved : ℕ → StoryRow → Story → Db → Type 0
  Saved id row s d = IsFrozen id row d × SameAcceptance row s.row

  save_frozen :
      (row new : StoryRow)
      → SameAcceptance row new
      → Hoare Any (save env now new) (Saved new.id row)
  unfolding save
  save_frozen row new v =
      Hoare-bind (λ s d. IsFrozen new.id row d × SameAcceptance row s)
        (update_story-IsFrozen row new now v)
        λ s. Hoare-given λ v'.
          Hoare-post (λ t d. IsFrozen new.id row d × (t.row ≡ s))
            (λ t d h. (h.0, subst (SameAcceptance row) (sym h.1) v'))
            (Hoare-both (λ _ d. IsFrozen new.id row d) (λ t d. t.row ≡ s)
              (Hoare-keeps (λ ss. All (λ x. has_id new.id x ≡ true → SameAcceptance row x) ss)
                (load env now s) (load-KeepsStories env now s))
              (Hoare-weaken (λ d h. tt) (load_row s)))

  -- The body of `Update` from the row that was read.
  update_row-IsFrozen :
      (row : StoryRow) (actor : Actor) (input : UpdateInput)
      → is_accepted row ≡ true
      → actor.is_admin ≡ false
      → Hoare Any
          (update_row env now actor input row)
          (λ s d. IsFrozen row.id row d × SameAcceptance row s.row)
  unfolding update_row
  update_row-IsFrozen row actor input accepted_row plain =
      Hoare-refuse (is_some row.deleted_at) trashed λ _.
        Hoare-bind (Kept row accepted_row) (revise-Stays row accepted_row input actor now plain)
          λ draft. Hoare-given λ v.
            Hoare-bind (λ _ d. Any d)
              (Hoare-any (elim input.labels [
                | none ↦ pure tt
                | some names ↦ set_labels env draft.row.project_id draft.row.id names
              ]))
              λ _.
                Hoare-bind (λ _ d. Any d)
                  (Hoare-any (elim input.blocked_by [
                    | none ↦ pure tt
                    | some ids ↦ set_blockers draft.row ids
                  ]))
                  λ _.
                    Hoare-bind (λ _ d. Any d)
                      (Hoare-any (record_notes env now draft.row.id actor.id draft.notes))
                      λ _.
                        Hoare-post (Saved draft.row.id row)
                          (λ s d h. (subst (λ i. IsFrozen i row d) v.3 h.0, h.1))
                          (save_frozen row draft.row v)

story_read :
    (id : ℕ) (d : Db) (row : StoryRow) → find_story id d ≡ some row → get_story id d ≡ (ok row, d)
unfolding get_story
story_read id d row found = rw found refl

body_runs :
    (env : Env) (now id : ℕ) (actor : Actor) (input : UpdateInput) (d : Db) (row : StoryRow)
    → find_story id d ≡ some row
    → update_body env now id actor input d ≡ update_row env now actor input row d
unfolding update_body
body_runs env now id actor input d row found =
    ap
      (λ (r : Result StoryRow × Db).
        ((λ (x : Db). map_err (or_not_found "story") (λ y. r) x) >>= update_row env now actor input)
          d)
      (story_read id d row found)

-- When somebody who is no administrator updates an accepted story and succeeds, the story that is
-- returned, and every row stored under its id, has the state, the type and the acceptance time that
-- it had: only an administrator can reopen an accepted story.
pub update_story_fields-IsFrozen :
    (env : Env) (now id : ℕ) (actor : Actor) (input : UpdateInput) (d d' : Db) (row : StoryRow)
    (story : Story)
    → find_story id d ≡ some row
    → is_accepted row ≡ true
    → actor.is_admin ≡ false
    → update_story_fields env now id actor input d ≡ (ok story, d')
    → IsFrozen row.id row d' × SameAcceptance row story.row
unfolding update_story_fields
update_story_fields-IsFrozen env now id actor input d d' row story found accepted_row plain e =
    let ran : update_row env now actor input row d ≡ (ok story, d') =
      sym (body_runs env now id actor input d row found)
      ∙ in_tx-ok (update_body env now id actor input) story d d' e in
    subst (OkPost (λ s x. IsFrozen row.id row x × SameAcceptance row s.row)) ran
      ((update_row-IsFrozen env now row actor input accepted_row plain).at d tt)
