-- ===== src/Story/Rowwise.antt =====
-- Facts about every stored story of internal/story/story.go that a change of position keeps.
use trackstar.AppErr.{no_rows}
use trackstar.Common.{
  ==_iff, All, All-first, All-modify, Bool, Bool-cases, List, Option, Option-cases, [], arith,
  first_passes, inl, inr, length, modify, none, refl, some, true, ℕ, ◌∷◌, ◌≡◌,
}
use trackstar.Common.Int.{ℤ}
use trackstar.Db.Rows.{Db, StoryRow}
use trackstar.Db.Stories.{
  PositionRow, find_story, get_story, has_id, set_story_position, update_stories, update_story,
  updated_row,
}
use trackstar.Db.Tx.{Tx, or_fail, update}
use trackstar.Db.Tx.Frame.{Hoare-keeps, KeepsStories, KeepsStories-gets}
use trackstar.Db.Tx.Hoare.{Hoare, Hoare-bind, Hoare-pure, Hoare-then, Hoare-weaken, OkPost}
use trackstar.Position.{between, normalize}
use trackstar.Story.Frame.{load-KeepsStories}
use trackstar.Story.Place.{Placement, next_of, others, place, place_at, prev_of, renumber, slot}
use trackstar.Story.Types.{Env}
use trackstar.Story.View.{save}
use trackstar.Workflow.{Section}

slot-KeepsStories : (rows : List PositionRow) (w : Placement) → KeepsStories (slot rows w)
unfolding slot
slot-KeepsStories rows w = record { at = λ d. ground arith }

module _ (P : StoryRow → Type 0) where
  abbrev pub Rows : Db → Type 0
  Rows d = All P d.stories

  -- A statement that leaves the stories alone.
  pub keeps-Rows : {A : Type 0} {m : Tx A} → KeepsStories m → Hoare Rows m (λ _ d. Rows d)
  keeps-Rows {m = m} = Hoare-keeps (All P) m

  found_row :
      (id : ℕ) (o : Option StoryRow) (d : Db)
      → Rows d
      → ((s : StoryRow) → o ≡ some s → P s × (s.id ≡ id))
      → OkPost (λ s e. Rows e × P s × (s.id ≡ id)) (or_fail no_rows o d)
  found_row id none d h k = tt
  found_row id (some s) d h k = let (holds, its_id) = k s refl in (h, holds, its_id)

  -- A story that is read is one of them.
  pub get_story-Rows : (id : ℕ) → Hoare Rows (get_story id) (λ s d. Rows d × P s × (s.id ≡ id))
  unfolding get_story
  get_story-Rows id = record {
    at = λ d h. found_row id (find_story id d) d h (λ s e. (
      All-first P (has_id id) d.stories h e,
      (==_iff s.id id).0 (first_passes (has_id id) d.stories e),
    ));
  }

  modify-Rows :
      (p : StoryRow → Bool) (f : StoryRow → StoryRow) (ss : List StoryRow)
      → ((s : StoryRow) → p s ≡ true → P s → P (f s))
      → All P ss
      → All P (modify p f ss)
  modify-Rows p f [] step h = tt
  modify-Rows p f (s ∷ ss) step h = (
    elim (Bool-cases (p s)) [ inl hit ↦ rw hit (step s hit h.0) | inr miss ↦ rw miss h.0 ],
    modify-Rows p f ss step h.1,
  )

  write_row-Rows :
      (now : ℕ) (row : StoryRow)
      → ((s : StoryRow) → has_id row.id s ≡ true → P s → P (updated_row row now s))
      → Hoare {A = Unit} Rows
          (update (update_stories (has_id row.id) (updated_row row now)))
          (λ _ d. Rows d)
  write_row-Rows now row step = record {
    at = λ d h. modify-Rows (has_id row.id) (updated_row row now) d.stories step h;
  }

  update_story-Rows :
      (now : ℕ) (row : StoryRow)
      → ((s : StoryRow) → has_id row.id s ≡ true → P s → P (updated_row row now s))
      → Hoare Rows (update_story row now) (λ s d. Rows d × P s × (s.id ≡ row.id))
  unfolding update_story
  update_story-Rows now row step =
      Hoare-bind (λ _ d. Rows d) (write_row-Rows now row step) (λ _. get_story-Rows row.id)

  -- The rows that `save` writes, where they are still among them.
  pub save-Rows :
      (env : Env) (now : ℕ) (row : StoryRow)
      → ((s : StoryRow) → has_id row.id s ≡ true → P s → P (updated_row row now s))
      → Hoare Rows (save env now row) (λ _ d. Rows d)
  unfolding save
  save-Rows env now row step =
      Hoare-bind (λ s d. Rows d × P s × (s.id ≡ row.id)) (update_story-Rows now row step)
        λ s. Hoare-weaken (λ d h. h.0) (keeps-Rows (load-KeepsStories env now s))

module _ (P : StoryRow → Type 0)
    (moved : (s : StoryRow) (p : ℤ) → P s → P (record s { position = p })) where
  set_story_position-Rows :
      (id : ℕ) (p : ℤ) → Hoare (Rows P) (set_story_position id p) (λ _ d. Rows P d)
  unfolding set_story_position
  set_story_position-Rows id p = record {
    at = λ d. All-modify P (has_id id) _ d.stories (λ s. moved s p);
  }

  renumber-Rows :
      (rows : List PositionRow) (ps : List ℤ) → Hoare (Rows P) (renumber rows ps) (λ _ d. Rows P d)
  unfolding renumber
  renumber-Rows [] ps = Hoare-pure _ (λ d h. h)
  renumber-Rows (r ∷ rows) [] = Hoare-pure _ (λ d h. h)
  renumber-Rows (r ∷ rows) (p ∷ ps) = Hoare-then (set_story_position-Rows r.id p) λ _.
      Hoare-then (renumber-Rows rows ps)
        (λ rest. Hoare-pure (record r { position = p } ∷ rest) (λ d h. h))

  place_at-Rows :
      (rows : List PositionRow) (i : ℕ) → Hoare (Rows P) (place_at rows i) (λ _ d. Rows P d)
  unfolding place_at
  place_at-Rows rows i = elim (Option-cases (between (prev_of rows i) (next_of rows i))) [
    | inr (p, e) ↦ rw (e, place_at) (Hoare-pure _ (λ d h. h))
    | inl e ↦
        rw (e, place_at)
          (Hoare-then (renumber-Rows rows (normalize (length rows))) (λ _. Hoare-pure _ (λ d h. h)))
  ]

  -- `place` writes positions only.
  pub place-Rows :
      (project : ℕ) (sec : Section) (moving : ℕ) (w : Placement)
      → Hoare (Rows P) (place project sec moving w) (λ _ d. Rows P d)
  unfolding place
  place-Rows project sec moving w = Hoare-then (keeps-Rows P (KeepsStories-gets _)) λ section.
      Hoare-then (keeps-Rows P (slot-KeepsStories (others moving section) w))
        λ index. place_at-Rows (others moving section) index
