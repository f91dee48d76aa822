-- ===== src/Story/Trash/Written.antt =====
-- The rows that `save` writes at the end of `Restore` of internal/story/story.go.
use trackstar.Common.{
  ==_iff, All, All-both, All-imp, Bool-cases, List, [], arith, false, inl, inr, modify, none, not,
  refl, select_passes, subst, sym, true, ℕ, ◌&&◌, ◌∷◌, ◌≡◌, ◌⊎◌,
}
use trackstar.Common.Int.{ℤ}
use trackstar.Db.Ids.{first-modify}
use trackstar.Db.Rows.{Db, StoryRow}
use trackstar.Db.Stories.{get_story, has_id, in_scope, update_stories, update_story, updated_row}
use trackstar.Db.Tx.{update}
use trackstar.Db.Tx.Frame.{Hoare-keeps}
use trackstar.Db.Tx.Hoare.{Hoare, Hoare-bind, Hoare-both, Hoare-given, Hoare-post, Hoare-weaken}
use trackstar.Story.Frame.{get_story-KeepsStories, load-KeepsStories}
use trackstar.Story.Place.{others}
use trackstar.Story.Rowwise.{Rows, get_story-Rows}
use trackstar.Story.Trash.Bottom.{Below, other_stories}
use trackstar.Story.Types.{Env}
use trackstar.Story.Update.Saved.{load_row}
use trackstar.Story.View.{load, save}
use trackstar.Workflow.{Section, State, ordered_states, state_eq}

-- Out of the trash, with the contents of `row` and the position `p`.
pub record IsRestored (row : StoryRow) (p : ℤ) (s : StoryRow) : Type 0 where
  pub live : s.deleted_at ≡ none
  pub title : s.title ≡ row.title
  pub description : s.description ≡ row.description
  pub type : s.type ≡ row.type
  pub state : s.state ≡ row.state
  pub estimate : s.estimate ≡ row.estimate
  pub accepted_at : s.accepted_at ≡ row.accepted_at
  pub position : s.position ≡ p

-- The place of the restored story: its old one where it is accepted, and otherwise, where it is not,
-- after all the other stories `others` of its section.
abbrev pub IsPlaced : StoryRow → ℤ → List StoryRow → List StoryRow → Type 0
IsPlaced row p others ss =
    ((state_eq row.state State.accepted ≡ true) × (p ≡ row.position))
    ⊎ ((state_eq row.state State.accepted ≡ false) × All (λ s. Below ss p s.id) others)

module _ (id : ℕ) where
  -- The rows with this id are not in the trash.
  abbrev pub Live : StoryRow → Type 0
  Live s = has_id id s ≡ true → s.deleted_at ≡ none

  abbrev pub Mine : StoryRow → ℤ → StoryRow → Type 0
  Mine row p s = has_id id s ≡ true → IsRestored row p s

  written_rows :
      (row : StoryRow) (p : ℤ) (now : ℕ) (ss : List StoryRow)
      → All Live ss
      → All
          (Mine row p)
          (modify (has_id id) (updated_row (record row { deleted_at = none; position = p }) now) ss)
  written_rows row p now [] h = tt
  written_rows row p now (s ∷ ss) h = (
    elim (Bool-cases (has_id id s)) [
      | inl hit ↦ rw hit λ _. record {
        live = h.0 hit;
        title = refl;
        description = refl;
        type = refl;
        state = refl;
        estimate = refl;
        accepted_at = refl;
        position = refl;
      }
      | inr miss ↦ rw miss (λ hit. absurd (ground (arith, hit, miss)))
    ],
    written_rows row p now ss h.1,
  )

  -- Writing this story leaves the others where they are.
  Below-modify :
      (f : StoryRow → StoryRow) (ss : List StoryRow) (p : ℤ) (s : StoryRow)
      → ((x : StoryRow) → (f x).id ≡ x.id)
      → has_id id s ≡ false
      → Below ss p s.id
      → Below (modify (has_id id) f ss) p s.id
  Below-modify f ss p s same other (q, found, lt) =
      (q, ground (arith, first-modify s.id id f ss same, other, found), lt)

pub other_stories-modify :
    (project : ℕ) (sec : Section) (id : ℕ) (f : StoryRow → StoryRow) (ss : List StoryRow)
    → ((x : StoryRow) → (f x).id ≡ x.id)
    → other_stories project sec id (modify (has_id id) f ss) ≡ other_stories project sec id ss
other_stories-modify project sec id f [] same = refl
other_stories-modify project sec id f (s ∷ ss) same =
    let rest = other_stories-modify project sec id f ss same in
    elim (Bool-cases (has_id id s)) [
      | inl hit ↦
          let hit' : has_id id (f s) ≡ true = ground (arith, hit, same s) in
          ground (arith, hit, hit', rest)
      | inr miss ↦ ground (arith, miss, rest)
    ]

pub others_differ :
    (project : ℕ) (sec : Section) (id : ℕ) (ss : List StoryRow)
    → All (λ s. has_id id s ≡ false) (other_stories project sec id ss)
others_differ project sec id ss =
    All-imp (other_stories project sec id ss) (λ s e. ground (arith, e))
      (select_passes (λ s. in_scope project (ordered_states sec) s && not (has_id id s)) ss)

module _ (env : Env) (now : ℕ) (row : StoryRow) (others : List StoryRow)
    (differ : All (λ s. has_id row.id s ≡ false) others) where
  -- After `place`, and after `save`.
  abbrev pub Ready : ℤ → Db → Type 0
  Ready p e = Rows (Live row.id) e × IsPlaced row p others e.stories

  abbrev pub Done : ℤ → Db → Type 0
  Done p e = Rows (Mine row.id row p) e × IsPlaced row p others e.stories

  IsPlaced-modify :
      (f : StoryRow → StoryRow) (p : ℤ) (ss : List StoryRow)
      → ((x : StoryRow) → (f x).id ≡ x.id)
      → IsPlaced row p others ss
      → IsPlaced row p others (modify (has_id row.id) f ss)
  IsPlaced-modify f p ss same (inl kept) = inl kept
  IsPlaced-modify f p ss same (inr (unaccepted, below)) =
      inr (unaccepted, All-both others (λ s. Below-modify row.id f ss p s same) differ below)

  write-Done :
      (p : ℤ)
      → Hoare {A = Unit}
          (Ready p)
          (update (
            update_stories
              (has_id row.id)
              (updated_row (record row { deleted_at = none; position = p }) now)))
          (λ _ e. Done p e)
  write-Done p = record {
    at = λ e h. (
      written_rows row.id row p now e.stories h.0,
      IsPlaced-modify (updated_row (record row { deleted_at = none; position = p }) now) p e.stories
          (λ x. refl) h.1,
    );
  }

  get_story-Done :
      (p : ℤ) → Hoare (Done p) (get_story row.id) (λ s e. Done p e × IsRestored row p s)
  get_story-Done p =
      let placed = λ (ss : List StoryRow). IsPlaced row p others ss in
      let read = λ (s : StoryRow) (e : Db).
        Rows (Mine row.id row p) e × Mine row.id row p s × (s.id ≡ row.id) in
      Hoare-post (λ s e. read s e × placed e.stories)
        (λ s e h. ((h.0.0, h.1), h.0.1 ((==_iff s.id row.id).1 h.0.2)))
        (Hoare-both read (λ s e. placed e.stories)
          (Hoare-weaken (λ e h. h.0) (get_story-Rows (Mine row.id row p) row.id))
          (Hoare-weaken (λ e h. h.1)
            (Hoare-keeps placed (get_story row.id) (get_story-KeepsStories row.id))))

  pub save-Done :
      (p : ℤ)
      → Hoare
          (Ready p)
          (save env now (record row { deleted_at = none; position = p }))
          (λ t e. Done p e × IsRestored row p t.row)
  unfolding save update_story
  save-Done p =
      Hoare-bind (λ s e. Done p e × IsRestored row p s)
        (Hoare-bind (λ _ e. Done p e) (write-Done p) (λ _. get_story-Done p))
        λ s. Hoare-given λ good.
          Hoare-post (λ t e. Done p e × (t.row ≡ s))
            (λ t e h. (h.0, subst (IsRestored row p) (sym h.1) good))
            (Hoare-both (λ _ e. Done p e) (λ t e. t.row ≡ s)
              (Hoare-keeps (λ ss. All (Mine row.id row p) ss × IsPlaced row p others ss)
                (load env now s) (load-KeepsStories env now s))
              (Hoare-weaken (λ e h. tt) (load_row env now s)))
