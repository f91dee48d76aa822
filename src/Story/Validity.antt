-- ===== src/Story/Validity.antt =====
-- What holds of every story in the database, and the statements that keep it.
use trackstar.Common.{All, false, is_some, refl, true, ℕ, ◌≡◌}
use trackstar.Db.Rows.{Db, StoryRow}
use trackstar.Db.Stories.{get_story, updated_row}
use trackstar.Db.Tx.{Tx}
use trackstar.Db.Tx.Frame.{Hoare-keeps, KeepsStories}
use trackstar.Db.Tx.Hoare.{Hoare, Hoare-post}
use trackstar.Story.Place.{Placement, place}
use trackstar.Story.Rowwise.{get_story-Rows, place-Rows, save-Rows}
use trackstar.Story.Types.{Env}
use trackstar.Story.Update.{bad_estimate, needs_estimate}
use trackstar.Story.View.{save}
use trackstar.Workflow.{Section, State, state_eq, state_valid, type_valid}

-- The type, the state and the points are among the constants, and a story has an acceptance time
-- exactly when it is accepted.
pub record IsSound (s : StoryRow) : Type 0 where
  pub type_ok : type_valid s.type ≡ true
  pub state_ok : state_valid s.state ≡ true
  pub points_ok : bad_estimate s.estimate ≡ false
  pub dated : is_some s.accepted_at ≡ state_eq s.state State.accepted

-- Besides, a feature that was started has points.
pub record IsValidStory (s : StoryRow) : Type 0 where
  pub sound : IsSound s
  pub estimated : needs_estimate s ≡ false

abbrev pub IsValid : Db → Type 0
IsValid d = All IsValidStory d.stories

-- A change to columns that `IsValidStory` does not read.
abbrev pub SameContent : StoryRow → StoryRow → Type 0
SameContent s t =
    (t.type ≡ s.type)
    × (t.state ≡ s.state)
    × (t.estimate ≡ s.estimate)
    × (t.accepted_at ≡ s.accepted_at)

pub SameContent-IsValidStory : (s t : StoryRow) → SameContent s t → IsValidStory s → IsValidStory t
unfolding needs_estimate
SameContent-IsValidStory s t same v = record {
  sound = record {
    type_ok = rw same.0 v.sound.type_ok;
    state_ok = rw same.1 v.sound.state_ok;
    points_ok = rw same.2 v.sound.points_ok;
    dated = rw (same.1, same.3) v.sound.dated;
  };
  estimated = rw (same.0, same.1, same.2) v.estimated;
}

-- A statement that leaves the stories alone keeps them valid.
pub keeps-IsValid : {A : Type 0} (m : Tx A) → KeepsStories m → Hoare IsValid m (λ _ d. IsValid d)
keeps-IsValid m = Hoare-keeps (All IsValidStory) m

pub place-IsValid :
    (project : ℕ) (sec : Section) (moving : ℕ) (w : Placement)
    → Hoare IsValid (place project sec moving w) (λ _ d. IsValid d)
place-IsValid =
    place-Rows IsValidStory
      (λ s p. SameContent-IsValidStory s (record s { position = p }) (refl, refl, refl, refl))

-- A story that is read is valid.
pub get_story-IsValid : (id : ℕ) → Hoare IsValid (get_story id) (λ s d. IsValid d × IsValidStory s)
get_story-IsValid id =
    Hoare-post (λ s d. IsValid d × IsValidStory s × (s.id ≡ id)) (λ s d h. (h.0, h.1))
      (get_story-Rows IsValidStory id)

pub updated_row-IsValidStory :
    (row : StoryRow) (now : ℕ) (s : StoryRow)
    → IsValidStory row
    → IsValidStory (updated_row row now s)
updated_row-IsValidStory row now s =
    SameContent-IsValidStory row (updated_row row now s) (refl, refl, refl, refl)

pub save-IsValid :
    (env : Env) (now : ℕ) (row : StoryRow)
    → IsValidStory row
    → Hoare IsValid (save env now row) (λ _ d. IsValid d)
save-IsValid env now row v =
    save-Rows IsValidStory env now row (λ s _ _. updated_row-IsValidStory row now s v)
