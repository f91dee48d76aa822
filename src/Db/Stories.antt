-- ===== src/Db/Stories.antt =====
-- internal/database/dbgen/stories.sql.go: the statements on stories, their comments and their log.
-- Each is the SQL text that stands there; an UPDATE ... RETURNING that meets no row has no rows.
use trackstar.AppErr.{no_rows}
use trackstar.Common.{
  All, Bool, List, Option, String, any, false, first, is_some, leb, length, ltb, map, modify, none,
  not, select, some, ℕ, ◌&&◌, ◌==◌, ◌||◌, ◌∷◌, ◌≡◌,
}
use trackstar.Common.Int.{eq_ℤ, ltb_ℤ, ℤ}
use trackstar.Db.Order.{sort_by}
use trackstar.Db.Rows.{ActivityRow, CommentRow, Db, LogValue, StoryRow}
use trackstar.Db.Tx.{Tx, gets, ok, or_fail, update, ◌>>◌}
use trackstar.Workflow.{State, StoryType, state_eq}

-- What SQLite does: the id of a new row is one that no row of the table has.
pub record Engine : Type 0 where
  pub fresh_id : List ℕ → ℕ
  pub fresh_id_new : (ids : List ℕ) → All (λ i. (i == fresh_id ids) ≡ false) ids

abbrev pub has_id : ℕ → StoryRow → Bool
has_id id s = s.id == id

abbrev pub find_story : ℕ → Db → Option StoryRow
find_story id d = first (has_id id) d.stories

unfoldable pub get_story : ℕ → Tx StoryRow
get_story id d = or_fail no_rows (find_story id d) d

-- One row of `ListSectionPositions`.
pub record PositionRow : Type 0 where
  pub id : ℕ
  pub position : ℤ

abbrev pub position_row : StoryRow → PositionRow
position_row s = record { id = s.id; position = s.position }

-- ORDER BY position, id
abbrev pub position_le : PositionRow → PositionRow → Bool
position_le a b = ltb_ℤ a.position b.position || (eq_ℤ a.position b.position && leb a.id b.id)

abbrev pub in_scope : ℕ → List State → StoryRow → Bool
in_scope project states s =
    s.project_id == project && not (is_some s.deleted_at) && any (λ t. state_eq t s.state) states

unfoldable pub section_positions : ℕ → List State → Db → List PositionRow
section_positions project states d =
    sort_by position_le (map position_row (select (in_scope project states) d.stories))

abbrev pub list_section_positions : ℕ → List State → Tx (List PositionRow)
list_section_positions project states = gets (section_positions project states)

abbrev pub update_stories : (StoryRow → Bool) → (StoryRow → StoryRow) → Db → Db
update_stories p f d = record d { stories = modify p f d.stories }

unfoldable pub set_story_position : ℕ → ℤ → Tx Unit
set_story_position id position =
    update (update_stories (has_id id) (λ s. record s { position = position }))

-- The columns that `UpdateStory` sets, taken from `row`; project, creation and deletion stay.
abbrev pub updated_row : StoryRow → ℕ → StoryRow → StoryRow
updated_row row now s = record s {
  title = row.title;
  description = row.description;
  type = row.type;
  state = row.state;
  estimate = row.estimate;
  position = row.position;
  requester_id = row.requester_id;
  owner_id = row.owner_id;
  accepted_at = row.accepted_at;
  updated_at = now;
}

unfoldable pub update_story : StoryRow → ℕ → Tx StoryRow
unfolding get_story
update_story row now = do
  update (update_stories (has_id row.id) (updated_row row now))
  get_story row.id

unfoldable pub set_story_deleted : ℕ → Option ℕ → ℕ → Tx Unit
set_story_deleted id deleted_at now =
    update
      (update_stories (has_id id) (λ s. record s { deleted_at = deleted_at; updated_at = now }))

-- The arguments of `CreateStory`.
pub record NewStory : Type 0 where
  pub project_id : ℕ
  pub title : String
  pub description : String
  pub type : StoryType
  pub state : State
  pub estimate : Option ℕ
  pub position : ℤ
  pub requester_id : ℕ
  pub owner_id : Option ℕ

abbrev pub new_story_row : NewStory → ℕ → ℕ → StoryRow
new_story_row n id now = record {
  id = id;
  project_id = n.project_id;
  title = n.title;
  description = n.description;
  type = n.type;
  state = n.state;
  estimate = n.estimate;
  position = n.position;
  requester_id = n.requester_id;
  owner_id = n.owner_id;
  created_at = now;
  updated_at = now;
  accepted_at = none;
  deleted_at = none;
}

abbrev pub story_ids : Db → List ℕ
story_ids d = map (λ s. s.id) d.stories

module _ (engine : Engine) where
  unfoldable pub create_story : NewStory → ℕ → Tx StoryRow
  create_story n now d =
      let row = new_story_row n (engine.fresh_id (story_ids d)) now in
      (ok row, record d { stories = row ∷ d.stories })

  unfoldable pub create_activity : ℕ → ℕ → String → LogValue → LogValue → ℕ → Tx Unit
  create_activity story user kind old new now d =
      let row : ActivityRow = record {
        id = engine.fresh_id (map (λ a. a.id) d.activity);
        story_id = story;
        user_id = user;
        kind = kind;
        old_value = old;
        new_value = new;
        created_at = now;
      } in
      (ok tt, record d { activity = row ∷ d.activity })

  unfoldable pub create_comment : ℕ → ℕ → String → ℕ → Tx CommentRow
  create_comment story user body now d =
      let row : CommentRow = record {
        id = engine.fresh_id (map (λ c. c.id) d.comments);
        story_id = story;
        user_id = user;
        body = body;
        created_at = now;
        updated_at = now;
      } in
      (ok row, record d { comments = row ∷ d.comments })

-- A row is deleted by `PurgeDeletedStories`.
abbrev pub is_purged : ℕ → StoryRow → Bool
is_purged before s = elim s.deleted_at [ none ↦ false | some at ↦ ltb at before ]

-- ON DELETE CASCADE of the tables that refer to a story: the rows of the stories that are left.
unfoldable pub cascade_stories : Db → Db
cascade_stories d =
    let kept : ℕ → Bool = λ id. is_some (find_story id d) in
    record d {
      comments = select (λ c. kept c.story_id) d.comments;
      activity = select (λ a. kept a.story_id) d.activity;
      story_labels = select (λ l. kept l.story_id) d.story_labels;
      tasks = select (λ t. kept t.story_id) d.tasks;
      blockers = select (λ b. kept b.story_id && kept b.blocker_id) d.blockers;
    }

unfoldable pub purge_deleted_stories : ℕ → Tx ℕ
unfolding cascade_stories
purge_deleted_stories before d = (
  ok (length (select (is_purged before) d.stories)),
  cascade_stories (record d { stories = select (λ s. not (is_purged before s)) d.stories }),
)

unfoldable pub get_comment : ℕ → Tx CommentRow
get_comment id d = or_fail no_rows (first (λ c. c.id == id) d.comments) d

unfoldable pub delete_comment : ℕ → Tx Unit
delete_comment id = update (λ d. record d { comments = select (λ c. not (c.id == id)) d.comments })

abbrev pub count_comments : ℕ → Tx ℕ
count_comments story = gets (λ d. length (select (λ c. c.story_id == story) d.comments))
