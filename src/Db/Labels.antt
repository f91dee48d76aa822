-- ===== src/Db/Labels.antt =====
-- internal/database/dbgen/labels.sql.go: the statements on labels.

use text.Mathlib.Text.{is_le, ◌==◌ as str_eq}
use Prim.Native.String.{compare as compare_text}
use trackstar.AppErr.{constraint, no_rows}
use trackstar.Common.{
  Bool, List, String, [], any, false, first, if◌then◌else◌, map, not, select, ℕ, ◌&&◌, ◌++◌, ◌==◌,
  ◌∷◌,
}
use trackstar.Db.Order.{sort_by}
use trackstar.Db.Rows.{Db, LabelRow, StoryLabelRow}
use trackstar.Db.Stories.{Engine}
use trackstar.Db.Tx.{Tx, err, gets, ok, or_fail, update}

abbrev pub is_named : ℕ → String → LabelRow → Bool
is_named project name l = l.project_id == project && str_eq l.name name

unfoldable pub get_label_by_name : ℕ → String → Tx LabelRow
get_label_by_name project name d = or_fail no_rows (first (is_named project name) d.labels) d

unfoldable pub clear_story_labels : ℕ → Tx Unit
clear_story_labels story =
    update λ d. record d { story_labels = select (λ l. not (l.story_id == story)) d.story_labels }

-- The primary key of the table is the pair.
unfoldable pub add_story_label : ℕ → ℕ → Tx Unit
add_story_label story label d =
    if any (λ l. l.story_id == story && l.label_id == label) d.story_labels
    then (err constraint, d)
    else (
      ok tt,
      record d { story_labels = record { story_id = story; label_id = label } ∷ d.story_labels },
    )

-- A plain label with no story left.
abbrev pub is_unused : ℕ → Db → LabelRow → Bool
is_unused project d l =
    l.project_id == project && not l.is_epic && not (any (λ sl. sl.label_id == l.id) d.story_labels)

unfoldable pub delete_unused_labels : ℕ → Tx Unit
delete_unused_labels project =
    update λ d. record d { labels = select (λ l. not (is_unused project d l)) d.labels }

label_names : List LabelRow → ℕ → List String
label_names labels id = map (λ l. l.name) (select (λ l. l.id == id) labels)

joined_names : List LabelRow → List StoryLabelRow → List String
unfolding label_names
joined_names labels [] = []
joined_names labels (sl ∷ rest) = label_names labels sl.label_id ++ joined_names labels rest

-- SELECT labels.name ... JOIN ... ORDER BY labels.name, by the bytes of the text.
unfoldable pub list_story_labels : ℕ → Tx (List String)
unfolding joined_names
list_story_labels story = gets λ d.
    sort_by (λ a b. is_le (compare_text a b))
      (joined_names d.labels (select (λ sl. sl.story_id == story) d.story_labels))

module _ (engine : Engine) where
  unfoldable pub create_label : ℕ → String → Tx LabelRow
  create_label project name d =
      let row : LabelRow = record {
        id = engine.fresh_id (map (λ l. l.id) d.labels);
        project_id = project;
        name = name;
        is_epic = false;
        description = "";
      } in
      if any (is_named project name) d.labels
      then (err constraint, d)
      else (ok row, record d { labels = row ∷ d.labels })
