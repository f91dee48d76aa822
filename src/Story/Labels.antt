-- ===== src/Story/Labels.antt =====
-- `setLabels` of internal/story/story.go.
use mathlib.Core.List.{reverse}
use Prim.Native.String.{len}
use text.Mathlib.Text.{◌==◌ as str_eq}
use trackstar.AppErr.{invalid_err, is_not_found}
use trackstar.Common.{List, String, [], any, if◌then◌else◌, length, ltb, ℕ, ◌||◌, ◌∷◌}
use trackstar.Common.Text.{is_empty, squeeze}
use trackstar.Db.Labels.{
  add_story_label, clear_story_labels, create_label, delete_unused_labels, get_label_by_name,
}
use trackstar.Db.Rows.{Db, LabelRow}
use trackstar.Db.Tx.{Result, Tx, err, ok, pure, refuse_if, ◌>>=◌, ◌>>◌}
use trackstar.Story.Types.{Env}

module _ (env : Env) where
  -- The first loop: the labels in normal form, the newest first. `seen` holds the same texts.
  unfoldable pub clean_labels : List String → List String → Result (List String)
  clean_labels [] clean = ok clean
  clean_labels (n ∷ names) clean =
      let name = env.to_lower (squeeze n) in
      let skip = clean_labels names clean in
      let keep = clean_labels names (name ∷ clean) in
      if is_empty name || any (λ c. str_eq c name) clean
      then skip
      else if ltb 50 (len name)
      then err (invalid_err "label %q is too long")
      else keep

  -- The label of a name, made where there is none.
  unfoldable pub find_or_create : Result LabelRow × Db → ℕ → String → Result LabelRow × Db
  find_or_create (ok label, d) project name = (ok label, d)
  find_or_create (err e, d) project name =
      if is_not_found e then create_label env.engine project name d else (err e, d)

  unfoldable pub attach_labels : ℕ → ℕ → List String → Tx Unit
  unfolding find_or_create
  attach_labels project story [] = pure tt
  attach_labels project story (name ∷ names) = do
    label ← λ d. find_or_create (get_label_by_name project name d) project name
    add_story_label story label.id
    attach_labels project story names

  unfoldable pub set_labels : ℕ → ℕ → List String → Tx Unit
  unfolding clean_labels attach_labels
  set_labels project story names = do
    clean ← λ d. (clean_labels names [], d)
    refuse_if (ltb 20 (length clean)) (invalid_err "a story can have at most 20 labels")
    clear_story_labels story
    attach_labels project story (reverse clean)
    delete_unused_labels project
