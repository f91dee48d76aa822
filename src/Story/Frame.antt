-- ===== src/Story/Frame.antt =====
-- The helpers of the story service that do not write the stories table.
use trackstar.Common.{List, Option, String, [], ap, arith, none, refl, some, ℕ, ◌∙◌, ◌∷◌, ◌≡◌}
use trackstar.Db.Accounts.{get_project, get_user}
use trackstar.Db.Labels.{
  add_story_label, clear_story_labels, create_label, delete_unused_labels, get_label_by_name,
  list_story_labels,
}
use trackstar.Db.Planning.{add_story_blocker, clear_story_blockers, list_story_blockers, list_tasks}
use trackstar.Db.Rows.{Db, LabelRow, LogValue, StoryRow}
use trackstar.Db.Stories.{create_activity, get_story}
use trackstar.Db.Tx.{Result, err, ok}
use trackstar.Db.Tx.Frame.{
  KeepsStories, KeepsStories-bind, KeepsStories-gets, KeepsStories-lift, KeepsStories-pure,
  keeps_stories,
}
use trackstar.Story.Blockers.{add_blockers, check_blockers, set_blockers}
use trackstar.Story.Labels.{attach_labels, find_or_create, set_labels}
use trackstar.Story.Types.{Env}
use trackstar.Story.View.{
  current_iteration_start, load, load_blockers, record_activity, require_user,
}

pub get_story-KeepsStories : (id : ℕ) → KeepsStories (get_story id)
unfolding get_story
get_story-KeepsStories id = record { at = λ d. ground arith }

pub get_project-KeepsStories : (id : ℕ) → KeepsStories (get_project id)
unfolding get_project
get_project-KeepsStories id = record { at = λ d. ground arith }

pub get_user-KeepsStories : (id : ℕ) → KeepsStories (get_user id)
unfolding get_user
get_user-KeepsStories id = record { at = λ d. ground arith }

pub list_story_labels-KeepsStories : (id : ℕ) → KeepsStories (list_story_labels id)
unfolding list_story_labels
list_story_labels-KeepsStories id = KeepsStories-gets _

pub list_story_blockers-KeepsStories : (id : ℕ) → KeepsStories (list_story_blockers id)
unfolding list_story_blockers
list_story_blockers-KeepsStories id = KeepsStories-gets _

pub list_tasks-KeepsStories : (id : ℕ) → KeepsStories (list_tasks id)
unfolding list_tasks
list_tasks-KeepsStories id = KeepsStories-gets _

pub ruleset reads = (
  get_story-KeepsStories, get_project-KeepsStories, get_user-KeepsStories,
  list_story_labels-KeepsStories, list_story_blockers-KeepsStories, list_tasks-KeepsStories,
)

pub require_user-KeepsStories : (id : Option ℕ) (m : String) → KeepsStories (require_user id m)
unfolding require_user
require_user-KeepsStories none m = search keeps_stories
require_user-KeepsStories (some id) m = search (keeps_stories, reads)

-- Labels.
find_or_create-keeps :
    (env : Env) (r : Result LabelRow) (d : Db) (project : ℕ) (name : String)
    → (find_or_create env (r, d) project name).1.stories ≡ d.stories
unfolding find_or_create create_label
find_or_create-keeps env (ok l) d project name = refl
find_or_create-keeps env (err e) d project name = ground arith

get_label_by_name-same :
    (project : ℕ) (name : String) (d : Db) → (get_label_by_name project name d).1 ≡ d
unfolding get_label_by_name
get_label_by_name-same project name d = ground arith

label-KeepsStories :
    (env : Env) (project : ℕ) (name : String)
    → KeepsStories (λ d. find_or_create env (get_label_by_name project name d) project name)
label-KeepsStories env project name = record {
  at = λ d.
      let (r, d') = get_label_by_name project name d in
      find_or_create-keeps env r d' project name
      ∙ ap (λ (e : Db). e.stories) (get_label_by_name-same project name d);
}

add_story_label-KeepsStories : (story label : ℕ) → KeepsStories (add_story_label story label)
unfolding add_story_label
add_story_label-KeepsStories story label = record { at = λ d. ground arith }

clear_story_labels-KeepsStories : (story : ℕ) → KeepsStories (clear_story_labels story)
unfolding clear_story_labels
clear_story_labels-KeepsStories story = record { at = λ d. refl }

pub delete_unused_labels-KeepsStories : (project : ℕ) → KeepsStories (delete_unused_labels project)
unfolding delete_unused_labels
delete_unused_labels-KeepsStories project = record { at = λ d. refl }

attach_labels-KeepsStories :
    (env : Env) (project story : ℕ) (names : List String)
    → KeepsStories (attach_labels env project story names)
unfolding attach_labels
attach_labels-KeepsStories env project story [] = search keeps_stories
attach_labels-KeepsStories env project story (name ∷ names) =
    KeepsStories-bind _ _ (label-KeepsStories env project name) λ label.
      KeepsStories-bind _ _ (add_story_label-KeepsStories story label.id)
        λ _. attach_labels-KeepsStories env project story names

pub set_labels-KeepsStories :
    (env : Env) (project story : ℕ) (names : List String)
    → KeepsStories (set_labels env project story names)
unfolding set_labels
set_labels-KeepsStories env project story names =
    search
      (
        keeps_stories, KeepsStories-lift, clear_story_labels-KeepsStories,
        attach_labels-KeepsStories, delete_unused_labels-KeepsStories,
      )
      depth 10

-- Blockers.
check_blockers-same :
    (story : StoryRow) (ids clean : List ℕ) (d : Db) → (check_blockers story ids clean d).1 ≡ d
unfolding check_blockers
check_blockers-same story [] clean d = refl
check_blockers-same story (id ∷ ids) clean d =
    ground
      (arith, check_blockers-same story ids clean d, check_blockers-same story ids (id ∷ clean) d)

add_story_blocker-KeepsStories : (story id : ℕ) → KeepsStories (add_story_blocker story id)
unfolding add_story_blocker
add_story_blocker-KeepsStories story id = record { at = λ d. ground arith }

add_blockers-KeepsStories : (story : ℕ) (ids : List ℕ) → KeepsStories (add_blockers story ids)
unfolding add_blockers
add_blockers-KeepsStories story [] = search keeps_stories
add_blockers-KeepsStories story (id ∷ ids) =
    KeepsStories-bind _ _ (add_story_blocker-KeepsStories story id)
      (λ _. add_blockers-KeepsStories story ids)

clear_story_blockers-KeepsStories : (story : ℕ) → KeepsStories (clear_story_blockers story)
unfolding clear_story_blockers
clear_story_blockers-KeepsStories story = record { at = λ d. refl }

check_blockers-KeepsStories :
    (story : StoryRow) (ids clean : List ℕ) → KeepsStories (check_blockers story ids clean)
check_blockers-KeepsStories story ids clean = record {
  at = λ d. ap (λ (e : Db). e.stories) (check_blockers-same story ids clean d);
}

pub set_blockers-KeepsStories :
    (story : StoryRow) (ids : List ℕ) → KeepsStories (set_blockers story ids)
unfolding set_blockers
set_blockers-KeepsStories story ids =
    search
      (
        keeps_stories, check_blockers-KeepsStories, clear_story_blockers-KeepsStories,
        add_blockers-KeepsStories,
      )
      depth 10

-- The view and the log.
load_blockers-KeepsStories : (ids : List ℕ) → KeepsStories (load_blockers ids)
unfolding load_blockers
load_blockers-KeepsStories [] = search keeps_stories
load_blockers-KeepsStories (id ∷ ids) =
    KeepsStories-bind _ _ (get_story-KeepsStories id)
      λ b. KeepsStories-bind _ _ (load_blockers-KeepsStories ids) (λ rest. KeepsStories-pure _)

module _ (env : Env) (now : ℕ) where
  current_iteration_start-KeepsStories :
      (project : ℕ) → KeepsStories (current_iteration_start env now project)
  unfolding current_iteration_start
  current_iteration_start-KeepsStories project = search (keeps_stories, reads)

  pub load-KeepsStories : (row : StoryRow) → KeepsStories (load env now row)
  unfolding load
  load-KeepsStories row =
      search
        (keeps_stories, reads, current_iteration_start-KeepsStories, load_blockers-KeepsStories)
        depth 12

  pub record_activity-KeepsStories :
      (story actor : ℕ) (kind : String) (old new : LogValue)
      → KeepsStories (record_activity env now story actor kind old new)
  unfolding record_activity create_activity
  record_activity-KeepsStories story actor kind old new = record { at = λ d. refl }
