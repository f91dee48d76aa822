-- ===== src/Story/Blockers.antt =====
-- `setBlockers` and `reaches` of internal/story/tasks.go: which stories a story waits on.
pub mod Search
pub mod Acyclic
use mathlib.Core.List.{reverse}
use trackstar.AppErr.{Failure, invalid_err}
use trackstar.Common.{
  Bool, List, Option, [], any, false, if◌then◌else◌, is_some, leb, length, ltb, map, none, not,
  select, some, suc, true, zero, ℕ, ◌==◌, ◌||◌, ◌∷◌,
}
use trackstar.Db.Order.{sort_by}
use trackstar.Db.Planning.{add_story_blocker, clear_story_blockers}
use trackstar.Db.Rows.{Db, StoryRow}
use trackstar.Db.Stories.{find_story}
use trackstar.Db.Tx.{Tx, err, ok, pure, refuse_if, ◌>>=◌, ◌>>◌}

-- `reaches`, with the blockers of a story as a function. The recursion of the source ends at depth
-- 51; `rounds` counts what is left of it. `any_reaches` is its loop over the blockers.
unfoldable pub any_reaches : (ℕ → Bool) → ℕ → List ℕ → Bool
any_reaches go target [] = false
any_reaches go target (b ∷ bs) = b == target || go b || any_reaches go target bs

unfoldable pub reaches_from : (ℕ → List ℕ) → ℕ → ℕ → ℕ → Bool
unfolding any_reaches
reaches_from blockers zero from target = true
reaches_from blockers (suc rounds) from target =
    let go : ℕ → Bool = λ b. reaches_from blockers rounds b target in
    any_reaches go target (blockers from)

-- `ListStoryBlockers` as a function of the story.
abbrev pub blockers_of : Db → ℕ → List ℕ
blockers_of d story =
    sort_by leb (map (λ b. b.blocker_id) (select (λ b. b.story_id == story) d.blockers))

unfoldable pub reaches : ℕ → ℕ → Db → Bool
reaches from target d = reaches_from (blockers_of d) 51 from target

-- The checks of the first loop; `seen` and `clean` hold the same ids, the newest first.
abbrev pub not_in_project : ℕ → Option StoryRow → Bool
not_in_project project none = true
not_in_project project (some b) = is_some b.deleted_at || not (b.project_id == project)

unfoldable pub check_blockers : StoryRow → List ℕ → List ℕ → Tx (List ℕ)
check_blockers story [] clean d = (ok clean, d)
check_blockers story (id ∷ ids) clean d =
    let skip = check_blockers story ids clean d in
    let keep = check_blockers story ids (id ∷ clean) d in
    if id == story.id
    then (err (invalid_err "a story cannot block itself"), d)
    else if any (λ c. c == id) clean
    then skip
    else if not_in_project story.project_id (find_story id d)
    then (err (invalid_err "blocker #%d is not a story in this project"), d)
    else if reaches id story.id d
    then (err (invalid_err "#%d is already blocked by this story"), d)
    else keep

unfoldable pub add_blockers : ℕ → List ℕ → Tx Unit
add_blockers story [] = pure tt
add_blockers story (id ∷ ids) = do add_story_blocker story id; add_blockers story ids

abbrev pub too_many_blockers : Failure
too_many_blockers = invalid_err "a story can list at most 20 blockers"

unfoldable pub set_blockers : StoryRow → List ℕ → Tx Unit
unfolding check_blockers add_blockers
set_blockers story ids = do
  clean ← check_blockers story ids []
  refuse_if (ltb 20 (length clean)) too_many_blockers
  clear_story_blockers story.id
  add_blockers story.id (reverse clean)
