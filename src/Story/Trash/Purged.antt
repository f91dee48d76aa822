-- ===== src/Story/Trash/Purged.antt =====
-- What `Purge` of internal/story/story.go removes.
use trackstar.Common.{
  Bool, Bool-cases, List, [], any, arith, false, first, inl, inr, is_some, length, ltb, none, not,
  refl, select, some, subst, sym, ℕ, ◌&&◌, ◌*◌, ◌+◌, ◌-◌, ◌==◌, ◌∙◌, ◌∷◌, ◌≡◌,
}
use trackstar.Db.Labels.{delete_unused_labels}
use trackstar.Db.Rows.{Db, LabelRow, ProjectRow, StoryRow}
use trackstar.Db.Stories.{cascade_stories, has_id, is_purged, purge_deleted_stories}
use trackstar.Db.Tx.{in_tx, ok}
use trackstar.Story.Trash.{clean_projects, deleted_retention, purge, purge_body}
use trackstar.Story.Types.{Env}

-- In the trash for more than 30 days.
abbrev pub is_expired : ℕ → StoryRow → Bool
is_expired now s = elim s.deleted_at [ none ↦ false | some at ↦ ltb (at + 30 * 24 * 3600) now ]

-- Whether a story is in the table.
abbrev pub is_there : List StoryRow → ℕ → Bool
is_there ss id = any (λ s. s.id == id) ss

is_purged-is_expired :
    (now : ℕ) (s : StoryRow) → is_purged (now - deleted_retention) s ≡ is_expired now s
is_purged-is_expired now s = ground arith

found-is_there : (id : ℕ) (ss : List StoryRow) → is_some (first (has_id id) ss) ≡ is_there ss id
found-is_there id [] = refl
found-is_there id (s ∷ ss) = ground (arith, found-is_there id ss)

-- The loop over the projects writes labels and nothing else.
clean_projects-runs :
    (env : Env) (now : ℕ) (ps : List ProjectRow) (d : Db)
    → (labels : List LabelRow) × (clean_projects env now ps d
        ≡ (ok tt, record d { labels = labels }))
unfolding clean_projects delete_unused_labels
clean_projects-runs env now [] d = (d.labels, refl)
clean_projects-runs env now (p ∷ ps) d =
    clean_projects-runs env now ps (delete_unused_labels p.id d).1

-- The rows that a purge leaves where the stories `ss` are left.
pub record IsCascaded (ss : List StoryRow) (d d' : Db) : Type 0 where
  pub stories : d'.stories ≡ ss
  pub comments : d'.comments ≡ select (λ c. is_there ss c.story_id) d.comments
  pub activity : d'.activity ≡ select (λ a. is_there ss a.story_id) d.activity
  pub tasks : d'.tasks ≡ select (λ t. is_there ss t.story_id) d.tasks
  pub story_labels : d'.story_labels ≡ select (λ l. is_there ss l.story_id) d.story_labels
  pub blockers :
      d'.blockers ≡ select (λ b. is_there ss b.story_id && is_there ss b.blocker_id) d.blockers

cascade_stories-IsCascaded :
    (ss : List StoryRow) (d : Db) → IsCascaded ss d (cascade_stories (record d { stories = ss }))
unfolding cascade_stories
cascade_stories-IsCascaded ss d = record {
  stories = refl;
  comments = λ i. select (λ c. found-is_there c.story_id ss i) d.comments;
  activity = λ i. select (λ a. found-is_there a.story_id ss i) d.activity;
  tasks = λ i. select (λ t. found-is_there t.story_id ss i) d.tasks;
  story_labels = λ i. select (λ l. found-is_there l.story_id ss i) d.story_labels;
  blockers = λ i.
      select (λ b. found-is_there b.story_id ss i && found-is_there b.blocker_id ss i) d.blockers;
}

-- A change of the labels alone.
relabelled :
    (ss : List StoryRow) (d e : Db) (labels : List LabelRow)
    → IsCascaded ss d e
    → IsCascaded ss d (record e { labels = labels })
relabelled ss d e labels h = record {
  stories = h.stories;
  comments = h.comments;
  activity = h.activity;
  tasks = h.tasks;
  story_labels = h.story_labels;
  blockers = h.blockers;
}

purge-runs :
    (env : Env) (now : ℕ) (d : Db)
    → let gone = is_purged (now - deleted_retention) in
      (labels : List LabelRow) × (purge env now d ≡ (
        ok (length (select gone d.stories)),
        record (cascade_stories (record d { stories = select (λ s. not (gone s)) d.stories })) {
          labels = labels;
        },
      ))
unfolding purge purge_body purge_deleted_stories in_tx
purge-runs env now d =
    let gone = is_purged (now - deleted_retention) in
    let n = length (select gone d.stories) in
    let e = cascade_stories (record d { stories = select (λ s. not (gone s)) d.stories }) in
    let (labels, cleaned) = clean_projects-runs env now e.projects e in
    elim (Bool-cases (n == 0)) [
      | inl nothing ↦ (e.labels, ground (arith, nothing))
      | inr some_gone ↦ (labels, ground (arith, some_gone, cleaned))
    ]

-- `Purge` always succeeds and answers the number of the stories that are in the trash for more than
-- 30 days. It removes exactly these, and of comments, activity, tasks, labels on stories and
-- blockers exactly the rows that refer to a story that is not left.
pub purge-IsCascaded :
    (env : Env) (now : ℕ) (d : Db)
    → ((purge env now d).0 ≡ ok (length (select (is_expired now) d.stories)))
      × IsCascaded (select (λ s. not (is_expired now s)) d.stories) d (purge env now d).1
purge-IsCascaded env now d =
    let gone = is_purged (now - deleted_retention) in
    let (labels, ran) = purge-runs env now d in
    let left = select (λ s. not (gone s)) d.stories in
    let e = cascade_stories (record d { stories = left }) in
    let all = relabelled left d e labels (cascade_stories-IsCascaded left d) in
    let same : (s : StoryRow) → gone s ≡ is_expired now s = is_purged-is_expired now in
    (
      (λ i. (ran i).0) ∙ (λ i. ok (length (select (λ s. same s i) d.stories))),
      subst
          (λ (f : StoryRow → Bool).
            IsCascaded (select (λ s. not (f s)) d.stories) d (purge env now d).1)
          (λ i s. same s i) (subst (IsCascaded left d) (sym (λ i. (ran i).1)) all),
    )
