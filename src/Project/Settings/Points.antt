-- ===== src/Project/Settings/Points.antt =====
-- `Update` of internal/project/project.go, and points on bugs and chores.
use trackstar.AppErr.{no_rows, or_not_found}
use trackstar.Common.{
  All, Bool, Bool-cases, List, Option, [], arith, false, first, inl, inr, modify, none, not, refl,
  some, true, ℕ, ◌&&◌, ◌==◌, ◌∙◌, ◌∷◌, ◌≡◌, ◌⊎◌,
}
use trackstar.Db.Accounts.{clear_non_feature_estimates, get_project, has_stray_points}
use trackstar.Db.Rows.{Db, ProjectRow, StoryRow}
use trackstar.Db.Tx.{Result, err, ok, or_fail}
use trackstar.Db.Tx.Frame.{in_tx-keeps}
use trackstar.Db.Tx.Hoare.{Hoare, Hoare-bind, Hoare-if, Hoare-map_err, Hoare-pure, OkPost}
use trackstar.Project.Settings.{
  ProjectInput, Settings, apply, settings_of, update_project, update_settings, update_settings_body,
  updated_project, write_project,
}

abbrev pub allows_points : ℕ → Db → Bool
allows_points project d = elim (first (λ p. p.id == project) d.projects) [
  | none ↦ false
  | some p ↦ p.estimate_bugs_and_chores
]

-- The project allows points on bugs and chores, or none of its bugs and chores has any.
abbrev pub HasNoStrayPoints : ℕ → Db → Type 0
HasNoStrayPoints project d =
    (allows_points project d ≡ true) ⊎ All (λ s. has_stray_points project s ≡ false) d.stories

cleared :
    (project now : ℕ) (ss : List StoryRow)
    → All
        (λ s. has_stray_points project s ≡ false)
        (modify (has_stray_points project) (λ s. record s { estimate = none; updated_at = now }) ss)
cleared project now [] = tt
cleared project now (s ∷ ss) = elim (Bool-cases (has_stray_points project s)) [
  | inl stray ↦ rw stray (ground arith, cleared project now ss)
  | inr clean ↦ rw clean (clean, cleared project now ss)
]

first-written :
    (id : ℕ) (f : ProjectRow → ProjectRow) (ps : List ProjectRow) (p : ProjectRow)
    → ((q : ProjectRow) → (f q).id ≡ q.id)
    → first (λ q. q.id == id) ps ≡ some p
    → first (λ q. q.id == id) (modify (λ q. q.id == id) f ps) ≡ some (f p)
first-written id f [] p same e = cc
first-written id f (q ∷ ps) p same e = ground (arith, e, same q, first-written id f ps p same)

-- The project row `p` is the one stored.
abbrev Stored : ℕ → ProjectRow → Db → Type 0
Stored id p d = first (λ q. q.id == id) d.projects ≡ some p

found_post :
    (id : ℕ) (o : Option ProjectRow) (d : Db)
    → HasNoStrayPoints id d
    → first (λ q. q.id == id) d.projects ≡ o
    → OkPost (λ p e. HasNoStrayPoints id e × Stored id p e) (or_fail no_rows o d)
found_post id none d h e = tt
found_post id (some p) d h e = (h, e)

get_project-Stored :
    (id : ℕ)
    → Hoare (HasNoStrayPoints id) (get_project id) (λ p d. HasNoStrayPoints id d × Stored id p d)
unfolding get_project
get_project-Stored id = record {
  at = λ d h. found_post id (first (λ q. q.id == id) d.projects) d h refl;
}

-- After the row is written: the new row, and stories as the old row allowed.
abbrev Written : ℕ → Settings → ProjectRow → Db → Type 0
Written id s p d =
    (allows_points id d ≡ s.estimate_bugs_and_chores)
    × ((p.estimate_bugs_and_chores ≡ true) ⊎ All (λ r. has_stray_points id r ≡ false) d.stories)

old_points :
    (id : ℕ) (p : ProjectRow) (d : Db)
    → HasNoStrayPoints id d
    → Stored id p d
    → (p.estimate_bugs_and_chores ≡ true) ⊎ All (λ r. has_stray_points id r ≡ false) d.stories
old_points id p d (inl allowed) stored = inl (ground (arith, stored, allowed))
old_points id p d (inr clean) stored = inr clean

write-Written :
    (id now : ℕ) (s : Settings) (p : ProjectRow)
    → Hoare {A = Unit}
        (λ d. HasNoStrayPoints id d × Stored id p d)
        (write_project id (updated_project s now))
        (λ _ d. Written id s p d)
write-Written id now s p = record {
  at = λ d h. (
    rw (allows_points, first-written id (updated_project s now) d.projects p (λ q. refl) h.1) refl,
    old_points id p d h.0 h.1,
  );
}

get_project-keeps : (P : Db → Type 0) (id : ℕ) → Hoare P (get_project id) (λ _ d. P d)
unfolding get_project
get_project-keeps P id = record { at = λ d h. ground (arith, h) }

update_project-Written :
    (id now : ℕ) (s : Settings) (p : ProjectRow)
    → Hoare
        (λ d. HasNoStrayPoints id d × Stored id p d)
        (update_project id s now)
        (λ _ d. Written id s p d)
unfolding update_project
update_project-Written id now s p =
    Hoare-bind (λ _ d. Written id s p d) (write-Written id now s p)
      (λ _. get_project-keeps (Written id s p) id)

clear-HasNoStrayPoints :
    (id now : ℕ) (s : Settings) (p : ProjectRow)
    → Hoare (Written id s p) (clear_non_feature_estimates id now) (λ _ d. HasNoStrayPoints id d)
unfolding clear_non_feature_estimates
clear-HasNoStrayPoints id now s p = record { at = λ d h. inr (cleared id now d.stories) }

kept_points :
    (id : ℕ) (s : Settings) (p : ProjectRow) (d : Db)
    → (p.estimate_bugs_and_chores && not s.estimate_bugs_and_chores) ≡ false
    → Written id s p d
    → HasNoStrayPoints id d
kept_points id s p d e (now_allowed, inr clean) = inr clean
kept_points id s p d e (now_allowed, inl before) = inl (now_allowed ∙ ground (arith, e, before))

result_keeps :
    {A : Type 0} (P : Db → Type 0) (r : Result A) (d : Db) → P d → OkPost (λ (a : A) e. P e) (r, d)
result_keeps P (ok a) d h = h
result_keeps P (err e) d h = tt

-- A computation without the database.
result-keeps : {A : Type 0} {P : Db → Type 0} (r : Result A) → Hoare P (λ d. (r, d)) (λ _ d. P d)
result-keeps {P = P} r = record { at = λ d h. result_keeps P r d h }

update_settings_body-HasNoStrayPoints :
    (now id : ℕ) (input : ProjectInput)
    → Hoare (HasNoStrayPoints id) (update_settings_body now id input) (λ _ d. HasNoStrayPoints id d)
unfolding update_settings_body
update_settings_body-HasNoStrayPoints now id input =
    Hoare-bind (λ p d. HasNoStrayPoints id d × Stored id p d)
      (Hoare-map_err (or_not_found "project") (get_project-Stored id))
      λ p.
        Hoare-bind (λ _ d. HasNoStrayPoints id d × Stored id p d)
          (result-keeps (apply input (settings_of p)))
          λ s.
            Hoare-bind (λ _ d. Written id s p d) (update_project-Written id now s p)
              λ row.
                Hoare-if (p.estimate_bugs_and_chores && not s.estimate_bugs_and_chores)
                  (λ _.
                    Hoare-bind (λ _ d. HasNoStrayPoints id d) (clear-HasNoStrayPoints id now s p)
                      (λ _. Hoare-pure row (λ d h. h)))
                  (λ same. Hoare-pure row (λ d h. kept_points id s p d same h))

-- `Update` of a project, whether it succeeds or is refused, keeps the bugs and chores of the project
-- without points unless the project allows them: when the option is switched off, points that
-- were there are taken away.
pub update_settings-HasNoStrayPoints :
    (now id : ℕ) (input : ProjectInput) (d : Db)
    → HasNoStrayPoints id d
    → HasNoStrayPoints id (update_settings now id input d).1
unfolding update_settings
update_settings-HasNoStrayPoints now id input =
    in_tx-keeps (HasNoStrayPoints id) (update_settings_body now id input)
      (update_settings_body-HasNoStrayPoints now id input)
