-- ===== src/Story/Comments/Undo.antt =====
-- `AddComment` followed by `DeleteComment`, of internal/story/story.go.
use trackstar.Common.{
  All, All-imp, All-unmap, Bool, Bool-cases, List, Option-cases, String, [], arith, false, inl, inr,
  is_some, map, not, refl, select, true, ℕ, ◌==◌, ◌∷◌, ◌≡◌,
}
use trackstar.Common.Text.{is_empty, trim_space}
use trackstar.Db.Rows.{CommentRow, Db}
use trackstar.Db.Stories.{create_comment, delete_comment, find_story, get_comment, get_story}
use trackstar.Db.Tx.{ok}
use trackstar.Story.Comments.{add_comment, remove_comment}
use trackstar.Story.Types.{Env}

module _ {ℓ} {A : Type ℓ} where
  select-All : (p : A → Bool) (xs : List A) → All (λ x. p x ≡ true) xs → select p xs ≡ xs
  select-All p [] h = refl
  select-All p (x ∷ xs) h = ground (arith, h.0, select-All p xs h.1)

added_row : Env → ℕ → ℕ → ℕ → String → Db → CommentRow
added_row env now story actor text d = record {
  id = env.engine.fresh_id (map (λ c. c.id) d.comments);
  story_id = story;
  user_id = actor;
  body = text;
  created_at = now;
  updated_at = now;
}

others_kept :
    (env : Env) (d : Db)
    → select
        (λ c. not (c.id == env.engine.fresh_id (map (λ (x : CommentRow). x.id) d.comments)))
        d.comments
      ≡ d.comments
others_kept env d =
    let new = env.engine.fresh_id (map (λ (x : CommentRow). x.id) d.comments) in
    select-All (λ c. not (c.id == new)) d.comments
      (All-imp d.comments (λ c differs. ground (arith, differs))
        (All-unmap (λ i. (i == new) ≡ false) (λ (x : CommentRow). x.id) d.comments
          (env.engine.fresh_id_new (map (λ (x : CommentRow). x.id) d.comments))))

-- The branches of `add_comment` that succeed.
add_comment_runs :
    (env : Env) (now story actor : ℕ) (text : String) (d d' : Db) (c : CommentRow)
    → add_comment env now story actor text d ≡ (ok c, d')
    → (c ≡ added_row env now story actor (trim_space text) d)
      × (d'
          ≡ record d { comments = added_row env now story actor (trim_space text) d ∷ d.comments })
unfolding add_comment get_story create_comment added_row
add_comment_runs env now story actor text d d' c e =
    elim (Bool-cases (is_empty (trim_space text))) [
      | inl blank ↦ absurd (ground (arith, blank, e))
      | inr written ↦ elim (Option-cases (find_story story d)) [
        | inl missing ↦ absurd (ground (arith, written, missing, e))
        | inr (st, found) ↦ elim (Bool-cases (is_some st.deleted_at)) [
          | inl trashed_story ↦ absurd (ground (arith, written, found, trashed_story, e))
          | inr live ↦
              (ground (arith, written, found, live, e), ground (arith, written, found, live, e))
        ]
      ]
    ]

removed_added :
    (env : Env) (now story actor : ℕ) (text : String) (d : Db)
    → remove_comment
        (added_row env now story actor text d).id
        actor
        (record d { comments = added_row env now story actor text d ∷ d.comments })
      ≡ (ok story, d)
unfolding remove_comment get_comment delete_comment added_row
removed_added env now story actor text d = ground (arith, others_kept env d)

-- A comment that `AddComment` has added can be deleted by its author, and that gives back the
-- database as it was.
pub add_comment-remove_comment :
    (env : Env) (now story actor : ℕ) (text : String) (d d' : Db) (c : CommentRow)
    → add_comment env now story actor text d ≡ (ok c, d')
    → remove_comment c.id actor d' ≡ (ok story, d)
add_comment-remove_comment env now story actor text d d' c e =
    let (row, after) = add_comment_runs env now story actor text d d' c e in
    rw (row, after) (removed_added env now story actor (trim_space text) d)
