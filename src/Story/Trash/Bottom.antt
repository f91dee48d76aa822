-- ===== src/Story/Trash/Bottom.antt =====
-- `place` of internal/story/story.go at the bottom of a section, as `Restore` calls it.
use mathlib.Core.Option
use trackstar.Common.{
  All, All-both, All-map, All-unmap, All-unselect, Bool, Bool-cases, List, [], ap, arith, first,
  inl, inr, length, length-map, map, none, not, refl, select, some, subst, suc, sym, take, true,
  zero, ℕ, ◌&&◌, ◌∙◌, ◌∷◌, ◌≡◌,
}
use trackstar.Common.Int.{ℤ, ◌<ℤ◌}
use trackstar.Db.Ids.{UniqueIds}
use trackstar.Db.Order.{All-unsort}
use trackstar.Db.Rows.{Db, StoryRow}
use trackstar.Db.Stories.{
  PositionRow, has_id, in_scope, position_le, position_row, section_positions,
}
use trackstar.Db.Tx.{ok}
use trackstar.Db.Tx.Hoare.{Hoare, OkPost}
use trackstar.Iteration.{range}
use trackstar.Story.Place.{Placement, others, place, row_id_is, slot}
use trackstar.Story.Place.Lands.{IsSmall}
use trackstar.Story.Place.Order.{other_ids, place-Slotted}
use trackstar.Story.Place.Rows.{Agrees, InRange}
use trackstar.Workflow.{Section, ordered_states}

abbrev pub bottom : Placement
bottom = record { prev_id = none; next_id = none; bottom = true }

-- The stored story `i` has a position before `p`.
abbrev pub Below : List StoryRow → ℤ → ℕ → Type 0
Below ss p i =
    (q : ℤ) × (Option.map (λ (s : StoryRow). s.position) (first (has_id i) ss) ≡ some q) × (q <ℤ p)

-- The other stories of a section.
abbrev pub other_stories : ℕ → Section → ℕ → List StoryRow → List StoryRow
other_stories project sec id =
    select (λ s. in_scope project (ordered_states sec) s && not (has_id id s))

All-take_all {ℓ κ} :
    {A : Type ℓ} (P : A → Type κ) (xs : List A) (n : ℕ)
    → n ≡ length xs
    → All P (take n xs)
    → All P xs
All-take_all P [] n e h = tt
All-take_all P (x ∷ xs) zero e h = absurd (omega (arith, e))
All-take_all P (x ∷ xs) (suc n) e h = (h.0, All-take_all P xs n (omega (arith, e)) h.1)

row-Below :
    (d : Db) (p : ℤ) (r : PositionRow) → Agrees d r → r.position <ℤ p → Below d.stories p r.id
row-Below d p r at lt = (r.position, at, lt)

-- What holds of the ids of the other rows of a section holds of the other stories.
others-stories :
    (Q : ℕ → Type 0) (project : ℕ) (sec : Section) (id : ℕ) (d : Db)
    → All Q (other_ids project sec id d)
    → All (λ s. Q s.id) (other_stories project sec id d.stories)
unfolding section_positions
others-stories Q project sec id d h =
    let states = ordered_states sec in
    let mine = λ (r : PositionRow). not (row_id_is id r) in
    let rows = section_positions project states d in
    let of_row = λ (r : PositionRow). mine r ≡ true → Q r.id in
    let on_rows : All of_row rows =
      All-unselect (λ r. Q r.id) mine rows
        (All-unmap Q (λ (r : PositionRow). r.id) (others id rows) h) in
    let on_stories =
      All-unselect (λ s. of_row (position_row s)) (in_scope project states) d.stories
        (All-unmap of_row position_row (select (in_scope project states) d.stories) (
          All-unsort of_row position_le
            (map position_row (select (in_scope project states) d.stories)) on_rows)) in
    selected d.stories on_stories
  where
    selected :
        (ss : List StoryRow)
        → All
            (λ s.
              in_scope project (ordered_states sec) s ≡ true → not (has_id id s) ≡ true → Q s.id)
            ss
        → All (λ s. Q s.id) (other_stories project sec id ss)
    selected [] k = tt
    selected (s ∷ ss) k = elim (Bool-cases (in_scope project (ordered_states sec) s)) [
      | inl there ↦ elim (Bool-cases (not (has_id id s))) [
        | inl other ↦ rw (there, other) (k.0 there other, selected ss k.1)
        | inr same ↦ rw (there, same) (selected ss k.1)
      ]
      | inr away ↦ rw away (selected ss k.1)
    ]

slot-bottom : (rows : List PositionRow) (d : Db) → slot rows bottom d ≡ (ok (length rows), d)
unfolding slot
slot-bottom rows d = refl

-- At the bottom, `place` gives a position after every other story of the section.
pub place-bottom :
    (project : ℕ) (sec : Section) (id : ℕ) (d : Db)
    → UniqueIds d
    → InRange d
    → IsSmall d
    → Hoare
        (λ e. e ≡ d)
        (place project sec id bottom)
        (λ placed e.
          All (λ s. Below e.stories placed.0 s.id) (other_stories project sec id d.stories))
place-bottom project sec id d unique range small =
    let rows = others id (section_positions project (ordered_states sec) d) in
    let (p, moved, d', ran, slotted, asked) =
      place-Slotted project sec id bottom d (length rows) unique range small (slot-bottom rows d) in
    let count : length rows ≡ length slotted.rows =
      asked
      ∙ ap length (sym slotted.same_ids)
      ∙ length-map (λ (r : PositionRow). r.id) slotted.rows in
    let before =
      All-take_all (λ r. r.position <ℤ p) slotted.rows (length rows) count slotted.before in
    let below : All (λ r. Below d'.stories p r.id) slotted.rows =
      All-both slotted.rows (λ r at lt. row-Below d' p r at lt) slotted.section.agrees before in
    let on_ids : All (Below d'.stories p) (other_ids project sec id d) =
      subst (All (Below d'.stories p)) slotted.same_ids
        (All-map (Below d'.stories p) (λ (r : PositionRow). r.id) slotted.rows below) in
    let post = λ (placed : ℤ × Bool) (e : Db).
      All (λ s. Below e.stories placed.0 s.id) (other_stories project sec id d.stories) in
    record {
      at = λ e same.
          subst (λ x. OkPost post (place project sec id bottom x)) (sym same)
            (subst (OkPost post) (sym ran)
              (others-stories (Below d'.stories p) project sec id d on_ids));
    }
