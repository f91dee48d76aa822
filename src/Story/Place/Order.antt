-- ===== src/Story/Place/Order.antt =====
-- `place` of internal/story/story.go, as its callers see it.
use trackstar.Common.{
  Bool, List, Option, Option-cases, [], ap, arith, get_elem?, if◌then◌else◌, index_of, inl, inr,
  length, length-map, length-select-le, map, none, not, refl, select, some, suc, sym, zero, ℕ, ◌<◌,
  ◌∙◌, ◌∷◌, ◌≡◌, ◌≤◌,
}
use trackstar.Common.Int.{ℤ}
use trackstar.Db.Ids.{UniqueIds}
use trackstar.Db.Order.{length-sort_by}
use trackstar.Db.Rows.{Db}
use trackstar.Db.Stories.{PositionRow, in_scope, position_le, position_row, section_positions}
use trackstar.Db.Tx.{ok}
use trackstar.Story.Place.{Placement, others, place, place_at, row_id_is, slot}
use trackstar.Story.Place.Lands.{IsSmall, place_at-Slotted}
use trackstar.Story.Place.Rows.{InRange, IsSection-select, section_positions-IsSection}
use trackstar.Story.Place.Slots.{Slotted, row_ids}
use trackstar.Workflow.{Section, State, ordered_states}

index_of-lt {ℓ} :
    {A : Type ℓ} (p : A → Bool) (xs : List A) (i : ℕ) → index_of p xs ≡ some i → i < length xs
index_of-lt p [] i e = cc
index_of-lt p (x ∷ xs) i e = elim (Option-cases (index_of p xs)) [
  | inl missing ↦ ground (arith, missing)
  | inr (j, found) ↦ ground (arith, found, index_of-lt p xs j found)
]

index_of-id :
    (id : ℕ) (rows : List PositionRow) (i : ℕ)
    → index_of (row_id_is id) rows ≡ some i
    → get_elem? (row_ids rows) i ≡ some id
index_of-id id [] i e = cc
index_of-id id (r ∷ rows) zero e = elim (Option-cases (index_of (row_id_is id) rows)) [
  | inl missing ↦ ground (arith, missing)
  | inr (j, found) ↦ ground (arith, found)
]
index_of-id id (r ∷ rows) (suc i) e = elim (Option-cases (index_of (row_id_is id) rows)) [
  | inl missing ↦ absurd (ground (arith, missing))
  | inr (j, found) ↦ index_of-id id rows i (ground (arith, found))
]

length-row_ids : (rows : List PositionRow) → length (row_ids rows) ≡ length rows
length-row_ids [] = refl
length-row_ids (r ∷ rows) = ap suc (length-row_ids rows)

-- The slot that a placement asks for among the other stories `ids` of the section.
abbrev pub Asked : Option ℕ → Option ℕ → Bool → List ℕ → ℕ → Type 0
Asked (some prev) w b ids i = (j : ℕ) × (i ≡ suc j) × (get_elem? ids j ≡ some prev)
Asked none (some follower) b ids i = get_elem? ids i ≡ some follower
Asked none none b ids i = i ≡ (if b then length ids else 0)

slot_cases :
    (rows : List PositionRow) (prev follower : Option ℕ) (b : Bool) (d : Db) (i : ℕ)
    → slot rows (record { prev_id = prev; next_id = follower; bottom = b }) d ≡ (ok i, d)
    → (i ≤ length rows) × Asked prev follower b (row_ids rows) i
unfolding slot
slot_cases rows (some prev) follower b d i e =
    elim (Option-cases (index_of (row_id_is prev) rows)) [
      | inl missing ↦ absurd (ground (arith, missing))
      | inr (j, found) ↦
          let at : suc j ≡ i = ground (arith, found) in
          (
            omega (arith, index_of-lt (row_id_is prev) rows j found),
            (j, sym at, index_of-id prev rows j found),
          )
    ]
slot_cases rows none (some follower) b d i e =
    elim (Option-cases (index_of (row_id_is follower) rows)) [
      | inl missing ↦ absurd (ground (arith, missing))
      | inr (j, found) ↦
          let at : j ≡ i = ground (arith, found) in
          rw (← at) (
            omega (arith, index_of-lt (row_id_is follower) rows j found),
            index_of-id follower rows j found,
          )
    ]
slot_cases rows none none b d i e = (ground arith, ground (arith, length-row_ids rows))

-- The other stories of a section, in order.
abbrev pub other_ids : ℕ → Section → ℕ → Db → List ℕ
other_ids project sec moving d =
    row_ids (others moving (section_positions project (ordered_states sec) d))

length-section_positions :
    (project : ℕ) (states : List State) (d : Db)
    → length (section_positions project states d) ≤ length d.stories
unfolding section_positions
length-section_positions project states d = omega (
  arith,
  length-sort_by position_le (map position_row (select (in_scope project states) d.stories)),
  length-map position_row (select (in_scope project states) d.stories),
  length-select-le (in_scope project states) d.stories,
)

place_runs :
    (project : ℕ) (sec : Section) (moving : ℕ) (w : Placement) (d : Db) (i : ℕ)
    → slot (others moving (section_positions project (ordered_states sec) d)) w d ≡ (ok i, d)
    → place project sec moving w d
      ≡ place_at (others moving (section_positions project (ordered_states sec) d)) i d
unfolding place
place_runs project sec moving w d i e = ground (arith, e)

-- Whenever the placement names a slot of the section (a neighbour in it, the top or the bottom),
-- `place` succeeds, and in the database that it leaves the other stories of the section stand in
-- the order that they had, with those before the slot below the new position and those after it
-- above. It holds with and without a rebalance, for positions within 2 ^ 61 of zero and up to 2 ^ 44
-- stories.
pub place-Slotted :
    (project : ℕ) (sec : Section) (moving : ℕ) (w : Placement) (d : Db) (i : ℕ)
    → UniqueIds d
    → InRange d
    → IsSmall d
    → slot (others moving (section_positions project (ordered_states sec) d)) w d ≡ (ok i, d)
    → (p : ℤ) × (moved : Bool) × (d' : Db) × (place project sec moving w d ≡ (ok (p, moved), d'))
      × Slotted d' (other_ids project sec moving d) i p
      × Asked w.prev_id w.next_id w.bottom (other_ids project sec moving d) i
place-Slotted project sec moving w d i unique range small e =
    let states = ordered_states sec in
    let rows = others moving (section_positions project states d) in
    let cases = slot_cases rows w.prev_id w.next_id w.bottom d i e in
    let is_section =
      IsSection-select (λ r. not (row_id_is moving r))
        (section_positions-IsSection project states d unique range) in
    let (p, moved, d', ran, slotted) =
      place_at-Slotted d rows is_section
        (omega (
          arith,
          length-section_positions project states d,
          length-select-le (λ r. not (row_id_is moving r)) (section_positions project states d),
        ))
        i cases.0 in
    (p, moved, d', place_runs project sec moving w d i e ∙ ran, slotted, cases.1)
