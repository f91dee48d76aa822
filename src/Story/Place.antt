-- ===== src/Story/Place.antt =====
-- `place` of internal/story/story.go: the position of a story inside a section.
pub mod Neighbours
pub mod Rows
pub mod Renumber
pub mod Slots
pub mod Lands
pub mod Order
use mathlib.Core.Option
use trackstar.AppErr.{invalid_err}
use trackstar.Common.{
  Bool, List, Option, [], false, get_elem?, if◌then◌else◌, index_of, length, none, not, select,
  some, suc, true, zero, ℕ, ◌==◌, ◌∷◌,
}
use trackstar.Common.Int.{pos, ℤ}
use trackstar.Db.Stories.{PositionRow, list_section_positions, set_story_position}
use trackstar.Db.Tx.{Tx, or_fail, pure, ◌>>=◌, ◌>>◌}
use trackstar.Position.{between, normalize}
use trackstar.Workflow.{Section, ordered_states}

-- `placement`
pub record Placement : Type 0 where
  pub prev_id : Option ℕ
  pub next_id : Option ℕ
  pub bottom : Bool

abbrev pub row_id_is : ℕ → PositionRow → Bool
row_id_is id r = r.id == id

-- The index in `rows` at which the story is to stand.
unfoldable pub slot : List PositionRow → Placement → Tx ℕ
slot rows w = elim w.prev_id [
  | some prev ↦
      or_fail (invalid_err "prev_id %d is not in the %s section")
        (Option.map suc (index_of (row_id_is prev) rows))
  | none ↦ elim w.next_id [
    | some next ↦
        or_fail (invalid_err "next_id %d is not in the %s section") (index_of (row_id_is next) rows)
    | none ↦ pure (if w.bottom then length rows else 0)
  ]
]

-- `neighbours`
abbrev pub prev_of : List PositionRow → ℕ → Option ℤ
prev_of rows zero = none
prev_of rows (suc i) = Option.map (λ r. r.position) (get_elem? rows i)

abbrev pub next_of : List PositionRow → ℕ → Option ℤ
next_of rows i = Option.map (λ r. r.position) (get_elem? rows i)

-- The loop over the new positions.
unfoldable pub renumber : List PositionRow → List ℤ → Tx (List PositionRow)
renumber [] ps = pure []
renumber (r ∷ rows) [] = pure (r ∷ rows)
renumber (r ∷ rows) (p ∷ ps) = do
  set_story_position r.id p
  rest ← renumber rows ps
  pure (record r { position = p } ∷ rest)

-- Between the neighbours, or else in the same slot of the rebalanced section. There the source
-- drops `ok` and uses the position that comes with it, which is 0 where there is no room.
unfoldable pub place_at : List PositionRow → ℕ → Tx (ℤ × Bool)
unfolding renumber
place_at rows index = elim (between (prev_of rows index) (next_of rows index)) [
  | some p ↦ pure (p, false)
  | none ↦ do
    rows' ← renumber rows (normalize (length rows))
    pure (Option.get_or (between (prev_of rows' index) (next_of rows' index)) (pos 0), true)
]

-- The section without the story that moves.
abbrev pub others : ℕ → List PositionRow → List PositionRow
others moving = select λ r. not (row_id_is moving r)

unfoldable pub place : ℕ → Section → ℕ → Placement → Tx (ℤ × Bool)
unfolding slot place_at
place project sec moving w = do
  section ← list_section_positions project (ordered_states sec)
  let rows = others moving section
  index ← slot rows w
  place_at rows index
