-- ===== src/Story/Place/Rows.antt =====
-- The rows of a section, as `place` reads them: in order, of distinct ids, each with the position
-- that the database holds.
use mathlib.Core.Option
use trackstar.Common.{
  All, All-imp, All-map, All-select, Bool, List, arith, false, select, some, true, ℕ, ◌==◌, ◌^◌,
  ◌≡◌,
}
use trackstar.Common.Int.{Within, ◌≤ℤ◌}
use trackstar.Db.Ids.{Ascending-map, Ascending-select, DifferentIds, UniqueIds, found_by_id}
use trackstar.Db.Order.{All-sort_by, Ascending, Ascending-sort_by, Ascending-sort_symm}
use trackstar.Db.Rows.{Db}
use trackstar.Db.Stories.{
  PositionRow, find_story, in_scope, position_le, position_row, section_positions,
}
use trackstar.Workflow.{State}

-- No position is more than 2 ^ 61 away from zero.
abbrev pub InRange : Db → Type 0
InRange d = All (λ s. Within (2 ^ 61) s.position) d.stories

-- A row of the section agrees with the stories table.
abbrev pub Agrees : Db → PositionRow → Type 0
Agrees d r = Option.map (λ s. s.position) (find_story r.id d) ≡ some r.position

abbrev pub PositionLe : PositionRow → PositionRow → Type 0
PositionLe a b = a.position ≤ℤ b.position

abbrev pub DifferentRows : PositionRow → PositionRow → Type 0
DifferentRows a b = (a.id == b.id) ≡ false

-- What `place` may rely on about the rows of a section.
pub record IsSection (d : Db) (rows : List PositionRow) : Type 0 where
  pub agrees : All (Agrees d) rows
  pub ordered : Ascending PositionLe rows
  pub distinct : Ascending DifferentRows rows
  pub in_range : All (λ r. Within (2 ^ 61) r.position) rows

position_le-true : (a b : PositionRow) → position_le a b ≡ true → PositionLe a b
position_le-true a b h = ground arith

position_le-false : (a b : PositionRow) → position_le a b ≡ false → PositionLe b a
position_le-false a b h = ground arith

pub DifferentRows-symm : (a b : PositionRow) → DifferentRows a b → DifferentRows b a
DifferentRows-symm a b h = ground arith

PositionLe-trans : (a b c : PositionRow) → PositionLe a b → PositionLe b c → PositionLe a c
PositionLe-trans a b c h k = omega arith

module _ (project : ℕ) (states : List State) (d : Db) where
  kept_rows :
      (P : PositionRow → Type 0)
      → All (λ s. P (position_row s)) d.stories
      → All P (section_positions project states d)
  unfolding section_positions
  kept_rows P h = All-sort_by P position_le _ (
      All-map P position_row _
        (All-select (λ s. P (position_row s)) (in_scope project states) d.stories h))

  pub section_positions-IsSection :
      UniqueIds d → InRange d → IsSection d (section_positions project states d)
  unfolding section_positions
  section_positions-IsSection unique range = record {
    agrees = kept_rows (Agrees d) (All-imp d.stories (λ s e. rw e) (found_by_id d.stories unique));
    ordered =
        Ascending-sort_by PositionLe position_le PositionLe-trans position_le-true position_le-false
          _;
    distinct = Ascending-sort_symm DifferentRows DifferentRows-symm position_le _ (
        Ascending-map DifferentRows position_row _
          (Ascending-select DifferentIds (in_scope project states) d.stories unique));
    in_range = kept_rows (λ r. Within (2 ^ 61) r.position) range;
  }

-- Leaving rows out keeps all of this.
pub IsSection-select :
    {d : Db} {rows : List PositionRow} (p : PositionRow → Bool)
    → IsSection d rows
    → IsSection d (select p rows)
IsSection-select {d} {rows} p h = record {
  agrees = All-select (Agrees d) p rows h.agrees;
  ordered = Ascending-select PositionLe p rows h.ordered;
  distinct = Ascending-select DifferentRows p rows h.distinct;
  in_range = All-select (λ r. Within (2 ^ 61) r.position) p rows h.in_range;
}
