-- ===== src/Story/Place/Renumber.antt =====
-- The rebalance: what `renumber` returns and does to the database.
use trackstar.Common.{All, All-both, List, [], arith, refl, ℕ, ◌∷◌, ◌≡◌}
use trackstar.Common.Int.{ℤ}
use trackstar.Db.Ids.{first-modify}
use trackstar.Db.Order.{Ascending}
use trackstar.Db.Rows.{Db}
use trackstar.Db.Stories.{PositionRow, has_id, set_story_position, update_stories}
use trackstar.Db.Tx.{ok}
use trackstar.Story.Place.{renumber}
use trackstar.Story.Place.Rows.{Agrees, DifferentRows, DifferentRows-symm}

-- The rows with their new positions.
abbrev pub renumbered : List PositionRow → List ℤ → List PositionRow
renumbered [] ps = []
renumbered (r ∷ rows) [] = r ∷ rows
renumbered (r ∷ rows) (p ∷ ps) = record r { position = p } ∷ renumbered rows ps

abbrev set_position : ℕ → ℤ → Db → Db
set_position id p = update_stories (has_id id) (λ s. record s { position = p })

-- The database after the loop.
abbrev pub rewritten : List PositionRow → List ℤ → Db → Db
rewritten [] ps d = d
rewritten (r ∷ rows) [] d = d
rewritten (r ∷ rows) (p ∷ ps) d = rewritten rows ps (set_position r.id p d)

pub renumber-eq :
    (rows : List PositionRow) (ps : List ℤ) (d : Db)
    → renumber rows ps d ≡ (ok (renumbered rows ps), rewritten rows ps d)
unfolding renumber set_story_position
renumber-eq [] ps d = refl
renumber-eq (r ∷ rows) [] d = refl
renumber-eq (r ∷ rows) (p ∷ ps) d = ground (arith, renumber-eq rows ps (set_position r.id p d))

Agrees-set_self :
    (r : PositionRow) (p : ℤ) (d : Db)
    → Agrees d r
    → Agrees (set_position r.id p d) (record r { position = p })
Agrees-set_self r p d a =
    ground (arith, first-modify r.id r.id (λ s. record s { position = p }) d.stories (λ s. refl))

Agrees-set_other :
    (x r : PositionRow) (p : ℤ) (d : Db)
    → DifferentRows r x
    → Agrees d x
    → Agrees (set_position r.id p d) x
Agrees-set_other x r p d h a =
    ground (arith, first-modify x.id r.id (λ s. record s { position = p }) d.stories (λ s. refl))

-- A row with another id keeps its position in the database.
Agrees-rewritten_other :
    (r : PositionRow) (rows : List PositionRow) (ps : List ℤ) (d : Db)
    → All (DifferentRows r) rows
    → Agrees d r
    → Agrees (rewritten rows ps d) r
Agrees-rewritten_other r [] ps d h a = a
Agrees-rewritten_other r (x ∷ rows) [] d h a = a
Agrees-rewritten_other r (x ∷ rows) (p ∷ ps) d h a =
    Agrees-rewritten_other r rows ps (set_position x.id p d) h.1
      (Agrees-set_other r x p d (DifferentRows-symm r x h.0) a)

-- The new positions are those that the database then holds.
pub Agrees-rewritten :
    (rows : List PositionRow) (ps : List ℤ) (d : Db)
    → Ascending DifferentRows rows
    → All (Agrees d) rows
    → All (Agrees (rewritten rows ps d)) (renumbered rows ps)
Agrees-rewritten [] ps d h a = tt
Agrees-rewritten (r ∷ rows) [] d h a = a
Agrees-rewritten (r ∷ rows) (p ∷ ps) d h a = (
  Agrees-rewritten_other (record r { position = p }) rows ps (set_position r.id p d) h.0
      (Agrees-set_self r p d a.0),
  Agrees-rewritten rows ps (set_position r.id p d) h.1
      (All-both rows (λ x differs old. Agrees-set_other x r p d differs old) h.0 a.1),
)
