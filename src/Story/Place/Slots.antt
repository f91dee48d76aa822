-- ===== src/Story/Place/Slots.antt =====
-- The slot that `place` of internal/story/story.go is asked for, and positions in it.
use trackstar.Common.{
  All, All-get, All-imp, List, Option-cases, [], arith, drop, get_elem?, inl, inr, length, map,
  none, refl, some, suc, take, zero, ℕ, ◌<◌, ◌^◌, ◌∷◌, ◌≡◌, ◌≤◌,
}
use trackstar.Common.Int.{Within, ℤ, ◌<ℤ◌}
use trackstar.Db.Rows.{Db}
use trackstar.Db.Stories.{PositionRow}
use trackstar.Position.{between}
use trackstar.Position.Between.{After, Before, WithinOpt, between-fits}
use trackstar.Story.Place.{next_of, prev_of}
use trackstar.Story.Place.Neighbours.{drop_related, take_related}
use trackstar.Story.Place.Rows.{IsSection, PositionLe}

abbrev pub row_ids : List PositionRow → List ℕ
row_ids rows = map (λ r. r.id) rows

-- The stories `ids` of a section, in this order, and a position `p` in the slot `index` of it.
pub record Slotted (d : Db) (ids : List ℕ) (index : ℕ) (p : ℤ) : Type 0 where
  pub rows : List PositionRow
  pub same_ids : row_ids rows ≡ ids
  pub section : IsSection d rows
  pub before : All (λ r. r.position <ℤ p) (take index rows)
  pub after : All (λ r. p <ℤ r.position) (drop index rows)

drop_all {ℓ} : {A : Type ℓ} (xs : List A) (i : ℕ) → get_elem? xs i ≡ none → drop i xs ≡ []
drop_all [] zero e = refl
drop_all [] (suc i) e = refl
drop_all (x ∷ xs) zero e = cc
drop_all (x ∷ xs) (suc i) e = drop_all xs i e

get_elem?-some {ℓ} :
    {A : Type ℓ} (xs : List A) (i : ℕ) → i < length xs → (x : A) × (get_elem? xs i ≡ some x)
get_elem?-some [] i h = absurd (omega arith)
get_elem?-some (x ∷ xs) zero h = (x, refl)
get_elem?-some (x ∷ xs) (suc i) h = get_elem?-some xs i (omega arith)

PositionLe-refl : (a : PositionRow) → PositionLe a a
PositionLe-refl a = omega arith

module _ (d : Db) (rows : List PositionRow) (s : IsSection d rows) where
  next_in_range : (i : ℕ) → WithinOpt (2 ^ 61) (next_of rows i)
  next_in_range i = elim (Option-cases (get_elem? rows i)) [
    | inl e ↦ rw e tt
    | inr (x, e) ↦ rw e (All-get (λ r. Within (2 ^ 61) r.position) rows i s.in_range e)
  ]

  prev_in_range : (i : ℕ) → WithinOpt (2 ^ 61) (prev_of rows i)
  prev_in_range zero = tt
  prev_in_range (suc i) = next_in_range i

  fits_before :
      (i : ℕ) (p : ℤ)
      → i ≤ length rows
      → After (prev_of rows i) p
      → All (λ r. r.position <ℤ p) (take i rows)
  fits_before zero p h a = tt
  fits_before (suc i) p h a =
      let (x, e) = get_elem?-some rows i h in
      All-imp (take (suc i) rows) (λ r le. lt_of_neighbour r x p le (rw e at a))
        (take_related PositionLe PositionLe-refl rows i s.ordered e)
    where
      lt_of_neighbour :
          (r x : PositionRow) (p : ℤ) → PositionLe r x → x.position <ℤ p → r.position <ℤ p
      lt_of_neighbour r x p le lt = omega arith

  fits_after :
      (i : ℕ) (p : ℤ) → Before p (next_of rows i) → All (λ r. p <ℤ r.position) (drop i rows)
  fits_after i p b = elim (Option-cases (get_elem? rows i)) [
    | inl e ↦ rw (drop_all rows i e) tt
    | inr (x, e) ↦
        All-imp (drop i rows) (λ r le. gt_of_neighbour r x p le (rw e at b))
          (drop_related PositionLe PositionLe-refl rows i s.ordered e)
  ]
    where
      gt_of_neighbour :
          (r x : PositionRow) (p : ℤ) → PositionLe x r → p <ℤ x.position → p <ℤ r.position
      gt_of_neighbour r x p le lt = omega arith

  -- A position between the neighbours of a slot is in the slot.
  pub between-Slotted :
      (i : ℕ) (p : ℤ)
      → i ≤ length rows
      → between (prev_of rows i) (next_of rows i) ≡ some p
      → Slotted d (row_ids rows) i p
  between-Slotted i p h e =
      let fit =
        between-fits (prev_of rows i) (next_of rows i) p (prev_in_range i) (next_in_range i) e in
      record {
        rows = rows;
        same_ids = refl;
        section = s;
        before = fits_before i p h fit.0;
        after = fits_after i p fit.1;
      }
