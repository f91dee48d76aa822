-- ===== src/Story/Place/Lands.antt =====
-- `place` of internal/story/story.go as a whole: the slot, the position and the rebalance.
use mathlib.Core.Option
use native.Mathlib.Decide.{dec_lt}
use trackstar.Common.{
  All, All-imp, Bool, List, Option, Option-cases, [], ap, arith, false, get_elem?, inl, inr, length,
  none, refl, some, subst, suc, true, zero, ℕ, ◌*◌, ◌+◌, ◌<◌, ◌==◌, ◌^◌, ◌∙◌, ◌∷◌, ◌≡◌, ◌≤◌,
}
use trackstar.Common.Int.{Within, int64, int64_id, int_laws, pos, ℤ, ◌≤ℤ◌}
use trackstar.Db.Order.{Ascending}
use trackstar.Db.Rows.{Db}
use trackstar.Db.Stories.{PositionRow}
use trackstar.Db.Tx.{ok}
use trackstar.Position.{between, gap, normalize, normalize_from}
use trackstar.Position.Between.{between-eq-none}
use trackstar.Story.Place.{next_of, place_at, prev_of}
use trackstar.Story.Place.Renumber.{Agrees-rewritten, renumber-eq, renumbered, rewritten}
use trackstar.Story.Place.Rows.{DifferentRows, IsSection, PositionLe}
use trackstar.Story.Place.Slots.{Slotted, between-Slotted, row_ids}

-- The section is small enough for the rebalanced positions to stay in range.
abbrev pub IsSmall : Db → Type 0
IsSmall d = length d.stories ≤ 2 ^ 44

step_value : (k : ℕ) → k ≤ 2 ^ 44 → int64 (pos (k * gap)) ≡ pos (k * gap)
step_value k h = int64_id (pos (k * gap)) (omega arith)

-- Rows that were renumbered from `k` on: above `k` gaps, in range, in order and a gap apart.
at_least :
    (rows : List PositionRow) (k : ℕ)
    → k + length rows ≤ 2 ^ 44
    → All
        (λ r. (pos ((k + 1) * gap) ≤ℤ r.position) × Within (2 ^ 61) r.position)
        (renumbered rows (normalize_from k (length rows)))
unfolding normalize_from
at_least [] k h = tt
at_least (r ∷ rows) k h = (
  rw (step_value (k + 1) (omega arith)) (omega arith, (omega arith, omega arith)),
  All-imp (renumbered rows (normalize_from (k + 1) (length rows)))
      (λ x q. (omega (arith, q.0), q.1)) (at_least rows (k + 1) (omega arith)),
)

renumbered_ordered :
    (rows : List PositionRow) (k : ℕ)
    → k + length rows ≤ 2 ^ 44
    → Ascending PositionLe (renumbered rows (normalize_from k (length rows)))
unfolding normalize_from
renumbered_ordered [] k h = tt
renumbered_ordered (r ∷ rows) k h = (
  All-imp (renumbered rows (normalize_from (k + 1) (length rows)))
      (λ x q. rw (step_value (k + 1) (omega arith)) (omega (arith, q.0)))
      (at_least rows (k + 1) (omega arith)),
  renumbered_ordered rows (k + 1) (omega arith),
)

renumbered_get :
    (rows : List PositionRow) (k i : ℕ)
    → k + length rows ≤ 2 ^ 44
    → i < length rows
    → Option.map (λ r. r.position) (get_elem? (renumbered rows (normalize_from k (length rows))) i)
      ≡ some (pos ((k + i + 1) * gap))
unfolding normalize_from
renumbered_get [] k i h lt = absurd (omega arith)
renumbered_get (r ∷ rows) k zero h lt =
    rw (step_value (k + 1) (omega arith)) (ap some (ap pos (omega arith)))
renumbered_get (r ∷ rows) k (suc i) h lt =
    renumbered_get rows (k + 1) i (omega arith) (omega arith) ∙ ap some (ap pos (omega arith))

get_elem?-none {ℓ} : {A : Type ℓ} (xs : List A) (i : ℕ) → length xs ≤ i → get_elem? xs i ≡ none
get_elem?-none [] i h = refl
get_elem?-none (x ∷ xs) zero h = absurd (omega arith)
get_elem?-none (x ∷ xs) (suc i) h = get_elem?-none xs i (omega arith)

length-renumbered :
    (rows : List PositionRow) (ps : List ℤ) → length (renumbered rows ps) ≡ length rows
length-renumbered [] ps = refl
length-renumbered (r ∷ rows) [] = refl
length-renumbered (r ∷ rows) (p ∷ ps) = ap suc (length-renumbered rows ps)

room_at_end : (prev : Option ℤ) → (p : ℤ) × (between prev none ≡ some p)
unfolding between
room_at_end none = (_, refl)
room_at_end (some q) = (_, refl)

room_at_top : (q : ℤ) → (p : ℤ) × (between none (some q) ≡ some p)
unfolding between
room_at_top q = (_, refl)

-- There is room between two positions that lie a gap apart.
room_between :
    (m n : ℕ)
    → n ≡ m + gap
    → n ≤ 2 ^ 61
    → (p : ℤ) × (between (some (pos m)) (some (pos n)) ≡ some p)
room_between m n e h = elim (Option-cases (between (some (pos m)) (some (pos n)))) [
  | inl full ↦
      absurd
        (omega (int_laws, (between-eq-none (pos m) (pos n) (omega arith) (omega arith)).0 full))
  | inr found ↦ found
]

-- The two branches of `place_at`.
place_at_room :
    (rows : List PositionRow) (i : ℕ) (p : ℤ) (d : Db)
    → between (prev_of rows i) (next_of rows i) ≡ some p
    → place_at rows i d ≡ (ok (p, false), d)
unfolding place_at
place_at_room rows i p d e = rw (e, place_at)

place_at_full :
    (rows : List PositionRow) (i : ℕ) (p : ℤ) (d : Db)
    → let ps = normalize_from 0 (length rows) in
      between (prev_of rows i) (next_of rows i) ≡ none
      → between (prev_of (renumbered rows ps) i) (next_of (renumbered rows ps) i) ≡ some p
      → place_at rows i d ≡ (ok (p, true), rewritten rows ps d)
unfolding place_at normalize
place_at_full rows i p d e e' =
    rw (e, place_at) (ground (arith, renumber-eq rows (normalize_from 0 (length rows)) d))

pub row_ids-renumbered :
    (rows : List PositionRow) (ps : List ℤ) → row_ids (renumbered rows ps) ≡ row_ids rows
row_ids-renumbered [] ps = refl
row_ids-renumbered (r ∷ rows) [] = refl
row_ids-renumbered (r ∷ rows) (p ∷ ps) = ap (◌∷◌ r.id) (row_ids-renumbered rows ps)

-- A fact about ids alone outlasts the new positions.
All-renumbered :
    (P : ℕ → Type 0) (rows : List PositionRow) (ps : List ℤ)
    → All (λ r. P r.id) rows
    → All (λ r. P r.id) (renumbered rows ps)
All-renumbered P [] ps h = tt
All-renumbered P (r ∷ rows) [] h = h
All-renumbered P (r ∷ rows) (p ∷ ps) h = (h.0, All-renumbered P rows ps h.1)

DifferentRows-renumbered :
    (rows : List PositionRow) (ps : List ℤ)
    → Ascending DifferentRows rows
    → Ascending DifferentRows (renumbered rows ps)
DifferentRows-renumbered [] ps h = tt
DifferentRows-renumbered (r ∷ rows) [] h = h
DifferentRows-renumbered (r ∷ rows) (p ∷ ps) h =
    (All-renumbered (λ id. (r.id == id) ≡ false) rows ps h.0, DifferentRows-renumbered rows ps h.1)

module _ (d : Db) (rows : List PositionRow) (s : IsSection d rows)
    (small : length rows ≤ 2 ^ 44) where
  abbrev new_positions : List ℤ
  new_positions = normalize_from 0 (length rows)

  abbrev new_rows : List PositionRow
  new_rows = renumbered rows new_positions

  renumbered-IsSection : IsSection (rewritten rows new_positions d) new_rows
  renumbered-IsSection = record {
    agrees = Agrees-rewritten rows new_positions d s.distinct s.agrees;
    ordered = renumbered_ordered rows 0 (omega arith);
    distinct = DifferentRows-renumbered rows new_positions s.distinct;
    in_range = All-imp new_rows (λ r q. q.1) (at_least rows 0 (omega arith));
  }

  -- After the rebalance every slot has room.
  room_everywhere :
      (i : ℕ)
      → i ≤ length rows
      → (p : ℤ) × (between (prev_of new_rows i) (next_of new_rows i) ≡ some p)
  room_everywhere i h = elim (dec_lt i (length rows)) [
    | yes lt ↦ rw (renumbered_get rows 0 i (omega arith) lt) (before_some i h)
    | no ge ↦
        rw (get_elem?-none new_rows i (omega (arith, length-renumbered rows new_positions)))
          (room_at_end (prev_of new_rows i))
  ]
    where
      before_some :
          (i : ℕ)
          → i ≤ length rows
          → (p : ℤ) × (between (prev_of new_rows i) (some (pos ((0 + i + 1) * gap))) ≡ some p)
      before_some zero h = room_at_top _
      before_some (suc i) h =
          rw (renumbered_get rows 0 i (omega arith) (omega arith))
            (room_between _ _ (omega arith) (omega arith))

  -- `place_at` succeeds in every slot, and the position that it returns is in the slot.
  pub place_at-Slotted :
      (i : ℕ)
      → i ≤ length rows
      → (p : ℤ) × (moved : Bool) × (d' : Db) × (place_at rows i d ≡ (ok (p, moved), d'))
        × Slotted d' (row_ids rows) i p
  place_at-Slotted i h = elim (Option-cases (between (prev_of rows i) (next_of rows i))) [
    | inr (p, e) ↦ (p, false, d, place_at_room rows i p d e, between-Slotted d rows s i p h e)
    | inl e ↦
        let (p, e') = room_everywhere i h in
        (
          p,
          true,
          rewritten rows new_positions d,
          place_at_full rows i p d e e',
          subst (λ ids. Slotted (rewritten rows new_positions d) ids i p)
              (row_ids-renumbered rows new_positions)
              (between-Slotted _ new_rows renumbered-IsSection i p
                (omega (arith, length-renumbered rows new_positions)) e'),
        )
  ]
