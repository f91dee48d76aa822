-- ===== src/Position/Between.antt =====
-- The positions that `between` returns.
use trackstar.Common.{Option, arith, none, some, ℕ, ◌+◌, ◌/◌, ◌^◌, ◌↔◌, ◌≡◌}
use trackstar.Common.Int.{
  +ℤ_parts, -ℤ_parts, Within, half, half_parts, int64, int64_id, int_laws, neg_part, parts_disjoint,
  pos, pos_part, ℤ, ◌+ℤ◌, ◌-ℤ◌, ◌<ℤ◌, ◌≤ℤ◌,
}
use trackstar.Position.{between, gap}

-- A neighbour on either side bounds the position, strictly.
abbrev pub After : Option ℤ → ℤ → Type 0
After none p = Unit
After (some prev) p = prev <ℤ p

abbrev pub Before : ℤ → Option ℤ → Type 0
Before p none = Unit
Before p (some next) = p <ℤ next

abbrev pub WithinOpt : ℕ → Option ℤ → Type 0
WithinOpt b none = Unit
WithinOpt b (some p) = Within b p

-- The midpoint of two neighbours that lie two or more apart.
midpoint_fits :
    (prev next : ℤ)
    → Within (2 ^ 61) prev
    → Within (2 ^ 61) next
    → pos 2 ≤ℤ next -ℤ prev
    → let p = int64 (prev +ℤ half (next -ℤ prev)) in
      (prev <ℤ p) × (p <ℤ next) × Within (2 ^ 61 + gap) p
midpoint_fits prev next hp hn far =
    let room = next -ℤ prev in
    let h : (pos_part (half room) ≡ pos_part room / 2) × (neg_part (half room) ≡ 0) =
      half_parts room (omega (arith, parts_disjoint room)) in
    rw
      (int64_id (prev +ℤ half room)
        (omega (int_laws, h, parts_disjoint room, parts_disjoint (prev +ℤ half room))))
      (omega (int_laws, h, parts_disjoint room, parts_disjoint (prev +ℤ half room)))

-- Strictly between the neighbours, for all positions less than 2 ^ 61 away from zero; and the new
-- position is farther out than its neighbours by the gap at most.
pub between-fits :
    (prev next : Option ℤ) (p : ℤ)
    → WithinOpt (2 ^ 61) prev
    → WithinOpt (2 ^ 61) next
    → between prev next ≡ some p
    → After prev p × Before p next × Within (2 ^ 61 + gap) p
unfolding between
between-fits none none p hp hn e = ground arith
between-fits none (some next) p hp hn e =
    ground
      (arith, int64_id (next -ℤ pos gap), -ℤ_parts next (pos gap), parts_disjoint (next -ℤ pos gap))
between-fits (some prev) none p hp hn e =
    ground
      (arith, int64_id (prev +ℤ pos gap), +ℤ_parts prev (pos gap), parts_disjoint (prev +ℤ pos gap))
between-fits (some prev) (some next) p hp hn e = ground (
  arith,
  int64_id (next -ℤ prev),
  -ℤ_parts next prev,
  parts_disjoint (next -ℤ prev),
  midpoint_fits prev next hp hn,
)

-- With the neighbours in range, there is no room exactly when they are less than two apart.
pub between-eq-none :
    (prev next : ℤ)
    → Within (2 ^ 61) prev
    → Within (2 ^ 61) next
    → (between (some prev) (some next) ≡ none) ↔ (next <ℤ prev +ℤ pos 2)
unfolding between
between-eq-none prev next hp hn = ground (
  arith,
  int64_id (next -ℤ prev),
  -ℤ_parts next prev,
  +ℤ_parts prev (pos 2),
  parts_disjoint (next -ℤ prev),
  parts_disjoint (prev +ℤ pos 2),
)
