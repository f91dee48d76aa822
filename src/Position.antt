-- ===== src/Position.antt =====
-- internal/story/position.go: sparse integer positions. All arithmetic is that of int64.
pub mod Between
use trackstar.Common.{List, Option, [], if◌then◌else◌, none, some, suc, zero, ℕ, ◌*◌, ◌+◌, ◌^◌, ◌∷◌}
use trackstar.Common.Int.{half, int64, ltb_ℤ, pos, ℤ, ◌+ℤ◌, ◌-ℤ◌}

-- `Gap`
abbrev pub gap : ℕ
gap = 2 ^ 16

-- The result is `none` where the source returns `ok` false, with a position that no caller reads
-- but after a rebalance (`Story.Place.place`).
unfoldable pub between : Option ℤ → Option ℤ → Option ℤ
between none none = some (pos gap)
between none (some next) = some (int64 (next -ℤ pos gap))
between (some prev) none = some (int64 (prev +ℤ pos gap))
between (some prev) (some next) =
    let room = int64 (next -ℤ prev) in
    if ltb_ℤ room (pos 2) then none else some (int64 (prev +ℤ half room))

unfoldable pub normalize_from : ℕ → ℕ → List ℤ
normalize_from i zero = []
normalize_from i (suc n) = int64 (pos ((i + 1) * gap)) ∷ normalize_from (i + 1) n

-- `Normalize`, whose loop counts `i` up from 0.
unfoldable pub normalize : ℕ → List ℤ
unfolding normalize_from
normalize n = normalize_from 0 n
