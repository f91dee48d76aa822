-- ===== src/Db/Ids.antt =====
-- Tables whose rows have distinct ids, and what a lookup by id finds in them.
use mathlib.Core.Option
use trackstar.Common.{
  All, All-map, All-select, Bool, Bool-cases, List, [], arith, false, first, if◌then◌else◌, inl,
  inr, map, modify, select, some, ℕ, ◌==◌, ◌∷◌, ◌≡◌,
}
use trackstar.Db.Order.{Ascending}
use trackstar.Db.Rows.{Db, StoryRow}
use trackstar.Db.Stories.{has_id}

-- No two stories share an id (the primary key of the table).
abbrev pub DifferentIds : StoryRow → StoryRow → Type 0
DifferentIds a b = (a.id == b.id) ≡ false

abbrev pub UniqueIds : Db → Type 0
UniqueIds d = Ascending DifferentIds d.stories

pub DifferentIds-symm : (a b : StoryRow) → DifferentIds a b → DifferentIds b a
DifferentIds-symm a b h = ground arith

found_rest :
    (x : StoryRow) (rest all : List StoryRow)
    → All (DifferentIds x) rest
    → All (λ s. first (has_id s.id) all ≡ some s) rest
    → All (λ s. first (has_id s.id) (x ∷ all) ≡ some s) rest
found_rest x [] all h k = tt
found_rest x (y ∷ ys) all h k = (ground arith, found_rest x ys all h.1 k.1)

-- Every story is found under its id.
pub found_by_id :
    (xs : List StoryRow) → Ascending DifferentIds xs → All (λ s. first (has_id s.id) xs ≡ some s) xs
found_by_id [] h = tt
found_by_id (x ∷ xs) h = (ground arith, found_rest x xs xs h.0 (found_by_id xs h.1))

module _ {ℓ κ} {A : Type ℓ} (R : A → A → Type κ) where
  pub Ascending-select : (p : A → Bool) (xs : List A) → Ascending R xs → Ascending R (select p xs)
  Ascending-select p [] h = tt
  Ascending-select p (x ∷ xs) h = elim (Bool-cases (p x)) [
    | inl e ↦ rw e (All-select (R x) p xs h.0, Ascending-select p xs h.1)
    | inr e ↦ rw e (Ascending-select p xs h.1)
  ]

module _ {ℓ κ μ} {A : Type ℓ} {B : Type κ} (R : B → B → Type μ) where
  pub Ascending-map :
      (f : A → B) (xs : List A) → Ascending (λ a b. R (f a) (f b)) xs → Ascending R (map f xs)
  Ascending-map f [] h = tt
  Ascending-map f (x ∷ xs) h = (All-map (R (f x)) f xs h.0, Ascending-map f xs h.1)

-- Rewriting rows without touching their ids keeps the ids distinct.
module _ (p : StoryRow → Bool) (f : StoryRow → StoryRow)
    (same : (s : StoryRow) → (f s).id ≡ s.id) where
  All-different-modify :
      (x : StoryRow) (xs : List StoryRow)
      → All (DifferentIds x) xs
      → (y : StoryRow) → y.id ≡ x.id
      → All (DifferentIds y) (modify p f xs)
  All-different-modify x [] h y e = tt
  All-different-modify x (z ∷ zs) h y e =
      (ground (arith, same z), All-different-modify x zs h.1 y e)

  pub DifferentIds-modify :
      (xs : List StoryRow) → Ascending DifferentIds xs → Ascending DifferentIds (modify p f xs)
  DifferentIds-modify [] h = tt
  DifferentIds-modify (x ∷ xs) h = (
    All-different-modify x xs h.0 (if p x then f x else x) (ground (arith, same x)),
    DifferentIds-modify xs h.1,
  )

-- A lookup by id after rows with another id were rewritten, or the row itself.
pub first-modify :
    (id id' : ℕ) (f : StoryRow → StoryRow) (xs : List StoryRow)
    → ((s : StoryRow) → (f s).id ≡ s.id)
    → first (has_id id) (modify (has_id id') f xs)
      ≡ (if id == id' then Option.map f (first (has_id id) xs) else first (has_id id) xs)
first-modify id id' f [] same = ground arith
first-modify id id' f (x ∷ xs) same = ground (arith, same x, first-modify id id' f xs same)
