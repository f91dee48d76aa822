-- ===== src/Db/Order.antt =====
-- ORDER BY: a sort by a Boolean order. SQL fixes the result where the order is total on the rows,
-- as every ORDER BY of db/queries that ends in an id is.
use trackstar.Common.{
  All, Bool, Bool-cases, List, [], arith, false, if◌then◌else◌, inl, inr, length, refl, suc, true,
  ◌∷◌, ◌≡◌,
}

module _ {ℓ} {A : Type ℓ} where
  unfoldable pub insert_by : (A → A → Bool) → A → List A → List A
  insert_by le x [] = x ∷ []
  insert_by le x (y ∷ ys) = if le x y then x ∷ y ∷ ys else y ∷ insert_by le x ys

  unfoldable pub sort_by : (A → A → Bool) → List A → List A
  unfolding insert_by
  sort_by le [] = []
  sort_by le (x ∷ xs) = insert_by le x (sort_by le xs)

  -- Every item stands in relation to all that follow it.
  abbrev pub Ascending {κ} : (A → A → Type κ) → List A → Type κ
  Ascending R [] = Unit
  Ascending R (x ∷ xs) = All (R x) xs × Ascending R xs

  All-insert_by {κ} :
      (P : A → Type κ) (le : A → A → Bool) (x : A) (ys : List A)
      → P x
      → All P ys
      → All P (insert_by le x ys)
  unfolding insert_by
  All-insert_by P le x [] h hs = (h, tt)
  All-insert_by P le x (y ∷ ys) h hs = ground (arith, All-insert_by P le x ys h hs.1)

  -- What holds of all rows holds of all sorted rows.
  pub All-sort_by {κ} :
      (P : A → Type κ) (le : A → A → Bool) (xs : List A) → All P xs → All P (sort_by le xs)
  unfolding sort_by
  All-sort_by P le [] h = tt
  All-sort_by P le (x ∷ xs) h = All-insert_by P le x (sort_by le xs) h.0 (All-sort_by P le xs h.1)

  All-uninsert {κ} :
      (P : A → Type κ) (le : A → A → Bool) (x : A) (ys : List A)
      → All P (insert_by le x ys)
      → P x × All P ys
  unfolding insert_by
  All-uninsert P le x [] h = h
  All-uninsert P le x (y ∷ ys) h = elim (Bool-cases (le x y)) [
    | inl e ↦ ground (arith, e, h)
    | inr e ↦
        let rest : P y × All P (insert_by le x ys) = ground (arith, e, h) in
        let (hx, hys) = All-uninsert P le x ys rest.1 in (hx, (rest.0, hys))
  ]

  -- What holds of all sorted rows holds of all rows.
  pub All-unsort {κ} :
      (P : A → Type κ) (le : A → A → Bool) (xs : List A) → All P (sort_by le xs) → All P xs
  unfolding sort_by
  All-unsort P le [] h = tt
  All-unsort P le (x ∷ xs) h =
      let (hx, hxs) = All-uninsert P le x (sort_by le xs) h in (hx, All-unsort P le xs hxs)

  length-insert_by :
      (le : A → A → Bool) (x : A) (ys : List A) → length (insert_by le x ys) ≡ suc (length ys)
  unfolding insert_by
  length-insert_by le x [] = refl
  length-insert_by le x (y ∷ ys) = ground (arith, length-insert_by le x ys)

  pub length-sort_by : (le : A → A → Bool) (xs : List A) → length (sort_by le xs) ≡ length xs
  unfolding sort_by
  length-sort_by le [] = refl
  length-sort_by le (x ∷ xs) =
      omega (arith, length-insert_by le x (sort_by le xs), length-sort_by le xs)

-- A symmetric relation between any two rows, such as having distinct ids, outlasts the sort.
module _ {ℓ κ} {A : Type ℓ} (R : A → A → Type κ) (symmetric : (a b : A) → R a b → R b a) where
  Ascending-insert_symm :
      (le : A → A → Bool) (x : A) (ys : List A)
      → All (R x) ys
      → Ascending R ys
      → Ascending R (insert_by le x ys)
  unfolding insert_by
  Ascending-insert_symm le x [] h hs = (tt, tt)
  Ascending-insert_symm le x (y ∷ ys) h hs = elim (Bool-cases (le x y)) [
    | inl now ↦ rw now (h, hs)
    | inr later ↦ rw later (
      All-insert_by (R y) le x ys (symmetric x y h.0) hs.0,
      Ascending-insert_symm le x ys h.1 hs.1,
    )
  ]

  pub Ascending-sort_symm :
      (le : A → A → Bool) (xs : List A) → Ascending R xs → Ascending R (sort_by le xs)
  unfolding sort_by
  Ascending-sort_symm le [] h = tt
  Ascending-sort_symm le (x ∷ xs) h =
      Ascending-insert_symm le x (sort_by le xs) (All-sort_by (R x) le xs h.0)
        (Ascending-sort_symm le xs h.1)

module _ {ℓ κ} {A : Type ℓ} (R : A → A → Type κ) (le : A → A → Bool)
    (trans : (a b c : A) → R a b → R b c → R a c) (le_true : (a b : A) → le a b ≡ true → R a b)
    (le_false : (a b : A) → le a b ≡ false → R b a) where
  All-trans : (x y : A) (zs : List A) → R x y → All (R y) zs → All (R x) zs
  All-trans x y [] h hs = tt
  All-trans x y (z ∷ zs) h hs = (trans x y z h hs.0, All-trans x y zs h hs.1)

  Ascending-insert_by : (x : A) (ys : List A) → Ascending R ys → Ascending R (insert_by le x ys)
  unfolding insert_by
  Ascending-insert_by x [] hs = (tt, tt)
  Ascending-insert_by x (y ∷ ys) hs = elim (Bool-cases (le x y)) [
    | inl now ↦ rw now ((le_true x y now, All-trans x y ys (le_true x y now) hs.0), hs)
    | inr later ↦
        rw later
          (All-insert_by (R y) le x ys (le_false x y later) hs.0, Ascending-insert_by x ys hs.1)
  ]

  -- Sorted rows are in order.
  pub Ascending-sort_by : (xs : List A) → Ascending R (sort_by le xs)
  unfolding sort_by
  Ascending-sort_by [] = tt
  Ascending-sort_by (x ∷ xs) = Ascending-insert_by x (sort_by le xs) (Ascending-sort_by xs)
