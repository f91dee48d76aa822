-- ===== src/Story/Place/Neighbours.antt =====
-- What the neighbours of a slot in an ordered list say of all rows before and after the slot.
use trackstar.Common.{
  All, All-get, List, [], drop, get_elem?, some, some_inj, subst, suc, take, zero, ℕ, ◌∷◌, ◌≡◌,
}
use trackstar.Db.Order.{Ascending}

-- Every row before index `i` stands in relation to the row at `i`, and that row to all after it.
module _ {ℓ κ} {A : Type ℓ} (R : A → A → Type κ) (reflexive : (a : A) → R a a) where
  pub take_related :
      (xs : List A) (i : ℕ) {x : A}
      → Ascending R xs
      → get_elem? xs i ≡ some x
      → All (λ y. R y x) (take (suc i) xs)
  take_related [] i h e = cc
  take_related (y ∷ ys) zero h e = (subst (R y) (some_inj e) (reflexive y), tt)
  take_related (y ∷ ys) (suc i) h e = (All-get (R y) ys i h.0 e, take_related ys i h.1 e)

  pub drop_related :
      (xs : List A) (i : ℕ) {x : A}
      → Ascending R xs
      → get_elem? xs i ≡ some x
      → All (R x) (drop i xs)
  drop_related [] i h e = cc
  drop_related (y ∷ ys) zero {x} h e =
      subst (λ z. All (R z) (y ∷ ys)) (some_inj e) (reflexive y, h.0)
  drop_related (y ∷ ys) (suc i) h e = drop_related ys i h.1 e
