-- ===== src/Common/Lookup.antt =====
-- What a lookup in a list of rows finds after some rows were dropped or rewritten.
use mathlib.Core.Path.{◌≡◌, subst, sym}
use mathlib.Core.Logic.{inl, inr}
use mathlib.Core.Bool.{Bool, true}
use mathlib.Core.Option.{some, some-injective}
use mathlib.Core.List.{List, [], ◌∷◌}
use native.Mathlib.Omega.{arith}
use trackstar.Common.Tests.{Bool-cases, if◌then◌else◌}
use trackstar.Common.Lists.{any, first, modify, select}

module _ {ℓ} {A : Type ℓ} where
  pub first-select-kept :
      (q p : A → Bool) (xs : List A) {x : A}
      → first q xs ≡ some x
      → p x ≡ true
      → first q (select p xs) ≡ some x
  first-select-kept q p [] e h = e
  first-select-kept q p (y ∷ ys) {x} e h = elim (Bool-cases (q y)) [
    | inl hit ↦
        let same : y ≡ x = some-injective y x (ground (arith, hit, e)) in
        let passes : p y ≡ true = subst (λ z. p z ≡ true) (sym same) h in
        ground (arith, hit, passes, e)
    | inr miss ↦
        let rest = first-select-kept q p ys (ground (arith, miss, e)) h in
        ground (arith, miss, rest)
  ]

  -- Rewriting rows without changing whether the lookup finds them.
  pub first-modify-kept :
      (q p : A → Bool) (f : A → A) (xs : List A) {x : A}
      → ((y : A) → q (f y) ≡ q y)
      → first q xs ≡ some x
      → first q (modify p f xs) ≡ some (if p x then f x else x)
  first-modify-kept q p f [] same e = absurd (ground (arith, e))
  first-modify-kept q p f (y ∷ ys) {x} same e = elim (Bool-cases (q y)) [
    | inl hit ↦
        let found : y ≡ x = some-injective y x (ground (arith, hit, e)) in
        let there = same y in
        subst (λ z. first q (modify p f (y ∷ ys)) ≡ some (if p z then f z else z)) found
          (ground (arith, hit, there))
    | inr miss ↦
        let later : first q ys ≡ some x = ground (arith, miss, e) in
        let rest = first-modify-kept q p f ys same later in
        let gone = same y in ground (arith, miss, gone, rest)
  ]

  pub first-any : (q : A → Bool) (xs : List A) {x : A} → first q xs ≡ some x → any q xs ≡ true
  first-any q [] {x} e = absurd (ground (arith, e))
  first-any q (y ∷ ys) {x} e = elim (Bool-cases (q y)) [
    | inl hit ↦ ground (arith, hit)
    | inr miss ↦
        let later : first q ys ≡ some x = ground (arith, miss, e) in
        let rest = first-any q ys later in ground (arith, miss, rest)
  ]

  pub first-any-of :
      (q p : A → Bool) (xs : List A) {x : A} → first q xs ≡ some x → p x ≡ true → any p xs ≡ true
  first-any-of q p [] {x} e h = absurd (ground (arith, e))
  first-any-of q p (y ∷ ys) {x} e h = elim (Bool-cases (q y)) [
    | inl hit ↦
        let same : y ≡ x = some-injective y x (ground (arith, hit, e)) in
        let passes : p y ≡ true = subst (λ z. p z ≡ true) (sym same) h in ground (arith, passes)
    | inr miss ↦
        let later : first q ys ≡ some x = ground (arith, miss, e) in
        let rest = first-any-of q p ys later h in ground (arith, rest)
  ]
