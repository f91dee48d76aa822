-- ===== src/Project/Slug/Ends.antt =====
-- The loop of `uniqueSlug` of internal/project/project.go ends.
use Prim.Native.String.{len}
use text.Mathlib.Text.{◌==◌ as str_eq}
use text.Mathlib.TextEquality.{eq_iff}
use mathlib.Core.Option.{some-injective}
use trackstar.Common.{
  All, Bool, Bool-cases, List, Option, Option-cases, String, [], any, ap, arith, false, inl, inr,
  length, none, not, refl, select, some, subst, suc, sym, true, zero, ℕ, ◌+◌, ◌∷◌, ◌≡◌, ◌≤◌,
}
use trackstar.Db.Ids.{Ascending-select}
use trackstar.Db.Order.{Ascending}
use trackstar.Db.Rows.{ProjectRow}
use trackstar.Project.Slug.{SlugEnv, free_slug, has_slug, numbered_slug, slugify, unique_slug}
use trackstar.Project.Slug.Decimal.{numbered_slug-longer, numbered_slug_injective}

abbrev DifferentTexts : String → String → Type 0
DifferentTexts s t = str_eq s t ≡ false

differ : (s t : String) → (s ≡ t → ⊥) → str_eq s t ≡ false
differ s t h = elim (Bool-cases (str_eq s t)) [ inl e ↦ absurd (h ((eq_iff s t).0 e)) | inr e ↦ e ]

all_kept :
    (s : String) (cs : List String)
    → All (DifferentTexts s) cs
    → length (select (λ c. not (str_eq s c)) cs) ≡ length cs
all_kept s [] h = refl
all_kept s (c ∷ cs) h = ground (arith, h.0, all_kept s cs h.1)

-- Of different texts, at most one is dropped.
one_dropped :
    (s : String) (cs : List String)
    → Ascending DifferentTexts cs
    → length cs ≤ suc (length (select (λ c. not (str_eq s c)) cs))
one_dropped s [] h = omega arith
one_dropped s (c ∷ cs) h = elim (Bool-cases (str_eq s c)) [
  | inl e ↦
      let same : c ≡ s = sym ((eq_iff s c).0 e) in
      let kept = all_kept s cs (subst (λ (x : String). All (DifferentTexts x) cs) same h.0) in
      ground (arith, e, kept)
  | inr e ↦ let rest = one_dropped s cs h.1 in ground (arith, e, rest)
]

taken_below :
    (p : ProjectRow) (ps : List ProjectRow) (cs : List String)
    → All (λ c. any (has_slug c) (p ∷ ps) ≡ true) cs
    → All (λ c. any (has_slug c) ps ≡ true) (select (λ c. not (str_eq p.slug c)) cs)
taken_below p ps [] h = tt
taken_below p ps (c ∷ cs) h = elim (Bool-cases (str_eq p.slug c)) [
  | inl e ↦ rw e (taken_below p ps cs h.1)
  | inr e ↦ rw e (ground (arith, e, h.0), taken_below p ps cs h.1)
]

-- Different texts that are all taken are no more than the projects.
taken_bound :
    (ps : List ProjectRow) (cs : List String)
    → Ascending DifferentTexts cs
    → All (λ c. any (has_slug c) ps ≡ true) cs
    → length cs ≤ length ps
taken_bound [] [] s h = omega arith
taken_bound [] (c ∷ cs) s h = absurd (ground (arith, h.0))
taken_bound (p ∷ ps) cs s h =
    let rest =
      taken_bound ps (select (λ c. not (str_eq p.slug c)) cs)
        (Ascending-select DifferentTexts (λ c. not (str_eq p.slug c)) cs s)
        (taken_below p ps cs h) in
    let dropped = one_dropped p.slug cs s in omega (arith, rest, dropped)

-- The texts that the loop tries.
abbrev tried : ℕ → String → ℕ → String → List String
tried zero base n slug = []
tried (suc fuel) base n slug = slug ∷ tried fuel base (n + 1) (numbered_slug base n)

length-tried :
    (fuel : ℕ) (base : String) (n : ℕ) (slug : String) → length (tried fuel base n slug) ≡ fuel
length-tried zero base n slug = refl
length-tried (suc fuel) base n slug = ap suc (length-tried fuel base (n + 1) (numbered_slug base n))

apart_from_later :
    (s base : String) (fuel n m : ℕ)
    → ((k : ℕ) → n ≤ k → str_eq s (numbered_slug base k) ≡ false)
    → n ≤ m
    → All (DifferentTexts s) (tried fuel base (m + 1) (numbered_slug base m))
apart_from_later s base zero n m h le = tt
apart_from_later s base (suc fuel) n m h le =
    (h m le, apart_from_later s base fuel n (m + 1) h (omega (arith, le)))

tried-different :
    (base slug : String) (fuel n : ℕ)
    → ((k : ℕ) → n ≤ k → str_eq slug (numbered_slug base k) ≡ false)
    → Ascending DifferentTexts (tried fuel base n slug)
tried-different base slug zero n h = tt
tried-different base slug (suc fuel) n h = (
  apart_from_later slug base fuel n n h (omega arith),
  tried-different base (numbered_slug base n) fuel (n + 1) (λ k le.
      differ (numbered_slug base n) (numbered_slug base k)
        (λ e. let same = numbered_slug_injective base n k e in absurd (omega (arith, same, le)))),
)

free_slug-taken :
    (fuel : ℕ) (base : String) (n : ℕ) (slug : String) (ps : List ProjectRow)
    → free_slug fuel base n slug ps ≡ none
    → All (λ c. any (has_slug c) ps ≡ true) (tried fuel base n slug)
unfolding free_slug
free_slug-taken zero base n slug ps e = tt
free_slug-taken (suc fuel) base n slug ps e = elim (Bool-cases (any (has_slug slug) ps)) [
  | inl taken ↦ (
    taken,
    free_slug-taken fuel base (n + 1) (numbered_slug base n) ps (ground (arith, taken, e)),
  )
  | inr free ↦ absurd (ground (arith, free, e))
]

-- A text was found, and no project has it.
abbrev pub is_free : Option String → List ProjectRow → Bool
is_free none ps = false
is_free (some slug) ps = not (any (has_slug slug) ps)

free_slug-free :
    (fuel : ℕ) (base : String) (n : ℕ) (slug found : String) (ps : List ProjectRow)
    → free_slug fuel base n slug ps ≡ some found
    → any (has_slug found) ps ≡ false
unfolding free_slug
free_slug-free zero base n slug found ps e = cc
free_slug-free (suc fuel) base n slug found ps e = elim (Bool-cases (any (has_slug slug) ps)) [
  | inl taken ↦
      free_slug-free fuel base (n + 1) (numbered_slug base n) found ps (ground (arith, taken, e))
  | inr free ↦
      let same : slug ≡ found = some-injective slug found (ground (arith, free, e)) in
      subst (λ (s : String). any (has_slug s) ps ≡ false) same free
]

-- The loop of `uniqueSlug` ends after no more rounds than there are projects and one, whatever their
-- slugs are, with a slug that no project has.
pub unique_slug_ends :
    (env : SlugEnv) (name : String) (ps : List ProjectRow)
    → is_free (unique_slug env name ps) ps ≡ true
unfolding unique_slug
unique_slug_ends env name ps =
    let base = slugify env name in
    let fuel = suc (length ps) in
    elim (Option-cases (free_slug fuel base 2 base ps)) [
      | inl none_left ↦
          let bound =
            taken_bound ps (tried fuel base 2 base)
              (tried-different base base fuel 2 (λ k le. differ base (numbered_slug base k) (λ e.
                let longer = numbered_slug-longer base k in
                let same : len base ≡ len (numbered_slug base k) = (λ i. len (e i)) in
                absurd (omega (arith, longer, same)))))
              (free_slug-taken fuel base 2 base ps none_left) in
          let long = length-tried fuel base 2 base in absurd (omega (arith, bound, long))
      | inr (slug, found) ↦
          let free = free_slug-free fuel base 2 base slug ps found in ground (arith, found, free)
    ]
