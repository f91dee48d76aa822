-- ===== src/Project/Slug/Decimal.antt =====
-- The numbers at the end of a slug, which are told apart by their digits.
use Prim.Native.Char.{code}
use text.Mathlib.TextLemmas.{append_cancel_left, cons-append, nil-append}
use text.Mathlib.TextPositions.{len-append}
use Prim.Native.String.{len, String, ◌++◌ as append_text}
use trackstar.Common.{
  Bool-cases, arith, inl, inr, ltb, refl, suc, sym, zero, ℕ, ◌%◌, ◌*◌, ◌+◌, ◌-◌, ◌/◌, ◌<◌, ◌∙◌, ◌≡◌,
  ◌≤◌,
}
use trackstar.Project.Slug.{decimal_from, digit, numbered_slug}

-- The number that digits stand for.
value : ℕ → String → ℕ
value acc String.[] = acc
value acc (String.◌∷◌ c s) = value (acc * 10 + (code c - 48)) s

value-append : (acc : ℕ) (s t : String) → value acc (append_text s t) ≡ value (value acc s) t
unfolding value
value-append acc String.[] t = λ i. value acc (nil-append t i)
value-append acc (String.◌∷◌ c s) t =
    (λ i. value acc (cons-append c s t i)) ∙ value-append (acc * 10 + (code c - 48)) s t

value-digit : (acc n : ℕ) → n < 10 → value acc (digit n) ≡ acc * 10 + n
unfolding value
value-digit acc zero h = refl
value-digit acc (suc zero) h = refl
value-digit acc (suc (suc zero)) h = refl
value-digit acc (suc (suc (suc zero))) h = refl
value-digit acc (suc (suc (suc (suc zero)))) h = refl
value-digit acc (suc (suc (suc (suc (suc zero))))) h = refl
value-digit acc (suc (suc (suc (suc (suc (suc zero)))))) h = refl
value-digit acc (suc (suc (suc (suc (suc (suc (suc zero))))))) h = refl
value-digit acc (suc (suc (suc (suc (suc (suc (suc (suc zero)))))))) h = refl
value-digit acc (suc (suc (suc (suc (suc (suc (suc (suc (suc zero))))))))) h = refl
value-digit acc (suc (suc (suc (suc (suc (suc (suc (suc (suc (suc n)))))))))) h =
    absurd (omega (arith, h))

value-decimal_from : (fuel n : ℕ) → n ≤ fuel → value 0 (decimal_from fuel n) ≡ n
unfolding decimal_from
value-decimal_from zero n h = value-digit 0 n (omega (arith, h)) ∙ omega arith
value-decimal_from (suc fuel) n h = elim (Bool-cases (ltb n 10)) [
  | inl small ↦ rw small (value-digit 0 n (ground (arith, small)) ∙ omega arith)
  | inr large ↦
      let rest = value-decimal_from fuel (n / 10) (ground (arith, h, large)) in
      let last = value-digit (n / 10) (n % 10) (omega arith) in
      rw large (
        value-append 0 (decimal_from fuel (n / 10)) (digit (n % 10))
        ∙ (λ i. value (rest i) (digit (n % 10)))
        ∙ last
        ∙ omega arith)
]

-- Different numbers have different digits.
pub decimal_injective : (m n : ℕ) → decimal_from m m ≡ decimal_from n n → m ≡ n
decimal_injective m n e =
    sym (value-decimal_from m m (omega arith))
    ∙ (λ i. value 0 (e i))
    ∙ value-decimal_from n n (omega arith)

-- Different numbers make different slugs, and none of them is the one without a number.
pub numbered_slug_injective :
    (base : String) (m n : ℕ) → numbered_slug base m ≡ numbered_slug base n → m ≡ n
unfolding numbered_slug
numbered_slug_injective base m n e =
    let rest = append_cancel_left base (append_text "-" (decimal_from m m)) _ e in
    decimal_injective m n (append_cancel_left "-" (decimal_from m m) (decimal_from n n) rest)

pub numbered_slug-longer : (base : String) (n : ℕ) → len base < len (numbered_slug base n)
unfolding numbered_slug
numbered_slug-longer base n =
    let d = decimal_from n n in omega (arith, len-append base (append_text "-" d), len-append "-" d)
