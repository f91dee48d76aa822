-- ===== src/Project/Slug.antt =====
-- `Slugify` and `uniqueSlug` of internal/project/project.go: the name of a project in its address.
pub mod Decimal
pub mod Ends
use Prim.Native.Char.{Char, code}
use Prim.Native.String.{String, ◌++◌ as append_text}
use text.Mathlib.Text.{◌==◌ as str_eq}
use trackstar.Common.{
  Bool, List, Option, any, false, if◌then◌else◌, leb, length, ltb, none, some, suc, true, zero, ℕ,
  ◌%◌, ◌&&◌, ◌+◌, ◌/◌, ◌==◌, ◌∷◌,
}
use trackstar.Common.Text.{is_empty}
use trackstar.Db.Rows.{ProjectRow}
use trackstar.Story.Blockers.Search.{more}

-- What the code takes from strings and unicode: `ToLower`, and whether a rune is a letter or a digit.
pub record SlugEnv : Type 0 where
  pub to_lower : String → String
  pub is_word : Char → Bool

-- The loop of `Slugify`: whether a text was written already, and whether a dash is due.
unfoldable pub dashed : SlugEnv → Bool → Bool → String → String
dashed env begun dash String.[] = String.[]
dashed env begun dash (String.◌∷◌ c s) =
    let word = String.◌∷◌ c (dashed env true false s) in
    let other = dashed env begun true s in
    if env.is_word c then (if dash && begun then append_text "-" word else word) else other

-- `strings.Trim(s, "0123456789") == ""`
unfoldable pub only_digits : String → Bool
only_digits String.[] = true
only_digits (String.◌∷◌ c s) = leb 48 (code c) && leb (code c) 57 && only_digits s

-- `Slugify`
unfoldable pub slugify : SlugEnv → String → String
unfolding dashed only_digits
slugify env name =
    let slug = dashed env false false (env.to_lower name) in
    if is_empty slug
    then "project"
    else if only_digits slug
    then append_text "project-" slug
    else slug

abbrev pub digit : ℕ → String
digit zero = "0"
digit (suc zero) = "1"
digit (suc (suc zero)) = "2"
digit (suc (suc (suc zero))) = "3"
digit (suc (suc (suc (suc zero)))) = "4"
digit (suc (suc (suc (suc (suc zero))))) = "5"
digit (suc (suc (suc (suc (suc (suc zero)))))) = "6"
digit (suc (suc (suc (suc (suc (suc (suc zero))))))) = "7"
digit (suc (suc (suc (suc (suc (suc (suc (suc zero)))))))) = "8"
digit n = "9"

-- The digits of a number; more fuel than the number is enough.
unfoldable pub decimal_from : ℕ → ℕ → String
decimal_from zero n = digit n
decimal_from (suc fuel) n =
    let more = append_text (decimal_from fuel (n / 10)) (digit (n % 10)) in
    if ltb n 10 then digit n else more

-- `fmt.Sprintf("%s-%d", base, n)`
unfoldable pub numbered_slug : String → ℕ → String
unfolding decimal_from
numbered_slug base n = append_text base (append_text "-" (decimal_from n n))

abbrev pub has_slug : String → ProjectRow → Bool
has_slug slug p = str_eq p.slug slug

-- The loop of `uniqueSlug`, on fuel: `n` is the number of the next text to try.
unfoldable pub free_slug : ℕ → String → ℕ → String → List ProjectRow → Option String
unfolding numbered_slug
free_slug zero base n slug ps = none
free_slug (suc fuel) base n slug ps =
    let more = free_slug fuel base (n + 1) (numbered_slug base n) ps in
    if any (has_slug slug) ps then more else some slug

-- `uniqueSlug`, with as many rounds as there are projects and one more.
unfoldable pub unique_slug : SlugEnv → String → List ProjectRow → Option String
unfolding slugify free_slug
unique_slug env name ps = let base = slugify env name in free_slug (suc (length ps)) base 2 base ps
