-- ===== src/Common/Text.antt =====
-- What the program uses of Go's package strings. Texts are native strings, read as the code points
-- of valid UTF-8.
use Prim.Native.Nat.{ℕ}
use Prim.Native.Char.{code}
use Prim.Native.String.{String, ◌++◌ as append_text}
use mathlib.Core.Bool.{Bool, true, false, ◌&&◌, ◌||◌}
use mathlib.Core.List.{List, [], ◌∷◌}
use trackstar.Common.Tests.{leb, ◌==◌, if◌then◌else◌}

-- `unicode.IsSpace`
unfoldable pub is_space : ℕ → Bool
is_space c =
    (leb 9 c && leb c 13)
    || c == 32
    || c == 0x85
    || c == 0xa0
    || c == 0x1680
    || (leb 0x2000 c && leb c 0x200a)
    || c == 0x2028
    || c == 0x2029
    || c == 0x202f
    || c == 0x205f
    || c == 0x3000

abbrev pub is_empty : String → Bool
is_empty String.[] = true
is_empty (String.◌∷◌ c s) = false

trim_left : String → String
unfolding is_space
trim_left String.[] = String.[]
trim_left (String.◌∷◌ c s) =
    let rest = trim_left s in if is_space (code c) then rest else String.◌∷◌ c s

trim_right : String → String
unfolding is_space
trim_right String.[] = String.[]
trim_right (String.◌∷◌ c s) =
    let rest = trim_right s in
    if is_empty rest && is_space (code c) then String.[] else String.◌∷◌ c rest

-- `strings.TrimSpace`
unfoldable pub trim_space : String → String
unfolding trim_left trim_right
trim_space s = trim_right (trim_left s)

-- The words of a text, with the one that is being read in front.
cut : String → List String → List String
cut word words = if is_empty word then words else word ∷ words

words_of : String → String × List String
unfolding is_space cut
words_of String.[] = (String.[], [])
words_of (String.◌∷◌ c s) =
    let (word, words) = words_of s in
    if is_space (code c) then (String.[], cut word words) else (String.◌∷◌ c word, words)

join : List String → String
join [] = ""
join (w ∷ []) = w
join (w ∷ v ∷ ws) = append_text w (append_text " " (join (v ∷ ws)))

-- `strings.Join(strings.Fields(s), " ")`
unfoldable pub squeeze : String → String
unfolding words_of cut join
squeeze s = let (word, words) = words_of s in join (cut word words)
