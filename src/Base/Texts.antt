-- ===== src/Base/Texts.antt =====
-- Texts: membership in lists of them, their order, and the patterns that identifiers match.
use Prim.Native.Char.{code}
use Prim.Native.String.{count}
use Prim.Native.Nat.{ℕ}
use Prim.Native.String.{String}
use mathlib.Core.Bool.{Bool, true, false, ◌&&◌, ◌||◌}
use mathlib.Core.List.{List, [], ◌∷◌}
use text.Mathlib.Text.{◌==◌ as str_eq}
use ndt_agents.Base.Tests.{ltb, leb, ◌==◌, if◌then◌else◌}

-- `x in xs`.
abbrev pub has : String → List String → Bool
has x [] = false
has x (y ∷ ys) = str_eq x y || has x ys

-- `xs <= ys` of sets.
abbrev pub is_subset : List String → List String → Bool
is_subset [] ys = true
is_subset (x ∷ xs) ys = has x ys && is_subset xs ys

-- The characters of `[A-Za-z0-9]` and of `[a-z0-9]`, by their codes.
abbrev is_lower_or_digit : ℕ → Bool
is_lower_or_digit c = (leb b'a' c && leb c b'z') || (leb b'0' c && leb c b'9')

abbrev is_alphanumeric : ℕ → Bool
is_alphanumeric c = is_lower_or_digit c || (leb b'A' c && leb c b'Z')

unfoldable pub every_char : (ℕ → Bool) → String → Bool
every_char p String.[] = true
every_char p (String.◌∷◌ c s) = p (code c) && every_char p s

-- The lengths from `low` to `high`.
abbrev pub length_within : ℕ → ℕ → String → Bool
length_within low high s = leb low (count s) && leb (count s) high

abbrev is_mark : ℕ → Bool
is_mark c = (c == b'.') || ((c == b'_') || (c == b'-'))

abbrev first_is : (ℕ → Bool) → String → Bool
first_is p String.[] = false
first_is p (String.◌∷◌ c s) = p (code c)

-- `^[a-z][a-z0-9_.-]{0,127}$`.
unfoldable pub is_name : String → Bool
unfolding every_char
is_name s =
    length_within 1 128 s
    && (first_is (λ c. leb b'a' c && leb c b'z') s
        && every_char (λ c. is_lower_or_digit c || is_mark c) s)

-- `^[A-Za-z0-9][A-Za-z0-9._:-]{0,127}$`.
unfoldable pub is_identifier : String → Bool
unfolding every_char
is_identifier s =
    length_within 1 128 s
    && (first_is is_alphanumeric s
        && every_char (λ c. is_alphanumeric c || (is_mark c || (c == b':'))) s)

-- The order of texts, by their characters' codes.
unfoldable pub text_less : String → String → Bool
text_less s String.[] = false
text_less String.[] (String.◌∷◌ d t) = true
text_less (String.◌∷◌ c s) (String.◌∷◌ d t) =
    let rest = text_less s t in ltb (code c) (code d) || ((code c == code d) && rest)

-- The least of a text and the texts of a list.
abbrev pub least_of : String → List String → String
least_of x [] = x
least_of x (y ∷ ys) = let rest = least_of y ys in if text_less rest x then rest else x
