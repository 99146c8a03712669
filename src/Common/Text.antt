-- ===== src/Common/Text.antt =====
-- Code points of texts, and the texts of the standard library's strings functions.
use Prim.Native.Char.{code}
use Prim.Native.String.{String}
use saucepan.Common.{
  ℕ, ◌+◌, Bool, ◌&&◌, ◌||◌, List, [], ◌∷◌, leb, ◌==◌, nat_eq, string_eq, map, if◌then◌else◌, ltb,
  true, false,
}

-- The bytes of a text, if it is ASCII.
abbrev pub codes : String → List ℕ
codes String.[] = []
codes (String.◌∷◌ c s) = code c ∷ codes s

-- The blanks of Unicode past Latin-1.
abbrev pub is_wide_space : ℕ → Bool
is_wide_space c =
    c == 5760
    || (leb 8192 c && leb c 8202
        || (c == 8232 || (c == 8233 || (c == 8239 || (c == 8287 || c == 12288)))))

-- unicode.IsSpace
abbrev pub is_space : ℕ → Bool
is_space c = c == 32 || (leb 9 c && leb c 13 || (c == 133 || (c == 160 || is_wide_space c)))

-- strings.TrimSpace
abbrev pub trim_left : String → String
trim_left String.[] = String.[]
trim_left (String.◌∷◌ c s) = if is_space (code c) then trim_left s else String.◌∷◌ c s

abbrev pub trim_right : String → String
trim_right String.[] = String.[]
trim_right (String.◌∷◌ c s) =
    let rest = trim_right s in
    if is_space (code c) && rest == "" then String.[] else String.◌∷◌ c rest

unfoldable pub trim_space : String → String
trim_space s = trim_right (trim_left s)

abbrev pub to_lower : ℕ → ℕ
to_lower c = if leb b'A' c && leb c b'Z' then c + 32 else c

-- The order of strings: by bytes, which on UTF-8 is by code points.
abbrev pub codes_lt : List ℕ → List ℕ → Bool
codes_lt xs [] = false
codes_lt [] (y ∷ ys) = true
codes_lt (x ∷ xs) (y ∷ ys) = if x == y then codes_lt xs ys else ltb x y

abbrev pub string_lt : String → String → Bool
string_lt a b = codes_lt (codes a) (codes b)

abbrev pub codes_beq : List ℕ → List ℕ → Bool
codes_beq [] [] = true
codes_beq (x ∷ xs) (y ∷ ys) = x == y && codes_beq xs ys
codes_beq _ _ = false

-- strings.EqualFold(strings.TrimSpace(s), t), for ASCII texts.
abbrev pub folds_to : String → String → Bool
folds_to s t = codes_beq (map to_lower (codes (trim_right (trim_left s)))) (map to_lower (codes t))
