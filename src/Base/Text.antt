-- ===== src/Base/Text.antt =====
-- Texts by their code points. `lower` folds the ASCII letters, which is `str.lower` on ASCII texts.
use Prim.Native.Char.{code}
use Prim.Native.Nat.{ℕ, ◌+◌}
use Prim.Native.String.{String}
use mathlib.Core.Bool.{Bool, true, false, ◌&&◌, ◌||◌}
use mathlib.Core.List.{List, [], ◌∷◌, map}
use fine_tune_harness.Base.Tests.{leb, nat_eq, if◌then◌else◌}

unfoldable pub codes : String → List ℕ
codes String.[] = []
codes (String.◌∷◌ c s) = code c ∷ codes s

unfoldable pub to_lower : ℕ → ℕ
to_lower c = if leb b'A' c && leb c b'Z' then c + 32 else c

unfoldable pub lower : String → List ℕ
unfolding codes to_lower
lower s = map to_lower (codes s)

unfoldable pub codes_eq : List ℕ → List ℕ → Bool
codes_eq [] [] = true
codes_eq (a ∷ xs) (b ∷ ys) = nat_eq a b && codes_eq xs ys
codes_eq _ _ = false

unfoldable pub is_prefix : List ℕ → List ℕ → Bool
is_prefix [] bs = true
is_prefix (a ∷ xs) (b ∷ ys) = nat_eq a b && is_prefix xs ys
is_prefix (a ∷ xs) [] = false

-- `part in text`
unfoldable pub contains : List ℕ → List ℕ → Bool
unfolding is_prefix
contains part [] = is_prefix part []
contains part (c ∷ text) = is_prefix part (c ∷ text) || contains part text

-- `str.isspace` of one character.
unfoldable pub is_space : ℕ → Bool
is_space c =
    leb 9 c && leb c 13
    || leb 28 c && leb c 32
    || nat_eq c 133
    || nat_eq c 160
    || nat_eq c 5760
    || leb 8192 c && leb c 8202
    || leb 8232 c && leb c 8233
    || nat_eq c 8239
    || nat_eq c 8287
    || nat_eq c 12288

-- `not s.strip()`
unfoldable pub is_blank : List ℕ → Bool
unfolding is_space
is_blank [] = true
is_blank (c ∷ cs) = is_space c && is_blank cs

unfoldable pub strip_start : List ℕ → List ℕ
unfolding is_space
strip_start [] = []
strip_start (c ∷ cs) = let rest = strip_start cs in if is_space c then rest else c ∷ cs

-- `c` goes with the white space at the end, if nothing follows it.
unfoldable pub keep_unless_last : ℕ → List ℕ → List ℕ
unfolding is_space
keep_unless_last c [] = if is_space c then [] else c ∷ []
keep_unless_last c (d ∷ rest) = c ∷ d ∷ rest

unfoldable pub strip_end : List ℕ → List ℕ
unfolding keep_unless_last
strip_end [] = []
strip_end (c ∷ cs) = keep_unless_last c (strip_end cs)

-- `s.strip()`
unfoldable pub strip : List ℕ → List ℕ
unfolding strip_start strip_end
strip cs = strip_end (strip_start cs)
