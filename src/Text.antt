-- ===== src/Text.antt =====
-- Python's `str` as a list of code points, and the methods that the services call.
pub mod Laws
pub use vidalys_flow.Common.{take, drop}
use Prim.Native.Char.{code}
use Prim.Native.String.{String}
use vidalys_flow.Common.{
  ℕ, zero, suc, ◌+◌, ◌-◌, ◌≤◌, Bool, true, false, ◌&&◌, ◌||◌, not, List, [], ◌∷◌, ◌++◌, length, any,
  leb, ◌==◌, if◌then◌else◌,
}

abbrev pub Text : Type 0
Text = List ℕ

-- The code points of a literal.
abbrev pub codes : String → Text
codes String.[] = []
codes (String.◌∷◌ c s) = code c ∷ codes s

-- `str.isspace` of one code point.
unfoldable pub is_space : ℕ → Bool
is_space c =
    (leb 9 c && leb c 13)
    || (leb 28 c && leb c 32)
    || c == 133
    || c == 160
    || c == 5760
    || (leb 8192 c && leb c 8202)
    || c == 8232
    || c == 8233
    || c == 8239
    || c == 8287
    || c == 12288

unfoldable pub lstrip : Text → Text
lstrip [] = []
lstrip (c ∷ cs) = elim (is_space c) [ true ↦ lstrip cs | false ↦ c ∷ cs ]

abbrev pub is_empty : Text → Bool
is_empty [] = true
is_empty (c ∷ cs) = false

unfoldable pub rstrip : Text → Text
rstrip [] = []
rstrip (c ∷ cs) = let rest = rstrip cs in if is_space c && is_empty rest then [] else c ∷ rest

-- `str.strip()`
unfoldable pub strip : Text → Text
strip t = rstrip (lstrip t)

abbrev pub text_eq : Text → Text → Bool
text_eq [] [] = true
text_eq [] (d ∷ ds) = false
text_eq (c ∷ cs) [] = false
text_eq (c ∷ cs) (d ∷ ds) = c == d && text_eq cs ds

abbrev pub starts_with : Text → Text → Bool
starts_with [] t = true
starts_with (p ∷ ps) [] = false
starts_with (p ∷ ps) (c ∷ cs) = p == c && starts_with ps cs

-- `needle in haystack`
abbrev pub contains : Text → Text → Bool
contains needle [] = is_empty needle
contains needle (c ∷ cs) = starts_with needle (c ∷ cs) || contains needle cs

-- `t[-n:]` for a positive n.
abbrev pub last : ℕ → Text → Text
last n t = drop (length t - n) t

-- `c * n`
abbrev pub repeat : ℕ → ℕ → Text
repeat c zero = []
repeat c (suc n) = c ∷ repeat c n
