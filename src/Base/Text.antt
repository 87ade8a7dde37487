-- ===== src/Base/Text.antt =====
-- Texts: Python's `str.isspace` characters, and `not value.strip()`.
pub mod Strip
use Prim.Native.Char.{code}
use Prim.Native.String.{◌++◌ as ◌⧺◌}
use holahost.Base.{
  ℕ, String, Bool, true, false, List, [], ◌∷◌, if◌then◌else◌, ◌&&◌, ◌||◌, leb, ◌==◌,
}

-- The code points that `str.strip` removes.
unfoldable pub is_space : ℕ → Bool
is_space c =
    leb 9 c && leb c 13
    || leb 28 c && leb c 32
    || c == 133
    || c == 160
    || c == 5760
    || leb 8192 c && leb c 8202
    || c == 8232
    || c == 8233
    || c == 8239
    || c == 8287
    || c == 12288

-- `not value.strip()`
unfoldable pub is_blank : String → Bool
unfolding is_space
is_blank String.[] = true
is_blank (String.◌∷◌ c s) = is_space (code c) && is_blank s

-- `value.strip()`
drop_spaces : String → String
drop_spaces String.[] = String.[]
drop_spaces (String.◌∷◌ c s) =
    let rest = drop_spaces s in if is_space (code c) then rest else String.◌∷◌ c s

is_empty : String → Bool
is_empty String.[] = true
is_empty (String.◌∷◌ c s) = false

drop_last_spaces : String → String
drop_last_spaces String.[] = String.[]
drop_last_spaces (String.◌∷◌ c s) =
    let rest = drop_last_spaces s in
    if is_space (code c) && is_empty rest then String.[] else String.◌∷◌ c rest

unfoldable pub strip : String → String
unfolding drop_spaces drop_last_spaces is_empty is_space
strip s = drop_last_spaces (drop_spaces s)

-- `"\n".join(texts)`
unfoldable pub join_lines : List String → String
join_lines [] = ""
join_lines (s ∷ []) = s
join_lines (s ∷ t ∷ ts) = s ⧺ ("\n" ⧺ join_lines (t ∷ ts))
