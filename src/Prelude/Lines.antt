-- ===== src/Prelude/Lines.antt =====
-- Python's `str.splitlines`, `str.split` and `join`.
use Prim.Native.Nat.{ℕ}
use Prim.Native.Char.{Char, code}
use Prim.Native.String.{String}
use mathlib.Core.Bool.{Bool, ◌&&◌, ◌||◌}
use mathlib.Core.List.{List, [], ◌∷◌}
use fuko_pr.Prelude.Tests.{leb, ◌==◌, nat_eq, if◌then◌else◌}
use fuko_pr.Prelude.Text.{◌<+>◌, starts_with}

-- A character in front of the first line.
abbrev pub put_front : Char → List String → List String
put_front c [] = String.◌∷◌ c "" ∷ []
put_front c (p ∷ ps) = String.◌∷◌ c p ∷ ps

-- The line boundaries of `str.splitlines`.
unfoldable pub is_break : ℕ → Bool
is_break c =
    (leb 10 c && leb c 13) || ((leb 28 c && leb c 30) || ((c == 133) || (leb 8232 c && leb c 8233)))

-- `text.splitlines()`: a carriage return and the newline after it are one boundary.
unfoldable pub splitlines : String → List String
unfolding is_break starts_with
splitlines String.[] = []
splitlines (String.◌∷◌ c s) =
    let rest = splitlines s in
    if is_break (code c)
    then (if (code c == 13) && starts_with "\n" s then rest else "" ∷ rest)
    else put_front c rest

-- `"\n".join(buf)`
unfoldable pub join_lines : List String → String
join_lines [] = ""
join_lines (line ∷ []) = line
join_lines (line ∷ next ∷ lines) = line <+> ("\n" <+> join_lines (next ∷ lines))

-- `s.split(sep)` at the character of a code point
unfoldable pub split_on : ℕ → String → List String
split_on sep String.[] = "" ∷ []
split_on sep (String.◌∷◌ c s) =
    let rest = split_on sep s in if code c == sep then "" ∷ rest else put_front c rest
