-- ===== src/Prelude/Text.antt =====
-- Python's `str` where the program looks into a text: strip, slices, decimal numbers.
use Prim.Native.Nat.{ℕ, zero, suc, ◌+◌, ◌/◌, ◌%◌}
use Prim.Native.Char.{code}
use mathlib.Core.Path.{◌≡◌}
use Prim.Native.String.{String, slice, count, ◌++◌}
use text.Mathlib.TextLemmas.{length-append}
use mathlib.Core.Bool.{Bool, true, false, ◌&&◌, ◌||◌}
use fuko_pr.Prelude.Tests.{ltb, leb, ◌==◌, nat_eq, text_eq, if◌then◌else◌}

infixl 65 ◌<+>◌
-- `a + b` of two texts.
abbrev pub ◌<+>◌ : String → String → String
a <+> b = a ++ b

-- `str.isspace` of one character, the set that `strip` removes.
unfoldable pub is_space : ℕ → Bool
is_space c =
    (leb 9 c && leb c 13)
    || (leb 28 c && leb c 32)
    || (c == 133)
    || (c == 160)
    || (c == 5760)
    || (leb 8192 c && leb c 8202)
    || (c == 8232)
    || (c == 8233)
    || (c == 8239)
    || (c == 8287)
    || (c == 12288)

unfoldable pub lstrip : String → String
unfolding is_space
lstrip String.[] = ""
lstrip (String.◌∷◌ c s) = let rest = lstrip s in if is_space (code c) then rest else String.◌∷◌ c s

unfoldable pub rstrip : String → String
unfolding is_space
rstrip String.[] = ""
rstrip (String.◌∷◌ c s) =
    let rest = rstrip s in if is_space (code c) && (rest == "") then "" else String.◌∷◌ c rest

-- `s.strip()`
unfoldable pub strip : String → String
unfolding lstrip rstrip
strip s = rstrip (lstrip s)

-- `bool(s.strip())`
abbrev pub has_text : String → Bool
has_text s = if strip s == "" then false else true

-- `s[n:]`
unfoldable pub drop_text : ℕ → String → String
drop_text zero s = s
drop_text (suc n) String.[] = ""
drop_text (suc n) (String.◌∷◌ c s) = drop_text n s

-- `s.startswith(prefix)`
unfoldable pub starts_with : String → String → Bool
starts_with String.[] s = true
starts_with (String.◌∷◌ c p) String.[] = false
starts_with (String.◌∷◌ c p) (String.◌∷◌ d s) =
    let rest = starts_with p s in (code c == code d) && rest

-- `len(s)`
abbrev pub text_length : String → ℕ
text_length = count

pub text_length-append : (a b : String) → text_length (a <+> b) ≡ text_length a + text_length b
text_length-append = length-append

-- `s[:n]`
unfoldable pub take_text : ℕ → String → String
take_text zero s = ""
take_text (suc n) String.[] = ""
take_text (suc n) (String.◌∷◌ c s) = String.◌∷◌ c (take_text n s)

unfoldable pub decimal_digits : ℕ → ℕ → String → String
decimal_digits zero n acc = acc
decimal_digits (suc f) n acc =
    let acc' = slice "0123456789" (n % 10) (n % 10 + 1) ++ acc in
    let rest = decimal_digits f (n / 10) acc' in if ltb n 10 then acc' else rest

-- `str(n)`: each digit divides by ten, so `n + 1` rounds are enough.
unfoldable pub decimal : ℕ → String
unfolding decimal_digits
decimal n = decimal_digits (suc n) n ""
