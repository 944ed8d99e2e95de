-- ===== src/Capture/Scrub.antt =====
-- sidecar/reviewer/transcript.py, `Scrubber`: known credential values are replaced in a line.
use fuko_pr.Prelude.{
  ℕ, zero, suc, ◌+◌, ◌-◌, ◌/◌, ◌%◌, min, String, ◌<+>◌, Bool, false, ◌&&◌, ◌||◌, Option, none, some,
  List, [], ◌∷◌, ltb, leb, ◌==◌, nat_eq, text_eq, set_default, sort, starts_with, take_text,
  drop_text, text_length, if◌then◌else◌,
}
use Prim.Native.Char.{Char, code}
use Prim.Native.String.{slice}

-- `needle in text`, of a needle that is not empty.
unfoldable pub occurs : String → String → Bool
unfolding starts_with
occurs needle String.[] = false
occurs needle (String.◌∷◌ c s) = starts_with needle (String.◌∷◌ c s) || occurs needle s

-- `text.replace(needle, marker)` where so many characters of an occurrence are still to be passed.
unfoldable pub replace_from : String → String → ℕ → String → String
unfolding starts_with
replace_from needle marker skip String.[] = ""
replace_from needle marker (suc skip) (String.◌∷◌ c s) = replace_from needle marker skip s
replace_from needle marker zero (String.◌∷◌ c s) =
    let hit = marker <+> replace_from needle marker (text_length needle - 1) s in
    let miss = String.◌∷◌ c (replace_from needle marker zero s) in
    if starts_with needle (String.◌∷◌ c s) then hit else miss

-- One turn of `scrub`
unfoldable pub replace_known : String × String → String → String
unfolding occurs replace_from
replace_known (needle, marker) text =
    if occurs needle text then replace_from needle marker 0 text else text

-- `Scrubber.scrub`
unfoldable pub scrub : List (String × String) → String → String
unfolding replace_known
scrub [] text = text
scrub (r ∷ replacements) text = scrub replacements (replace_known r text)

-- `_redaction`
unfoldable pub redaction : String → String
redaction name = "[REDACTED:" <+> (name <+> "]")

abbrev pub hex_digit : ℕ → String
hex_digit d = slice "0123456789abcdef" d (d + 1)

-- `\u` and four digits
abbrev pub unicode_escape : ℕ → String
unicode_escape n =
    "\\u"
    <+> (hex_digit (n / 4096 % 16)
        <+> (hex_digit (n / 256 % 16) <+> (hex_digit (n / 16 % 16) <+> hex_digit (n % 16))))

-- What follows the backslash of a character that has a short escape.
unfoldable pub short_escape : ℕ → Option String
short_escape n =
    if n == 34
    then some "\""
    else (if n == 92
        then some "\\"
        else (if n == 10
            then some "n"
            else (if n == 13
                then some "r"
                else (if n == 9
                    then some "t"
                    else (if n == 12 then some "f" else (if n == 8 then some "b" else none))))))

-- A character without one: printable ASCII, or its code, above 0xffff as a pair of surrogates.
unfoldable pub plain_char : Char → String
plain_char c =
    let n = code c in
    if leb 32 n && leb n 126
    then String.◌∷◌ c ""
    else (if ltb n 65536
        then unicode_escape n
        else unicode_escape (55296 + (n - 65536) / 1024)
          <+> unicode_escape (56320 + (n - 65536) % 1024))

-- How `json.dumps` writes a character of a text.
unfoldable pub json_char : Char → String
unfolding short_escape plain_char
json_char c = elim (short_escape (code c)) [ none ↦ plain_char c | some s ↦ "\\" <+> s ]

-- `json.dumps(value)[1:-1]`
unfoldable pub json_body : String → String
unfolding json_char
json_body String.[] = ""
json_body (String.◌∷◌ c s) = json_char c <+> json_body s

-- The dict that `for_secrets` fills; a value that is no text is not in the list.
unfoldable pub needles_from :
    List (String × String) → List (String × String) → List (String × String)
unfolding set_default redaction json_body
needles_from needles [] = needles
needles_from needles ((name, value) ∷ secrets) =
    let marker = redaction name in
    needles_from
      (if value == ""
        then needles
        else set_default (set_default needles value marker) (json_body value) marker)
      secrets

abbrev pub longer_first : String × String → String × String → Bool
longer_first a b = leb (text_length b.0) (text_length a.0)

-- `Scrubber.for_secrets`
unfoldable pub for_secrets : List (String × String) → List (String × String)
unfolding needles_from sort
for_secrets secrets = sort longer_first (needles_from [] secrets)

-- `text.rstrip(REPLACEMENT_CHAR)`
unfoldable pub strip_replacement : String → String
strip_replacement String.[] = ""
strip_replacement (String.◌∷◌ c s) =
    let rest = strip_replacement s in
    if (code c == 65533) && (rest == "") then "" else String.◌∷◌ c rest

-- `text.endswith(s)`
unfoldable pub ends_with : String → String → Bool
unfolding drop_text
ends_with text s =
    leb (text_length s) (text_length text)
    && (drop_text (text_length text - text_length s) text == s)

-- The sizes from `size` down to above `best`: the first that is long enough and matches, or 0.
unfoldable pub matched_size : String → String → ℕ → ℕ → ℕ
unfolding ends_with take_text
matched_size scanned needle best zero = 0
matched_size scanned needle best (suc size) =
    let smaller = matched_size scanned needle best size in
    if leb (suc size) best
    then 0
    else (if leb 4 (suc size) && ends_with scanned (take_text (suc size) needle)
        then suc size
        else smaller)

-- One turn of the loop over the needles
unfoldable pub better : String → ℕ × String → String × String → ℕ × String
unfolding matched_size
better scanned best r =
    let size = matched_size scanned r.0 best.0 (min (text_length scanned) (text_length r.0 - 1)) in
    if size == 0 then best else (size, r.1)

unfoldable pub best_match : String → ℕ × String → List (String × String) → ℕ × String
unfolding better
best_match scanned best [] = best
best_match scanned best (r ∷ replacements) = best_match scanned (better scanned best r) replacements

-- `Scrubber.scrub_partial`
unfoldable pub scrub_partial : List (String × String) → String → String
unfolding scrub strip_replacement best_match take_text
scrub_partial replacements line =
    let text = scrub replacements line in
    let scanned = strip_replacement text in
    let best = best_match scanned (0, "") replacements in
    if best.0 == 0 then text else take_text (text_length scanned - best.0) scanned <+> best.1
