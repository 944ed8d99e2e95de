-- ===== src/Prelude/Decimals.antt =====
-- What `str` writes of a number: ASCII digits, not too many of them, that are read back.
use Prim.Native.Nat.{ℕ, zero, suc, ◌+◌, ◌-◌, ◌*◌, ◌/◌, ◌≤◌, ◌<◌}
use Prim.Native.Char.{code}
use Prim.Native.String.{String}
use text.Mathlib.TextLemmas.{length-cons}
use mathlib.Core.Path.{◌≡◌, refl, ap}
use mathlib.Core.Logic.{inl, inr}
use mathlib.Core.Bool.{Bool, true, not, ◌&&◌}
use mathlib.Core.Option.{Option, none, some}
use native.Mathlib.Omega.{arith}
use fuko_pr.Prelude.Tests.{ltb, leb, ◌==◌, ==_iff, text_eq, if◌then◌else◌, Bool-cases}
use fuko_pr.Prelude.Text.{text_length, decimal_digits, decimal}
use fuko_pr.Prelude.Digits.{read_digits, read-decimal_digits, last_digit, count-decimal}
use fuko_pr.Prelude.Prefixes.{all_chars}

abbrev pub is_digit : ℕ → Bool
is_digit c = leb 48 c && leb c 57

-- The value of an ASCII digit.
abbrev pub ascii_digit : ℕ → Option ℕ
ascii_digit c = if is_digit c then some (c - 48) else none

-- `s.isdigit()` of an ASCII text
abbrev pub is_number : String → Bool
is_number s = not (s == "") && all_chars is_digit s

-- `int(s)` of such a text
abbrev pub int_of : String → ℕ
int_of = read_digits ascii_digit 0

abbrev pub pow10 : ℕ → ℕ
pow10 zero = 1
pow10 (suc k) = 10 * pow10 k

ascii : (d : ℕ) → d < 10 → ascii_digit (48 + d) ≡ some d
ascii d h =
    let digit : is_digit (48 + d) ≡ true = ground (arith, h) in
    rw digit (ap (λ n. some n) (omega arith))

pub int_of-decimal : (n : ℕ) → int_of (decimal n) ≡ n
unfolding decimal read_digits
int_of-decimal n = read-decimal_digits ascii_digit ascii (suc n) n "" (omega arith)

all_digits :
    (fuel n : ℕ) (acc : String)
    → all_chars is_digit acc ≡ true
    → all_chars is_digit (decimal_digits fuel n acc) ≡ true
unfolding decimal_digits all_chars
all_digits zero n acc h = h
all_digits (suc fuel) n acc h =
    let (c, written, value) = last_digit n acc in
    let digit : is_digit (code c) ≡ true = ground (arith, value) in
    let more : all_chars is_digit (String.◌∷◌ c acc) ≡ true = ground (arith, digit, h) in
    elim (Bool-cases (ltb n 10)) [
      | inl single ↦ rw (single, written) more
      | inr several ↦ rw (several, written) (all_digits fuel (n / 10) (String.◌∷◌ c acc) more)
    ]

pub decimal-is_number : (n : ℕ) → is_number (decimal n) ≡ true
unfolding decimal all_chars
decimal-is_number n =
    let digits : all_chars is_digit (decimal n) ≡ true = all_digits (suc n) n "" refl in
    let counted = count-decimal ascii_digit ascii n "" refl in
    elim (Bool-cases (decimal n == "")) [
      | inl empty ↦
          let same = (==_iff (decimal n) "").0 empty in
          absurd (omega (arith, counted.0, counted.1, ap text_length same))
      | inr full ↦ ground (arith, full, digits)
    ]

length-decimal_digits :
    (fuel n k : ℕ) (acc : String)
    → n < pow10 (suc k)
    → text_length (decimal_digits fuel n acc) ≤ suc k + text_length acc
unfolding decimal_digits
length-decimal_digits zero n k acc h = omega arith
length-decimal_digits (suc fuel) n zero acc h =
    let (c, written, value) = last_digit n acc in
    let single : ltb n 10 ≡ true = ground (arith, h) in
    rw (single, written) (omega (arith, length-cons c acc))
length-decimal_digits (suc fuel) n (suc k) acc h =
    let (c, written, value) = last_digit n acc in
    let more = length-decimal_digits fuel (n / 10) k (String.◌∷◌ c acc) (omega (arith, h)) in
    elim (Bool-cases (ltb n 10)) [
      | inl single ↦ rw (single, written) (omega (arith, length-cons c acc))
      | inr several ↦ rw (several, written) (omega (arith, more, length-cons c acc))
    ]

-- A number below a power of ten has at most as many digits.
pub length-decimal : (n k : ℕ) → n < pow10 (suc k) → text_length (decimal n) ≤ suc k
unfolding decimal
length-decimal n k h = omega (arith, length-decimal_digits (suc n) n k "" h)
