-- ===== src/Prelude/Digits.antt =====
-- Decimal numbers in a text, read with a table of digits: `digit_value` gives the value of a digit by
-- its code point, as the Unicode standard has it.
use Prim.Native.Nat.{ℕ, zero, suc, ◌+◌, ◌*◌, ◌/◌, ◌%◌, min, ◌≤◌, ◌<◌}
use Prim.Native.Char.{Char, code}
use Prim.Native.String.{String, slice}
use text.Mathlib.TextLemmas.{nil-append, cons-append, append_assoc, length-cons}
use mathlib.Core.Path.{◌≡◌, refl, ap, ◌∙◌}
use mathlib.Core.Logic.{inl, inr}
use mathlib.Core.Bool.{Bool, false}
use mathlib.Core.Option.{Option, none, some}
use native.Mathlib.Omega.{arith}
use fuko_pr.Prelude.Tests.{ltb, is_some, if◌then◌else◌, Bool-cases, Option-cases}
use fuko_pr.Prelude.Text.{◌<+>◌, text_length, text_length-append, decimal_digits, decimal}

module _ (digit_value : ℕ → Option ℕ) where
  -- How many digits a text begins with.
  unfoldable pub count_digits : String → ℕ
  count_digits String.[] = 0
  count_digits (String.◌∷◌ c s) =
      let more = suc (count_digits s) in if is_some (digit_value (code c)) then more else 0

  -- The number that they write, after the digits read before.
  unfoldable pub read_digits : ℕ → String → ℕ
  read_digits n String.[] = n
  read_digits n (String.◌∷◌ c s) = elim (digit_value (code c)) [
    | none ↦ n
    | some d ↦ read_digits (n * 10 + d) s
  ]

  abbrev pub begins_with_digit : String → Bool
  begins_with_digit String.[] = false
  begins_with_digit (String.◌∷◌ c s) = is_some (digit_value (code c))

digit_text :
    (d : ℕ)
    → d < 10
    → (c : Char) × (slice "0123456789" d (d + 1) ≡ String.◌∷◌ c "") × (code c ≡ 48 + d)
digit_text zero h = ("0", refl, refl)
digit_text (suc zero) h = ("1", refl, refl)
digit_text (suc (suc zero)) h = ("2", refl, refl)
digit_text (suc (suc (suc zero))) h = ("3", refl, refl)
digit_text (suc (suc (suc (suc zero)))) h = ("4", refl, refl)
digit_text (suc (suc (suc (suc (suc zero))))) h = ("5", refl, refl)
digit_text (suc (suc (suc (suc (suc (suc zero)))))) h = ("6", refl, refl)
digit_text (suc (suc (suc (suc (suc (suc (suc zero))))))) h = ("7", refl, refl)
digit_text (suc (suc (suc (suc (suc (suc (suc (suc zero)))))))) h = ("8", refl, refl)
digit_text (suc (suc (suc (suc (suc (suc (suc (suc (suc zero))))))))) h = ("9", refl, refl)
digit_text (suc (suc (suc (suc (suc (suc (suc (suc (suc (suc n)))))))))) h =
    absurd (omega (arith, h))

-- The last digit of a number, in front of what follows it.
pub last_digit :
    (n : ℕ) (acc : String)
    → (c : Char) × (slice "0123456789" (n % 10) (n % 10 + 1) <+> acc ≡ String.◌∷◌ c acc)
      × (code c ≡ 48 + n % 10)
last_digit n acc =
    let (c, written, value) = digit_text (n % 10) (omega arith) in
    (
      c,
      ap (λ t. t <+> acc) written
          ∙ cons-append c "" acc
          ∙ ap (λ t. String.◌∷◌ c t) (nil-append acc),
      value,
    )

module _ (digit_value : ℕ → Option ℕ)
    (ascii : (d : ℕ) → d < 10 → digit_value (48 + d) ≡ some d) where
  digit : (c : Char) (d : ℕ) → d < 10 → code c ≡ 48 + d → digit_value (code c) ≡ some d
  digit c d h e = ap digit_value e ∙ ascii d h

  read-cons :
      (m : ℕ) (c : Char) (d : ℕ) (s : String)
      → digit_value (code c) ≡ some d
      → read_digits digit_value m (String.◌∷◌ c s) ≡ read_digits digit_value (m * 10 + d) s
  unfolding read_digits
  read-cons m c d s e = rw (e, read_digits) refl

  count-cons :
      (c : Char) (d : ℕ) (s : String)
      → digit_value (code c) ≡ some d
      → count_digits digit_value (String.◌∷◌ c s) ≡ suc (count_digits digit_value s)
  unfolding count_digits
  count-cons c d s e = rw e refl

  pub read-decimal_digits :
      (fuel n : ℕ) (acc : String)
      → n < fuel
      → read_digits digit_value 0 (decimal_digits fuel n acc) ≡ read_digits digit_value n acc
  unfolding decimal_digits
  read-decimal_digits zero n acc h = absurd (omega (arith, h))
  read-decimal_digits (suc fuel) n acc h =
      let (c, written, value) = last_digit n acc in
      let read = λ (m : ℕ). read-cons m c (n % 10) acc (digit c (n % 10) (omega arith) value) in
      elim (Bool-cases (ltb n 10)) [
        | inl single ↦
            let small : n < 10 = ground (arith, single) in
            rw (single, written)
              (read 0 ∙ ap (λ m. read_digits digit_value m acc) (omega (arith, small)))
        | inr several ↦
            let large : 10 ≤ n = ground (arith, several) in
            rw (several, written)
              (read-decimal_digits fuel (n / 10) (String.◌∷◌ c acc) (omega (arith, h, large))
                ∙ read (n / 10)
                ∙ ap (λ m. read_digits digit_value m acc) (omega arith))
      ]

  -- A number is digits only, one at least.
  count-decimal_digits :
      (fuel n : ℕ) (acc : String)
      → (count_digits digit_value (decimal_digits fuel n acc) + text_length acc
          ≡ text_length (decimal_digits fuel n acc) + count_digits digit_value acc)
        × (count_digits digit_value acc + min 1 fuel
            ≤ count_digits digit_value (decimal_digits fuel n acc))
  unfolding decimal_digits
  count-decimal_digits zero n acc = (omega arith, omega arith)
  count-decimal_digits (suc fuel) n acc =
      let (c, written, value) = last_digit n acc in
      let counted = count-cons c (n % 10) acc (digit c (n % 10) (omega arith) value) in
      elim (Bool-cases (ltb n 10)) [
        | inl single ↦
            rw (single, written) (omega (arith, counted, length-cons c acc), omega (arith, counted))
        | inr several ↦
            let ih = count-decimal_digits fuel (n / 10) (String.◌∷◌ c acc) in
            rw (several, written)
              (omega (arith, counted, length-cons c acc, ih.0), omega (arith, counted, ih.1))
      ]

  pub read_end :
      (n : ℕ) (s : String)
      → begins_with_digit digit_value s ≡ false
      → read_digits digit_value n s ≡ n
  unfolding read_digits
  read_end n String.[] h = refl
  read_end n (String.◌∷◌ c s) h = elim (Option-cases (digit_value (code c))) [
    | inl other ↦ rw (other, read_digits) refl
    | inr (d, one) ↦ cc (rw one at h)
  ]

  count_end :
      (s : String) → begins_with_digit digit_value s ≡ false → count_digits digit_value s ≡ 0
  unfolding count_digits
  count_end String.[] h = refl
  count_end (String.◌∷◌ c s) h = rw h refl

  decimal_digits-append :
      (fuel n : ℕ) (acc s : String)
      → decimal_digits fuel n acc <+> s ≡ decimal_digits fuel n (acc <+> s)
  unfolding decimal_digits
  decimal_digits-append zero n acc s = refl
  decimal_digits-append (suc fuel) n acc s = elim (Bool-cases (ltb n 10)) [
    | inl single ↦ rw single (append_assoc _ acc s)
    | inr several ↦ rw several (
        decimal_digits-append fuel (n / 10) _ s
        ∙ ap (decimal_digits fuel (n / 10)) (append_assoc _ acc s))
  ]

  pub decimal_digits-trailer : (n : ℕ) (s : String) → decimal n <+> s ≡ decimal_digits (suc n) n s
  unfolding decimal
  decimal_digits-trailer n s =
      decimal_digits-append (suc n) n "" s ∙ ap (decimal_digits (suc n) n) (nil-append s)

  pub count-decimal :
      (n : ℕ) (s : String)
      → begins_with_digit digit_value s ≡ false
      → (count_digits digit_value (decimal n <+> s) ≡ text_length (decimal n))
        × (1 ≤ count_digits digit_value (decimal n <+> s))
  count-decimal n s ends =
      let counted = count-decimal_digits (suc n) n s in
      rw (decimal_digits-trailer n s) (
        omega (
          arith,
          counted.0,
          count_end s ends,
          text_length-append (decimal n) s,
          ap text_length (decimal_digits-trailer n s),
        ),
        omega (arith, counted.1),
      )
