-- ===== src/Checkout/Context.antt =====
-- sidecar/reviewer/checkout.py, `fetch_pr_context`: what a review is given of a pull request. The
-- answers of the GitHub API are arguments; an answer with an error status raises before this.
use fuko_pr.Prelude.{
  ℕ, zero, suc, ◌-◌, String, Bool, ◌&&◌, Option, none, some, List, ltb, leb, starts_with, take_text,
  text_length, if◌then◌else◌,
}
use fuko_pr.Checkout.Diff.{parse_diff}

-- The fields of the pull request that are read.
pub record Pull : Type 0 where
  pub title : Option String
  pub body : Option String
  pub head_sha : String
  pub base_ref : String

pub record PrContext : Type 0 where
  pub title : String
  pub body : String
  pub head_sha : String
  pub base_ref : String
  pub diff : String
  pub diff_files : List String
  pub diff_positions : List (String × ℕ)
  pub truncated : Bool

-- `text.rfind(sub, 0, end)` of a text that is not empty, where `none` is -1.
unfoldable pub rfind : String → String → ℕ → Option ℕ
unfolding starts_with
rfind sub String.[] end = none
rfind sub (String.◌∷◌ c s) end = elim (rfind sub s (end - 1)) [
  | some i ↦ some (suc i)
  | none ↦ if starts_with sub (String.◌∷◌ c s) && leb (text_length sub) end then some 0 else none
]

-- The position that is used only if it is above 0.
abbrev pub or_else : Option ℕ → ℕ → ℕ
or_else none n = n
or_else (some zero) n = n
or_else (some (suc i)) n = suc i

-- Where an over-long diff is cut: at a file, at a line, at the budget.
unfoldable pub cut_at : String → ℕ → ℕ
unfolding rfind
cut_at diff budget =
    or_else (rfind "\ndiff --git " diff budget) (or_else (rfind "\n" diff budget) budget)

unfoldable pub cut_diff : String → ℕ → String
unfolding cut_at take_text
cut_diff diff budget =
    if ltb budget (text_length diff) then take_text (cut_at diff budget) diff else diff

abbrev pub or_empty : Option String → String
or_empty none = ""
or_empty (some s) = s

abbrev pub context_of : Pull → String → ℕ → List String × List (String × ℕ) → PrContext
context_of pull diff budget (files, positions) = record {
  title = or_empty pull.title;
  body = or_empty pull.body;
  head_sha = pull.head_sha;
  base_ref = pull.base_ref;
  diff = cut_diff diff budget;
  diff_files = files;
  diff_positions = positions;
  truncated = ltb budget (text_length diff);
}

-- `fetch_pr_context`, once it has its answers.
unfoldable pub fetch_pr_context : (ℕ → Option ℕ) → Pull → String → ℕ → Option PrContext
unfolding parse_diff cut_diff
fetch_pr_context digit_value pull diff budget = elim (parse_diff digit_value diff) [
  | none ↦ none
  | some found ↦ some (context_of pull diff budget found)
]
