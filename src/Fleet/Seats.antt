-- ===== src/Fleet/Seats.antt =====
-- sidecar/runner.py, `_slot_of` and `_branch_seats`: the ledger lane of each branch of a run.
-- `lower` is `str.lower`, a table of the Unicode standard.
use fuko_pr.Prelude.{
  ℕ, zero, suc, ◌+◌, max, String, ◌<+>◌, Option, none, some, List, [], ◌∷◌, map, elem, ◌==◌, nat_eq,
  text_eq, decimal, drop_text, starts_with, text_length, if◌then◌else◌,
}
use fuko_pr.Fleet.Models.{ReviewModel}

abbrev pub token_prefix : String
token_prefix = "FUKO_GITHUB_TOKEN_"

-- `x or None` of a text
abbrev pub or_none : String → Option String
or_none s = if s == "" then none else some s

abbrev pub slot_name : (String → String) → Option String → Option String
slot_name lower none = none
slot_name lower (some token_env) =
    if starts_with token_prefix token_env
    then or_none (lower (drop_text (text_length token_prefix) token_env))
    else none

-- `_slot_of`
unfoldable pub slot_of : (String → String) → ReviewModel → Option String
slot_of lower m = slot_name lower m.token_env

-- `slots.count(slot)`
unfoldable pub slot_count : String → List (Option String) → ℕ
slot_count s [] = 0
slot_count s (none ∷ slots) = slot_count s slots
slot_count s (some t ∷ slots) = (if t == s then 1 else 0) + slot_count s slots

abbrev pub label : ReviewModel → String
label m = m.config.provider <+> ("/" <+> m.config.name)

-- The slot, when no sibling has it, else the label.
unfoldable pub first_choice : List (Option String) → ReviewModel → Option String → String
unfolding slot_count
first_choice slots m none = label m
first_choice slots m (some s) = if slot_count s slots == 1 then s else label m

-- The length of the longest text.
unfoldable pub longest : List String → ℕ
longest [] = 0
longest (s ∷ ss) = max (text_length s) (longest ss)

-- `while seat in taken`: each turn makes the seat longer, so the turns that lead past the longest
-- seat taken are enough.
unfoldable pub free_seat : ℕ → List String → ℕ → String → String
free_seat zero taken index seat = seat
free_seat (suc fuel) taken index seat =
    let next = free_seat fuel taken index (seat <+> ("#" <+> decimal index)) in
    if elem seat taken then next else seat

-- The loop of `_branch_seats`, from an index on.
unfoldable pub seats_from :
    (String → String) → List (Option String) → ℕ → List String → List ReviewModel → List String
unfolding first_choice free_seat longest
seats_from lower slots index taken [] = []
seats_from lower slots index taken (m ∷ ms) =
    let seat =
      free_seat (suc (longest taken)) taken index (first_choice slots m (slot_of lower m)) in
    seat ∷ seats_from lower slots (suc index) (seat ∷ taken) ms

-- `_branch_seats`
unfoldable pub branch_seats : (String → String) → List ReviewModel → List String
unfolding seats_from slot_of
branch_seats lower reviewers = seats_from lower (map (slot_of lower) reviewers) 0 [] reviewers
