-- ===== src/Fleet/Escalation.antt =====
-- sidecar/runner.py, `plan_escalation` and what it asks: which backups join a round. `getenv` is
-- `os.environ.get(name, "")`. Costs are compared in seconds, 60 times the minutes of the source.
use fuko_pr.Prelude.{
  ℕ, ◌+◌, ◌*◌, max, String, Bool, true, false, not, ◌&&◌, ◌||◌, Option, none, some, List, [], ◌∷◌,
  ◌++◌, ltb, length, map, filterb, elem, dedup, ◌==◌, nat_eq, text_eq, if◌then◌else◌,
}
use fuko_pr.Fleet.Models.{active, ReviewModel, ReviewConfig}
use fuko_pr.Fleet.Seats.{label}

-- `x or y` of an optional text
abbrev pub text_or : Option String → String → String
text_or none default = default
text_or (some s) default = if s == "" then default else s

-- `x or y` of an optional number
abbrev pub number_or : Option ℕ → ℕ → ℕ
number_or none default = default
number_or (some n) default = if n == 0 then default else n

-- `entry.backend or review.backend`
unfoldable pub backend_of : ReviewConfig → ReviewModel → String
backend_of review m = text_or m.backend review.backend

-- `_compatible_backups`
unfoldable pub compatible_backups : ReviewModel → List ReviewModel → ReviewConfig → List ReviewModel
unfolding backend_of
compatible_backups entry backups review =
    filterb (λ b. backend_of review b == backend_of review entry) backups

abbrev pub names_token : (String → String) → Option String → Bool
names_token getenv none = false
names_token getenv (some name) = not (name == "") && not (getenv name == "")

-- `_has_identity`
unfoldable pub has_identity : (String → String) → ReviewModel → Bool
has_identity getenv m = names_token getenv m.token_env

-- `fleet_sequential_cost_minutes`, in seconds
unfoldable pub sequential_cost : ReviewConfig → ℕ → List ReviewModel → ℕ
sequential_cost review tools [] = 0
sequential_cost review tools (m ∷ ms) =
    tools * number_or m.config.tool_timeout review.tool_timeout + sequential_cost review tools ms

abbrev pub over_budget : ℕ → Option ℕ → Bool
over_budget cost none = false
over_budget cost (some minutes) = ltb (60 * minutes) cost

-- Why a backup is not promoted.
pub data Refusal : Type 0 where
  no_identity other_backend no_budget : Refusal

-- `entry.model_copy(update={"role": "active", "promoted": True})`
unfoldable pub promoted_entry : ReviewModel → ReviewModel
promoted_entry m = record m { role = active; promoted = true }

-- `active_backends or {backends of promote}`
abbrev pub or_backends : List String → List String → List String
or_backends [] others = others
or_backends (b ∷ bs) others = b ∷ bs

-- The round has backends already, and not the entry's alone.
abbrev pub joins_other : List String → String → Bool
joins_other [] backend = false
joins_other (b ∷ bs) backend = not (length (dedup (b ∷ bs)) == 1) || not (elem backend (b ∷ bs))

-- The three tests, in order.
unfoldable pub refusal :
    (String → String)
    → List ReviewModel
    → ReviewConfig
    → Bool
    → List ReviewModel
    → ReviewModel
    → Option Refusal
unfolding has_identity backend_of sequential_cost dedup
refusal getenv existing review concurrent promote entry =
    let round_backends =
      or_backends (map (backend_of review) existing) (map (backend_of review) promote) in
    let cost =
      sequential_cost review (max (length review.tools) 1) (existing ++ (promote ++ entry ∷ [])) in
    if concurrent && not (has_identity getenv entry)
    then some no_identity
    else (if joins_other round_backends (backend_of review entry)
        then some other_backend
        else (if over_budget cost review.job_budget_minutes then some no_budget else none))

-- What `plan_escalation` returns: the promoted entries, and a reason for each of the others.
pub record Plan : Type 0 where
  pub promote : List ReviewModel
  pub reasons : List (String × Refusal)

abbrev pub plan_step : Plan → ReviewModel → Option Refusal → Plan
plan_step plan entry none = record plan { promote = plan.promote ++ promoted_entry entry ∷ [] }
plan_step plan entry (some why) = record plan { reasons = plan.reasons ++ (label entry, why) ∷ [] }

unfoldable pub plan_from :
    (String → String) → List ReviewModel → ReviewConfig → Bool → Plan → List ReviewModel → Plan
unfolding refusal promoted_entry
plan_from getenv existing review concurrent plan [] = plan
plan_from getenv existing review concurrent plan (entry ∷ backups) =
    plan_from getenv existing review concurrent
      (plan_step plan entry (refusal getenv existing review concurrent plan.promote entry)) backups

-- `plan_escalation`
unfoldable pub plan_escalation :
    (String → String) → List ReviewModel → List ReviewModel → ReviewConfig → Bool → Plan
unfolding plan_from
plan_escalation getenv existing backups review concurrent =
    plan_from getenv existing review concurrent (record { promote = []; reasons = [] }) backups
