-- ===== src/Ledger/Prior.antt =====
-- sidecar/reviewer/prompt.py, the ids that a round may cite and the verdicts that are accepted:
-- `PriorState`, `accepted_status`, and what `render_prior_state` shows.
use fuko_pr.Prelude.{
  ℕ, suc, ◌-◌, String, ◌≡◌, ◌↔◌, Bool, true, false, not, ◌&&◌, ◌||◌, List, [], ◌∷◌, arith, leb,
  is_some, length, take, elem, sort, get, ◌==◌, ==_iff, Eq, nat_eq, text_eq, if◌then◌else◌,
}
use fuko_pr.Ledger.Coverage.{PriorCoverage}
use fuko_pr.Ledger.Reads.{PriorFinding}

-- The text of a prior id: `p{n}`, which the renderer mints, or any other text.
pub data PriorId : Type 0 where
  minted : ℕ → PriorId
  other : String → PriorId

abbrev pub same_id : PriorId → PriorId → Bool
same_id (minted n) (minted m) = n == m
same_id (minted n) (other s) = false
same_id (other s) (minted n) = false
same_id (other s) (other t) = s == t

pub same_id_iff : (a b : PriorId) → (same_id a b ≡ true) ↔ (a ≡ b)
same_id_iff (minted n) (minted m) = ground (arith, ==_iff n m)
same_id_iff (minted n) (other s) = ground arith
same_id_iff (other s) (minted n) = ground arith
same_id_iff (other s) (other t) = ground (arith, ==_iff s t)

instance abbrev pub prior_id_eq : Eq PriorId
prior_id_eq = record { same = same_id; decides = same_id_iff }

-- PriorFindingStatus
pub record Verdict : Type 0 where
  pub id : PriorId
  pub status : String
  pub reason : String

-- PRIOR_STATUS_VOCABULARY
abbrev pub in_vocabulary : String → Bool
in_vocabulary s = (s == "fixed") || ((s == "still_open") || (s == "rejected"))

-- `{f"p{n}": finding for n, finding in enumerate(findings, start=n)}`
unfoldable pub mint_ids : ℕ → List PriorFinding → List (PriorId × PriorFinding)
mint_ids n [] = []
mint_ids n (f ∷ fs) = (minted n, f) ∷ mint_ids (suc n) fs

abbrev pub max_prior_coverage : ℕ
max_prior_coverage = 40

-- `sorted(coverage, key=lambda c: c.round, reverse=True)` keeps equal rounds in order.
abbrev pub later_round : PriorCoverage → PriorCoverage → Bool
later_round a b = leb b.round a.round

-- The section that a round is handed: the ids in it, the coverage entries shown, and how many
-- were cut. Its text is the layout of these.
pub record PriorState : Type 0 where
  pub ids : List (PriorId × PriorFinding)
  pub shown : List PriorCoverage
  pub dropped : ℕ

unfoldable pub render_prior_state : List PriorFinding → List PriorCoverage → PriorState
unfolding mint_ids
render_prior_state findings coverage =
    let ordered = sort later_round coverage in
    let kept = take max_prior_coverage ordered in
    record { ids = mint_ids 1 findings; shown = kept; dropped = length ordered - length kept }

unfoldable pub accept_from :
    List (PriorId × PriorFinding) → List PriorId → List Verdict → List Verdict
accept_from ids seen [] = []
accept_from ids seen (e ∷ es) =
    let accepted = in_vocabulary e.status && (is_some (get ids e.id) && not (elem e.id seen)) in
    let rest = accept_from ids (if accepted then e.id ∷ seen else seen) es in
    if accepted then e ∷ rest else rest

-- `PriorState.accepted_status`: the first recognised verdict on each id of the section.
unfoldable pub accepted_status : PriorState → List Verdict → List Verdict
unfolding accept_from
accepted_status state entries = accept_from state.ids [] entries
