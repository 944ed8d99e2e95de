-- ===== src/Ledger/Settle.antt =====
-- sidecar/reviewer/ledger.py, how a round ends: `settle` and its helpers. `casefold` is
-- `str.casefold`, a table of the Unicode standard.
use fuko_pr.Prelude.{
  ℕ, ◌+◌, String, Bool, true, false, ◌&&◌, ◌||◌, Option, none, some, List, [], ◌∷◌, ◌++◌, ◌<+>◌,
  map, strip, has_text, length, elem, get, put, remove, is_some, ◌==◌, nat_eq, text_eq, pair_eq,
  if◌then◌else◌,
}
use fuko_pr.Ledger.Rows.{Lane, Env, FindingId}
use fuko_pr.Ledger.Actions.{Action, ◌>>=◌, ◌>>◌, pure}
use fuko_pr.Ledger.Writes.{Finding, Region, record_findings, transition, reopen, touch_findings}
use fuko_pr.Ledger.Reads.{PriorFinding, SettledFinding}
use fuko_pr.Ledger.Coverage.{record_coverage}
use fuko_pr.Ledger.Prior.{PriorId, prior_id_eq, Verdict, accepted_status}
use fuko_pr.Ledger.Carry.{CarriedState, keyed}
use fuko_pr.Ledger.Claims.{finding_id_eq, Anchor, claim_anchor, reopen_reason, reopen_candidates}

-- Settlement
pub record Settlement : Type 0 where
  pub closed : ℕ
  pub reasserted : ℕ
  pub recorded : ℕ
  pub deduped : List String
  pub reopened : List String
  pub coverage : ℕ

-- The variables of the verdict loop of `settle`.
pub record Verdicts : Type 0 where
  pub touch : List FindingId
  pub closed : ℕ
  pub settled : List PriorId

abbrev pub no_verdicts : Verdicts
no_verdicts = record { touch = []; closed = 0; settled = [] }

-- `entry.status == "fixed" or (entry.status == "rejected" and reason)`
unfoldable pub closes : Verdict → Bool
closes e = (e.status == "fixed") || ((e.status == "rejected") && has_text e.reason)

unfoldable pub apply_to_row : Env → Lane → Verdicts → Verdict → FindingId → Action Verdicts
unfolding closes
apply_to_row env lane v e row_id =
    let close = (do
      changed ← transition env lane row_id e.status (strip e.reason)
      pure (record v {
        closed = v.closed + (if changed then 1 else 0);
        settled = e.id ∷ v.settled;
      })) in
    if closes e then close else pure (record v { touch = v.touch ++ row_id ∷ [] })

unfoldable pub apply_verdict :
    Env → Lane → List (PriorId × FindingId) → Verdicts → Verdict → Action Verdicts
unfolding apply_to_row
apply_verdict env lane rows v e = elim (get rows e.id) [
  | none ↦ pure v
  | some row_id ↦ apply_to_row env lane v e row_id
]

unfoldable pub apply_verdicts :
    Env → Lane → List (PriorId × FindingId) → Verdicts → List Verdict → Action Verdicts
apply_verdicts env lane rows v [] = pure v
apply_verdicts env lane rows v (e ∷ es) = do
  v' ← apply_verdict env lane rows v e
  apply_verdicts env lane rows v' es

-- One entry of `still_open`, unless a verdict meant to close it or no row stands for its id.
unfoldable pub note_open :
    (String → String)
    → List PriorId
    → List (Anchor × FindingId)
    → PriorId
    → PriorFinding
    → Option FindingId
    → List (Anchor × FindingId)
note_open casefold settled out i prior none = out
note_open casefold settled out i prior (some row_id) =
    if elem i settled then out else put out (claim_anchor casefold prior.file prior.title) row_id

-- `still_open`: the carried rows that no verdict meant to close, by claim.
unfoldable pub still_open_from :
    (String → String)
    → List (PriorId × FindingId)
    → List PriorId
    → List (Anchor × FindingId)
    → List (PriorId × PriorFinding)
    → List (Anchor × FindingId)
unfolding note_open
still_open_from casefold rows settled out [] = out
still_open_from casefold rows settled out ((i, prior) ∷ ids) =
    still_open_from casefold rows settled (note_open casefold settled out i prior (get rows i)) ids

-- The variables of the loop over the published findings.
pub record Matching : Type 0 where
  pub still_open : List (Anchor × FindingId)
  pub fresh : List (Anchor × Finding)
  pub candidates : List (Anchor × SettledFinding)
  pub touch : List FindingId
  pub deduped : List String
  pub reopened : List String

abbrev pub claim_line : Finding → String
claim_line f = f.file <+> ": " <+> f.title

abbrev pub touch_once : List FindingId → FindingId → List FindingId
touch_once touch row_id = if elem row_id touch then touch else touch ++ row_id ∷ []

-- The last lines of the loop: a closed row of the claim is re-raised, or the finding is fresh.
unfoldable pub raise_claim :
    Env → Lane → ℕ → Matching → Anchor → Finding → Option SettledFinding → Action Matching
raise_claim env lane round m anchor f none = pure (record m { fresh = put m.fresh anchor f })
raise_claim env lane round m anchor f (some row) = do
  changed ← reopen env lane row.id (reopen_reason row round)
  pure (
      let m' = record m { candidates = remove m.candidates anchor } in
      if changed
      then record m' {
        reopened = m.reopened ++ claim_line f ∷ [];
        still_open = put m.still_open anchor row.id;
      }
      else record m' { fresh = put m.fresh anchor f })

-- One published finding against the row that this round left open on its claim, if any.
unfoldable pub match_claim :
    Env → Lane → ℕ → Matching → Anchor → Finding → Option FindingId → Action Matching
unfolding raise_claim
match_claim env lane round m anchor f (some row_id) =
    pure (record m { deduped = m.deduped ++ claim_line f ∷ []; touch = touch_once m.touch row_id })
match_claim env lane round m anchor f none =
    if is_some (get m.fresh anchor)
    then pure (record m { deduped = m.deduped ++ claim_line f ∷ [] })
    else raise_claim env lane round m anchor f (get m.candidates anchor)

unfoldable pub match_finding :
    (String → String) → Env → Lane → ℕ → Matching → Finding → Action Matching
unfolding claim_anchor match_claim
match_finding casefold env lane round m f =
    let anchor = claim_anchor casefold f.file f.title in
    match_claim env lane round m anchor f (get m.still_open anchor)

unfoldable pub match_findings :
    (String → String) → Env → Lane → ℕ → Matching → List Finding → Action Matching
match_findings casefold env lane round m [] = pure m
match_findings casefold env lane round m (f ∷ fs) = do
  m' ← match_finding casefold env lane round m f
  match_findings casefold env lane round m' fs

-- What a call of `settle` is given beside the lane and the carried state.
pub record SettleArgs : Type 0 where
  pub head_sha : String
  pub prior_status : List Verdict
  pub findings : List Finding
  pub examined : List Region
  pub coverage_ledger : Bool
  pub findings_ledger : Bool

abbrev pub values : List (Anchor × Finding) → List Finding
values = map (λ e. e.1)

-- The candidates are read only when something could re-raise them.
unfoldable pub candidates_for :
    (String → String) → Env → Lane → List Finding → Action (List (Anchor × SettledFinding))
unfolding reopen_candidates
candidates_for casefold env lane [] = pure []
candidates_for casefold env lane (f ∷ fs) = reopen_candidates casefold env lane

-- The matching pass and its three writes.
unfoldable pub settle_findings :
    (String → String) → Env → Lane → CarriedState → SettleArgs → Verdicts → Action Settlement
unfolding still_open_from match_findings candidates_for
settle_findings casefold env lane carried args v = do
  candidates ← candidates_for casefold env lane args.findings
  m ←
      match_findings casefold env lane carried.round
        (record {
          still_open = still_open_from casefold carried.rows v.settled [] carried.state.ids;
          fresh = [];
          candidates = candidates;
          touch = v.touch;
          deduped = [];
          reopened = [];
        })
        args.findings
  touch_findings env lane m.touch
  recorded ← record_findings env lane carried.round args.head_sha (values m.fresh)
  pure (record {
    closed = v.closed;
    reasserted = length m.touch;
    recorded = recorded;
    deduped = m.deduped;
    reopened = m.reopened;
    coverage = 0;
  })

-- Everything under `findings_ledger`.
unfoldable pub settle_claims :
    (String → String) → Env → Lane → CarriedState → SettleArgs → Bool → Action Settlement
unfolding apply_verdicts accepted_status settle_findings
settle_claims casefold env lane carried args false =
    pure (record {
      closed = 0;
      reasserted = 0;
      recorded = 0;
      deduped = [];
      reopened = [];
      coverage = 0;
    })
settle_claims casefold env lane carried args true = do
  v ←
      apply_verdicts env lane carried.rows no_verdicts
        (accepted_status carried.state args.prior_status)
  settle_findings casefold env lane carried args v

unfoldable pub settle_coverage : Env → Lane → CarriedState → SettleArgs → Bool → Action ℕ
settle_coverage env lane carried args false = pure 0
settle_coverage env lane carried args true =
    record_coverage env lane carried.round args.head_sha (keyed args.examined)

unfoldable pub settle :
    (String → String) → Env → Lane → CarriedState → SettleArgs → Action Settlement
unfolding settle_claims settle_coverage
settle casefold env lane carried args = do
  s ← settle_claims casefold env lane carried args args.findings_ledger
  covered ← settle_coverage env lane carried args args.coverage_ledger
  pure (record s { coverage = covered })
