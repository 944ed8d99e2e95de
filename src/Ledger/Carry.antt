-- ===== src/Ledger/Carry.antt =====
-- sidecar/reviewer/ledger.py, what a round carries in: `carry_in` and its helpers.
use Prim.Native.String.{compare}
use text.Mathlib.Text.{is_le}
use fuko_pr.Prelude.{
  dedup, ℕ, ◌+◌, ◌-◌, min, String, Bool, true, false, not, ◌&&◌, none, some, List, [], ◌∷◌, ◌<+>◌,
  map, strip, has_text, length, filterb, elem, sort, nat_eq, text_eq, if◌then◌else◌,
}
use fuko_pr.Ledger.Rows.{Lane, Env, FindingId, max_open_findings, max_live_coverage}
use fuko_pr.Ledger.Actions.{Action, ◌>>=◌, ◌>>◌, pure}
use fuko_pr.Ledger.Writes.{Region, transition}
use fuko_pr.Ledger.Reads.{PriorFinding, StoredFinding, open_findings, next_round}
use fuko_pr.Ledger.Coverage.{PriorCoverage, Files, paths, live_coverage, expire_coverage}
use fuko_pr.Ledger.Prior.{PriorId, PriorState, render_prior_state, max_prior_coverage}
use fuko_pr.Ledger.Tree.{Tree, tree_root, is_gone}

-- CarriedState
pub record CarriedState : Type 0 where
  pub state : PriorState
  pub rows : List (PriorId × FindingId)
  pub round : ℕ
  pub truncated : ℕ
  pub coverage : ℕ
  pub expired : ℕ

-- The loop of `_retire_missing`: rows whose file is gone become stale, the others are kept.
unfoldable pub retire_rows :
    Env → Lane → Tree → String → String → List StoredFinding → Action (List StoredFinding)
retire_rows env lane tree root head_sha [] = pure []
retire_rows env lane tree root head_sha (r ∷ rs) =
    let retired = (do
      transition env lane r.id "stale" ("file absent from the tree at " <+> head_sha)
      retire_rows env lane tree root head_sha rs) in
    let kept = (do live ← retire_rows env lane tree root head_sha rs; pure (r ∷ live)) in
    if is_gone tree root r.prior.file then retired else kept

unfoldable pub retire_missing :
    Env → Lane → Tree → String → List StoredFinding → Action (List StoredFinding)
unfolding tree_root retire_rows
retire_missing env lane tree reason stored = elim (tree_root tree) [
  | none ↦ pure stored
  | some root ↦ retire_rows env lane tree root reason stored
]

abbrev pub text_le : String → String → Bool
text_le s t = is_le (compare s t)

-- `sorted(set(files))`
abbrev pub sorted_set : List String → List String
sorted_set files = sort text_le (dedup files)

-- `_expiry_targets`, whose argument is a sequence of paths or one text. For None, which its signature
-- rules out, it would raise a TypeError; here `every_file` passes through.
unfoldable pub expiry_targets : Files → Files
unfolding dedup
expiry_targets (paths files) = paths (sorted_set files)
expiry_targets files = files

-- `_keyed`: the file of an entry is a matching key, and is stripped.
unfoldable pub keyed : List Region → List Region
keyed [] = []
keyed (r ∷ rs) = record r { file = strip r.file } ∷ keyed rs

-- EXAMINED_REQUIRED_FIELDS are all non-blank.
unfoldable pub is_retraceable : PriorCoverage → Bool
is_retraceable c =
    has_text c.file && (has_text c.checked && (has_text c.conclusion && has_text c.evidence))

pub record CarriedCoverage : Type 0 where
  pub kept : List PriorCoverage
  pub hollow : ℕ
  pub retired : ℕ

-- The files of kept entries that the tree no longer has.
unfoldable pub gone_files : Tree → String → List PriorCoverage → List String
unfolding dedup
gone_files tree root kept = sorted_set (
    map (λ (c : PriorCoverage). c.file)
      (filterb (λ (c : PriorCoverage). is_gone tree root c.file) kept))

unfoldable pub drop_gone :
    Env → Lane → List PriorCoverage → ℕ → List String → Action CarriedCoverage
drop_gone env lane kept hollow [] = pure (record { kept = kept; hollow = hollow; retired = 0 })
drop_gone env lane kept hollow (g ∷ gs) = do
  retired ← expire_coverage env lane (paths (g ∷ gs))
  pure (record {
    kept = filterb (λ (c : PriorCoverage). not (elem c.file (g ∷ gs))) kept;
    hollow = hollow;
    retired = retired;
  })

unfoldable pub check_tree : Env → Lane → Tree → List PriorCoverage → ℕ → Action CarriedCoverage
unfolding drop_gone tree_root
check_tree env lane tree kept hollow = elim (tree_root tree) [
  | none ↦ pure (record { kept = kept; hollow = hollow; retired = 0 })
  | some root ↦ drop_gone env lane kept hollow (gone_files tree root kept)
]

-- `_carried_coverage`
unfoldable pub carried_coverage : Env → Lane → Tree → Action CarriedCoverage
unfolding check_tree is_retraceable
carried_coverage env lane tree = do
  rows ← live_coverage env lane max_live_coverage
  let kept = filterb is_retraceable rows
  check_tree env lane tree kept (length rows - length kept)

-- `{minted: row.id for minted, row in zip(state.ids, live)}`
unfoldable pub zip_ids :
    List (PriorId × PriorFinding) → List StoredFinding → List (PriorId × FindingId)
zip_ids [] rows = []
zip_ids (i ∷ ids) [] = []
zip_ids ((i, f) ∷ ids) (r ∷ rs) = (i, r.id) ∷ zip_ids ids rs

pub record LoadedFindings : Type 0 where
  pub live : List StoredFinding
  pub truncated : ℕ

unfoldable pub load_findings : Env → Lane → Tree → String → Bool → Action LoadedFindings
unfolding retire_missing
load_findings env lane tree reason false = pure (record { live = []; truncated = 0 })
load_findings env lane tree reason true = do
  opened ← open_findings env lane max_open_findings
  live ← retire_missing env lane tree reason opened.rows
  pure (record { live = live; truncated = opened.truncated })

unfoldable pub load_coverage : Env → Lane → Tree → Bool → Action CarriedCoverage
unfolding carried_coverage
load_coverage env lane tree false = pure (record { kept = []; hollow = 0; retired = 0 })
load_coverage env lane tree true = carried_coverage env lane tree

-- What a call of `carry_in` is given beside the lane.
pub record CarryArgs : Type 0 where
  pub tree : Tree
  pub head_sha : String
  pub touched_files : Files
  pub coverage_ledger : Bool
  pub findings_ledger : Bool

unfoldable pub carry_in : Env → Lane → CarryArgs → Action CarriedState
unfolding expiry_targets load_findings load_coverage zip_ids render_prior_state
carry_in env lane args = do
  expired ← expire_coverage env lane (expiry_targets args.touched_files)
  loaded ← load_findings env lane args.tree args.head_sha args.findings_ledger
  carried ← load_coverage env lane args.tree args.coverage_ledger
  let state = render_prior_state (map (λ (r : StoredFinding). r.prior) loaded.live) carried.kept
  round ← next_round env lane
  pure (record {
    state = state;
    rows = zip_ids state.ids loaded.live;
    round = round;
    truncated = loaded.truncated;
    coverage = min (length carried.kept) max_prior_coverage;
    expired = expired + carried.retired;
  })
