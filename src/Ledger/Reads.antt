-- ===== src/Ledger/Reads.antt =====
-- sidecar/review_state.py, the reads that a round makes: the open ledger, the settled ledger and the
-- number of the next round.
use fuko_pr.Prelude.{
  ℕ, ◌+◌, ◌-◌, min, max, String, Bool, ◌&&◌, ◌||◌, Option, List, [], ◌∷◌, map, ltb, leb, length,
  take, filterb, sort, ◌==◌, nat_eq, text_eq, if◌then◌else◌,
}
use fuko_pr.Ledger.Rows.{
  Db, Lane, same_lane, lane_eq, Status, is_open, is_reopenable, FindingRow, CoverageRow, Env,
  FindingId, uuid, max_open_findings, max_settled_findings, retention,
}
use fuko_pr.Ledger.Actions.{Action, reads, best_effort}

-- What the next round is shown of an open row (PriorFinding), with the row's id beside it.
pub record PriorFinding : Type 0 where
  pub file : String
  pub title : String
  pub body : String
  pub line : Option ℕ
  pub severity : String
  pub category : String
  pub round : ℕ
  pub evidence : String

pub record StoredFinding : Type 0 where
  pub id : FindingId
  pub prior : PriorFinding

pub record OpenLedger : Type 0 where
  pub rows : List StoredFinding
  pub truncated : ℕ

-- `updated_at > now() - make_interval(days => RETENTION_DAYS)`
abbrev pub within_retention : ℕ → ℕ → Bool
within_retention now at = ltb now (at + retention)

-- The WHERE of `open_findings`
unfoldable pub is_offered : ℕ → Lane → FindingRow → Bool
is_offered now lane r =
    same_lane r.lane lane && (is_open r.status && within_retention now r.updated_at)

-- ORDER BY round, created_at, id
unfoldable pub oldest_first : FindingRow → FindingRow → Bool
oldest_first a b =
    ltb a.round b.round
    || ((a.round == b.round)
        && (ltb a.created_at b.created_at || ((a.created_at == b.created_at) && leb a.id b.id)))

unfoldable pub stored_finding : FindingRow → StoredFinding
stored_finding r = record {
  id = uuid r.id;
  prior = record {
    file = r.file;
    title = r.title;
    body = r.body;
    line = r.line;
    severity = r.severity;
    category = r.category;
    round = r.round;
    evidence = r.evidence;
  };
}

-- `min(max(1, limit), cap)`
abbrev pub clamp_limit : ℕ → ℕ → ℕ
clamp_limit limit cap = min (max 1 limit) cap

-- The read: the window is what passes the WHERE, and `count(*) OVER ()` is its size.
unfoldable pub read_open : ℕ → Lane → ℕ → List FindingRow → OpenLedger
unfolding is_offered oldest_first stored_finding
read_open now lane limit rows =
    let window = filterb (is_offered now lane) rows in
    let kept = take (clamp_limit limit max_open_findings) (sort oldest_first window) in
    record { rows = map stored_finding kept; truncated = length window - length kept }

unfoldable pub open_findings : Env → Lane → ℕ → Action OpenLedger
unfolding read_open
open_findings env lane limit =
    best_effort env (record { rows = []; truncated = 0 })
      λ now. reads (λ db. read_open now lane limit db.findings)

unfoldable pub max_finding_round : Lane → List FindingRow → ℕ
max_finding_round lane [] = 0
max_finding_round lane (r ∷ rs) =
    max (if same_lane r.lane lane then r.round else 0) (max_finding_round lane rs)

unfoldable pub max_coverage_round : Lane → List CoverageRow → ℕ
max_coverage_round lane [] = 0
max_coverage_round lane (r ∷ rs) =
    max (if same_lane r.lane lane then r.round else 0) (max_coverage_round lane rs)

-- `coalesce(max(round), 0)` over both tables
unfoldable pub last_round : Lane → Db → ℕ
unfolding max_finding_round max_coverage_round
last_round lane db = max (max_finding_round lane db.findings) (max_coverage_round lane db.coverage)

-- `coalesce(max(round), 0) + 1` over both tables; a round is never below 0.
unfoldable pub next_round : Env → Lane → Action ℕ
unfolding last_round
next_round env lane = best_effort env 1 λ now. reads (λ db. last_round lane db + 1)

pub record SettledFinding : Type 0 where
  pub id : FindingId
  pub file : String
  pub title : String
  pub status : Status
  pub round : ℕ
  pub reason : String

-- The WHERE of `settled_findings`
unfoldable pub is_settled : ℕ → Lane → FindingRow → Bool
is_settled now lane r =
    same_lane r.lane lane && (is_reopenable r.status && within_retention now r.updated_at)

-- ORDER BY updated_at DESC, id DESC
unfoldable pub newest_closure_first : FindingRow → FindingRow → Bool
newest_closure_first a b =
    ltb b.updated_at a.updated_at || ((a.updated_at == b.updated_at) && leb b.id a.id)

unfoldable pub settled_finding : FindingRow → SettledFinding
settled_finding r = record {
  id = uuid r.id;
  file = r.file;
  title = r.title;
  status = r.status;
  round = r.round;
  reason = r.status_reason;
}

unfoldable pub read_settled : ℕ → Lane → ℕ → List FindingRow → List SettledFinding
unfolding is_settled newest_closure_first settled_finding
read_settled now lane limit rows = map settled_finding (
    take (clamp_limit limit max_settled_findings)
      (sort newest_closure_first (filterb (is_settled now lane) rows)))

unfoldable pub settled_findings : Env → Lane → ℕ → Action (List SettledFinding)
unfolding read_settled
settled_findings env lane limit =
    best_effort env [] λ now. reads (λ db. read_settled now lane limit db.findings)
