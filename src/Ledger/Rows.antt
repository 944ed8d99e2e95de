-- ===== src/Ledger/Rows.antt =====
-- The rows of the tables review_findings and review_coverage, the database that holds them, and
-- the environment of a call: sidecar/review_state.py over migrations/009 and 010.
use fuko_pr.Prelude.{
  ℕ, String, ◌≡◌, ◌↔◌, Bool, true, false, ◌&&◌, Option, none, some, List, [], arith, ◌==◌, ==_iff,
  Eq, nat_eq, text_eq, if◌then◌else◌, take_text,
}

-- The key of one ledger: (repo, pr, seat).
pub record Lane : Type 0 where
  pub repo : String
  pub pr : ℕ
  pub seat : String

-- `WHERE repo = %s AND pr = %s AND seat = %s`
abbrev pub same_lane : Lane → Lane → Bool
same_lane a b = (a.repo == b.repo) && (a.pr == b.pr) && (a.seat == b.seat)

pub same_lane_iff : (a b : Lane) → (same_lane a b ≡ true) ↔ (a ≡ b)
same_lane_iff a b = grind (arith, ==_iff a.repo b.repo, ==_iff a.pr b.pr, ==_iff a.seat b.seat)

instance abbrev pub lane_eq : Eq Lane
lane_eq = record { same = same_lane; decides = same_lane_iff }

-- FINDING_STATUSES
pub data Status : Type 0 where
  opened fixed rejected stale : Status

-- `status in FINDING_STATUSES`, and the status that the word names.
unfoldable pub parse_status : String → Option Status
parse_status s =
    if s == "open"
    then some opened
    else if s == "fixed"
    then some fixed
    else if s == "rejected"
    then some rejected
    else if s == "stale"
    then some stale
    else none

unfoldable pub status_text : Status → String
status_text opened = "open"
status_text fixed = "fixed"
status_text rejected = "rejected"
status_text stale = "stale"

abbrev pub is_open : Status → Bool
is_open opened = true
is_open _ = false

-- `status = ANY(REOPENABLE_STATUSES)`
abbrev pub is_reopenable : Status → Bool
is_reopenable fixed = true
is_reopenable rejected = true
is_reopenable _ = false

-- A row of review_findings. An id is the number that the UUID stands for.
pub record FindingRow : Type 0 where
  pub id : ℕ
  pub lane : Lane
  pub round : ℕ
  pub head_sha : String
  pub file : String
  pub line : Option ℕ
  pub severity : String
  pub category : String
  pub title : String
  pub body : String
  pub evidence : String
  pub status : Status
  pub status_reason : String
  pub created_at : ℕ
  pub updated_at : ℕ
  pub reopened : ℕ

-- A row of review_coverage.
pub record CoverageRow : Type 0 where
  pub id : ℕ
  pub lane : Lane
  pub round : ℕ
  pub head_sha : String
  pub file : String
  pub region : String
  pub checked : String
  pub conclusion : String
  pub evidence : String
  pub expired_at : Option ℕ
  pub created_at : ℕ

-- The two tables, with two counters that index the environment: the connections asked for so
-- far, and the ids drawn so far, which stands for the state of gen_random_uuid(): no line of the
-- source keeps it.
pub record Db : Type 0 where
  pub findings : List FindingRow
  pub coverage : List CoverageRow
  pub calls : ℕ
  pub minted : ℕ

abbrev pub empty_db : Db
empty_db = record { findings = []; coverage = []; calls = 0; minted = 0 }

-- What a call meets and does not decide: whether a database is configured, whether its nth
-- connection is served, the database's clock in seconds at that connection, and the nth id of
-- gen_random_uuid().
pub record Env : Type 0 where
  pub enabled : Bool
  pub up : ℕ → Bool
  pub clock : ℕ → ℕ
  pub uuid : ℕ → ℕ

-- A text given as a finding id: `uuid.UUID(str(value))` reads it as a number, or refuses it.
pub data FindingId : Type 0 where
  uuid : ℕ → FindingId
  malformed : String → FindingId

abbrev pub max_open_findings : ℕ
max_open_findings = 200

abbrev pub max_settled_findings : ℕ
max_settled_findings = 200

abbrev pub max_live_coverage : ℕ
max_live_coverage = 500

-- RETENTION_DAYS, in seconds
abbrev pub retention : ℕ
retention = 7776000

abbrev pub max_text : ℕ
max_text = 4000

-- `_clip`
unfoldable pub clip : String → String
unfolding take_text
clip s = take_text max_text s
