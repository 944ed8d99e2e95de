-- ===== src/Ledger/Writes.antt =====
-- sidecar/review_state.py, the writes to review_findings. Each returns its neutral value when no
-- store is configured or the connection fails.
use fuko_pr.Prelude.{
  ℕ, suc, ◌+◌, String, Bool, false, ◌&&◌, Option, none, some, List, [], ◌∷◌, ◌++◌, ltb, length,
  countb, elem, ◌==◌, nat_eq, text_eq,
}
use fuko_pr.Ledger.Rows.{
  Lane, same_lane, lane_eq, Status, opened, parse_status, is_open, is_reopenable, FindingRow, Env,
  FindingId, uuid, malformed, clip,
}
use fuko_pr.Ledger.Table.{update_where}
use fuko_pr.Ledger.Actions.{Action, pure, best_effort}

-- What a round reports, as far as the store writes it (AgenticFinding, ExaminedRegion).
pub record Finding : Type 0 where
  pub file : String
  pub line : Option ℕ
  pub severity : String
  pub category : String
  pub title : String
  pub body : String
  pub evidence : String

pub record Region : Type 0 where
  pub file : String
  pub region : String
  pub checked : String
  pub conclusion : String
  pub evidence : String

unfoldable pub finding_row : Env → ℕ → ℕ → Lane → ℕ → String → Finding → FindingRow
unfolding clip
finding_row env n now lane round head_sha f = record {
  id = env.uuid n;
  lane = lane;
  round = round;
  head_sha = head_sha;
  file = clip f.file;
  line = f.line;
  severity = clip f.severity;
  category = clip f.category;
  title = clip f.title;
  body = clip f.body;
  evidence = clip f.evidence;
  status = opened;
  status_reason = "";
  created_at = now;
  updated_at = now;
  reopened = 0;
}

-- The INSERTs of one call, in order: the nth row draws the nth id.
unfoldable pub finding_rows : Env → ℕ → ℕ → Lane → ℕ → String → List Finding → List FindingRow
unfolding finding_row
finding_rows env n now lane round head_sha [] = []
finding_rows env n now lane round head_sha (f ∷ fs) =
    finding_row env n now lane round head_sha f
    ∷ finding_rows env (suc n) now lane round head_sha fs

-- The transaction of `record_findings`, at one instant.
unfoldable pub insert_findings : Env → Lane → ℕ → String → List Finding → ℕ → Action ℕ
unfolding finding_rows
insert_findings env lane round head_sha fs now db = (
  length fs,
  record db {
    findings = db.findings ++ finding_rows env db.minted now lane round head_sha fs;
    minted = db.minted + length fs;
  },
)

unfoldable pub record_findings : Env → Lane → ℕ → String → List Finding → Action ℕ
record_findings env lane round head_sha [] = pure 0
record_findings env lane round head_sha (f ∷ fs) =
    best_effort env 0 (insert_findings env lane round head_sha (f ∷ fs))

-- The WHERE of `transition`
unfoldable pub may_transition : Lane → ℕ → FindingRow → Bool
may_transition lane n r = (r.id == n) && (is_open r.status && same_lane r.lane lane)

unfoldable pub set_status : Status → String → ℕ → FindingRow → FindingRow
unfolding clip
set_status status reason now r = record r {
  status = status;
  status_reason = clip reason;
  updated_at = now;
}

-- The UPDATE of `transition`, at one instant.
unfoldable pub move_row : Lane → ℕ → Status → String → ℕ → Action Bool
unfolding may_transition set_status update_where
move_row lane n status reason now db = (
  ltb 0 (countb (may_transition lane n) db.findings),
  record db {
    findings = update_where (may_transition lane n) (set_status status reason now) db.findings;
  },
)

unfoldable pub transition_row : Env → Lane → Option Status → FindingId → String → Action Bool
transition_row env lane none id reason = pure false
transition_row env lane (some status) (malformed s) reason = pure false
transition_row env lane (some status) (uuid n) reason =
    best_effort env false (move_row lane n status reason)

unfoldable pub transition : Env → Lane → FindingId → String → String → Action Bool
unfolding transition_row parse_status
transition env lane id status reason = transition_row env lane (parse_status status) id reason

-- The WHERE of `reopen`
unfoldable pub may_reopen : Lane → ℕ → FindingRow → Bool
may_reopen lane n r = (r.id == n) && (is_reopenable r.status && same_lane r.lane lane)

unfoldable pub set_reopened : String → ℕ → FindingRow → FindingRow
unfolding clip
set_reopened reason now r = record r {
  status = opened;
  status_reason = clip reason;
  reopened = r.reopened + 1;
  updated_at = now;
}

-- The UPDATE of `reopen`, at one instant.
unfoldable pub raise_row : Lane → ℕ → String → ℕ → Action Bool
unfolding may_reopen set_reopened update_where
raise_row lane n reason now db = (
  ltb 0 (countb (may_reopen lane n) db.findings),
  record db { findings = update_where (may_reopen lane n) (set_reopened reason now) db.findings },
)

unfoldable pub reopen : Env → Lane → FindingId → String → Action Bool
reopen env lane (malformed s) reason = pure false
reopen env lane (uuid n) reason = best_effort env false (raise_row lane n reason)

-- `[i for i in finding_ids if _is_uuid(i)]`
unfoldable pub uuids : List FindingId → List ℕ
uuids [] = []
uuids (uuid n ∷ ids) = n ∷ uuids ids
uuids (malformed s ∷ ids) = uuids ids

-- The WHERE of `touch_findings`
unfoldable pub may_touch : Lane → List ℕ → FindingRow → Bool
may_touch lane ids r = elem r.id ids && (is_open r.status && same_lane r.lane lane)

unfoldable pub set_touched : ℕ → FindingRow → FindingRow
set_touched now r = record r { updated_at = now }

-- The UPDATE of `touch_findings`, at one instant.
unfoldable pub refresh_rows : Lane → List ℕ → ℕ → Action ℕ
unfolding may_touch set_touched update_where
refresh_rows lane ids now db = (
  countb (may_touch lane ids) db.findings,
  record db { findings = update_where (may_touch lane ids) (set_touched now) db.findings },
)

unfoldable pub touch_rows : Env → Lane → List ℕ → Action ℕ
touch_rows env lane [] = pure 0
touch_rows env lane (n ∷ ns) = best_effort env 0 (refresh_rows lane (n ∷ ns))

unfoldable pub touch_findings : Env → Lane → List FindingId → Action ℕ
unfolding touch_rows uuids
touch_findings env lane ids = touch_rows env lane (uuids ids)
