-- ===== src/Ledger/Coverage.antt =====
-- sidecar/review_state.py, the table review_coverage.
use fuko_pr.Prelude.{
  ℕ, suc, ◌+◌, String, Bool, not, ◌&&◌, ◌||◌, Option, none, some, List, [], ◌∷◌, ◌++◌, map, ltb,
  leb, is_some, length, take, filterb, countb, elem, sort, ◌==◌, nat_eq, text_eq,
}
use fuko_pr.Ledger.Rows.{Lane, same_lane, lane_eq, CoverageRow, Env, max_live_coverage, clip}
use fuko_pr.Ledger.Table.{update_where}
use fuko_pr.Ledger.Actions.{Action, pure, reads, best_effort}
use fuko_pr.Ledger.Writes.{Region}
use fuko_pr.Ledger.Reads.{within_retention, clamp_limit}

unfoldable pub coverage_row : Env → ℕ → ℕ → Lane → ℕ → String → Region → CoverageRow
unfolding clip
coverage_row env n now lane round head_sha r = record {
  id = env.uuid n;
  lane = lane;
  round = round;
  head_sha = head_sha;
  file = clip r.file;
  region = clip r.region;
  checked = clip r.checked;
  conclusion = clip r.conclusion;
  evidence = clip r.evidence;
  expired_at = none;
  created_at = now;
}

unfoldable pub coverage_rows : Env → ℕ → ℕ → Lane → ℕ → String → List Region → List CoverageRow
unfolding coverage_row
coverage_rows env n now lane round head_sha [] = []
coverage_rows env n now lane round head_sha (r ∷ rs) =
    coverage_row env n now lane round head_sha r
    ∷ coverage_rows env (suc n) now lane round head_sha rs

-- The transaction of `record_coverage`, at one instant.
unfoldable pub insert_coverage : Env → Lane → ℕ → String → List Region → ℕ → Action ℕ
unfolding coverage_rows
insert_coverage env lane round head_sha rs now db = (
  length rs,
  record db {
    coverage = db.coverage ++ coverage_rows env db.minted now lane round head_sha rs;
    minted = db.minted + length rs;
  },
)

unfoldable pub record_coverage : Env → Lane → ℕ → String → List Region → Action ℕ
record_coverage env lane round head_sha [] = pure 0
record_coverage env lane round head_sha (r ∷ rs) =
    best_effort env 0 (insert_coverage env lane round head_sha (r ∷ rs))

-- One live entry as a later round reads it.
pub record PriorCoverage : Type 0 where
  pub file : String
  pub checked : String
  pub conclusion : String
  pub evidence : String
  pub region : String
  pub round : ℕ

-- `expired_at IS NULL`
abbrev pub is_live : CoverageRow → Bool
is_live r = not (is_some r.expired_at)

-- The WHERE of `live_coverage`
unfoldable pub is_carried : ℕ → Lane → CoverageRow → Bool
is_carried now lane r = same_lane r.lane lane && (is_live r && within_retention now r.created_at)

-- ORDER BY round DESC, created_at DESC, id DESC
unfoldable pub newest_first : CoverageRow → CoverageRow → Bool
newest_first a b =
    ltb b.round a.round
    || ((a.round == b.round)
        && (ltb b.created_at a.created_at || ((a.created_at == b.created_at) && leb b.id a.id)))

unfoldable pub prior_coverage : CoverageRow → PriorCoverage
prior_coverage r = record {
  file = r.file;
  checked = r.checked;
  conclusion = r.conclusion;
  evidence = r.evidence;
  region = r.region;
  round = r.round;
}

unfoldable pub read_coverage : ℕ → Lane → ℕ → List CoverageRow → List PriorCoverage
unfolding is_carried newest_first prior_coverage
read_coverage now lane limit rows = map prior_coverage (
    take (clamp_limit limit max_live_coverage)
      (sort newest_first (filterb (is_carried now lane) rows)))

unfoldable pub live_coverage : Env → Lane → ℕ → Action (List PriorCoverage)
unfolding read_coverage
live_coverage env lane limit =
    best_effort env [] (λ now. reads (λ db. read_coverage now lane limit db.coverage))

-- The `files` argument of `expire_coverage`: absent, one text by mistake, or a sequence of paths.
pub data Files : Type 0 where
  every_file : Files
  bare_text : String → Files
  paths : List String → Files

-- The WHERE of `expire_coverage`; the paths are clipped as the stored ones are.
unfoldable pub may_expire : Lane → Option (List String) → CoverageRow → Bool
unfolding clip
may_expire lane none r = same_lane r.lane lane && is_live r
may_expire lane (some files) r =
    same_lane r.lane lane && (is_live r && elem r.file (map clip files))

unfoldable pub set_expired : ℕ → CoverageRow → CoverageRow
set_expired now r = record r { expired_at = some now }

-- The UPDATE of `expire_coverage`, at one instant.
unfoldable pub expire_rows : Lane → Option (List String) → ℕ → Action ℕ
unfolding may_expire set_expired update_where
expire_rows lane files now db = (
  countb (may_expire lane files) db.coverage,
  record db { coverage = update_where (may_expire lane files) (set_expired now) db.coverage },
)

-- A bare text raises TypeError inside the guard, which is the neutral value again.
unfoldable pub expire_coverage : Env → Lane → Files → Action ℕ
expire_coverage env lane every_file = best_effort env 0 (expire_rows lane none)
expire_coverage env lane (bare_text s) = pure 0
expire_coverage env lane (paths []) = pure 0
expire_coverage env lane (paths (f ∷ fs)) = best_effort env 0 (expire_rows lane (some (f ∷ fs)))
