-- ===== src/Fleet/Failover.antt =====
-- sidecar/runner.py, `_run_pool`: one branch's attempts over its pool. What a backend does with an
-- entry is a parameter, `invoke`, of the number of the attempt and of the entry that it is handed.
use fuko_pr.Prelude.{
  ℕ, suc, String, Bool, false, Option, none, some, List, [], ◌∷◌, length, ◌==◌, nat_eq,
  if◌then◌else◌,
}
use fuko_pr.Fleet.Models.{Role, active, backup, trial, ReviewModel}
use fuko_pr.Fleet.Pool.{order_pool}
use fuko_pr.Fleet.Seats.{label}

-- The part of InvokeResult that the pool reads. A process code is a natural number here: it is
-- only compared with 0.
pub record InvokeResult : Type 0 where
  pub returncode : ℕ
  pub detail : String
  pub throttled : Bool
  pub provider : Option String

-- A call of `_cb_trip`
pub record Trip : Type 0 where
  pub provider : String
  pub cooldown_seconds : ℕ
  pub reason : String

pub data Outcome : Type 0 where
  ok failed throttled_out : Outcome

-- A call of `_record_run`
pub record Run : Type 0 where
  pub model : ReviewModel
  pub attempts : ℕ
  pub outcome : Outcome
  pub detail : String

-- `_ledger_owner`
abbrev pub owner_of : Role → ReviewModel → Option ReviewModel
owner_of active head = some head
owner_of trial head = some head
owner_of backup head = none

unfoldable pub ledger_owner : List ReviewModel → Option ReviewModel
ledger_owner [] = none
ledger_owner (head ∷ rest) = owner_of head.role head

-- `_with_branch_ledger`: the entry, with the ledger switches of the branch. Copying a switch that
-- is the same already changes nothing.
unfoldable pub with_branch_ledger : ReviewModel → Option ReviewModel → ReviewModel
with_branch_ledger entry none = entry
with_branch_ledger entry (some branch) = record entry {
  config = record entry.config {
    findings_ledger = branch.config.findings_ledger;
    coverage_ledger = branch.config.coverage_ledger;
  };
}

-- What the loop leaves: its last result, the entry that served with the number of its attempt, and
-- the breakers tripped on the way.
pub record Attempts : Type 0 where
  pub result : InvokeResult
  pub served : Option (ReviewModel × ℕ)
  pub trips : List Trip

abbrev pub trip_of : ℕ → ReviewModel → InvokeResult → Trip
trip_of cooldown m r = record {
  provider = m.config.provider;
  cooldown_seconds = cooldown;
  reason = r.detail;
}

-- `result = replace(backend.invoke(...), provider=label, ...)`
abbrev pub attempt :
    (ℕ → ReviewModel → InvokeResult) → Option ReviewModel → ℕ → ReviewModel → InvokeResult
attempt invoke branch index m = record (invoke index (with_branch_ledger m branch)) {
  provider = some (label m);
}

unfoldable pub try_from :
    (ℕ → ReviewModel → InvokeResult)
    → Option ReviewModel
    → ℕ
    → ℕ
    → InvokeResult
    → List ReviewModel
    → Attempts
unfolding with_branch_ledger
try_from invoke branch cooldown index result [] = record {
  result = result;
  served = none;
  trips = [];
}
try_from invoke branch cooldown index result (m ∷ ms) =
    let r = attempt invoke branch index m in
    let rest = try_from invoke branch cooldown (suc index) r ms in
    if r.throttled
    then record rest { trips = trip_of cooldown m r ∷ rest.trips }
    else record { result = r; served = some (m, suc index); trips = [] }

abbrev pub last_of : List ReviewModel → Option ReviewModel
last_of [] = none
last_of (m ∷ []) = some m
last_of (m ∷ n ∷ ms) = last_of (n ∷ ms)

-- What a call of `_run_pool` returns and does.
pub record PoolRun : Type 0 where
  pub result : InvokeResult
  pub trips : List Trip
  pub runs : List Run

abbrev pub no_provider : InvokeResult
no_provider = record {
  returncode = 1;
  detail = "no providers configured";
  throttled = false;
  provider = none;
}

unfoldable pub served_run : InvokeResult → ReviewModel × ℕ → Run
served_run r (m, attempts) = record {
  model = m;
  attempts = attempts;
  outcome = if r.returncode == 0 then ok else failed;
  detail = r.detail;
}

-- Everything throttled: one run on the last entry, if there is one.
unfoldable pub exhausted_runs : InvokeResult → ℕ → Option ReviewModel → List Run
exhausted_runs r attempts none = []
exhausted_runs r attempts (some m) =
    record { model = m; attempts = attempts; outcome = throttled_out; detail = r.detail } ∷ []

unfoldable pub recorded_runs : List ReviewModel → InvokeResult → Option (ReviewModel × ℕ) → List Run
unfolding served_run exhausted_runs
recorded_runs ordered r (some served) = served_run r served ∷ []
recorded_runs ordered r none = exhausted_runs r (length ordered) (last_of ordered)

-- `_run_pool`
unfoldable pub run_pool :
    (ℕ → ReviewModel → InvokeResult) → ℕ → List ReviewModel → List String → Option ℕ → PoolRun
unfolding try_from recorded_runs ledger_owner
run_pool invoke cooldown pool cooled required =
    let ordered = order_pool pool cooled required in
    let a = try_from invoke (ledger_owner pool) cooldown 0 no_provider ordered in
    record { result = a.result; trips = a.trips; runs = recorded_runs ordered a.result a.served }
