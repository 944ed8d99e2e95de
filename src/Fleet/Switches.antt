-- ===== src/Fleet/Switches.antt =====
-- Whose ledger switches an attempt runs under (sidecar/runner.py, `_ledger_owner`,
-- `_with_branch_ledger`).
use fuko_pr.Prelude.{ℕ, suc, ◌≡◌, refl, ap, Option, some, String, List, [], ◌∷◌, if◌then◌else◌}
use fuko_pr.Fleet.Models.{ReviewModel}
use fuko_pr.Fleet.Pool.{order_pool}
use fuko_pr.Fleet.Failover.{
  InvokeResult, ledger_owner, with_branch_ledger, attempt, trip_of, try_from, run_pool,
}

-- An entry has the ledger switches of a branch.
pub record HasSwitches (branch m : ReviewModel) : Type 0 where
  pub findings_ledger : m.config.findings_ledger ≡ branch.config.findings_ledger
  pub coverage_ledger : m.config.coverage_ledger ≡ branch.config.coverage_ledger

-- Two backends do the same with every entry that has the switches of the branch.
abbrev pub AgreeUnder :
    ReviewModel → (ℕ → ReviewModel → InvokeResult) → (ℕ → ReviewModel → InvokeResult) → Type 0
AgreeUnder branch f g = (n : ℕ) (m : ReviewModel) → HasSwitches branch m → f n m ≡ g n m

with_branch_ledger-HasSwitches :
    (entry branch : ReviewModel) → HasSwitches branch (with_branch_ledger entry (some branch))
unfolding with_branch_ledger
with_branch_ledger-HasSwitches entry branch = record {
  findings_ledger = refl;
  coverage_ledger = refl;
}

module _ (f g : ℕ → ReviewModel → InvokeResult) (branch : ReviewModel)
    (agree : AgreeUnder branch f g) where
  attempt-agree :
      (n : ℕ) (m : ReviewModel) → attempt f (some branch) n m ≡ attempt g (some branch) n m
  attempt-agree n m =
      rw (agree n (with_branch_ledger m (some branch)) (with_branch_ledger-HasSwitches m branch))
        refl

  try_from-agree :
      (cooldown index : ℕ) (r : InvokeResult) (ms : List ReviewModel)
      → try_from f (some branch) cooldown index r ms ≡ try_from g (some branch) cooldown index r ms
  unfolding try_from
  try_from-agree cooldown index r [] = refl
  try_from-agree cooldown index r (m ∷ ms) =
      rw
        (agree index (with_branch_ledger m (some branch)) (with_branch_ledger-HasSwitches m branch))
        (ap
          (λ t.
            let s = attempt g (some branch) index m in
            if s.throttled
            then record t { trips = trip_of cooldown m s ∷ t.trips }
            else record { result = s; served = some (m, suc index); trips = [] })
          (try_from-agree cooldown (suc index) (attempt g (some branch) index m) ms))

-- A run of a pool with an owner depends on its backend only through entries that have the owner's
-- ledger switches: a backup that rescues a branch never runs under its own.
pub run_pool-agree :
    (f g : ℕ → ReviewModel → InvokeResult) (branch : ReviewModel) (cooldown : ℕ)
    (pool : List ReviewModel) (cooled : List String) (required : Option ℕ)
    → ledger_owner pool ≡ some branch
    → AgreeUnder branch f g
    → run_pool f cooldown pool cooled required ≡ run_pool g cooldown pool cooled required
unfolding run_pool
run_pool-agree f g branch cooldown pool cooled required owner agree =
    rw (owner, try_from-agree f g branch agree cooldown 0 _ (order_pool pool cooled required)) refl
