-- ===== src/Fleet/FirstServed.antt =====
-- How a failover ends (sidecar/runner.py, `_run_pool`).
use fuko_pr.Prelude.{
  ℕ, suc, ◌+◌, String, ◌≡◌, refl, ap, ◌⊎◌, inl, inr, true, false, Option, none, some, List, [], ◌∷◌,
  ◌++◌, arith, length, length-append, ◌==◌, nat_eq, if◌then◌else◌,
}
use fuko_pr.Fleet.Models.{ReviewModel}
use fuko_pr.Fleet.Pool.{order_pool}
use fuko_pr.Fleet.Failover.{
  InvokeResult, Trip, ok, failed, throttled_out, ledger_owner, attempt, try_from, last_of,
  no_provider, served_run, exhausted_runs, recorded_runs, run_pool,
}

module _ (invoke : ℕ → ReviewModel → InvokeResult) (branch : Option ReviewModel)
    (cooldown : ℕ) where
  -- Every entry of a list throttles, tried from an attempt on.
  abbrev pub AllThrottle : ℕ → List ReviewModel → Type 0
  AllThrottle index [] = Unit
  AllThrottle index (m ∷ ms) =
      ((attempt invoke branch index m).throttled ≡ true) × AllThrottle (suc index) ms

  -- The breakers that their attempts trip.
  abbrev pub trips_of : ℕ → List ReviewModel → List Trip
  trips_of index [] = []
  trips_of index (m ∷ ms) =
      record {
        provider = m.config.provider;
        cooldown_seconds = cooldown;
        reason = (attempt invoke branch index m).detail;
      }
      ∷ trips_of (suc index) ms

  abbrev pub last_result : ℕ → InvokeResult → List ReviewModel → InvokeResult
  last_result index r [] = r
  last_result index r (m ∷ ms) = last_result (suc index) (attempt invoke branch index m) ms

  try_from-served :
      (index n : ℕ) (r : InvokeResult) (busy : List ReviewModel) (m : ReviewModel)
      (rest : List ReviewModel)
      → n ≡ index + length busy
      → AllThrottle index busy
      → (attempt invoke branch n m).throttled ≡ false
      → try_from invoke branch cooldown index r (busy ++ m ∷ rest) ≡ record {
        result = attempt invoke branch n m;
        served = some (m, suc n);
        trips = trips_of index busy;
      }
  unfolding try_from
  try_from-served index n r [] m rest here busy free =
      let e : index ≡ n = omega (arith, here) in rw (e, free) refl
  try_from-served index n r (b ∷ bs) m rest here busy free =
      rw
        (
          try_from-served (suc index) n (attempt invoke branch index b) bs m rest
              (omega (arith, here)) busy.1 free,
          busy.0,
        )
        refl

  try_from-exhausted :
      (index : ℕ) (r : InvokeResult) (busy : List ReviewModel)
      → AllThrottle index busy
      → try_from invoke branch cooldown index r busy
        ≡ record { result = last_result index r busy; served = none; trips = trips_of index busy }
  unfolding try_from
  try_from-exhausted index r [] busy = refl
  try_from-exhausted index r (b ∷ bs) busy =
      rw (try_from-exhausted (suc index) (attempt invoke branch index b) bs busy.1, busy.0) refl

-- When the entries before one throttle and that one does not, a failover returns its result, trips
-- the breakers of the entries before it and no other, and records one run: on that entry, with the
-- number of attempts made, as ok or failed by its return code. A failure that is no throttle ends
-- the failover.
pub run_pool-served :
    (invoke : ℕ → ReviewModel → InvokeResult) (cooldown : ℕ) (pool : List ReviewModel)
    (cooled : List String) (required : Option ℕ) (busy : List ReviewModel) (m : ReviewModel)
    (rest : List ReviewModel)
    → let branch = ledger_owner pool in
      let r = attempt invoke branch (length busy) m in
      order_pool pool cooled required ≡ busy ++ m ∷ rest
      → AllThrottle invoke branch cooldown 0 busy
      → r.throttled ≡ false
      → run_pool invoke cooldown pool cooled required ≡ record {
        result = r;
        trips = trips_of invoke branch cooldown 0 busy;
        runs =
            record {
              model = m;
              attempts = suc (length busy);
              outcome = if r.returncode == 0 then ok else failed;
              detail = r.detail;
            }
            ∷ [];
      }
unfolding run_pool recorded_runs served_run
run_pool-served invoke cooldown pool cooled required busy m rest order throttled free =
    rw
      (
        order,
        try_from-served invoke (ledger_owner pool) cooldown 0 (length busy) no_provider busy m rest
            (omega arith) throttled free,
      )
      refl

-- A list is empty or has a last entry.
last_split :
    (ms : List ReviewModel)
    → (ms ≡ []) ⊎ ((before : List ReviewModel) × (m : ReviewModel) × (ms ≡ before ++ m ∷ []))
last_split [] = inl refl
last_split (m ∷ ms) = elim (last_split ms) [
  | inl empty ↦ inr ([], m, ap (λ t. m ∷ t) empty)
  | inr (before, n, e) ↦ inr (m ∷ before, n, ap (λ t. m ∷ t) e)
]

last_of-snoc : (before : List ReviewModel) (m : ReviewModel) → last_of (before ++ m ∷ []) ≡ some m
last_of-snoc [] m = refl
last_of-snoc (b ∷ []) m = refl
last_of-snoc (b ∷ c ∷ bs) m = last_of-snoc (c ∷ bs) m

length-snoc :
    (before : List ReviewModel) (m : ReviewModel) → length (before ++ m ∷ []) ≡ suc (length before)
length-snoc before m = omega (arith, length-append before (m ∷ []))

last_result-snoc :
    (invoke : ℕ → ReviewModel → InvokeResult) (branch : Option ReviewModel) (cooldown index n : ℕ)
    (r : InvokeResult) (before : List ReviewModel) (m : ReviewModel)
    → n ≡ index + length before
    → last_result invoke branch cooldown index r (before ++ m ∷ []) ≡ attempt invoke branch n m
last_result-snoc invoke branch cooldown index n r [] m here =
    let e : index ≡ n = omega (arith, here) in ap (λ k. attempt invoke branch k m) e
last_result-snoc invoke branch cooldown index n r (b ∷ bs) m here =
    last_result-snoc invoke branch cooldown (suc index) n (attempt invoke branch index b) bs m
      (omega (arith, here))

-- What is left when every entry has throttled: the run of the last one, tried after all the others.
exhausted-snoc :
    (invoke : ℕ → ReviewModel → InvokeResult) (branch : Option ReviewModel) (cooldown : ℕ)
    (before : List ReviewModel) (m : ReviewModel)
    → let ms = before ++ m ∷ [] in
      exhausted_runs (last_result invoke branch cooldown 0 no_provider ms) (length ms) (last_of ms)
      ≡ record {
        model = m;
        attempts = suc (length before);
        outcome = throttled_out;
        detail = (attempt invoke branch (length before) m).detail;
      }
        ∷ []
unfolding exhausted_runs
exhausted-snoc invoke branch cooldown before m =
    rw
      (
        last_of-snoc before m,
        length-snoc before m,
        last_result-snoc invoke branch cooldown 0 (length before) no_provider before m
            (omega arith),
      )
      refl

-- When every entry of a pool throttles, a failover tries them all. It returns the result of the last
-- one, trips the breaker of every entry, and records one run: on the last entry, throttled out, with
-- as many attempts as there are entries and the detail of that result. An empty pool returns a result
-- with code 1, trips no breaker and records no run.
pub run_pool-exhausted :
    (invoke : ℕ → ReviewModel → InvokeResult) (cooldown : ℕ) (pool : List ReviewModel)
    (cooled : List String) (required : Option ℕ)
    → let branch = ledger_owner pool in
      let ordered = order_pool pool cooled required in
      AllThrottle invoke branch cooldown 0 ordered
      → ((ordered ≡ [])
          × (run_pool invoke cooldown pool cooled required ≡ record {
            result = record {
              returncode = 1;
              detail = "no providers configured";
              throttled = false;
              provider = none;
            };
            trips = [];
            runs = [];
          }))
        ⊎ ((before : List ReviewModel) × (m : ReviewModel) × (ordered ≡ before ++ m ∷ [])
            × (run_pool invoke cooldown pool cooled required ≡ record {
              result = attempt invoke branch (length before) m;
              trips = trips_of invoke branch cooldown 0 (before ++ m ∷ []);
              runs =
                  record {
                    model = m;
                    attempts = suc (length before);
                    outcome = throttled_out;
                    detail = (attempt invoke branch (length before) m).detail;
                  }
                  ∷ [];
            }))
unfolding run_pool recorded_runs exhausted_runs
run_pool-exhausted invoke cooldown pool cooled required throttled =
    let branch = ledger_owner pool in
    let ended =
      try_from-exhausted invoke branch cooldown 0 no_provider (order_pool pool cooled required)
        throttled in
    elim (last_split (order_pool pool cooled required)) [
      | inl empty ↦ inl (empty, rw (ended, empty, run_pool) refl)
      | inr (before, m, e) ↦ inr (
        before,
        m,
        e,
        rw
            (
              ended,
              run_pool,
              e,
              exhausted-snoc invoke branch cooldown before m,
              last_result-snoc invoke branch cooldown 0 (length before) no_provider before m
                  (omega arith),
            )
            refl,
      )
    ]
