-- ===== src/Fleet/Examples.antt =====
-- The results of the fleet at a pool of three entries.
use fuko_pr.Prelude.{
  arith, elem, All, text_eq, ◌==◌, ℕ, String, ◌≡◌, refl, true, false, Option, none, some, List, [],
  ◌∷◌, ◌++◌, text_eq, nat_eq, ◌==◌, if◌then◌else◌, sort, starts_with, drop_text, length, nodup, map,
  suc, ◌⊎◌,
}
use fuko_pr.Fleet.Models.{Role, active, backup, trial, ModelConfig, ReviewModel, ReviewConfig}
use fuko_pr.Fleet.Pool.{fits, rank, order_pool}
use fuko_pr.Fleet.Tiers.{tiers, order_pool-tiers}
use fuko_pr.Fleet.Seats.{slot_of, branch_seats}
use fuko_pr.Fleet.OwnLanes.{branch_seats-nodup}
use fuko_pr.Fleet.OwnSlots.{branch_seats-slots}
use fuko_pr.Fleet.Failover.{Trip, InvokeResult, ledger_owner, attempt, throttled_out, ok, run_pool}
use fuko_pr.Fleet.FirstServed.{AllThrottle, trips_of, run_pool-served, run_pool-exhausted}
use fuko_pr.Fleet.Switches.{AgreeUnder, run_pool-agree}
use fuko_pr.Fleet.Breaker.{Call, cb_cooldowns, cb_trips}
use fuko_pr.Fleet.Cooling.{Lasts, cb_trips-cooled}
use fuko_pr.Fleet.Escalation.{plan_escalation}
use fuko_pr.Fleet.Accounted.{Accounts}
use fuko_pr.Fleet.Promotions.{MayJoin, plan_escalation-MayJoin}

abbrev a_config : String → Option ℕ → ModelConfig
a_config provider max_context = record {
  provider = provider;
  name = "m";
  base_url = none;
  max_context = max_context;
  max_model_tokens = none;
  auth = "auto";
  extra_instructions = none;
  coverage_ledger = false;
  findings_ledger = true;
  tool_timeout = none;
  max_turns = none;
}

abbrev a_model : String → Option ℕ → Option String → Role → ReviewModel
a_model provider max_context token_env role = record {
  config = a_config provider max_context;
  token_env = token_env;
  role = role;
  backend = none;
  promoted = false;
}

abbrev first : ReviewModel
first = a_model "one" none (some "FUKO_GITHUB_TOKEN_dorian") active

abbrev second : ReviewModel
second = a_model "two" (some 9000) (some "FUKO_GITHUB_TOKEN_basil") trial

abbrev third : ReviewModel
third = a_model "three" (some 100) none backup

abbrev a_pool : List ReviewModel
a_pool = first ∷ second ∷ third ∷ []

abbrev a_review : ReviewConfig
a_review = record {
  backend = "pr-agent";
  models = a_pool;
  model = a_config "one" none;
  providers = [];
  compare = [];
  cooldown_seconds = 300;
  tools = "review" ∷ [];
  tool_timeout = 900;
  job_budget_minutes = some 60;
}

abbrev busy_first : ℕ → ReviewModel → InvokeResult
busy_first n m = record {
  returncode = 0;
  detail = "";
  throttled = if n == 0 then true else false;
  provider = none;
}

abbrev always_busy : ℕ → ReviewModel → InvokeResult
always_busy n m = record { returncode = 1; detail = "429"; throttled = true; provider = none }

abbrev same_case : String → String
same_case s = s

a_order : order_pool a_pool [] (some 8000) ≡ (first ∷ []) ++ second ∷ third ∷ []
unfolding order_pool rank fits sort
a_order = refl

a_slots : map (slot_of same_case) (first ∷ second ∷ []) ≡ map some ("dorian" ∷ "basil" ∷ [])
unfolding slot_of starts_with drop_text
a_slots = refl

all_busy : AllThrottle always_busy (ledger_owner a_pool) 300 0 (order_pool a_pool [] none)
unfolding order_pool rank fits ledger_owner sort
all_busy = (refl, (refl, (refl, tt)))

order_pool-tiers_example :
    order_pool a_pool ("one" ∷ []) (some 8000) ≡ tiers ("one" ∷ []) (some 8000) a_pool
order_pool-tiers_example = order_pool-tiers ("one" ∷ []) (some 8000) a_pool

branch_seats-nodup_example :
    (length (branch_seats same_case (first ∷ first ∷ [])) ≡ 2)
    × (nodup (branch_seats same_case (first ∷ first ∷ [])) ≡ true)
branch_seats-nodup_example = branch_seats-nodup same_case (first ∷ first ∷ [])

branch_seats-slots_example : branch_seats same_case (first ∷ second ∷ []) ≡ "dorian" ∷ "basil" ∷ []
branch_seats-slots_example =
    branch_seats-slots same_case (first ∷ second ∷ []) ("dorian" ∷ "basil" ∷ []) a_slots refl

run_pool-served_example : run_pool busy_first 300 a_pool [] (some 8000) ≡ record {
  result = attempt busy_first (ledger_owner a_pool) 1 second;
  trips = trips_of busy_first (ledger_owner a_pool) 300 0 (first ∷ []);
  runs = record { model = second; attempts = 2; outcome = ok; detail = "" } ∷ [];
}
run_pool-served_example =
    run_pool-served busy_first 300 a_pool [] (some 8000) (first ∷ []) second (third ∷ []) a_order
      (refl, tt) refl

run_pool-exhausted_example :
    ((order_pool a_pool [] none ≡ [])
      × (run_pool always_busy 300 a_pool [] none ≡ record {
        result = record {
          returncode = 1;
          detail = "no providers configured";
          throttled = false;
          provider = none;
        };
        trips = [];
        runs = [];
      }))
    ⊎ ((before : List ReviewModel) × (m : ReviewModel) × (order_pool a_pool [] none
          ≡ before ++ m ∷ [])
        × (run_pool always_busy 300 a_pool [] none ≡ record {
          result = attempt always_busy (ledger_owner a_pool) (length before) m;
          trips = trips_of always_busy (ledger_owner a_pool) 300 0 (before ++ m ∷ []);
          runs =
              record {
                model = m;
                attempts = suc (length before);
                outcome = throttled_out;
                detail = (attempt always_busy (ledger_owner a_pool) (length before) m).detail;
              }
              ∷ [];
        }))
run_pool-exhausted_example = run_pool-exhausted always_busy 300 a_pool [] none all_busy

abbrev by_switch : ℕ → ReviewModel → InvokeResult
by_switch n m = record (always_busy n m) { throttled = m.config.coverage_ledger }

abbrev never_busy : ℕ → ReviewModel → InvokeResult
never_busy n m = record (always_busy n m) { throttled = false }

a_owner : ledger_owner a_pool ≡ some first
unfolding ledger_owner
a_owner = refl

switch_off : AgreeUnder first by_switch never_busy
switch_off n m h = rw h.coverage_ledger refl

run_pool-agree_example :
    run_pool by_switch 300 a_pool [] none ≡ run_pool never_busy 300 a_pool [] none
run_pool-agree_example =
    run_pool-agree by_switch never_busy first 300 a_pool [] none a_owner switch_off

plan_escalation-MayJoin_example :
    MayJoin same_case
      (first ∷ second ∷ [])
      a_review
      false
      (plan_escalation same_case (first ∷ second ∷ []) (third ∷ []) a_review false).promote
    × Accounts same_case
        (first ∷ second ∷ [])
        a_review
        false
        []
        (third ∷ [])
        (plan_escalation same_case (first ∷ second ∷ []) (third ∷ []) a_review false).promote
        (plan_escalation same_case (first ∷ second ∷ []) (third ∷ []) a_review false).reasons
plan_escalation-MayJoin_example =
    plan_escalation-MayJoin same_case (first ∷ second ∷ []) (third ∷ []) a_review false

abbrev a_trip : String → Call × Trip
a_trip provider = (
  record { enabled = true; served = true; now = 100; db_now = 100 },
  record { provider = provider; cooldown_seconds = 300; reason = "429" },
)

abbrev a_read : Call
a_read = record { enabled = true; served = true; now = 200; db_now = 200 }

lasting : (p : String) → Lasts a_read (a_trip p)
lasting p = (refl, ground arith)

cb_trips-cooled_example :
    All
      (λ (e : Call × Trip).
        elem e.1.provider
          (cb_cooldowns a_read (cb_trips (a_trip "one" ∷ a_trip "two" ∷ a_trip "one" ∷ []) []))
        ≡ true)
      (a_trip "one" ∷ a_trip "two" ∷ a_trip "one" ∷ [])
cb_trips-cooled_example =
    cb_trips-cooled a_read refl (a_trip "one" ∷ a_trip "two" ∷ a_trip "one" ∷ []) [] refl
      (lasting "one", (lasting "two", (lasting "one", tt)))
