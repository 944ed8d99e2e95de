-- ===== src/Fleet/Models.antt =====
-- The entries of a configuration (sidecar/fukoconfig.py) and the unified list that
-- sidecar/pool.py makes of its sections. Counts and sizes are natural numbers.
use fuko_pr.Prelude.{ℕ, String, Bool, true, false, Option, none, List, [], ◌∷◌, map, filterb}

-- ModelConfig
pub record ModelConfig : Type 0 where
  pub provider : String
  pub name : String
  pub base_url : Option String
  pub max_context : Option ℕ
  pub max_model_tokens : Option ℕ
  pub auth : String
  pub extra_instructions : Option String
  pub coverage_ledger : Bool
  pub findings_ledger : Bool
  pub tool_timeout : Option ℕ
  pub max_turns : Option ℕ

-- CompareModel
pub record CompareModel : Type 0 where
  pub config : ModelConfig
  pub token_env : Option String

pub data Role : Type 0 where
  active backup trial : Role

-- ReviewModel
pub record ReviewModel : Type 0 where
  pub config : ModelConfig
  pub token_env : Option String
  pub role : Role
  pub backend : Option String
  pub promoted : Bool

-- The part of ReviewConfig that the fleet is read from.
pub record ReviewConfig : Type 0 where
  pub backend : String
  pub models : List ReviewModel
  pub model : ModelConfig
  pub providers : List ModelConfig
  pub compare : List CompareModel
  pub cooldown_seconds : ℕ
  pub tools : List String
  pub tool_timeout : ℕ
  pub job_budget_minutes : Option ℕ

abbrev pub is_active : Role → Bool
is_active active = true
is_active backup = false
is_active trial = false

abbrev pub is_backup : Role → Bool
is_backup active = false
is_backup backup = true
is_backup trial = false

abbrev pub is_trial : Role → Bool
is_trial active = false
is_trial backup = false
is_trial trial = true

-- `ReviewModel(**m.model_dump())`, with the defaults of the fields that `m` has not.
unfoldable pub of_compare : CompareModel → ReviewModel
of_compare m = record {
  config = m.config;
  token_env = m.token_env;
  role = active;
  backend = none;
  promoted = false;
}

unfoldable pub of_config : Role → ModelConfig → ReviewModel
of_config role m = record {
  config = m;
  token_env = none;
  role = role;
  backend = none;
  promoted = false;
}

-- `role="active" if index == 0 else "backup"`
unfoldable pub of_providers : List ModelConfig → List ReviewModel
unfolding of_config
of_providers [] = []
of_providers (m ∷ ms) = of_config active m ∷ map (of_config backup) ms

-- The deprecated sections, of which `compare` comes before `providers` and both before `model`.
unfoldable pub legacy_models : List CompareModel → List ModelConfig → ModelConfig → List ReviewModel
unfolding of_compare of_providers of_config
legacy_models (m ∷ ms) providers model = map of_compare (m ∷ ms)
legacy_models [] (p ∷ ps) model = of_providers (p ∷ ps)
legacy_models [] [] model = of_config active model ∷ []

unfoldable pub unified : List ReviewModel → List ReviewModel → List ReviewModel
unified [] legacy = legacy
unified (m ∷ ms) legacy = m ∷ ms

-- `resolve_models`
unfoldable pub resolve_models : ReviewConfig → List ReviewModel
unfolding unified legacy_models
resolve_models review =
    unified review.models (legacy_models review.compare review.providers review.model)

-- What `partition_roles` returns.
pub record Roles : Type 0 where
  pub actives : List ReviewModel
  pub backups : List ReviewModel
  pub trials : List ReviewModel

unfoldable pub partition_roles : List ReviewModel → Roles
partition_roles models = record {
  actives = filterb (λ (m : ReviewModel). is_active m.role) models;
  backups = filterb (λ (m : ReviewModel). is_backup m.role) models;
  trials = filterb (λ (m : ReviewModel). is_trial m.role) models;
}
