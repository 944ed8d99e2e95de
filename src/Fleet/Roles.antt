-- ===== src/Fleet/Roles.antt =====
-- `resolve_models` and `partition_roles` of sidecar/pool.py lose no entry.
use fuko_pr.Prelude.{
  ◌+◌, ◌≡◌, refl, Bool, List, [], ◌∷◌, arith, countb, filterb, ◌&&◌, if◌then◌else◌,
}
use fuko_pr.Fleet.Models.{
  Role, active, backup, trial, is_active, is_backup, is_trial, ReviewModel, partition_roles,
}

countb-filterb :
    (p q : ReviewModel → Bool) (ms : List ReviewModel)
    → countb p (filterb q ms) ≡ countb (λ m. q m && p m) ms
countb-filterb p q [] = refl
countb-filterb p q (m ∷ ms) = ground (arith, countb-filterb p q ms)

one_role :
    (r : Role) (b : Bool)
    → ((if is_active r && b then 1 else 0) + (if is_backup r && b then 1 else 0))
        + (if is_trial r && b then 1 else 0)
      ≡ (if b then 1 else 0)
one_role active b = ground arith
one_role backup b = ground arith
one_role trial b = ground arith

role_counts :
    (p : ReviewModel → Bool) (ms : List ReviewModel)
    → (countb (λ m. is_active m.role && p m) ms + countb (λ m. is_backup m.role && p m) ms)
        + countb (λ m. is_trial m.role && p m) ms
      ≡ countb p ms
role_counts p [] = omega arith
role_counts p (m ∷ ms) = omega (arith, one_role m.role (p m), role_counts p ms)

-- Every entry is in exactly one of the three parts, as often as in the whole list: whatever is
-- counted, the counts of the actives, the backups and the trials add up.
pub partition_roles-counts :
    (p : ReviewModel → Bool) (models : List ReviewModel)
    → let roles = partition_roles models in
      (countb p roles.actives + countb p roles.backups) + countb p roles.trials ≡ countb p models
unfolding partition_roles
partition_roles-counts p models = omega (
  arith,
  countb-filterb p (λ m. is_active m.role) models,
  countb-filterb p (λ m. is_backup m.role) models,
  countb-filterb p (λ m. is_trial m.role) models,
  role_counts p models,
)
