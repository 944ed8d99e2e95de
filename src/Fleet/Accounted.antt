-- ===== src/Fleet/Accounted.antt =====
-- What becomes of each backup in an escalation (sidecar/runner.py, `plan_escalation`).
use fuko_pr.Prelude.{
  String, ◌≡◌, refl, sym, ◌∙◌, ◌⊎◌, inl, inr, Bool, true, Option, none, some, List, [], ◌∷◌, ◌++◌,
}
use mathlib.Core.List.{append_assoc, append-nil}
use fuko_pr.Fleet.Models.{active, ReviewModel, ReviewConfig}
use fuko_pr.Fleet.Seats.{label}
use fuko_pr.Fleet.Escalation.{Refusal, promoted_entry, refusal, Plan, plan_step, plan_from}

module _ (getenv : String → String) (existing : List ReviewModel) (review : ReviewConfig)
    (concurrent : Bool) where
  -- The backups in order, each promoted, as an active and marked copy of it, or left out under its
  -- label for the reason that stands against it beside the entries promoted before it.
  abbrev pub Accounts :
      List ReviewModel → List ReviewModel → List ReviewModel → List (String × Refusal) → Type 0
  Accounts before [] promote reasons = (promote ≡ []) × (reasons ≡ [])
  Accounts before (entry ∷ backups) promote reasons =
      ((later : List ReviewModel) × (promote
          ≡ record entry { role = active; promoted = true } ∷ later)
        × (refusal getenv existing review concurrent before entry ≡ none)
        × Accounts (before ++ record entry { role = active; promoted = true } ∷ []) backups later
            reasons)
      ⊎ ((why : Refusal) × (later : List (String × Refusal)) × (reasons
            ≡ (label entry, why) ∷ later)
          × (refusal getenv existing review concurrent before entry ≡ some why)
          × Accounts before backups promote later)

  -- What `plan_from` adds to a plan.
  pub plan_from-Accounts :
      (plan : Plan) (backups : List ReviewModel)
      → let after = plan_from getenv existing review concurrent plan backups in
        (promote : List ReviewModel) × (reasons : List (String × Refusal)) × (after.promote
          ≡ plan.promote ++ promote)
        × (after.reasons ≡ plan.reasons ++ reasons)
        × Accounts plan.promote backups promote reasons
  unfolding plan_from promoted_entry
  plan_from-Accounts plan [] =
      ([], [], sym (append-nil plan.promote), sym (append-nil plan.reasons), (refl, refl))
  plan_from-Accounts plan (entry ∷ backups) =
      decided (refusal getenv existing review concurrent plan.promote entry) refl (
        plan_from-Accounts
          (plan_step plan entry (refusal getenv existing review concurrent plan.promote entry))
          backups)
    where
      decided :
          (why : Option Refusal)
          → refusal getenv existing review concurrent plan.promote entry ≡ why
          → (let after =
                plan_from getenv existing review concurrent (plan_step plan entry why) backups in
              (promote : List ReviewModel) × (reasons : List (String × Refusal)) × (after.promote
                ≡ (plan_step plan entry why).promote ++ promote)
              × (after.reasons ≡ (plan_step plan entry why).reasons ++ reasons)
              × Accounts (plan_step plan entry why).promote backups promote reasons)
          → let after =
              plan_from getenv existing review concurrent (plan_step plan entry why) backups in
            (promote : List ReviewModel) × (reasons : List (String × Refusal)) × (after.promote
              ≡ plan.promote ++ promote)
            × (after.reasons ≡ plan.reasons ++ reasons)
            × Accounts plan.promote (entry ∷ backups) promote reasons
      decided none e (promote, reasons, p, r, rest) = (
        promoted_entry entry ∷ promote,
        reasons,
        p ∙ append_assoc plan.promote (promoted_entry entry ∷ []) promote,
        r,
        inl (promote, refl, e, rest),
      )
      decided (some why) e (promote, reasons, p, r, rest) = (
        promote,
        (label entry, why) ∷ reasons,
        p,
        r ∙ append_assoc plan.reasons ((label entry, why) ∷ []) reasons,
        inr (why, reasons, refl, e, rest),
      )
