-- ===== src/Ledger/Accepted.antt =====
-- Which verdicts of a round count (sidecar/reviewer/prompt.py, `PriorState.accepted_status`).
use fuko_pr.Prelude.{
  ◌≡◌, refl, sym, Bool, true, false, not, ◌&&◌, ◌||◌, List, [], ◌∷◌, arith, is_some, map, get, elem,
  nodup, subst, All, All-map, ◌==◌, ==_iff, ==_refl, Bool-cases, inl, inr,
}
use fuko_pr.Ledger.Reads.{PriorFinding}
use fuko_pr.Ledger.Prior.{
  PriorId, prior_id_eq, Verdict, in_vocabulary, PriorState, accept_from, accepted_status,
}

-- A verdict in the vocabulary, on an id that the section minted.
abbrev pub is_recognised : List (PriorId × PriorFinding) → Verdict → Bool
is_recognised ids e = in_vocabulary e.status && is_some (get ids e.id)

abbrev pub ids_of : List Verdict → List PriorId
ids_of = map (λ (e : Verdict). e.id)

-- What acceptance promises: recognised verdicts only, one for each id, and one for every id that has
-- a recognised verdict.
pub record IsAccepted (ids : List (PriorId × PriorFinding)) (entries accepted : List Verdict)
    : Type 0 where
  pub recognised : All (λ e. is_recognised ids e ≡ true) accepted
  pub once : nodup (ids_of accepted) ≡ true
  pub settled :
      All (λ (e : Verdict). is_recognised ids e ≡ true → elem e.id (ids_of accepted) ≡ true) entries

module _ (ids : List (PriorId × PriorFinding)) where
  accept_from-recognised :
      (seen : List PriorId) (entries : List Verdict)
      → All (λ e. is_recognised ids e ≡ true) (accept_from ids seen entries)
  unfolding accept_from
  accept_from-recognised seen [] = tt
  accept_from-recognised seen (e ∷ es) =
      elim (Bool-cases
        (in_vocabulary e.status && (is_some (get ids e.id) && not (elem e.id seen)))) [
          | inl taken ↦ rw taken (ground (arith, taken), accept_from-recognised (e.id ∷ seen) es)
          | inr left ↦ rw left (accept_from-recognised seen es)
        ]

  accept_from-unseen :
      (i : PriorId) (seen : List PriorId) (entries : List Verdict)
      → elem i seen ≡ true
      → elem i (ids_of (accept_from ids seen entries)) ≡ false
  unfolding accept_from
  accept_from-unseen i seen [] h = refl
  accept_from-unseen i seen (e ∷ es) h =
      elim (Bool-cases
        (in_vocabulary e.status && (is_some (get ids e.id) && not (elem e.id seen)))) [
          | inl taken ↦
              let rest = accept_from-unseen i (e.id ∷ seen) es (ground (arith, h)) in
              rw (taken, rest)
                (elim (Bool-cases (e.id == i)) [
                  | inl same ↦
                      let k : elem e.id seen ≡ true =
                        subst (λ j. elem j seen ≡ true) (sym ((==_iff e.id i).0 same)) h in
                      absurd (ground (arith, k, taken))
                  | inr other ↦ rw other refl
                ])
          | inr left ↦ rw left (accept_from-unseen i seen es h)
        ]

  accept_from-once :
      (seen : List PriorId) (entries : List Verdict)
      → nodup (ids_of (accept_from ids seen entries)) ≡ true
  unfolding accept_from
  accept_from-once seen [] = refl
  accept_from-once seen (e ∷ es) =
      elim (Bool-cases
        (in_vocabulary e.status && (is_some (get ids e.id) && not (elem e.id seen)))) [
          | inl taken ↦
              rw (taken, accept_from-unseen e.id (e.id ∷ seen) es (rw (==_refl e.id) refl))
                (accept_from-once (e.id ∷ seen) es)
          | inr left ↦ rw left (accept_from-once seen es)
        ]

  -- The test of one verdict.
  abbrev counts : List PriorId → Verdict → Bool
  counts seen e = in_vocabulary e.status && (is_some (get ids e.id) && not (elem e.id seen))

  counted :
      (seen : List PriorId) (e : Verdict) (es : List Verdict)
      → counts seen e ≡ true
      → accept_from ids seen (e ∷ es) ≡ e ∷ accept_from ids (e.id ∷ seen) es
  unfolding accept_from
  counted seen e es h = rw h refl

  ignored :
      (seen : List PriorId) (e : Verdict) (es : List Verdict)
      → counts seen e ≡ false
      → accept_from ids seen (e ∷ es) ≡ accept_from ids seen es
  unfolding accept_from
  ignored seen e es h = rw h refl

  -- A recognised verdict is accepted itself, or its id was seen or is accepted.
  abbrev Settled : List PriorId → List Verdict → Verdict → Type 0
  Settled seen accepted e =
      is_recognised ids e ≡ true → (elem e.id seen || elem e.id (ids_of accepted)) ≡ true

  accept_from-Settled :
      (seen : List PriorId) (entries : List Verdict)
      → All (Settled seen (accept_from ids seen entries)) entries
  accept_from-Settled seen [] = tt
  accept_from-Settled seen (e ∷ es) = elim (Bool-cases (counts seen e)) [
    | inl taken ↦
        subst (λ a. All (Settled seen a) (e ∷ es)) (sym (counted seen e es taken))
          (
            λ r. rw (==_refl e.id) (ground arith),
            All-map _ (Settled seen (e ∷ accept_from ids (e.id ∷ seen) es))
                (λ f h r. ground (arith, h r)) es (accept_from-Settled (e.id ∷ seen) es),
          )
    | inr left ↦
        subst (λ a. All (Settled seen a) (e ∷ es)) (sym (ignored seen e es left))
          (λ r. ground (arith, r, left), accept_from-Settled seen es)
  ]

-- The accepted verdicts of a round are in the vocabulary and on ids of its section, at most one for
-- each id, and an id that has such a verdict has one accepted: ignored lines take nothing away.
pub accepted_status-IsAccepted :
    (state : PriorState) (entries : List Verdict)
    → IsAccepted state.ids entries (accepted_status state entries)
unfolding accepted_status
accepted_status-IsAccepted state entries = record {
  recognised = accept_from-recognised state.ids [] entries;
  once = accept_from-once state.ids [] entries;
  settled = accept_from-Settled state.ids [] entries;
}
